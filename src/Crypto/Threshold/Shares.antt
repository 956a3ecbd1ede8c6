-- ===== src/Crypto/Threshold/Shares.antt =====
-- The shares that a meeting has recorded, and what they decrypt.
use mathlib.Core.Option.{some-injective, none-ne-some}
use narwhal_td.Base.{
  ℕ, zero, suc, ◌+◌, ◌≡◌, refl, sym, ap, ◌∙◌, subst, Bool, true, false, Option, none, some, List,
  [], ◌∷◌, All, arith, ◌==◌, if◌then◌else◌, Bool-cases, inl, inr,
}
use narwhal_td.Base.Map
use narwhal_td.Base.Map.{Map, lookup-insert, insert-Distinct}
use narwhal_td.Base.Set.{Distinct}
use narwhal_td.Base.Options.{>>=-eq-some}
use narwhal_td.Crypto.Threshold.{
  Scheme, Actor, DecryptionMeeting, new_actors, get_actor, send_msg, is_other, or_first, checked,
  contribute, attend, accept_decryption_share, Call, send, arrive, Session, step, run,
}

-- The share verifies for the member and the ciphertext of the meeting.
abbrev pub IsValid :
    (t : Scheme) → t.PublicKeySet → DecryptionMeeting t → ℕ → t.DecryptionShare → Type 0
IsValid t pk m id share =
    (c : t.Ciphertext) × (m.ciphertext ≡ some c)
    × (t.verify_decryption_share (t.public_key_share pk id) share c ≡ true)

-- Each recorded share is of the ciphertext of the meeting and verifies for the member who gave it.
pub record IsSound (t : Scheme) (pk : t.PublicKeySet) (m : DecryptionMeeting t) : Type 0 where
  pub keys : m.pk_set ≡ pk
  pub single : Distinct (Map.keys m.dec_shares)
  pub valid :
      (id : ℕ) (share : t.DecryptionShare)
      → Map.lookup id m.dec_shares ≡ some share
      → IsValid t pk m id share

-- The actors have the public shares of their numbers.
abbrev pub AreMembers : (t : Scheme) → t.PublicKeySet → List (Actor t) → Type 0
AreMembers t pk actors = All (λ (a : Actor t). a.pk_share ≡ t.public_key_share pk a.id) actors

-- Ciphertexts that compare as the same are equal.
abbrev pub IsSame : Scheme → Type 0
IsSame t = (c d : t.Ciphertext) → t.same_ciphertext c d ≡ true → c ≡ d

checked-some : {A : Type 0} (b : Bool) (a x : A) → checked b a ≡ some x → (b ≡ true) × (a ≡ x)
checked-some true a x e = (refl, some-injective _ _ e)
checked-some false a x e = absurd (none-ne-some _ e)

module _ (t : Scheme) (pk : t.PublicKeySet) where
  insert-IsValid :
      (a : Actor t) (c : t.Ciphertext) (m : DecryptionMeeting t) (share : t.DecryptionShare)
      → a.pk_share ≡ t.public_key_share pk a.id
      → m.ciphertext ≡ some c
      → t.verify_decryption_share a.pk_share share c ≡ true
      → ((id : ℕ) (other : t.DecryptionShare)
          → Map.lookup id m.dec_shares ≡ some other
          → IsValid t pk m id other)
      → (id : ℕ) (other : t.DecryptionShare)
      → (if a.id == id then some share else Map.lookup id m.dec_shares) ≡ some other
      → IsValid t pk m id other
  insert-IsValid a c m share own at_meeting verified valid id other found =
      elim (Bool-cases (a.id == id)) [
        | inl mine ↦
            let here : a.id ≡ id = ground (arith, mine) in
            let same = some-injective _ _ (rw mine at found) in
            let checked_share =
              subst (λ k. t.verify_decryption_share k share c ≡ true)
                (own ∙ ap (t.public_key_share pk) here) verified in
            (
              c,
              at_meeting,
              subst (λ x. t.verify_decryption_share (t.public_key_share pk id) x c ≡ true) same
                  checked_share,
            )
        | inr others ↦ valid id other (rw others at found)
      ]

  contribute-IsSound :
      (a : Actor t) (c : t.Ciphertext) (m m' : DecryptionMeeting t)
      → a.pk_share ≡ t.public_key_share pk a.id
      → m.ciphertext ≡ some c
      → IsSound t pk m
      → contribute t a c m ≡ some m'
      → IsSound t pk m'
  unfolding contribute
  contribute-IsSound a c m m' own at_meeting h e =
      let (share, given, rest) = >>=-eq-some (t.decrypt_share a.sk_share c) _ e in
      let (verified, result) = checked-some _ _ _ rest in
      subst (IsSound t pk) result (record {
        keys = h.keys;
        single = insert-Distinct a.id share m.dec_shares h.single;
        valid = λ id other found.
            insert-IsValid a c m share own at_meeting verified h.valid id other
              (sym (lookup-insert a.id id share m.dec_shares) ∙ found);
      })

  first-IsSound :
      (c : t.Ciphertext) (m : DecryptionMeeting t)
      → IsSound t pk m
      → IsSound t pk (record m { ciphertext = or_first t c m.ciphertext })
  first-IsSound c m h = record {
    keys = h.keys;
    single = h.single;
    valid = λ id share found.
        let (d, at_meeting, verified) = h.valid id share found in
        (d, ap (or_first t c) at_meeting, verified);
  }

  first-same :
      (c : t.Ciphertext) (o : Option t.Ciphertext)
      → IsSame t
      → is_other t c o ≡ false
      → or_first t c o ≡ some c
  first-same c none same here = refl
  first-same c (some d) same here =
      let e : t.same_ciphertext c d ≡ true = ground (arith, here) in ap some (sym (same c d e))

  attend-IsSound :
      (a : Actor t) (c : t.Ciphertext) (m m' : DecryptionMeeting t)
      → IsSame t
      → a.pk_share ≡ t.public_key_share pk a.id
      → IsSound t pk m
      → attend t a c m ≡ some m'
      → IsSound t pk m'
  unfolding attend
  attend-IsSound a c m m' same own h e = elim (Bool-cases (is_other t c m.ciphertext)) [
    | inl other ↦ subst (IsSound t pk) (some-injective _ _ (rw other at e)) h
    | inr here ↦
        contribute-IsSound a c (record m { ciphertext = or_first t c m.ciphertext }) m' own
          (first-same c m.ciphertext same here) (first-IsSound c m h) (rw here at e)
  ]

  accept-IsSound :
      (m m' : DecryptionMeeting t) (a a' : Actor t)
      → IsSame t
      → a.pk_share ≡ t.public_key_share pk a.id
      → IsSound t pk m
      → accept_decryption_share t m a ≡ some (m', a')
      → IsSound t pk m' × (a'.pk_share ≡ t.public_key_share pk a'.id)
  unfolding accept_decryption_share
  accept-IsSound m m' a a' same own h e =
      let (c, mail, rest) = >>=-eq-some a.msg_inbox _ e in
      let (changed, done, result) = >>=-eq-some (attend t a c m) _ rest in
      let both = some-injective _ _ result in
      (
        subst (IsSound t pk) (ap (λ x. x.0) both) (attend-IsSound a c m changed same own h done),
        subst (λ (x : Actor t). x.pk_share ≡ t.public_key_share pk x.id) (ap (λ x. x.1) both) own,
      )

  -- One actor is changed.
  get_actor-AreMembers :
      {A : Type 0} (f : Actor t → Option (A × Actor t)) (P : A → Type 0)
      → ((a b : Actor t) (x : A)
          → a.pk_share ≡ t.public_key_share pk a.id
          → f a ≡ some (x, b)
          → P x × (b.pk_share ≡ t.public_key_share pk b.id))
      → (id : ℕ) (actors changed : List (Actor t)) (x : A) → AreMembers t pk actors
      → get_actor t f id actors ≡ some (x, changed)
      → P x × AreMembers t pk changed
  unfolding get_actor
  get_actor-AreMembers f P good id [] changed x h e = absurd (none-ne-some _ e)
  get_actor-AreMembers f P good zero (a ∷ actors) changed x h e =
      let ((y, b), got, result) = >>=-eq-some (f a) _ e in
      let both = some-injective _ _ result in
      let (p, own) = good a b y h.0 got in
      (subst P (ap (λ z. z.0) both) p, subst (AreMembers t pk) (ap (λ z. z.1) both) (own, h.1))
  get_actor-AreMembers f P good (suc id) (a ∷ actors) changed x h e =
      let ((y, rest), got, result) = >>=-eq-some (get_actor t f id actors) _ e in
      let both = some-injective _ _ result in
      let (p, own) = get_actor-AreMembers f P good id actors rest y h.1 got in
      (subst P (ap (λ z. z.0) both) p, subst (AreMembers t pk) (ap (λ z. z.1) both) (h.0, own))

  abbrev pub IsProper : Session t → Type 0
  IsProper s = AreMembers t pk s.0 × IsSound t pk s.1

  step-IsProper :
      (call : Call t) (s s' : Session t)
      → IsSame t
      → IsProper s
      → step t call s ≡ some s'
      → IsProper s'
  unfolding step
  step-IsProper (send id c) (actors, m) s' same (h, k) e =
      let ((u, changed), got, result) =
        >>=-eq-some (get_actor t (λ a. some (tt, send_msg t c a)) id actors) _ e in
      let (p, kept) =
        get_actor-AreMembers (λ a. some (tt, send_msg t c a)) (λ x. Unit)
          (λ a b x own f. (
            tt,
            subst (λ (y : Actor t). y.pk_share ≡ t.public_key_share pk y.id)
                (ap (λ z. z.1) (some-injective _ _ f)) own,
          ))
          id actors changed u h got in
      subst IsProper (some-injective _ _ result) (kept, k)
  step-IsProper (arrive id) (actors, m) s' same (h, k) e =
      let ((m', changed), got, result) =
        >>=-eq-some (get_actor t (accept_decryption_share t m) id actors) _ e in
      let (p, kept) =
        get_actor-AreMembers (accept_decryption_share t m) (IsSound t pk)
          (λ a b x own f. accept-IsSound m x a b same own k f) id actors changed m' h got in
      subst IsProper (some-injective _ _ result) (kept, p)

  pub run-IsProper :
      (calls : List (Call t)) (s s' : Session t)
      → IsSame t
      → IsProper s
      → run t calls s ≡ some s'
      → IsProper s'
  unfolding run
  run-IsProper [] s s' same h e = subst IsProper (some-injective _ _ e) h
  run-IsProper (call ∷ calls) s s' same h e =
      let (next, stepped, rest) = >>=-eq-some (step t call s) _ e in
      run-IsProper calls next s' same (step-IsProper call s next same h stepped) rest

  pub new_actors-AreMembers :
      (sk : t.SecretKeySet) (id n : ℕ) → AreMembers t pk (new_actors t sk pk id n)
  unfolding new_actors
  new_actors-AreMembers sk id zero = tt
  new_actors-AreMembers sk id (suc n) = (refl, new_actors-AreMembers sk (id + 1) n)
