-- ===== src/Primary/Core/Justified/Found.antt =====
-- What the synchronizer has found when it answers a header of the core.
use mathlib.Core.Option.{some-injective, none-ne-some}
use narwhal_td.Base.{
  subst, ◌≡◌, refl, ap, ◌∙◌, Bool, true, false, Option, none, some, List, [], ◌∷◌, All, arith, ◌==◌,
  Bool-cases, Option-cases, inl, inr, if◌then◌else◌, is_empty,
}
use narwhal_td.Base.Map.{Map}
use narwhal_td.Base.Results.{ok, >>=-eq-ok, map_err, ok-same, ok-injective}
use narwhal_td.Crypto.{PublicKey, Digest, to_vec}
use narwhal_td.Config.{WorkerId}
use narwhal_td.Store.{Puts, Key, Value, key_eq}
use narwhal_td.Store.Spec.{last_written, IsReliable}
use narwhal_td.Primary.Error.{DagResult, store_error}
use narwhal_td.Primary.Header.{Header}
use narwhal_td.Primary.Certificate.{Certificate}
use narwhal_td.Primary.Platform.{Platform, WaiterMessage, sync_batches, sync_parents}
use narwhal_td.Primary.Synchronizer.{
  read, find_genesis, payload_key, missing_batch, missing_batches, missing_payload, deserialize,
  find_parent, sort_parent, find_parents, get_parents,
}
use narwhal_td.Primary.Core.Sent.{Known}
use narwhal_td.Primary.Core.Justified.{IsParentFor, AreParentsFor, IsBatchAtHand}
use narwhal_td.Primary.Core.Delivery.{WasPut}

last_written-WasPut : (k : Key) (v : Value) (db : Puts) → last_written k db ≡ some v → WasPut k v db
unfolding last_written
last_written-WasPut k v [] e = cc
last_written-WasPut k v ((j, w) ∷ db) e = elim (Bool-cases (key_eq j k)) [
  | inl same ↦ inl (same, ground (arith, same, e))
  | inr other ↦ inr (last_written-WasPut k v db (rw other at e))
]

held_batch :
    (d : Digest) (w : WorkerId) (o : Option Value) (m : Map WorkerId)
    → missing_batch d w o m ≡ []
    → (v : Value) × (o ≡ some v) × (m ≡ [])
unfolding missing_batch
held_batch d w none m e = cc
held_batch d w (some v) m e = (v, refl, e)

nothing_missing :
    (h : Header) (m : Map WorkerId) (command : Option WaiterMessage)
    → ◌≡◌ {A = DagResult (Bool × Option WaiterMessage)}
        (if is_empty m then ok (false, none) else ok (true, some (sync_batches m h)))
        (ok (false, command))
    → m ≡ []
nothing_missing h [] command e = refl
nothing_missing h (x ∷ m) command e =
    let no_ : true ≡ false = ap (λ x. x.0) (ok-injective _ _ e) in cc

-- All the parents were found.
sorted_parent :
    (d : Digest) (o : Option Certificate) (rest : List Digest × List Certificate)
    (cs : List Certificate)
    → sort_parent d o rest ≡ ([], cs)
    → (c : Certificate) × (o ≡ some c) × (rest.0 ≡ []) × (c ∷ rest.1 ≡ cs)
sorted_parent d none (missing, parents) cs e = let no_ : d ∷ missing ≡ [] = ap (λ x. x.0) e in cc
sorted_parent d (some c) (missing, parents) cs e = (c, refl, ap (λ x. x.0) e, ap (λ x. x.1) e)

parents_or_none :
    (h : Header) (m : List Digest) (ps cs : List Certificate) (command : Option WaiterMessage)
    → ◌≡◌ {A = DagResult (List Certificate × Option WaiterMessage)}
        (if is_empty m then ok (ps, none) else ok ([], some (sync_parents m h)))
        (ok (cs, command))
    → is_empty cs ≡ false
    → (m ≡ []) × (ps ≡ cs)
parents_or_none h [] ps cs command e some_ = (refl, ap (λ x. x.0) (ok-injective _ _ e))
parents_or_none h (d ∷ m) ps cs command e some_ =
    let none_ : [] ≡ cs = ap (λ x. x.0) (ok-injective _ _ e) in
    let no_ : true ≡ false = ap is_empty none_ ∙ some_ in cc

module _ (p : Platform) (reliable : IsReliable p.rocksdb) where
  read-last_written :
      (db : Puts) (k : Key) (o : Option Value) → read p db k ≡ ok o → last_written k db ≡ o
  unfolding read
  read-last_written db k o e =
      ok-same _ _ (read p db k) (ap (map_err (λ _. store_error)) (reliable db k)) e

  deserialized :
      (v : Value) (c : Certificate) → deserialize p v ≡ ok c → p.deserialize_certificate v ≡ some c
  unfolding deserialize
  deserialized v c e = ground arith

  find_parent-found :
      (known : Known) (db : Puts) (d : Digest) (c : Certificate)
      → find_parent p db d (find_genesis d known) ≡ ok (some c)
      → IsParentFor p known db d c
  unfolding find_parent
  find_parent-found known db d c e = elim (Option-cases (find_genesis d known)) [
    | inr (x, found) ↦ inl (ground (arith, found, e))
    | inl unknown ↦
        let (o, got, rest) = >>=-eq-ok (read p db (to_vec d)) _ (rw unknown at e) in
        elim (Option-cases o) [
          | inl missing ↦ absurd (none-ne-some c (ok-injective _ _ (rw missing at rest)))
          | inr (v, held) ↦
              let (x, read_, same) = >>=-eq-ok (deserialize p v) _ (rw held at rest) in
              inr (
                v,
                deserialized v c (read_ ∙ ap ok (some-injective _ _ (ok-injective _ _ same))),
                last_written-WasPut (to_vec d) v db (read-last_written db (to_vec d) o got ∙ held),
              )
        ]
  ]

  missing_batches-none :
      (db : Puts) (payload : Map WorkerId)
      → missing_batches p db payload ≡ ok []
      → All (IsBatchAtHand db) payload
  unfolding missing_batches
  missing_batches-none db [] e = tt
  missing_batches-none db ((d, w) ∷ payload) e =
      let (o, got, then_) = >>=-eq-ok (read p db (payload_key d w)) _ e in
      let (missing, rest, result) = >>=-eq-ok (missing_batches p db payload) _ then_ in
      let (v, held, empty) = held_batch d w o missing (ok-injective _ _ result) in
      (
        (v, read-last_written db (payload_key d w) o got ∙ held),
        missing_batches-none db payload (rest ∙ ap ok empty),
      )

  pub missing_payload-none :
      (name : PublicKey) (db : Puts) (h : Header) (command : Option WaiterMessage)
      → missing_payload p name db h ≡ ok (false, command)
      → (h.author == name) ≡ false
      → All (IsBatchAtHand db) h.payload
  unfolding missing_payload
  missing_payload-none name db h command e other =
      let (missing, found, result) = >>=-eq-ok (missing_batches p db h.payload) _ (rw other at e) in
      missing_batches-none db h.payload (found ∙ ap ok (nothing_missing h missing command result))

  find_parents-found :
      (known : Known) (db : Puts) (ds : List Digest) (cs : List Certificate)
      → find_parents p known db ds ≡ ok ([], cs)
      → AreParentsFor p known db ds cs
  unfolding find_parents
  find_parents-found known db [] [] e = tt
  find_parents-found known db [] (c ∷ cs) e = let no_ = ap (λ x. x.1) (ok-injective _ _ e) in cc
  find_parents-found known db (d ∷ ds) cs e =
      let (o, got, then_) = >>=-eq-ok (find_parent p db d (find_genesis d known)) _ e in
      let (rest, found, result) = >>=-eq-ok (find_parents p known db ds) _ then_ in
      let (c, held, empty, same) = sorted_parent d o rest cs (ok-injective _ _ result) in
      let others = find_parents-found known db ds rest.1 (found ∙ ap (λ m. ok (m, rest.1)) empty) in
      subst (AreParentsFor p known db (d ∷ ds)) same
        (find_parent-found known db d c (got ∙ ap ok held), others)

  pub get_parents-found :
      (known : Known) (db : Puts) (h : Header) (cs : List Certificate)
      (command : Option WaiterMessage)
      → get_parents p known db h ≡ ok (cs, command)
      → is_empty cs ≡ false
      → AreParentsFor p known db h.parents cs
  unfolding get_parents
  get_parents-found known db h cs command e some_ =
      let ((missing, parents), found, result) = >>=-eq-ok (find_parents p known db h.parents) _ e in
      let (empty, same) = parents_or_none h missing parents cs command result some_ in
      find_parents-found known db h.parents cs
        (found ∙ ap ok (ap (λ m. (m, parents)) empty ∙ ap (λ ps. ([], ps)) same))
