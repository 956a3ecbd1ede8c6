-- ===== src/Store/Obligations.antt =====
-- The map of obligations: the senders that wait for a key.
use narwhal_td.Base.{
  ◌≡◌, refl, ap, subst, ◌∙◌, Bool, true, false, ◌||◌, [], ◌∷◌, ◌++◌, arith, if◌then◌else◌,
  Bool-cases, inl, inr,
}
use narwhal_td.Store.{Key, Sender, ObligationMap, key_eq, waiting, push_back, remove}

pub key_eq_refl : (k : Key) → key_eq k k ≡ true
unfolding key_eq
key_eq_refl [] = refl
key_eq_refl (x ∷ k) = ground (arith, key_eq_refl k)

pub key_eq_sound : (j k : Key) → key_eq j k ≡ true → j ≡ k
unfolding key_eq
key_eq_sound [] [] h = refl
key_eq_sound [] (y ∷ k) h = cc
key_eq_sound (x ∷ j) [] h = cc
key_eq_sound (x ∷ j) (y ∷ k) h = ground (arith, key_eq_sound j k)

key_eq_sym : (j k : Key) → key_eq j k ≡ key_eq k j
unfolding key_eq
key_eq_sym [] [] = refl
key_eq_sym [] (y ∷ k) = refl
key_eq_sym (x ∷ j) [] = refl
key_eq_sym (x ∷ j) (y ∷ k) = ground (arith, key_eq_sym j k)

pub key_eq-false : (i j k : Key) → key_eq i j ≡ false → key_eq i k ≡ true → key_eq j k ≡ false
key_eq-false i j k h e =
    key_eq_sym j k ∙ subst (λ (l : Key). key_eq l j ≡ false) (key_eq_sound i k e) h

pub key_eq-same : (i j k : Key) → key_eq i j ≡ true → key_eq i k ≡ key_eq j k
key_eq-same i j k h = ap (λ (l : Key). key_eq l k) (key_eq_sound i j h)

-- Whether a key has an entry.
abbrev pub has : Key → ObligationMap → Bool
has k [] = false
has k ((j, senders) ∷ o) = key_eq j k || has k o

-- No key has two entries.
abbrev pub IsSingle : ObligationMap → Type 0
IsSingle [] = Unit {0}
IsSingle ((j, senders) ∷ o) = (has j o ≡ false) × IsSingle o

waiting-absent : (k : Key) (o : ObligationMap) → has k o ≡ false → waiting k o ≡ []
unfolding waiting
waiting-absent k [] h = refl
waiting-absent k ((j, senders) ∷ o) h = ground (arith, waiting-absent k o)

waiting-gone :
    (k j : Key) (o : ObligationMap)
    → has j o ≡ false
    → waiting k o ≡ (if key_eq j k then [] else waiting k o)
waiting-gone k j o h = elim (Bool-cases (key_eq j k)) [
  | inl same ↦
      rw same (waiting-absent k o (subst (λ (l : Key). has l o ≡ false) (key_eq_sound j k same) h))
  | inr other ↦ rw other refl
]

pub waiting-push_back :
    (k j : Key) (s : Sender) (o : ObligationMap)
    → waiting k (push_back j s o) ≡ (if key_eq j k then waiting k o ++ s ∷ [] else waiting k o)
unfolding waiting push_back
waiting-push_back k j s [] = ground arith
waiting-push_back k j s ((i, senders) ∷ o) = elim (Bool-cases (key_eq i j)) [
  | inl same ↦ rw (key_eq_sound i j same, key_eq_refl j) (ground arith)
  | inr other ↦ rw other (elim (Bool-cases (key_eq i k)) [
    | inl here ↦ rw (here, key_eq-false i j k other here) refl
    | inr there ↦ rw there (waiting-push_back k j s o)
  ])
]

has-push_back :
    (k j : Key) (s : Sender) (o : ObligationMap) → has k (push_back j s o) ≡ (key_eq j k || has k o)
unfolding push_back
has-push_back k j s [] = ground arith
has-push_back k j s ((i, senders) ∷ o) = elim (Bool-cases (key_eq i j)) [
  | inl same ↦ rw (key_eq_sound i j same, key_eq_refl j) (ground arith)
  | inr other ↦ rw other (ground (arith, has-push_back k j s o))
]

pub push_back-IsSingle :
    (j : Key) (s : Sender) (o : ObligationMap) → IsSingle o → IsSingle (push_back j s o)
unfolding push_back
push_back-IsSingle j s [] h = (refl, tt)
push_back-IsSingle j s ((i, senders) ∷ o) h =
    ground (arith, push_back-IsSingle j s o h.1, has-push_back i j s o, key_eq_sym i j)

has-remove : (k j : Key) (o : ObligationMap) → has k o ≡ false → has k (remove j o) ≡ false
unfolding remove
has-remove k j [] h = refl
has-remove k j ((i, senders) ∷ o) h = ground (arith, has-remove k j o)

pub remove-IsSingle : (j : Key) (o : ObligationMap) → IsSingle o → IsSingle (remove j o)
unfolding remove
remove-IsSingle j [] h = tt
remove-IsSingle j ((i, senders) ∷ o) h =
    ground (arith, remove-IsSingle j o h.1, has-remove i j o h.0, h)

pub waiting-remove :
    (k j : Key) (o : ObligationMap)
    → IsSingle o
    → waiting k (remove j o) ≡ (if key_eq j k then [] else waiting k o)
unfolding waiting remove
waiting-remove k j [] h = ground arith
waiting-remove k j ((i, senders) ∷ o) h = elim (Bool-cases (key_eq i j)) [
  | inl same ↦ rw same (
      subst
        (λ (l : Key).
          waiting k o ≡ (if key_eq l k then [] else (if key_eq i k then senders else waiting k o)))
        (key_eq_sound i j same) (ground (arith, waiting-gone k i o h.0)))
  | inr other ↦ rw other (elim (Bool-cases (key_eq i k)) [
    | inl here ↦ rw (here, key_eq-false i j k other here) refl
    | inr there ↦ rw there (waiting-remove k j o h.1)
  ])
]
