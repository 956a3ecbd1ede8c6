-- ===== src/Primary/Synchronizer/Ancestors.antt =====
-- When the synchronizer finds all ancestors of a certificate.
use mathlib.Core.Option.{none-ne-some}
use narwhal_td.Base.{
  ◌≡◌, ◌↔◌, refl, sym, ap, ◌∙◌, Bool, true, false, Option, none, some, List, [], ◌∷◌, All,
  Option-cases, inl, inr, ◌⊎◌, arith,
}
use narwhal_td.Base.Results.{ok, err, panic}
use narwhal_td.Crypto.{Digest, to_vec}
use narwhal_td.Store.{Puts, Key, Value, StoreResult}
use narwhal_td.Primary.Error.{DagResult}
use narwhal_td.Primary.Certificate.{Certificate}
use narwhal_td.Primary.Platform.{Platform}
use narwhal_td.Primary.Synchronizer.{read, find_genesis, has_ancestors, deliver_certificate}

-- The digest is that of a genesis certificate, or stands in the store.
abbrev pub IsKnown : Platform → List (Digest × Certificate) → Puts → Digest → Type 0
IsKnown p known db d =
    ((c : Certificate) × (find_genesis d known ≡ some c))
    ⊎ ((v : Value) × (p.rocksdb.get db (to_vec d) ≡ ok (some v)))

abbrev stored : StoreResult (Option Value) → Option Value
stored (ok o) = o
stored (err e) = none
stored panic = none

unknown_parent :
    (p : Platform) (known : List (Digest × Certificate)) (db : Puts) (d : Digest)
    → find_genesis d known ≡ none
    → p.rocksdb.get db (to_vec d) ≡ ok none
    → IsKnown p known db d
    → ⊥
unknown_parent p known db d unknown absent (inl (c, found)) = none-ne-some _ (sym unknown ∙ found)
unknown_parent p known db d unknown absent (inr (v, held)) =
    none-ne-some _ (ap stored (sym absent ∙ held))

abbrev answer : DagResult Bool → Bool
answer (ok b) = b
answer (err e) = false
answer panic = false

not_found : (r : DagResult Bool) → r ≡ ok false → r ≡ ok true → ⊥
not_found r e h = let no_ = ap answer e in let yes_ = ap answer h in ground (arith, no_, yes_)

-- The answer of the loop, from the answer for the first digest and for the rest.
ancestor-cases :
    (p : Platform) (known : List (Digest × Certificate)) (db : Puts) (d : Digest) (ds : List Digest)
    → ((k : Key) → (o : Option Value) × (p.rocksdb.get db k ≡ ok o))
    → ((IsKnown p known db d) × (has_ancestors p known db (d ∷ ds) ≡ has_ancestors p known db ds))
      ⊎ ((IsKnown p known db d → ⊥) × (has_ancestors p known db (d ∷ ds) ≡ ok false))
unfolding has_ancestors read
ancestor-cases p known db d ds total = elim (Option-cases (find_genesis d known)) [
  | inr (c, found) ↦ inl (inl (c, found), rw found refl)
  | inl unknown ↦
      let (o, got) = total (to_vec d) in
      elim (Option-cases o) [
        | inr (v, held) ↦
            let present = got ∙ ap ok held in inl (inr (v, present), rw unknown (rw present refl))
        | inl missing ↦
            let absent = got ∙ ap ok missing in
            inr (unknown_parent p known db d unknown absent, rw unknown (rw absent refl))
      ]
]

module _ (p : Platform) (known : List (Digest × Certificate)) (db : Puts)
    (total : (k : Key) → (o : Option Value) × (p.rocksdb.get db k ≡ ok o)) where
  has_ancestors-IsKnown :
      (ds : List Digest) → has_ancestors p known db ds ≡ ok true → All (IsKnown p known db) ds
  has_ancestors-IsKnown [] e = tt
  has_ancestors-IsKnown (d ∷ ds) e = elim (ancestor-cases p known db d ds total) [
    | inl (k, same) ↦ (k, has_ancestors-IsKnown ds (sym same ∙ e))
    | inr (unknown, stopped) ↦ absurd (not_found _ stopped e)
  ]

  IsKnown-has_ancestors :
      (ds : List Digest) → All (IsKnown p known db) ds → has_ancestors p known db ds ≡ ok true
  unfolding has_ancestors
  IsKnown-has_ancestors [] h = refl
  IsKnown-has_ancestors (d ∷ ds) h = elim (ancestor-cases p known db d ds total) [
    | inl (k, same) ↦ same ∙ IsKnown-has_ancestors ds h.1
    | inr (unknown, stopped) ↦ absurd (unknown h.0)
  ]

-- When the database reads without errors, `deliver_certificate` lets a certificate through exactly if each
-- of its parents is a genesis certificate or in the store.
pub deliver_certificate_iff :
    (p : Platform) (known : List (Digest × Certificate)) (db : Puts) (c : Certificate)
    → ((k : Key) → (o : Option Value) × (p.rocksdb.get db k ≡ ok o))
    → (deliver_certificate p known db c ≡ ok true) ↔ All (IsKnown p known db) c.header.parents
unfolding deliver_certificate
deliver_certificate_iff p known db c total = (
  has_ancestors-IsKnown p known db total c.header.parents,
  IsKnown-has_ancestors p known db total c.header.parents,
)
