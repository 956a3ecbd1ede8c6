-- ===== src/Primary/Core/Run/Keeps.antt =====
-- What the methods of `Core` keep, `run` of primary/src/core.rs keeps.
use mathlib.Core.Option.{some-injective, none-ne-some}
use narwhal_td.Base.{
  ◌≡◌, sym, some, List, [], ◌∷◌, ◌++◌, subst, ltb, Bool-cases, Option-cases, inl, inr,
}
use narwhal_td.Store.{Puts}
use narwhal_td.Primary.Header.{Round}
use narwhal_td.Primary.Platform.{Platform}
use narwhal_td.Primary.Core.State.{Core}
use narwhal_td.Primary.Core.Keeps.{IsKept}
use narwhal_td.Primary.Core.Run.{Input, handle, cleanup, collect, step, run}
use narwhal_td.Primary.Core.Run.Safety.{handle-Keeps, after-some}

module _ (p : Platform) {P : Core → Type 0} (kept : IsKept p P)
    (put : (ws : Puts) (s : Core) → P s → P (record s { db = ws ++ s.db }))
    (collected : (round : Round) (s : Core) → P s → P (collect round s)) where
  cleanup-Keeps : (round : Round) (s : Core) → P s → P (cleanup round s)
  unfolding cleanup
  cleanup-Keeps round s h = elim (Bool-cases (ltb s.gc_depth round)) [
    | inl passed ↦ rw passed (collected _ s h)
    | inr early ↦ rw early h
  ]

  step-Keeps : (i : Input) (s t : Core) → step p i s ≡ some t → P s → P t
  unfolding step
  step-Keeps i s t e h =
      let s' : Core = record s { db = i.writes ++ s.db } in
      let handled = (handle-Keeps p kept i.event).at s' (put i.writes s h) in
      subst P (sym (after-some (handle p i.event s').0 i.round (handle p i.event s').1 t e))
        (cleanup-Keeps i.round (handle p i.event s').1 handled)

  pub run-Keeps : (inputs : List Input) (s t : Core) → run p inputs s ≡ some t → P s → P t
  unfolding run
  run-Keeps [] s t e h = subst P (some-injective _ _ e) h
  run-Keeps (i ∷ inputs) s t e h = elim (Option-cases (step p i s)) [
    | inl ended ↦ absurd (none-ne-some _ (rw (ended, run) at e))
    | inr (s', next) ↦ run-Keeps inputs s' t (rw (next, run) at e) (step-Keeps i s s' next h)
  ]
