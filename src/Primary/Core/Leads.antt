-- ===== src/Primary/Core/Leads.antt =====
-- Methods of `Core` that lead from states of one kind to states of another, whether they return,
-- fail or panic.
use narwhal_td.Base.{subst, ◌≡◌, refl, Option, none, some, Bool, true, false, if◌then◌else◌}
use narwhal_td.Base.Results.{ok, err, panic, ok-injective}
use narwhal_td.Primary.Error.{DagResult}
use narwhal_td.Primary.Core.State.{Core, Exec, continue, ◌>>=◌, ◌>>◌, query, raise, pure, emit}
use narwhal_td.Primary.Core.Process.{notify_waiter}
use narwhal_td.Primary.Platform.{WaiterMessage}
use narwhal_td.Primary.Core.Keeps.{Keeps}

-- From a state where `Q` holds, `m` ends in one where `P` holds.
pub record Leads {A : Type 0} (Q P : Core → Type 0) (m : Exec A) : Type 0 where
  pub at_end : (s : Core) → Q s → P (m s).1

-- Besides, where `m` returns a value, `R` holds of it.
pub record Gives {A : Type 0} (Q P : Core → Type 0) (R : A → Core → Type 0) (m : Exec A)
    : Type 0 where
  pub at_end : (s : Core) → Q s → P (m s).1
  pub value : (s : Core) (a : A) → Q s → (m s).0 ≡ ok a → R a (m s).1

pub Leads-kept :
    {A : Type 0} {Q P : Core → Type 0} (m : Exec A)
    → ((s : Core) → Q s → P s)
    → Keeps P m
    → Leads Q P m
Leads-kept m weak k = record { at_end = λ s h. k.at s (weak s h) }

Leads-continue :
    {A B : Type 0} {P : Core → Type 0} (R : A → Core → Type 0) (f : A → Exec B) (r : DagResult A)
    (s : Core)
    → P s
    → ((a : A) → r ≡ ok a → R a s)
    → ((a : A) → Leads (R a) P (f a))
    → P (continue f r s).1
unfolding continue
Leads-continue R f (ok a) s h given k = (k a).at_end s (given a refl)
Leads-continue R f (err e) s h given k = h
Leads-continue R f panic s h given k = h

module _ {A : Type 0} {Q Q' P : Core → Type 0} (strong : (s : Core) → Q s → Q' s) where
  pub Leads-weaken : (m : Exec A) → Leads Q' P m → Leads Q P m
  Leads-weaken m k = record { at_end = λ s q. k.at_end s (strong s q) }

  pub Gives-weaken : (R : A → Core → Type 0) (m : Exec A) → Gives Q' P R m → Gives Q P R m
  Gives-weaken R m k = record {
    at_end = λ s q. k.at_end s (strong s q);
    value = λ s a q e. k.value s a (strong s q) e;
  }

module _ {A B : Type 0} {Q P : Core → Type 0} where
  pub Leads-bind :
      (R : A → Core → Type 0) (m : Exec A) (f : A → Exec B)
      → Gives Q P R m
      → ((a : A) → Leads (R a) P (f a))
      → Leads Q P (m >>= f)
  unfolding ◌>>=◌
  Leads-bind R m f g k = record {
    at_end = λ s h. Leads-continue R f (m s).0 (m s).1 (g.at_end s h) (λ a e. g.value s a h e) k;
  }

module _ {A : Type 0} {Q P : Core → Type 0} (weak : (s : Core) → Q s → P s) where
  -- A method that keeps `Q`.
  pub Gives-kept : (m : Exec A) → Keeps Q m → Gives Q P (λ a. Q) m
  Gives-kept m k = record { at_end = λ s h. weak (m s).1 (k.at s h); value = λ s a h e. k.at s h }

  pub Gives-query : (f : Core → DagResult A) → Gives Q P (λ a s. Q s × (f s ≡ ok a)) (query f)
  unfolding query
  Gives-query f = record { at_end = weak; value = λ s a h e. (h, e) }

  pub Leads-if :
      (b : Bool) (m n : Exec A)
      → (b ≡ true → Leads Q P m)
      → (b ≡ false → Leads Q P n)
      → Leads Q P (if b then m else n)
  Leads-if true m n km kn = km refl
  Leads-if false m n km kn = kn refl

-- What follows the answer of the synchronizer.
answered : {A : Type 0} → DagResult (A × Option WaiterMessage) → Exec A
answered r = do (a, m) ← raise r; notify_waiter m; pure a

notify-ok : (m : Option WaiterMessage) (s : Core) → (notify_waiter m s).0 ≡ ok tt
unfolding notify_waiter emit pure
notify-ok none s = refl
notify-ok (some m) s = refl

module _ {A : Type 0} (R : A → Core → Type 0)
    (kept : (a : A) (m : Option WaiterMessage) → Keeps (R a) (notify_waiter m)) where
  answered-at_end :
      {P : Core → Type 0} (r : DagResult (A × Option WaiterMessage)) (s : Core)
      → P s
      → ((a : A) (s : Core) → R a s → P s)
      → ((a : A) (m : Option WaiterMessage) → r ≡ ok (a, m) → R a s)
      → P (answered r s).1
  unfolding answered ◌>>=◌ raise pure
  answered-at_end (ok (a, m)) s h given learn =
      rw (notify-ok m s) (given a (notify_waiter m s).1 ((kept a m).at s (learn a m refl)))
  answered-at_end (err e) s h given learn = h
  answered-at_end panic s h given learn = h

  answered-value :
      (r : DagResult (A × Option WaiterMessage)) (s : Core)
      → ((a : A) (m : Option WaiterMessage) → r ≡ ok (a, m) → R a s)
      → (a : A) → (answered r s).0 ≡ ok a
      → R a (answered r s).1
  unfolding answered ◌>>=◌ raise pure
  answered-value (ok (a, m)) s learn b e =
      let a_ = ok-injective a b (rw (notify-ok m s) at e) in
      rw (notify-ok m s)
        (subst (λ x. R x (notify_waiter m s).1) a_ ((kept a m).at s (learn a m refl)))
  answered-value (err x) s learn b e = cc
  answered-value panic s learn b e = cc

-- A query of the synchronizer, whose command is passed on to the waiter.
pub Gives-answer :
    {A : Type 0} {Q P : Core → Type 0} (R : A → Core → Type 0)
    (f : Core → DagResult (A × Option WaiterMessage))
    → ((s : Core) → Q s → P s)
    → ((a : A) (s : Core) → R a s → P s)
    → ((s : Core) (a : A) (m : Option WaiterMessage) → Q s → f s ≡ ok (a, m) → R a s)
    → ((a : A) (m : Option WaiterMessage) → Keeps (R a) (notify_waiter m))
    → Gives Q P R (do (a, m) ← query f; notify_waiter m; pure a)
unfolding answered ◌>>=◌ query raise
Gives-answer R f weak given learn kept = record {
  at_end = λ s q. answered-at_end R kept (f s) s (weak s q) given (λ a m e. learn s a m q e);
  value = λ s a q e. answered-value R kept (f s) s (λ a m e. learn s a m q e) a e;
}
