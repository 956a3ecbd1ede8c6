-- ===== src/Primary/Tasks/CertificateWaiter/Count.antt =====
-- What the certificate waiter holds and has sent, against what it has received.
use mathlib.Core.Option.{some-injective, none-ne-some}
use narwhal_td.Base.{
  ℕ, zero, suc, ◌+◌, ◌≡◌, subst, Bool, true, false, some, List, [], ◌∷◌, ◌++◌, arith,
}
use narwhal_td.Base.Options.{>>=-eq-some}
use narwhal_td.Primary.Certificate.{Certificate}
use narwhal_td.Primary.Tasks.CertificateWaiter.{
  Wait, CertificateWaiter, wait_for, Event, from_synchronizer, finished, take_out, step, run,
}

module _ (p : Certificate → Bool) where
  pub count : List Certificate → ℕ
  count [] = 0
  count (x ∷ xs) = elim (p x) [ true ↦ suc (count xs) | false ↦ count xs ]

  pub count_waits : List Wait → ℕ
  count_waits [] = 0
  count_waits (w ∷ ws) = elim (p w.deliver) [ true ↦ suc (count_waits ws) | false ↦ count_waits ws ]

  count-append : (xs ys : List Certificate) → count (xs ++ ys) ≡ count xs + count ys
  unfolding count
  count-append [] ys = ground arith
  count-append (x ∷ xs) ys = ground (arith, count-append xs ys)

  count_waits-append :
      (xs ys : List Wait) → count_waits (xs ++ ys) ≡ count_waits xs + count_waits ys
  unfolding count_waits
  count_waits-append [] ys = ground arith
  count_waits-append (x ∷ xs) ys = ground (arith, count_waits-append xs ys)

  abbrev Split : List Wait → Wait × List Wait → Type 0
  Split ws q = count_waits ws ≡ count (q.0.deliver ∷ []) + count_waits q.1

  taken_first : (x : Wait) (ws : List Wait) (q : Wait × List Wait) → (x, ws) ≡ q → Split (x ∷ ws) q
  unfolding count count_waits
  taken_first x ws q e = subst (Split (x ∷ ws)) e (ground arith)

  taken_later :
      (x y : Wait) (others ws : List Wait) (q : Wait × List Wait)
      → Split ws (y, others)
      → (y, x ∷ others) ≡ q
      → Split (x ∷ ws) q
  unfolding count count_waits
  taken_later x y others ws q h e = subst (Split (x ∷ ws)) e (ground (arith, h))

  take_out-count :
      (i : ℕ) (ws : List Wait) (w : Wait) (rest : List Wait)
      → take_out i ws ≡ some (w, rest)
      → count_waits ws ≡ count (w.deliver ∷ []) + count_waits rest
  unfolding take_out count count_waits
  take_out-count i [] w rest e = absurd (none-ne-some _ e)
  take_out-count zero (x ∷ ws) w rest e = taken_first x ws (w, rest) (some-injective _ _ e)
  take_out-count (suc i) (x ∷ ws) w rest e =
      let ((y, others), taken, result) = >>=-eq-some (take_out i ws) _ e in
      taken_later x y others ws (w, rest) (take_out-count i ws y others taken)
        (some-injective _ _ result)

  -- The certificates that a state has sent or holds.
  held : CertificateWaiter → ℕ
  held s = count s.sent + count_waits s.waiting

  abbrev pub received : List Event → List Certificate
  received [] = []
  received (from_synchronizer c ∷ es) = c ∷ received es
  received (finished i b ∷ es) = received es

  received-cons :
      (e : Event) (es : List Event)
      → count (received (e ∷ es)) ≡ count (received (e ∷ [])) + count (received es)
  received-cons (from_synchronizer c) es = count-append (c ∷ []) (received es)
  received-cons (finished i b) es = unfold count in omega arith

  step-held :
      (e : Event) (s t : CertificateWaiter)
      → step e s ≡ some t
      → held t ≡ held s + count (received (e ∷ []))
  unfolding step held count_waits
  step-held (from_synchronizer c) s t e =
      rw (← some-injective _ _ e)
        (unfold wait_for count in omega (arith, count_waits-append s.waiting (wait_for c ∷ [])))
  step-held (finished i false) s t e = absurd (none-ne-some _ e)
  step-held (finished i true) s t e =
      let ((w, rest), taken, result) = >>=-eq-some (take_out i s.waiting) _ e in
      rw (← some-injective _ _ result) (
        unfold count in
        omega
          (arith, count-append s.sent (w.deliver ∷ []), take_out-count i s.waiting w rest taken))

  -- Of any kind of certificate, a waiter has sent to the core and still holds, together, as many as at
  -- the start and received since: none is lost, and none is sent twice for one reception.
  pub run-count :
      (events : List Event) (s t : CertificateWaiter)
      → run events s ≡ some t
      → count t.sent + count_waits t.waiting
        ≡ count s.sent + count_waits s.waiting + count (received events)
  unfolding run held count
  run-count [] s t e = rw (some-injective _ _ e) (omega arith)
  run-count (event ∷ events) s t e =
      let (s', stepped, rest) = >>=-eq-some (step event s) _ e in
      omega (
        arith,
        run-count events s' t rest,
        step-held event s s' stepped,
        received-cons event events,
      )
