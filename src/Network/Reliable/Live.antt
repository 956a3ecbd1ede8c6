-- ===== src/Network/Reliable/Live.antt =====
-- The handlers whose caller has gone, along a run of the connection.
use mathlib.Core.Option.{some-injective}
use narwhal_td.Base.{ℕ, ◌≡◌, refl, sym, subst, Bool, true, false, some, List, [], ◌∷◌, arith}
use narwhal_td.Base.Set
use narwhal_td.Base.Options.{>>=-eq-some}
use narwhal_td.Network.Reliable.{
  Message, Phase, connecting, waiting, alive, Connection, is_open, flush, disconnect, transmit,
  flushed, Event, connected, failed, elapsed, received, answered, lost, cancelled, answer, handle,
  step, run,
}

-- The messages that `p` picks have a caller.
abbrev pub IsLive : (Message → Bool) → List ℕ → Type 0
IsLive p closed = (m : Message) → p m ≡ true → is_open closed m ≡ true

flushed-closed :
    (s : Connection) (r : Bool × List Message × List Message) → (flushed s r).closed ≡ s.closed
unfolding disconnect
flushed-closed s (true, buffer, pending) = refl
flushed-closed s (false, buffer, pending) = refl

transmit-closed :
    (n : ℕ) (pending : List Message) (s : Connection) → (transmit n pending s).closed ≡ s.closed
unfolding transmit
transmit-closed n pending s = flushed-closed s (flush s.closed n s.buffer pending)

abbrev pub closed_after : Event → List ℕ → List ℕ
closed_after (cancelled h) closed = h ∷ closed
closed_after _ closed = closed

pub handle-closed :
    (e : Event) (phase : Phase) (s t : Connection)
    → handle e phase s ≡ some t
    → t.closed ≡ closed_after e s.closed
unfolding handle disconnect answer
handle-closed (cancelled h) phase s t e = rw (← some-injective _ _ e) refl
handle-closed (connected n) connecting s t e = rw (← some-injective _ _ e) (transmit-closed n [] _)
handle-closed failed connecting s t e = rw (← some-injective _ _ e) refl
handle-closed elapsed waiting s t e = rw (← some-injective _ _ e) refl
handle-closed (received m n) waiting s t e = rw (← some-injective _ _ e) refl
handle-closed (received m n) (alive pending) s t e =
    rw (← some-injective _ _ e) (transmit-closed n pending _)
handle-closed (answered bytes n) (alive []) s t e = rw (← some-injective _ _ e) refl
handle-closed (answered bytes n) (alive (m ∷ pending)) s t e =
    rw (← some-injective _ _ e) (transmit-closed n pending _)
handle-closed lost (alive pending) s t e = rw (← some-injective _ _ e) refl
handle-closed (connected n) waiting s t e = cc
handle-closed (connected n) (alive pending) s t e = cc
handle-closed failed waiting s t e = cc
handle-closed failed (alive pending) s t e = cc
handle-closed elapsed connecting s t e = cc
handle-closed elapsed (alive pending) s t e = cc
handle-closed (received m n) connecting s t e = cc
handle-closed (answered bytes n) connecting s t e = cc
handle-closed (answered bytes n) waiting s t e = cc
handle-closed lost connecting s t e = cc
handle-closed lost waiting s t e = cc

-- Who has a caller after an event had one before.
pub closed_after-IsLive :
    (p : Message → Bool) (e : Event) (closed : List ℕ)
    → IsLive p (closed_after e closed)
    → IsLive p closed
unfolding Set.contains
closed_after-IsLive p (cancelled h) closed l = λ m picked. ground (arith, l m picked)
closed_after-IsLive p (connected n) closed l = l
closed_after-IsLive p failed closed l = l
closed_after-IsLive p elapsed closed l = l
closed_after-IsLive p (received m n) closed l = l
closed_after-IsLive p (answered bytes n) closed l = l
closed_after-IsLive p lost closed l = l

pub run-IsLive :
    (p : Message → Bool) (events : List Event) (s t : Connection)
    → run events s ≡ some t
    → IsLive p t.closed
    → IsLive p s.closed
unfolding run step
run-IsLive p [] s t e l =
    subst (λ (u : Connection). IsLive p u.closed) (sym (some-injective _ _ e)) l
run-IsLive p (event ∷ events) s t e l =
    let (s', stepped, rest) = >>=-eq-some (handle event s.phase s) _ e in
    closed_after-IsLive p event s.closed (
      subst (IsLive p) (handle-closed event s.phase s s' stepped) (run-IsLive p events s' t rest l))
