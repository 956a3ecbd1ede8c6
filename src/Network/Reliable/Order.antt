-- ===== src/Network/Reliable/Order.antt =====
-- The messages of a connection of network/src/reliable_sender.rs, in the order of their arrival.
use mathlib.Core.Option.{some-injective}
use mathlib.Core.List.{append_assoc, append-nil}
use narwhal_td.Base.{
  ℕ, ◌-◌, ◌≡◌, refl, sym, ap, ◌∙◌, subst, Bool, true, false, some, List, [], ◌∷◌, ◌++◌, arith,
  select, select-append, ◌==◌, Bool-cases, inl, inr,
}
use narwhal_td.Base.Options.{>>=-eq-some}
use narwhal_td.Network.Reliable.Live.{IsLive, handle-closed, closed_after-IsLive, run-IsLive}
use narwhal_td.Network.Reliable.{
  Bytes, Message, Phase, connecting, waiting, alive, Connection, is_open, flush, disconnect,
  transmit, flushed, Event, connected, failed, elapsed, received, answered, lost, cancelled, answer,
  handle, step, run,
}

abbrev answered_messages : List (Message × Bytes) → List Message
answered_messages [] = []
answered_messages ((m, bytes) ∷ rest) = m ∷ answered_messages rest

abbrev pub in_flight : Phase → List Message
in_flight connecting = []
in_flight waiting = []
in_flight (alive pending) = pending

-- The messages of a connection in the order of their arrival: answered, sent, to send.
abbrev pub messages : Connection → List Message
messages s = answered_messages s.acknowledged ++ (in_flight s.phase ++ s.buffer)

abbrev pub arrivals : List Event → List Message
arrivals [] = []
arrivals (received m accepts ∷ es) = m ∷ arrivals es
arrivals (_ ∷ es) = arrivals es

answered-append :
    (xs ys : List (Message × Bytes))
    → answered_messages (xs ++ ys) ≡ answered_messages xs ++ answered_messages ys
answered-append [] ys = refl
answered-append ((m, b) ∷ xs) ys = simp (answered-append xs ys)

select-dead :
    (p : Message → Bool) (closed : List ℕ) (m : Message) (xs ys : List Message)
    → IsLive p closed
    → is_open closed m ≡ false
    → select p (xs ++ ys) ≡ select p (xs ++ m ∷ ys)
unfolding select
select-dead p closed m [] ys l h = elim (Bool-cases (p m)) [
  | inl picked ↦ cc (l m picked)
  | inr left ↦ rw left refl
]
select-dead p closed m (x ∷ xs) ys l h = ground (arith, select-dead p closed m xs ys l h)

flush-select :
    (p : Message → Bool) (closed : List ℕ) (n : ℕ) (buffer pending : List Message)
    → IsLive p closed
    → let r = flush closed n buffer pending in select p (r.2 ++ r.1) ≡ select p (pending ++ buffer)
unfolding flush
flush-select p closed n [] pending l = refl
flush-select p closed n (m ∷ buffer) pending l = elim (Bool-cases (is_open closed m)) [
  | inl kept ↦ elim (Bool-cases (n == 0)) [
    | inl full ↦ rw (kept, full) refl
    | inr room ↦
        rw (kept, room)
          (flush-select p closed (n - 1) buffer (pending ++ m ∷ []) l
            ∙ ap (select p) (append_assoc pending (m ∷ []) buffer))
  ]
  | inr gone ↦
      rw gone
        (flush-select p closed n buffer pending l ∙ select-dead p closed m pending buffer l gone)
]

module _ (p : Message → Bool) where
  picked : Connection → List Message
  picked s = select p (answered_messages s.acknowledged) ++ select p (in_flight s.phase ++ s.buffer)

  picked-messages : (s : Connection) → picked s ≡ select p (messages s)
  unfolding picked
  picked-messages s =
      sym (select-append p (answered_messages s.acknowledged) (in_flight s.phase ++ s.buffer))

  -- What a connection picks when it has these messages in flight, and those to send.
  picked_of : List Message → Connection → List Message
  picked_of pending s =
      select p (answered_messages s.acknowledged) ++ select p (pending ++ s.buffer)

  flushed-picked :
      (s : Connection) (r : Bool × List Message × List Message)
      → picked (flushed s r) ≡ select p (answered_messages s.acknowledged) ++ select p (r.2 ++ r.1)
  unfolding picked disconnect
  flushed-picked s (true, buffer, pending) = refl
  flushed-picked s (false, buffer, pending) = refl

  transmit-picked :
      (n : ℕ) (pending : List Message) (s : Connection)
      → IsLive p s.closed
      → picked (transmit n pending s) ≡ picked_of pending s
  unfolding transmit picked_of
  transmit-picked n pending s l =
      rw
        (
          flushed-picked s (flush s.closed n s.buffer pending),
          flush-select p s.closed n s.buffer pending l,
        )
        refl

  picked_of-arrival :
      (pending : List Message) (s : Connection) (m : Message)
      → picked_of pending (record s { buffer = s.buffer ++ m ∷ [] })
        ≡ picked_of pending s ++ select p (m ∷ [])
  unfolding picked_of
  picked_of-arrival pending s m = simp (select-append, append_assoc)

  select-open :
      (closed : List ℕ) (xs : List Message)
      → IsLive p closed
      → select p (select (is_open closed) xs) ≡ select p xs
  unfolding select
  select-open closed [] l = refl
  select-open closed (x ∷ xs) l = elim (Bool-cases (is_open closed x)) [
    | inl kept ↦ rw kept (ground (arith, select-open closed xs l))
    | inr gone ↦ rw gone (select-open closed xs l ∙ select-dead p closed x [] xs l gone)
  ]

  picked-phase :
      (phase : Phase) (s : Connection) → s.phase ≡ phase → picked s ≡ picked_of (in_flight phase) s
  unfolding picked picked_of
  picked-phase phase s q = rw q refl

  answer-picked :
      (bytes : Bytes) (n : ℕ) (pending : List Message) (s : Connection)
      → IsLive p s.closed
      → picked (answer bytes n pending s) ≡ picked_of pending s
  unfolding answer
  answer-picked bytes n [] s l = unfold picked picked_of disconnect in refl
  answer-picked bytes n (m ∷ pending) s l =
      transmit-picked n pending (record s { acknowledged = s.acknowledged ++ (m, bytes) ∷ [] }) l
      ∙ unfold picked_of in
        rw (select-append p (m ∷ []) (pending ++ s.buffer))
          (simp (answered-append, select-append, append_assoc))

  keep-picked :
      (s : Connection) (m : Message)
      → s.phase ≡ waiting
      → IsLive p s.closed
      → picked (record s { buffer = select (is_open s.closed) (s.buffer ++ m ∷ []) })
        ≡ picked_of [] s ++ select p (m ∷ [])
  unfolding picked picked_of select
  keep-picked s m q l =
      rw (q, select-open s.closed (s.buffer ++ m ∷ []) l) (simp (select-append, append_assoc))

  -- What an event makes of the messages in a phase.
  handle-picked :
      (e : Event) (phase : Phase) (s t : Connection)
      → s.phase ≡ phase
      → IsLive p s.closed
      → handle e phase s ≡ some t
      → picked t ≡ picked_of (in_flight phase) s ++ select p (arrivals (e ∷ []))
  unfolding handle picked_of select
  handle-picked (cancelled h) phase s t q l e =
      rw (← some-injective _ _ e) (picked-phase phase _ q ∙ sym (append-nil _))
  handle-picked (connected n) connecting s t q l e =
      rw (← some-injective _ _ e) (transmit-picked n [] _ l ∙ sym (append-nil _))
  handle-picked failed connecting s t q l e =
      rw (← some-injective _ _ e) (picked-phase waiting _ refl ∙ sym (append-nil _))
  handle-picked elapsed waiting s t q l e =
      rw (← some-injective _ _ e) (picked-phase connecting _ refl ∙ sym (append-nil _))
  handle-picked (received m n) waiting s t q l e = rw (← some-injective _ _ e) (keep-picked s m q l)
  handle-picked (received m n) (alive pending) s t q l e =
      rw (← some-injective _ _ e) (transmit-picked n pending _ l ∙ picked_of-arrival pending s m)
  handle-picked (answered bytes n) (alive pending) s t q l e =
      rw (← some-injective _ _ e) (answer-picked bytes n pending s l ∙ sym (append-nil _))
  handle-picked lost (alive pending) s t q l e =
      rw (← some-injective _ _ e) (unfold picked picked_of disconnect in sym (append-nil _))
  handle-picked (connected n) waiting s t q l e = cc
  handle-picked (connected n) (alive pending) s t q l e = cc
  handle-picked failed waiting s t q l e = cc
  handle-picked failed (alive pending) s t q l e = cc
  handle-picked elapsed connecting s t q l e = cc
  handle-picked elapsed (alive pending) s t q l e = cc
  handle-picked (received m n) connecting s t q l e = cc
  handle-picked (answered bytes n) connecting s t q l e = cc
  handle-picked (answered bytes n) waiting s t q l e = cc
  handle-picked lost connecting s t q l e = cc
  handle-picked lost waiting s t q l e = cc

arrivals-cons : (e : Event) (es : List Event) → arrivals (e ∷ es) ≡ arrivals (e ∷ []) ++ arrivals es
arrivals-cons (connected n) es = refl
arrivals-cons failed es = refl
arrivals-cons elapsed es = refl
arrivals-cons (received m n) es = refl
arrivals-cons (answered bytes n) es = refl
arrivals-cons lost es = refl
arrivals-cons (cancelled h) es = refl

run-picked :
    (p : Message → Bool) (events : List Event) (s t : Connection)
    → run events s ≡ some t
    → IsLive p t.closed
    → picked p t ≡ picked p s ++ select p (arrivals events)
unfolding run step select
run-picked p [] s t e l = rw (some-injective _ _ e) (sym (append-nil _))
run-picked p (event ∷ events) s t e l =
    let (s', stepped, rest) = >>=-eq-some (handle event s.phase s) _ e in
    let live = closed_after-IsLive p event s.closed (
      subst (IsLive p) (handle-closed event s.phase s s' stepped)
        (run-IsLive p events s' t rest l)) in
    run-picked p events s' t rest l
    ∙ ap (λ xs. xs ++ select p (arrivals events))
        (handle-picked p event s.phase s s' refl live stepped
          ∙ ap (λ xs. xs ++ select p (arrivals (event ∷ []))) (sym (picked-phase p s.phase s refl)))
    ∙ append_assoc (picked p s) (select p (arrivals (event ∷ []))) (select p (arrivals events))
    ∙ ap (λ xs. picked p s ++ xs)
        (sym (select-append p (arrivals (event ∷ [])) (arrivals events))
          ∙ ap (select p) (sym (arrivals-cons event events)))

-- Over any connection attempts, failures of the stream, answers and cancellations: among the messages
-- whose caller has not cancelled them by the end, those answered, those sent and those left to send
-- are, in this order, exactly the messages that the connection had and those it received since, in the
-- order of their arrival. None is lost, repeated or overtaken.
pub run-messages :
    (p : Message → Bool) (events : List Event) (s t : Connection)
    → run events s ≡ some t
    → IsLive p t.closed
    → select p (messages t) ≡ select p (messages s) ++ select p (arrivals events)
run-messages p events s t e l =
    sym (picked-messages p t)
    ∙ run-picked p events s t e l
    ∙ ap (λ xs. xs ++ select p (arrivals events)) (picked-messages p s)
