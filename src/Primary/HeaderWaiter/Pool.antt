-- ===== src/Primary/HeaderWaiter/Pool.antt =====
-- The pending headers of the header waiter, against its futures.
use mathlib.Core.Option.{some-injective, none-ne-some}
use narwhal_td.Base.{
  ℕ, ◌-◌, ◌≤◌, ◌≡◌, ◌≢◌, refl, ap, subst, false, Option, none, some, List, [], ◌∷◌, ◌++◌, map,
  arith, ltb, ◌==◌, if◌then◌else◌, Bool-cases, inl, inr,
}
use narwhal_td.Base.Map
use narwhal_td.Base.Map.{Map}
use narwhal_td.Base.Set.{Distinct}
use narwhal_td.Crypto.{Digest, PublicKey, to_vec}
use narwhal_td.Config.{Committee}
use narwhal_td.Store.{Key}
use narwhal_td.Primary.Header.{Header, Round}
use narwhal_td.Primary.Platform.{WaiterMessage, sync_batches, sync_parents}
use narwhal_td.Primary.HeaderWaiter.{
  Wait, HeaderWaiter, contains_key, wait_for, payload_keys, Effect, send_all, start_batches,
  start_parents, start, header_of, retry, without, Outcome, delivered, cancelled, failed, finish,
  collect, cleanup, Event, command, finished, timer, clean, step, spawn,
}

-- The future with a cancel channel.
unfoldable pub find_wait : ℕ → List Wait → Option Wait
find_wait channel [] = none
find_wait channel (w ∷ ws) = if w.channel == channel then some w else find_wait channel ws

find_wait-append :
    (ch : ℕ) (ws : List Wait) (new : Wait)
    → find_wait ch (ws ++ new ∷ []) ≡ (
        if contains_key (find_wait ch ws)
        then find_wait ch ws
        else if new.channel == ch
        then some new
        else none)
unfolding find_wait
find_wait-append ch [] new = refl
find_wait-append ch (w ∷ ws) new = ground (arith, find_wait-append ch ws new)

find_wait-without :
    (ch gone : ℕ) (ws : List Wait)
    → find_wait ch (without gone ws) ≡ (if gone == ch then none else find_wait ch ws)
unfolding find_wait without
find_wait-without ch gone [] = ground arith
find_wait-without ch gone (w ∷ ws) = ground (arith, find_wait-without ch gone ws)

-- The pending entry of a header has a future that delivers the header.
pub record IsTracked (pending : Map (Round × ℕ)) (waiting : List Wait) (channels : ℕ) : Type 0 where
  pub fresh : (ch : ℕ) → channels ≤ ch → find_wait ch waiting ≡ none
  pub names : Distinct (Map.keys pending)
  pub tracked :
      (id : Digest) (r : Round) (ch : ℕ)
      → Map.lookup id pending ≡ some (r, ch)
      → (w : Wait) × (find_wait ch waiting ≡ some w) × (w.deliver.id ≡ id) × (w.deliver.round ≡ r)

abbrev pub Tracks : HeaderWaiter → Type 0
Tracks s = IsTracked s.pending s.waiting s.channels

wait_for-Tracks :
    (keys : List Key) (h : Header) (s : HeaderWaiter) → Tracks s → Tracks (wait_for keys h s)
unfolding wait_for
wait_for-Tracks keys h s t =
    let new : Wait = record { keys = keys; deliver = h; channel = s.channels } in
    record {
      fresh = λ ch above. ground (arith, find_wait-append ch s.waiting new, t.fresh ch, above);
      names = Map.insert-Distinct h.id (h.round, s.channels) s.pending t.names;
      tracked = λ id r ch found. elim (Bool-cases (h.id == id)) [
        | inl same ↦ (
          new,
          ground (
            arith,
            Map.lookup-insert h.id id (h.round, s.channels) s.pending,
            find_wait-append ch s.waiting new,
            t.fresh s.channels,
          ),
          ground (arith, same),
          ground (arith, Map.lookup-insert h.id id (h.round, s.channels) s.pending),
        )
        | inr other ↦
            let old : Map.lookup id s.pending ≡ some (r, ch) =
              ground (arith, Map.lookup-insert h.id id (h.round, s.channels) s.pending) in
            let (w, held, name, round) = t.tracked id r ch old in
            (w, ground (arith, find_wait-append ch s.waiting new), name, round)
      ];
    }

send_all-Tracks :
    (o : Option (List Effect)) (s t : HeaderWaiter) → send_all o s ≡ some t → Tracks s → Tracks t
unfolding send_all
send_all-Tracks none s t e k = absurd (none-ne-some _ e)
send_all-Tracks (some effects) s t e k =
    subst Tracks (some-injective _ _ e)
      (record { fresh = k.fresh; names = k.names; tracked = k.tracked })

start-Tracks :
    (now : ℕ) (m : WaiterMessage) (s t : HeaderWaiter)
    → start now m s ≡ some t
    → Tracks s
    → Tracks t
unfolding start start_batches start_parents
start-Tracks now (sync_batches missing h) s t e k =
    let w = wait_for-Tracks (payload_keys missing) h s k in
    send_all-Tracks _ _ t e (record { fresh = w.fresh; names = w.names; tracked = w.tracked })
start-Tracks now (sync_parents missing h) s t e k =
    let w = wait_for-Tracks (map to_vec missing) h s k in
    send_all-Tracks _ _ t e (record { fresh = w.fresh; names = w.names; tracked = w.tracked })

collect-Tracks : (gc_round : Round) (s : HeaderWaiter) → Tracks s → Tracks (collect gc_round s)
unfolding collect
collect-Tracks gc_round s k = record {
  fresh = k.fresh;
  names = Map.retain_values-Distinct (λ x. ltb gc_round x.0) s.pending k.names;
  tracked = λ id r ch found.
      k.tracked id r ch
        (Map.lookup-retain_values (λ x. ltb gc_round x.0) id (r, ch) s.pending k.names found).0;
}

cleanup-Tracks : (round : Round) (s : HeaderWaiter) → Tracks s → Tracks (cleanup round s)
unfolding cleanup
cleanup-Tracks round s k = elim (Bool-cases (ltb s.gc_depth round)) [
  | inl due ↦ rw due (collect-Tracks (round - s.gc_depth) s k)
  | inr early ↦ rw early k
]

-- A future delivers its own header, and is cancelled only when its entry is no longer pending, which is
-- when its channel is closed.
abbrev pub CanEnd : HeaderWaiter → ℕ → Outcome → Type 0
CanEnd s channel (delivered h) =
    (w : Wait) × (find_wait channel s.waiting ≡ some w) × (w.deliver ≡ h)
CanEnd s channel cancelled = (id : Digest) (r : Round) → Map.lookup id s.pending ≢ some (r, channel)
CanEnd s channel failed = Unit {0}

remove-some :
    {V : Type 0} (k j : ℕ) (m : Map V) {v : V}
    → Map.lookup j (Map.remove k m) ≡ some v
    → ((k == j) ≡ false) × (Map.lookup j m ≡ some v)
remove-some k j m e = elim (Bool-cases (k == j)) [
  | inl same ↦ absurd (none-ne-some _ (rw (Map.lookup-remove k j m, same) at e))
  | inr other ↦ (other, rw (Map.lookup-remove k j m, other) at e)
]

other_wait :
    (ch gone : ℕ) (ws : List Wait) (w : Wait)
    → find_wait ch ws ≡ some w
    → gone ≢ ch
    → find_wait ch (without gone ws) ≡ some w
other_wait ch gone ws w held n = ground (arith, find_wait-without ch gone ws)

finish-Tracks :
    (channel : ℕ) (o : Outcome) (s t : HeaderWaiter)
    → CanEnd s channel o
    → finish channel o s ≡ some t
    → Tracks s
    → Tracks t
unfolding finish
finish-Tracks channel (delivered h) s t (w, held, own) e k =
    subst Tracks (some-injective _ _ e) (record {
      fresh = λ ch above. ground (arith, find_wait-without ch channel s.waiting, k.fresh ch above);
      names = Map.remove-Distinct h.id s.pending k.names;
      tracked = λ id r ch found.
          let (other, old) = remove-some h.id id s.pending found in
          let (v, kept, name, round) = k.tracked id r ch old in
          (
            v,
            ground (
              arith,
              find_wait-without ch channel s.waiting,
              held,
              kept,
              other,
              name,
              ap (λ (x : Header). x.id) own,
            ),
            name,
            round,
          );
    })
finish-Tracks channel cancelled s t c e k = subst Tracks (some-injective _ _ e) (record {
  fresh = λ ch above. ground (arith, find_wait-without ch channel s.waiting, k.fresh ch above);
  names = k.names;
  tracked = λ id r ch found.
      let (v, kept, name, round) = k.tracked id r ch found in
      (v, other_wait ch channel s.waiting v kept (λ same. c id r (rw same found)), name, round);
})
finish-Tracks channel failed s t c e k = cc

abbrev pub IsPossible : HeaderWaiter → Event → Type 0
IsPossible s (finished channel o) = CanEnd s channel o
IsPossible s e = Unit {0}

clean-Tracks :
    (round : Round) (o : Option HeaderWaiter) (t : HeaderWaiter)
    → clean round o ≡ some t
    → ((u : HeaderWaiter) → o ≡ some u → Tracks u)
    → Tracks t
clean-Tracks round none t e k = absurd (none-ne-some _ e)
clean-Tracks round (some u) t e k =
    subst Tracks (some-injective _ _ e) (cleanup-Tracks round u (k u refl))

-- Each header that is pending has a future that delivers it, in its round, and no future has a
-- cancel channel that is still to be made. Any event that is possible keeps this: a command, the timer,
-- a future that delivers its own header, and a cancelled future whose header is no longer pending.
pub step-Tracks :
    (now : ℕ) (round : Round) (e : Event) (s t : HeaderWaiter)
    → IsPossible s e
    → step now round e s ≡ some t
    → Tracks s
    → Tracks t
unfolding step retry
step-Tracks now round (command m) s t c e k =
    elim (Bool-cases (contains_key (Map.lookup (header_of m).id s.pending))) [
      | inl known ↦ subst Tracks (some-injective _ _ (rw known at e)) k
      | inr fresh ↦
          clean-Tracks round (start now m s) t (rw fresh at e)
            (λ u started. start-Tracks now m s u started k)
    ]
step-Tracks now round (finished channel o) s t c e k =
    clean-Tracks round (finish channel o s) t e (λ u ended. finish-Tracks channel o s u c ended k)
step-Tracks now round timer s t c e k = clean-Tracks round (some (retry now s)) t e (λ u done.
    subst Tracks (some-injective _ _ done)
      (record { fresh = k.fresh; names = k.names; tracked = k.tracked }))

pub spawn-Tracks :
    (name : PublicKey) (c : Committee) (gc_depth : Round) (delay nodes : ℕ)
    → Tracks (spawn name c gc_depth delay nodes)
unfolding spawn Map.lookup find_wait
spawn-Tracks name c gc_depth delay nodes = record {
  fresh = λ ch above. refl;
  names = tt;
  tracked = λ id r ch found. absurd (none-ne-some _ found);
}
