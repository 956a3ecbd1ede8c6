-- ===== src/Worker/BatchMaker/Conservation.antt =====
-- The transactions of the batch maker, against those it has received.
use mathlib.Core.List.{append_assoc, append-nil}
use narwhal_td.Base.{◌≡◌, refl, ◌∙◌, sym, List, [], ◌∷◌, ◌++◌, is_empty, leb, Bool-cases, inl, inr}
use narwhal_td.Worker.Platform.{Bytes, Batch}
use narwhal_td.Worker.BatchMaker.{
  Effect, to_quorum_waiter, broadcast_sealed, broadcast_decryptable, BatchMaker, seal, Event,
  from_client, from_quorum_waiter, timer, push, receive, run,
}

-- The transactions of the batches that were given to the quorum waiter.
abbrev pub sealed : List Effect → Batch
sealed [] = []
sealed (to_quorum_waiter b names ∷ es) = b ++ sealed es
sealed (broadcast_sealed addresses b ∷ es) = sealed es
sealed (broadcast_decryptable addresses b ∷ es) = sealed es

abbrev pub transactions : List Event → Batch
transactions [] = []
transactions (from_client tx ∷ es) = tx ∷ transactions es
transactions (from_quorum_waiter b ∷ es) = transactions es
transactions (timer ∷ es) = transactions es

sealed-append : (xs ys : List Effect) → sealed (xs ++ ys) ≡ sealed xs ++ sealed ys
sealed-append [] ys = refl
sealed-append (to_quorum_waiter b names ∷ xs) ys = simp (sealed-append xs ys, append_assoc)
sealed-append (broadcast_sealed addresses b ∷ xs) ys = sealed-append xs ys
sealed-append (broadcast_decryptable addresses b ∷ xs) ys = sealed-append xs ys

-- All that was received so far, in order.
abbrev pub received : BatchMaker → Batch
received s = sealed s.sent ++ s.current_batch

seal-received : (s : BatchMaker) → received (seal s) ≡ received s
unfolding seal
seal-received s = simp (sealed-append, append_assoc, append-nil)

push-received : (tx : Bytes) (s : BatchMaker) → received (push tx s) ≡ received s ++ tx ∷ []
unfolding push
push-received tx s = simp append_assoc

receive-received :
    (e : Event) (s : BatchMaker) → received (receive e s) ≡ received s ++ transactions (e ∷ [])
unfolding receive
receive-received (from_client tx) s =
    elim (Bool-cases (leb (push tx s).batch_size (push tx s).current_batch_size)) [
      | inl full ↦ rw full (seal-received (push tx s) ∙ push-received tx s)
      | inr room ↦ rw room (push-received tx s)
    ]
receive-received (from_quorum_waiter bytes) s = simp (sealed-append, append_assoc, append-nil)
receive-received timer s = elim (Bool-cases (is_empty s.current_batch)) [
  | inl empty ↦ rw empty (sym (append-nil (received s)))
  | inr some_left ↦ rw some_left (seal-received s ∙ sym (append-nil (received s)))
]

-- After a run, the batches given to the quorum waiter and the batch that is being assembled hold
-- together what they held before and the transactions received, each once and in the order of
-- their arrival.
pub run-received :
    (events : List Event) (s : BatchMaker)
    → received (run events s) ≡ received s ++ transactions events
unfolding run
run-received [] s = sym (append-nil (received s))
run-received (from_client tx ∷ events) s =
    simp (run-received events, receive-received, append_assoc)
run-received (from_quorum_waiter b ∷ events) s =
    simp (run-received events, receive-received, append_assoc, append-nil)
run-received (timer ∷ events) s =
    simp (run-received events, receive-received, append_assoc, append-nil)
