-- ===== src/Network/Receiver/Prefix.antt =====
-- The messages that the task of a connection dispatches.
use mathlib.Core.List.{append_assoc, append-nil}
use narwhal_td.Base.{◌≡◌, refl, sym, ap, subst, ◌∙◌, List, [], ◌∷◌, ◌++◌, map, All, inl, inr, ◌⊎◌}
use narwhal_td.Base.Results.{Result, ok, err, panic}
use narwhal_td.Network.Reliable.{Bytes}
use narwhal_td.Network.Receiver.{
  Frame, received, failed, MessageHandler, End, closed_by_peer, failed_to_receive, panicked,
  dispatch_error, after_dispatch, spawn_runner,
}

module _ {E A : Type 0} (handler : MessageHandler E A) where
  -- The actions for the messages, one after the other.
  abbrev pub actions_for : List Bytes → List A
  actions_for [] = []
  actions_for (m ∷ ms) = (handler m).0 ++ actions_for ms

  -- Why the task goes no further than these frames, with its last actions and its end.
  abbrev pub StopsAt : List Frame → List A → End E → Type 0
  StopsAt [] last end = (last ≡ []) × (end ≡ closed_by_peer)
  StopsAt (failed ∷ rest) last end = (last ≡ []) × (end ≡ failed_to_receive)
  StopsAt (received m ∷ rest) last end =
      (last ≡ (handler m).0)
      × (((e : E) × ((handler m).1 ≡ err e) × (end ≡ dispatch_error e))
          ⊎ (((handler m).1 ≡ panic) × (end ≡ panicked)))

  -- The messages that are dispatched well, and the frames at which the task stops.
  pub record Dispatched (frames : List Frame) (actions : List A) (end : End E) : Type 0 where
    pub messages : List Bytes
    pub rest : List Frame
    pub last : List A
    pub split : frames ≡ map received messages ++ rest
    pub well : All (λ m. (handler m).1 ≡ ok tt) messages
    pub done : actions ≡ actions_for messages ++ last
    pub stop : StopsAt rest last end

  Dispatched-more :
      (m : Bytes) (frames : List Frame) (actions : List A) (end : End E)
      → (handler m).1 ≡ ok tt
      → Dispatched frames actions end
      → Dispatched (received m ∷ frames) ((handler m).0 ++ actions) end
  Dispatched-more m frames actions end fine d = record {
    messages = m ∷ d.messages;
    rest = d.rest;
    last = d.last;
    split = ap (λ fs. received m ∷ fs) d.split;
    well = (fine, d.well);
    done =
        ap (λ xs. (handler m).0 ++ xs) d.done
        ∙ sym (append_assoc (handler m).0 (actions_for d.messages) d.last);
    stop = d.stop;
  }

  Dispatched-last :
      (m : Bytes) (frames : List Frame) (end : End E)
      → StopsAt (received m ∷ frames) (handler m).0 end
      → Dispatched (received m ∷ frames) (handler m).0 end
  Dispatched-last m frames end stops = record {
    messages = [];
    rest = received m ∷ frames;
    last = (handler m).0;
    split = refl;
    well = tt;
    done = refl;
    stop = stops;
  }

  -- The frames from a message on, for each result of its dispatch.
  after_result :
      (m : Bytes) (frames : List Frame) (rest : List A × End E) (r : Result E Unit)
      → (handler m).1 ≡ r
      → Dispatched frames rest.0 rest.1
      → Dispatched
          (received m ∷ frames)
          ((handler m).0 ++ (after_dispatch r rest).0)
          (after_dispatch r rest).1
  after_result m frames rest (ok u) e d = Dispatched-more m frames rest.0 rest.1 e d
  after_result m frames rest (err x) e d =
      subst (λ xs. Dispatched (received m ∷ frames) xs (dispatch_error x)) (sym (append-nil _))
        (Dispatched-last m frames (dispatch_error x) (refl, inl (x, e, refl)))
  after_result m frames rest panic e d =
      subst (λ xs. Dispatched (received m ∷ frames) xs panicked) (sym (append-nil _))
        (Dispatched-last m frames panicked (refl, inr (e, refl)))

-- The task of a connection dispatches, in order, each of the messages before the first frame that fails, the
-- first whose dispatch fails or panics, or the end of the connection, does what the handler does for them
-- and for a message at which it stops, and nothing for any frame after that.
pub spawn_runner-Dispatched :
    {E A : Type 0} (handler : MessageHandler E A) (frames : List Frame)
    → Dispatched handler frames (spawn_runner handler frames).0 (spawn_runner handler frames).1
unfolding spawn_runner
spawn_runner-Dispatched handler [] = record {
  messages = [];
  rest = [];
  last = [];
  split = refl;
  well = tt;
  done = refl;
  stop = (refl, refl);
}
spawn_runner-Dispatched handler (failed ∷ frames) = record {
  messages = [];
  rest = failed ∷ frames;
  last = [];
  split = refl;
  well = tt;
  done = refl;
  stop = (refl, refl);
}
spawn_runner-Dispatched handler (received m ∷ frames) =
    after_result handler m frames (spawn_runner handler frames) (handler m).1 refl
      (spawn_runner-Dispatched handler frames)
