-- ===== src/Primary/Core/Justified/Stages.antt =====
-- `process_header` of primary/src/core.rs from the parents to the vote, stage by stage.
use narwhal_td.Base.{
  [], ◌++◌, ◌≤◌, ◌≡◌, refl, ap, ◌∙◌, Bool, false, Option, none, some, List, ◌∷◌, All, ◌==◌, arith,
  Bool-cases, inl, inr,
}
use narwhal_td.Base.Results.{ok}
use narwhal_td.Crypto.{PublicKey, Primitives, SignatureService, to_vec}
use narwhal_td.Config
use narwhal_td.Config.{quorum_threshold}
use narwhal_td.Store.{Puts}
use narwhal_td.Store.Obligations.{key_eq_refl}
use narwhal_td.Store.Spec.{IsReliable}
use narwhal_td.Primary.Header.{Header}
use narwhal_td.Primary.Vote
use narwhal_td.Primary.Vote.{Vote}
use narwhal_td.Primary.Certificate.{Certificate}
use narwhal_td.Primary.Platform.{Platform, WaiterMessage}
use narwhal_td.Primary.Synchronizer
use narwhal_td.Primary.Core.State.{
  Core, Exec, Effect, to_header_waiter, ◌>>=◌, query, modify, emit, pure, raise, expect,
}
use narwhal_td.Primary.Core.Process.{
  write, register, vote_for, deliver_vote, accept_header, check_header, check_parents,
  missing_payload, notify_waiter,
}
use narwhal_td.Primary.Core.Process.Parents.{IsParent, parent_stake, check_parents_sound}
use narwhal_td.Primary.Core.Keeps.{Keeps, keeps_rules}
use narwhal_td.Primary.Core.Leads.{
  Leads, Gives, Leads-bind, Leads-if, Leads-kept, Gives-kept, Gives-query, Gives-answer,
  Leads-weaken, Gives-weaken,
}
use narwhal_td.Primary.Core.Sent
use narwhal_td.Primary.Core.Sent.{P-append, local-IsQuiet}
use narwhal_td.Primary.Core.Delivery.{WasPut}
use narwhal_td.Primary.Core.Justified.{
  IsJustified, AreParentsFor, AreParentsFor-append, IsBatchAtHand, AreBatchesAtHand-append, stable,
}
use narwhal_td.Primary.Core.Justified.Found.{missing_payload-none}

-- The vote is for the header.
abbrev IsVoteFor : Header → Vote → Type 0
IsVoteFor h v = (v.id ≡ h.id) × (v.round ≡ h.round) × (v.origin ≡ h.author)

new-IsVoteFor :
    (p : Primitives) (service : SignatureService) (h : Header) (name : PublicKey) (v : Vote)
    → Vote.new p service h name ≡ some v
    → IsVoteFor h v
unfolding Vote.new
new-IsVoteFor p service h name v e = (ground arith, ground arith, ground arith)

module _ (p : Platform) where
  abbrev pub P : Core → Type 0
  P = Sent.P (IsJustified p) (stable p)

  -- What is sent is justified, and a fact holds that does not depend on what is sent.
  abbrev pub Stage : (Core → Type 0) → Core → Type 0
  Stage F s = P s × F s

  abbrev pub IsSteady : (Core → Type 0) → Type 0
  IsSteady F = (s : Core) (es : List Effect) → F s → F (record s { sent = es })

  pub notify_waiter-Keeps :
      (F : Core → Type 0)
      → IsSteady F
      → (m : Option WaiterMessage) → Keeps (Stage F) (notify_waiter m)
  unfolding notify_waiter emit
  notify_waiter-Keeps F steady none = search keeps_rules
  notify_waiter-Keeps F steady (some m) = record {
    at = λ s k. (
      (Sent.emit-Keeps (IsJustified p) (stable p) (to_header_waiter m) tt).at s k.0,
      steady s (s.sent ++ to_header_waiter m ∷ []) k.1,
    );
  }

  module _ (h : Header) (cs : List Certificate) where
    -- The parents are found.
    abbrev pub HasParents : Core → Type 0
    HasParents s = AreParentsFor p s.genesis s.db h.parents cs

    -- Besides, each is of the round before, and they weigh a quorum.
    abbrev HasQuorum : Core → Type 0
    HasQuorum s =
        HasParents s
        × (All (IsParent h) cs)
        × (quorum_threshold s.committee ≤ parent_stake s.committee cs)

    -- Besides, the batches are at hand, unless the header is our own.
    abbrev IsReady : Core → Type 0
    IsReady s = HasQuorum s × ((h.author == s.name) ≡ false → All (IsBatchAtHand s.db) h.payload)

    -- Besides, the header itself was put under its id.
    abbrev IsKeptReady : Core → Type 0
    IsKeptReady s = IsReady s × WasPut (to_vec h.id) (p.serialize_header h) s.db

    store-Gives :
        Gives
          (Stage IsReady)
          P
          (λ u. Stage IsKeptReady)
          (modify (write h.id (p.serialize_header h)))
    unfolding modify write
    store-Gives =
        let put : Puts = (to_vec h.id, p.serialize_header h) ∷ [] in
        record {
          at_end = λ s q. P-append (IsJustified p) (stable p) put s q.0;
          value = λ s u k e.
              let (sent, ((found, before, enough), payload)) = k in
              (
                P-append (IsJustified p) (stable p) put s sent,
                (
                  (
                    (AreParentsFor-append p s.genesis put s.db h.parents cs found, before, enough),
                    λ other. AreBatchesAtHand-append put s.db h.payload (payload other),
                  ),
                  inl (key_eq_refl (to_vec h.id), refl),
                ),
              );
        }

    register-IsKeptReady : Keeps (Stage IsKeptReady) (register h)
    unfolding register
    register-IsKeptReady = record { at = λ s k. k }

    deliver_vote-Leads :
        (f : Vote → Exec Unit)
        → ((v : Vote) → Keeps P (f v))
        → (o : Option Vote) → ((v : Vote) → o ≡ some v → IsVoteFor h v)
        → Leads (Stage IsKeptReady) P (deliver_vote f h o)
    unfolding deliver_vote raise
    deliver_vote-Leads f k none of = record { at_end = λ s q. q.0 }
    deliver_vote-Leads f k (some v) of = record {
      at_end = λ s q.
          let (sent, (((found, before, enough), payload), put)) = q in
          let (same, round, origin) = of v refl in
          let own = (k v).at s sent in
          let other = λ (e : (v.origin == s.name) ≡ false).
            Sent.to_author-at (IsJustified p) (stable p) h v (Config.primary s.committee h.author) s
              sent
              (λ address. (
                h,
                same,
                round,
                origin,
                put,
                (cs, found, before, enough, payload (ground (arith, origin, e))),
              )) in
          unfold ◌>>=◌ query expect in
          elim (Bool-cases (v.origin == s.name)) [ inl e ↦ rw e own | inr e ↦ rw e (other e) ];
    }

    vote_for-Leads :
        (f : Vote → Exec Unit)
        → ((v : Vote) → Keeps P (f v))
        → Leads (Stage IsKeptReady) P (vote_for p f h)
    unfolding vote_for ◌>>=◌ query
    vote_for-Leads f k = record {
      at_end = λ s q.
          (deliver_vote-Leads f k _
              (λ v e. new-IsVoteFor p.primitives s.signature_service h s.name v e)).at_end
            s q;
    }

    ready :
        {A : Type 0} (m : Exec A)
        → Keeps (Stage IsKeptReady) m
        → Gives (Stage IsKeptReady) P (λ a. Stage IsKeptReady) m
    ready m k = Gives-kept (λ s q. q.0) m k

    accept-Leads :
        (f : Vote → Exec Unit)
        → ((v : Vote) → Keeps P (f v))
        → Leads (Stage IsReady) P (accept_header p f h)
    unfolding accept_header
    accept-Leads f k = Leads-bind _ _ _ store-Gives (λ u.
        Leads-bind _ _ _ (ready _ register-IsKeptReady) (λ first.
          Leads-if (λ s q. q.0) first _ _ (λ e. vote_for-Leads f k)
            (λ e. Leads-kept (pure tt) (λ s q. q.0) (search keeps_rules))))

    -- The answer on the payload, where the header has a quorum of parents.
    abbrev HasPayload : Bool → Core → Type 0
    HasPayload missing s =
        HasQuorum s
        × (missing ≡ false → (h.author == s.name) ≡ false → All (IsBatchAtHand s.db) h.payload)

    missing_payload-Gives :
        IsReliable p.rocksdb
        → Gives (Stage HasQuorum) P (λ missing. Stage (HasPayload missing)) (missing_payload p h)
    unfolding missing_payload
    missing_payload-Gives reliable =
        Gives-answer (λ missing. Stage (HasPayload missing))
          (λ s. Synchronizer.missing_payload p s.name s.db h) (λ s q. q.0) (λ a s r. r.0)
          (λ s a m q e. (
            q.0,
            (
              q.1,
              λ none_ other.
                  missing_payload-none p reliable s.name s.db h m (e ∙ ap (λ b. ok (b, m)) none_)
                    other,
            ),
          ))
          (λ a m. notify_waiter-Keeps (HasPayload a) (λ s es k. k) m)

    pub check_header-Leads :
        (f : Vote → Exec Unit)
        → IsReliable p.rocksdb
        → ((v : Vote) → Keeps P (f v))
        → Leads (Stage HasParents) P (check_header p f h cs)
    unfolding check_header
    check_header-Leads f reliable k =
        Leads-bind _ _ _ (Gives-query (λ s q. q.0) (λ s. check_parents s.committee h cs)) (λ u.
          Leads-bind _ _ _
            (Gives-weaken
              (λ s q.
                let (before, enough) = check_parents_sound s.committee h cs q.1 in
                (q.0.0, (q.0.1, before, enough)))
              (λ missing. Stage (HasPayload missing)) (missing_payload p h)
              (missing_payload-Gives reliable))
            (λ missing.
              Leads-if (λ s q. q.0) missing _ _
                (λ e. Leads-kept (pure tt) (λ s q. q.0) (search keeps_rules))
                (λ e. Leads-weaken (λ s q. (q.0, (q.1.0, q.1.1 e))) _ (accept-Leads f k))))
