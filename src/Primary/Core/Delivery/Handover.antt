-- ===== src/Primary/Core/Delivery/Handover.antt =====
-- The end of `process_certificate` in primary/src/core.rs, which hands a certificate to consensus.
use narwhal_td.Base.{
  ◌≡◌, refl, sym, ap, ◌∙◌, Bool, true, false, Option, none, some, List, [], ◌∷◌, ◌++◌, All,
  All-append, All-weaken, if◌then◌else◌, inl, inr,
}
use narwhal_td.Base.Results.{ok, err, panic}
use narwhal_td.Crypto.{Digest, to_vec}
use narwhal_td.Store.{Puts}
use narwhal_td.Store.Obligations.{key_eq_refl}
use narwhal_td.Store.Spec.{last_written, IsReliable}
use narwhal_td.Primary.Error.{DagResult}
use narwhal_td.Primary.Certificate
use narwhal_td.Primary.Certificate.{Certificate}
use narwhal_td.Primary.Platform.{Platform}
use narwhal_td.Primary.Synchronizer.{deliver_certificate}
use narwhal_td.Primary.Synchronizer.Ancestors.{IsKnown, deliver_certificate_iff}
use narwhal_td.Primary.Core.State.{
  Core, Exec, to_certificate_waiter, to_proposer, to_consensus, ◌>>=◌, ◌>>◌, pure, raise, query,
  modify, emit,
}
use narwhal_td.Primary.Core.Process.{
  write, append_to_certificates, to_new_round, accept_certificate, deliver, finish_certificate,
}
use narwhal_td.Primary.Core.Keeps.{Keeps, keeps_rules}
use narwhal_td.Primary.Core.Leads.{Leads, Gives, Leads-bind, Gives-kept}
use narwhal_td.Primary.Core.Sent.{P-append, emit-Keeps}
use narwhal_td.Primary.Core.Delivery.{
  WasPut, IsAtHand, IsBacked, E, P, stable, IsAtHand-append, stored,
}

module _ (p : Platform) where
  -- Besides, the certificate is written and its parents are at hand.
  record IsReady (c : Certificate) (s : Core) : Type 0 where
    kept_before : P p s
    own : WasPut (to_vec (Certificate.digest p.primitives c)) (p.serialize_certificate c) s.db
    parents : All (IsAtHand s.genesis s.db) c.header.parents

  ready :
      {A : Type 0} (c : Certificate) (m : Exec A)
      → Keeps (IsReady c) m
      → Gives (IsReady c) (P p) (λ a. IsReady c) m
  ready c m k = Gives-kept (λ s h. h.kept_before) m k

  certified-IsReady : (c : Certificate) → Keeps (IsReady c) (append_to_certificates p c)
  unfolding append_to_certificates
  certified-IsReady c = record {
    at = λ s h. record { kept_before = h.kept_before; own = h.own; parents = h.parents };
  }

  to_new_round-IsReady :
      (c : Certificate) (o : Option (List Digest)) → Keeps (IsReady c) (to_new_round c o)
  unfolding to_new_round emit
  to_new_round-IsReady c none = search keeps_rules
  to_new_round-IsReady c (some ds) = record {
    at = λ s h. record {
      kept_before =
          (emit-Keeps (E p) (stable p) (to_proposer ds (Certificate.round c)) tt).at s
            h.kept_before;
      own = h.own;
      parents = h.parents;
    };
  }

  emit-Leads : (c : Certificate) → Leads (IsReady c) (P p) (emit (to_consensus c))
  unfolding emit
  emit-Leads c = record {
    at_end = λ s h.
        All-append (IsBacked p s.genesis s.db) s.sent (to_consensus c ∷ []) h.kept_before
          ((h.own, h.parents), tt);
  }

  write-IsReady :
      (c : Certificate) (s : Core)
      → P p s
      → All (IsAtHand s.genesis s.db) c.header.parents
      → IsReady c (write (Certificate.digest p.primitives c) (p.serialize_certificate c) s)
  unfolding write
  write-IsReady c s h parents =
      let key = to_vec (Certificate.digest p.primitives c) in
      let put : Puts = (key, p.serialize_certificate c) ∷ [] in
      record {
        kept_before = P-append (E p) (stable p) put s h;
        own = inl (key_eq_refl key, refl);
        parents =
            All-weaken (IsAtHand s.genesis s.db) (IsAtHand s.genesis (put ++ s.db)) c.header.parents
              (IsAtHand-append p s.genesis put s.db) parents;
      }

  accept_certificate-IsBacked :
      (c : Certificate) (s : Core)
      → P p s
      → All (IsAtHand s.genesis s.db) c.header.parents
      → P p (accept_certificate p c s).1
  unfolding accept_certificate
  accept_certificate-IsBacked c s h parents =
      let rest = Leads-bind _ (append_to_certificates p c) _ (ready c _ (certified-IsReady c)) (λ o.
        Leads-bind _ (to_new_round c o) _ (ready c _ (to_new_round-IsReady c o))
          (λ _. emit-Leads c)) in
      unfold ◌>>=◌ modify in rest.at_end _ (write-IsReady c s h parents)

  -- `finish_certificate`, for the answer of the synchronizer.
  finish_by : Certificate → DagResult Bool → Exec Unit
  finish_by c r = do
    delivered ← (do
      found ← raise r
      if found then pure true else do emit (to_certificate_waiter c); pure false)
    if delivered then accept_certificate p c else pure tt

  finish_by-IsBacked :
      (c : Certificate) (r : DagResult Bool) (s : Core)
      → (r ≡ ok true → All (IsAtHand s.genesis s.db) c.header.parents)
      → P p s
      → P p (finish_by c r s).1
  unfolding finish_by ◌>>=◌ raise pure
  finish_by-IsBacked c (ok true) s parents h = accept_certificate-IsBacked c s h (parents refl)
  finish_by-IsBacked c (ok false) s parents h =
      unfold emit in (emit-Keeps (E p) (stable p) (to_certificate_waiter c) tt).at s h
  finish_by-IsBacked c (err e) s parents h = h
  finish_by-IsBacked c panic s parents h = h

  IsKnown-IsAtHand :
      (reliable : IsReliable p.rocksdb) (known : List (Digest × Certificate)) (db : Puts)
      (d : Digest)
      → IsKnown p known db d
      → IsAtHand known db d
  IsKnown-IsAtHand reliable known db d (inl g) = inl g
  IsKnown-IsAtHand reliable known db d (inr (v, held)) =
      inr (v, ap stored (sym (reliable db (to_vec d)) ∙ held))

  pub finish : IsReliable p.rocksdb → (c : Certificate) → Keeps (P p) (finish_certificate p c)
  unfolding finish_certificate deliver finish_by query raise ◌>>=◌
  finish reliable c = record {
    at = λ s h.
        finish_by-IsBacked c (deliver_certificate p s.genesis s.db c) s
          (λ e.
            All-weaken (IsKnown p s.genesis s.db) (IsAtHand s.genesis s.db) c.header.parents
              (IsKnown-IsAtHand reliable s.genesis s.db)
              ((deliver_certificate_iff p s.genesis s.db c
                  (λ k. (last_written k s.db, reliable s.db k))).0
                e))
          h;
  }
