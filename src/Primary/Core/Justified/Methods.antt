-- ===== src/Primary/Core/Justified/Methods.antt =====
-- The methods of the core, and what stands behind the votes that they send.
use narwhal_td.Base.{[], ◌≡◌, false, List, ◌∷◌, All-append, is_empty}
use narwhal_td.Store.Spec.{IsReliable}
use narwhal_td.Primary.Header.{Header}
use narwhal_td.Primary.Vote.{Vote}
use narwhal_td.Primary.Certificate.{Certificate}
use narwhal_td.Primary.Platform.{Platform}
use narwhal_td.Primary.Synchronizer
use narwhal_td.Primary.Core.State.{Core, Exec, Effect, to_consensus, emit, pure}
use narwhal_td.Primary.Core.Process.{process_header_with, get_parents, append_to_certificates}
use narwhal_td.Primary.Core.Keeps.{Keeps, IsLocal, IsKept, keeps_rules, finish_certificate-Keeps}
use narwhal_td.Primary.Core.Leads.{
  Leads, Gives, Leads-bind, Leads-if, Leads-kept, Gives-kept, Gives-answer, Leads-weaken,
}
use narwhal_td.Primary.Core.Sent
use narwhal_td.Primary.Core.Sent.{P-append, local-IsQuiet}
use narwhal_td.Primary.Core.Justified.{IsJustified, AreParentsFor, stable}
use narwhal_td.Primary.Core.Justified.Found.{get_parents-found}
use narwhal_td.Primary.Core.Justified.Stages.{P, Stage, notify_waiter-Keeps, check_header-Leads}

module _ (p : Platform) where
  -- The answer on the parents.
  abbrev MayHaveParents : Header → List Certificate → Core → Type 0
  MayHaveParents h cs s = is_empty cs ≡ false → AreParentsFor p s.genesis s.db h.parents cs

  get_parents-Gives :
      IsReliable p.rocksdb
      → (h : Header) → Gives (P p) (P p) (λ cs. Stage p (MayHaveParents h cs)) (get_parents p h)
  unfolding get_parents
  get_parents-Gives reliable h =
      Gives-answer (λ cs. Stage p (MayHaveParents h cs))
        (λ s. Synchronizer.get_parents p s.genesis s.db h) (λ s q. q) (λ a s r. r.0)
        (λ s cs m q e. (q, λ some_. get_parents-found p reliable s.genesis s.db h cs m e some_))
        (λ cs m. notify_waiter-Keeps p (MayHaveParents h cs) (λ s es k. k) m)

  process-Leads :
      IsReliable p.rocksdb
      → (f : Vote → Exec Unit) → ((v : Vote) → Keeps (P p) (f v))
      → (h : Header) → Leads (P p) (P p) (process_header_with p f h)
  unfolding process_header_with
  process-Leads reliable f k h =
      Leads-bind _ _ _ (Gives-kept (λ s q. q) _ (Sent.mark (IsJustified p) (stable p) h)) (λ u.
        Leads-bind _ _ _ (get_parents-Gives reliable h) (λ cs.
          Leads-if (λ s q. q.0) (is_empty cs) _ _
            (λ e. Leads-kept (pure tt) (λ s q. q.0) (search keeps_rules))
            (λ e. Leads-weaken (λ s q. (q.0, q.1 e)) _ (check_header-Leads p h cs f reliable k))))

  emit-Keeps : (e : Effect) → IsLocal e → Keeps (P p) (emit e)
  emit-Keeps e l = Sent.emit-Keeps (IsJustified p) (stable p) e (local-IsQuiet e l)

  pass : (c : Certificate) → Keeps (P p) (emit (to_consensus c))
  unfolding emit
  pass c = record {
    at = λ s k.
        All-append (IsJustified p s.genesis s.committee s.db) s.sent (to_consensus c ∷ []) k
          (tt, tt);
  }

  certified : (c : Certificate) → Keeps (P p) (append_to_certificates p c)
  unfolding append_to_certificates
  certified c = record { at = λ s k. k }

  pub kept : IsReliable p.rocksdb → IsKept p (P p)
  kept reliable = record {
    process = λ f k h. record { at = (process-Leads reliable f k h).at_end };
    voted = Sent.voted (IsJustified p) (stable p);
    cast = λ c. Sent.broadcast-Keeps (IsJustified p) (stable p) _ _ (λ _. tt);
    finish =
        finish_certificate-Keeps p emit-Keeps pass (Sent.store (IsJustified p) (stable p))
          certified;
    propose = Sent.propose (IsJustified p) (stable p);
    announce = λ h. Sent.broadcast-Keeps (IsJustified p) (stable p) _ _ (λ _. tt);
  }
