-- ===== src/Primary/Core/Delivery/Methods.antt =====
-- The methods of the core, and what they leave of the handed over certificates.
use narwhal_td.Base.{Option, none, some}
use narwhal_td.Base.Results.{Result}
use narwhal_td.Config.{ConfigError, PrimaryAddresses}
use narwhal_td.Store.Spec.{IsReliable}
use narwhal_td.Primary.Header.{Header}
use narwhal_td.Primary.Vote.{Vote}
use narwhal_td.Primary.Platform.{Platform}
use narwhal_td.Primary.Core.State.{Effect, emit, Exec}
use narwhal_td.Primary.Core.Process.{deliver_vote, to_author, vote_for, accept_header}
use narwhal_td.Primary.Core.Keeps.{IsLocal, Keeps, process_header_with-Keeps, IsKept, keeps_rules}
use narwhal_td.Primary.Core.Sent
use narwhal_td.Primary.Core.Sent.{local-IsQuiet}
use narwhal_td.Primary.Core.Delivery.{E, P, stable}
use narwhal_td.Primary.Core.Delivery.Handover.{finish}

module _ (p : Platform) where
  to_author-Keeps :
      (h : Header) (v : Vote) (o : Result ConfigError PrimaryAddresses)
      → Keeps (P p) (to_author h v o)
  to_author-Keeps h v o = record {
    at = λ s k. Sent.to_author-at (E p) (stable p) h v o s k (λ address. tt);
  }

  deliver_vote-Keeps :
      (f : Vote → Exec Unit)
      → ((v : Vote) → Keeps (P p) (f v))
      → (h : Header) (o : Option Vote) → Keeps (P p) (deliver_vote f h o)
  unfolding deliver_vote
  deliver_vote-Keeps f k h none = search keeps_rules
  deliver_vote-Keeps f k h (some v) = search (keeps_rules, k, to_author-Keeps) depth 8

  accept :
      (f : Vote → Exec Unit)
      → ((v : Vote) → Keeps (P p) (f v))
      → (h : Header) → Keeps (P p) (accept_header p f h)
  unfolding accept_header vote_for
  accept f k h =
      search
        (
          keeps_rules,
          Sent.store (E p) (stable p),
          Sent.register-Keeps (E p) (stable p),
          deliver_vote-Keeps f k,
        )
        depth 12

  emit-Keeps : (e : Effect) → IsLocal e → Keeps (P p) (emit e)
  emit-Keeps e l = Sent.emit-Keeps (E p) (stable p) e (local-IsQuiet e l)

  pub kept : IsReliable p.rocksdb → IsKept p (P p)
  kept reliable = record {
    process = process_header_with-Keeps p emit-Keeps (Sent.mark (E p) (stable p)) accept;
    voted = Sent.voted (E p) (stable p);
    cast = λ c. Sent.broadcast-Keeps (E p) (stable p) _ _ (λ _. tt);
    finish = finish p reliable;
    propose = Sent.propose (E p) (stable p);
    announce = λ h. Sent.broadcast-Keeps (E p) (stable p) _ _ (λ _. tt);
  }
