-- ===== src/Primary/Core/Keeps.antt =====
-- Invariants of the methods of `Core`: what each elementary change keeps, every method keeps,
-- whether it returns, fails or panics.
use narwhal_td.Base.{ℕ, zero, suc, Bool, true, false, Option, none, some, List, if◌then◌else◌}
use narwhal_td.Base.Results.{ok, err, panic}
use narwhal_td.Crypto.{Digest}
use narwhal_td.Primary.Error.{DagResult}
use narwhal_td.Primary.Header.{Header}
use narwhal_td.Primary.Vote.{Vote}
use narwhal_td.Primary.Aggregators.{new_votes}
use narwhal_td.Primary.Certificate
use narwhal_td.Primary.Certificate.{Certificate}
use narwhal_td.Primary.Platform.{Platform, PrimaryMessage, WaiterMessage}
use narwhal_td.Primary.Core.State.{
  Core, Exec, Effect, to_network, continue, ◌>>=◌, expect, broadcast, emit, pure, raise, query,
  modify, to_consensus, to_certificate_waiter,
}
use narwhal_td.Primary.Core.Process.{
  write, mark_processing, get_parents, missing_payload, notify_waiter, accept_header, check_header,
  process_header_with, append_to_votes, publish, process_vote_with, append_to_certificates,
  to_new_round, accept_certificate, deliver, finish_certificate, process_certificate_with,
  process_header, depth, process_vote, process_certificate, process_own_header,
}

-- `m` keeps `P`.
pub record Keeps {A : Type 0} (P : Core → Type 0) (m : Exec A) : Type 0 where
  pub at : (s : Core) → P s → P (m s).1

-- An effect on a channel to another task but consensus, as against the network.
abbrev pub IsLocal : Effect → Type 0
IsLocal (to_network address message) = ⊥
IsLocal (to_consensus c) = ⊥
IsLocal _ = Unit

module _ {A : Type 0} {P : Core → Type 0} where
  pub Keeps-raise : (r : DagResult A) → Keeps P (raise r)
  unfolding raise
  Keeps-raise r = record { at = λ s h. h }

  pub Keeps-query : (f : Core → DagResult A) → Keeps P (query f)
  unfolding query
  Keeps-query f = record { at = λ s h. h }

  pub Keeps-pure : (a : A) → Keeps P (pure a)
  unfolding pure
  Keeps-pure a = record { at = λ s h. h }

  pub Keeps-expect : (m : Exec A) → Keeps P m → Keeps P (expect m)
  unfolding expect
  Keeps-expect m k = record { at = k.at }

  pub Keeps-if : (b : Bool) (m n : Exec A) → Keeps P m → Keeps P n → Keeps P (if b then m else n)
  Keeps-if true m n km kn = km
  Keeps-if false m n km kn = kn

module _ {A B : Type 0} {P : Core → Type 0} where
  Keeps-continue :
      (f : A → Exec B) (r : DagResult A) → ((a : A) → Keeps P (f a)) → Keeps P (continue f r)
  unfolding continue
  Keeps-continue f (ok a) k = record { at = (k a).at }
  Keeps-continue f (err e) k = record { at = λ s h. h }
  Keeps-continue f panic k = record { at = λ s h. h }

  pub Keeps-bind :
      (m : Exec A) (f : A → Exec B) → Keeps P m → ((a : A) → Keeps P (f a)) → Keeps P (m >>= f)
  unfolding ◌>>=◌
  Keeps-bind m f km kf = record { at = λ s h. (Keeps-continue f (m s).0 kf).at (m s).1 (km.at s h) }

pub ruleset keeps_rules = (Keeps-pure, Keeps-raise, Keeps-query, Keeps-expect, Keeps-if, Keeps-bind)

-- The queries of the synchronizer change nothing but what is sent to the waiter.
module _ (p : Platform) {P : Core → Type 0}
    (local : (e : Effect) → IsLocal e → Keeps P (emit e)) where
  notify_waiter-Keeps : (m : Option WaiterMessage) → Keeps P (notify_waiter m)
  unfolding notify_waiter
  notify_waiter-Keeps none = search keeps_rules
  notify_waiter-Keeps (some m) = local _ tt

  pub get_parents-Keeps : (header : Header) → Keeps P (get_parents p header)
  unfolding get_parents
  get_parents-Keeps header = search (keeps_rules, notify_waiter-Keeps)

  pub missing_payload-Keeps : (header : Header) → Keeps P (missing_payload p header)
  unfolding missing_payload
  missing_payload-Keeps header = search (keeps_rules, notify_waiter-Keeps)

-- A certificate that is accepted, when each part of it keeps `P` in any state.
module _ (p : Platform) {P : Core → Type 0} (local : (e : Effect) → IsLocal e → Keeps P (emit e))
    (pass : (c : Certificate) → Keeps P (emit (to_consensus c)))
    (store : (key : Digest) (value : List ℕ) → Keeps P (modify (write key value)))
    (certified : (c : Certificate) → Keeps P (append_to_certificates p c)) where
  to_new_round-Keeps : (c : Certificate) (o : Option (List Digest)) → Keeps P (to_new_round c o)
  unfolding to_new_round
  to_new_round-Keeps c none = search keeps_rules
  to_new_round-Keeps c (some d) = local _ tt

  emit_waiter-Keeps : (c : Certificate) → Keeps P (emit (to_certificate_waiter c))
  emit_waiter-Keeps c = local _ tt

  accept_certificate-Keeps : (c : Certificate) → Keeps P (accept_certificate p c)
  unfolding accept_certificate
  accept_certificate-Keeps c =
      search (keeps_rules, store, certified, to_new_round-Keeps, pass) depth 10

  deliver-Keeps : (c : Certificate) → Keeps P (deliver p c)
  unfolding deliver
  deliver-Keeps c = search (keeps_rules, emit_waiter-Keeps) depth 8

  pub finish_certificate-Keeps : (c : Certificate) → Keeps P (finish_certificate p c)
  unfolding finish_certificate
  finish_certificate-Keeps c = search (keeps_rules, deliver-Keeps, accept_certificate-Keeps) depth 8

-- A header that is processed, when each part of it keeps `P` in any state.
module _ (p : Platform) {P : Core → Type 0} (local : (e : Effect) → IsLocal e → Keeps P (emit e))
    (mark : (h : Header) → Keeps P (mark_processing h))
    (accept : (f : Vote → Exec Unit)
      → ((v : Vote) → Keeps P (f v))
      → (h : Header) → Keeps P (accept_header p f h)) where
  pub process_header_with-Keeps :
      (f : Vote → Exec Unit)
      → ((v : Vote) → Keeps P (f v))
      → (h : Header) → Keeps P (process_header_with p f h)
  unfolding process_header_with check_header
  process_header_with-Keeps f k h =
      search (keeps_rules, mark, get_parents-Keeps p local, missing_payload-Keeps p local) depth 12

-- The changes that keep `P`. `process` is the one place where a vote is sent.
pub record IsKept (p : Platform) (P : Core → Type 0) : Type 0 where
  pub process :
      (f : Vote → Exec Unit)
      → ((v : Vote) → Keeps P (f v))
      → (h : Header) → Keeps P (process_header_with p f h)
  pub voted : (v : Vote) → Keeps P (append_to_votes v)
  pub cast :
      (c : Certificate) → Keeps P (broadcast (Certificate.round c) (PrimaryMessage.certificate c))
  pub finish : (c : Certificate) → Keeps P (finish_certificate p c)
  pub propose :
      (h : Header)
      → Keeps P (modify (λ s. record s { current_header = h; votes_aggregator = new_votes }))
  pub announce : (h : Header) → Keeps P (broadcast h.round (PrimaryMessage.header h))

module _ (p : Platform) {P : Core → Type 0} (kept : IsKept p P) where
  open kept use {process, voted, cast, finish, propose, announce}

  publish-Keeps :
      (f : Certificate → Exec Unit)
      → ((c : Certificate) → Keeps P (f c))
      → (o : Option Certificate) → Keeps P (publish f o)
  unfolding publish
  publish-Keeps f k none = search keeps_rules
  publish-Keeps f k (some c) = search (keeps_rules, cast, k)

  process_vote_with-Keeps :
      (f : Certificate → Exec Unit)
      → ((c : Certificate) → Keeps P (f c))
      → (v : Vote) → Keeps P (process_vote_with f v)
  unfolding process_vote_with
  process_vote_with-Keeps f k v = search (keeps_rules, voted, publish-Keeps f k)

  process_certificate_with-Keeps :
      (f : Header → Exec Unit)
      → ((h : Header) → Keeps P (f h))
      → (c : Certificate) → Keeps P (process_certificate_with p f c)
  unfolding process_certificate_with
  process_certificate_with-Keeps f k c = search (keeps_rules, k, finish) depth 12

  pub process_header-Keeps : (fuel : ℕ) (h : Header) → Keeps P (process_header p fuel h)
  unfolding process_header
  process_header-Keeps zero h = search keeps_rules
  process_header-Keeps (suc fuel) h =
      process _
        (process_vote_with-Keeps _ (process_certificate_with-Keeps _ (process_header-Keeps fuel))) h

  pub process_vote-Keeps : (v : Vote) → Keeps P (process_vote p v)
  unfolding process_vote
  process_vote-Keeps =
      process_vote_with-Keeps _ (process_certificate_with-Keeps _ (process_header-Keeps depth))

  pub process_certificate-Keeps : (c : Certificate) → Keeps P (process_certificate p c)
  unfolding process_certificate
  process_certificate-Keeps = process_certificate_with-Keeps _ (process_header-Keeps depth)

  pub process_own_header-Keeps : (h : Header) → Keeps P (process_own_header p h)
  unfolding process_own_header
  process_own_header-Keeps h = search (keeps_rules, propose, announce, process_header-Keeps) depth 8
