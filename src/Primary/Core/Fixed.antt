-- ===== src/Primary/Core/Fixed.antt =====
-- The committee and the genesis certificates, which no method of `Core` changes.
use narwhal_td.Base.{ℕ, ◌≡◌, Option, none, some, List}
use narwhal_td.Base.Results.{Result, ok, err, panic}
use narwhal_td.Crypto.{Digest}
use narwhal_td.Config.{Committee, ConfigError, PrimaryAddresses}
use narwhal_td.Primary.Header.{Header, Round}
use narwhal_td.Primary.Vote.{Vote}
use narwhal_td.Primary.Aggregators.{new_votes}
use narwhal_td.Primary.Certificate.{Certificate}
use narwhal_td.Primary.Platform.{Platform, PrimaryMessage}
use narwhal_td.Primary.Core.State.{Core, Exec, Effect, emit, modify, broadcast, send}
use narwhal_td.Primary.Core.Process.{
  write, register, to_author, deliver_vote, vote_for, accept_header, mark_processing,
  append_to_votes, append_to_certificates,
}
use narwhal_td.Primary.Core.Keeps.{
  Keeps, IsKept, keeps_rules, process_header_with-Keeps, finish_certificate-Keeps,
}
use narwhal_td.Primary.Core.Sent.{Known}

module _ (p : Platform) (c : Committee) (known : Known) where
  abbrev pub F : Core → Type 0
  F s = (s.committee ≡ c) × (s.genesis ≡ known)

  emit-Keeps : (e : Effect) → Keeps F (emit e)
  unfolding emit
  emit-Keeps e = record { at = λ s h. h }

  store : (key : Digest) (value : List ℕ) → Keeps F (modify (write key value))
  unfolding modify write
  store key value = record { at = λ s h. h }

  register-Keeps : (h : Header) → Keeps F (register h)
  unfolding register
  register-Keeps h = record { at = λ s k. k }

  to_author-Keeps :
      (h : Header) (v : Vote) (o : Result ConfigError PrimaryAddresses) → Keeps F (to_author h v o)
  unfolding to_author send
  to_author-Keeps h v (ok addresses) = record { at = λ s k. k }
  to_author-Keeps h v (err e) = search keeps_rules
  to_author-Keeps h v panic = search keeps_rules

  deliver_vote-Keeps :
      (f : Vote → Exec Unit)
      → ((v : Vote) → Keeps F (f v))
      → (h : Header) (o : Option Vote) → Keeps F (deliver_vote f h o)
  unfolding deliver_vote
  deliver_vote-Keeps f k h none = search keeps_rules
  deliver_vote-Keeps f k h (some v) = search (keeps_rules, k, to_author-Keeps) depth 8

  accept :
      (f : Vote → Exec Unit)
      → ((v : Vote) → Keeps F (f v))
      → (h : Header) → Keeps F (accept_header p f h)
  unfolding accept_header vote_for
  accept f k h = search (keeps_rules, store, register-Keeps, deliver_vote-Keeps f k) depth 12

  mark : (h : Header) → Keeps F (mark_processing h)
  unfolding mark_processing
  mark h = record { at = λ s k. k }

  voted : (v : Vote) → Keeps F (append_to_votes v)
  unfolding append_to_votes
  voted v = record { at = λ s k. k }

  certified : (x : Certificate) → Keeps F (append_to_certificates p x)
  unfolding append_to_certificates
  certified x = record { at = λ s k. k }

  propose :
      (h : Header)
      → Keeps F (modify (λ s. record s { current_header = h; votes_aggregator = new_votes }))
  unfolding modify
  propose h = record { at = λ s k. k }

  broadcast-Keeps : (round : Round) (m : PrimaryMessage) → Keeps F (broadcast round m)
  unfolding broadcast
  broadcast-Keeps round m = record { at = λ s k. k }

  pub kept : IsKept p F
  kept = record {
    process = process_header_with-Keeps p (λ e l. emit-Keeps e) mark accept;
    voted = voted;
    cast = λ x. broadcast-Keeps _ _;
    finish = finish_certificate-Keeps p (λ e l. emit-Keeps e) (λ x. emit-Keeps _) store certified;
    propose = propose;
    announce = λ h. broadcast-Keeps _ _;
  }
