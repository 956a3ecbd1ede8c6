-- ===== src/Primary/Core/Sent.antt =====
-- What each effect that `Core` has sent satisfies, for its genesis, its committee and its store.
use narwhal_td.Base.{ℕ, List, [], ◌∷◌, ◌++◌, map, All, All-append, All-weaken}
use narwhal_td.Base.Results.{Result, ok, err, panic}
use narwhal_td.Crypto.{Digest, to_vec}
use narwhal_td.Config.{Committee, ConfigError, PrimaryAddresses, SocketAddr}
use narwhal_td.Store.{Puts}
use narwhal_td.Primary.Header.{Header, Round}
use narwhal_td.Primary.Vote.{Vote}
use narwhal_td.Primary.Aggregators.{new_votes}
use narwhal_td.Primary.Certificate.{Certificate}
use narwhal_td.Primary.Platform.{PrimaryMessage}
use narwhal_td.Primary.Core.State
use narwhal_td.Primary.Core.State.{
  Core, Effect, to_network, to_consensus, to_header_waiter, to_certificate_waiter, to_proposer,
  modify, send, broadcast, emit, primaries,
}
use narwhal_td.Primary.Core.Process.{write, register, to_author, mark_processing, append_to_votes}
use narwhal_td.Primary.Core.Keeps.{Keeps, IsLocal}

abbrev pub Known : Type 0
Known = List (Digest × Certificate)

-- Any effect but a vote that is sent and a certificate for consensus.
abbrev pub IsQuiet : Effect → Type 0
IsQuiet (to_network address (PrimaryMessage.vote v)) = ⊥
IsQuiet (to_consensus c) = ⊥
IsQuiet _ = Unit

pub local-IsQuiet : (e : Effect) → IsLocal e → IsQuiet e
local-IsQuiet (to_network address message) l = absurd l
local-IsQuiet (to_consensus c) l = absurd l
local-IsQuiet (to_header_waiter m) l = tt
local-IsQuiet (to_certificate_waiter c) l = tt
local-IsQuiet (to_proposer ds r) l = tt

-- A predicate of effects that more puts keep, and that says nothing of the quiet ones.
pub record IsStable (E : Known → Committee → Puts → Effect → Type 0) : Type 0 where
  pub grows :
      (known : Known) (c : Committee) (ws db : Puts) (e : Effect)
      → E known c db e
      → E known c (ws ++ db) e
  pub quiet : (known : Known) (c : Committee) (db : Puts) (e : Effect) → IsQuiet e → E known c db e

module _ (E : Known → Committee → Puts → Effect → Type 0) (stable : IsStable E) where
  abbrev pub P : Core → Type 0
  P s = All (E s.genesis s.committee s.db) s.sent

  pub P-append : (ws : Puts) (s : Core) → P s → All (E s.genesis s.committee (ws ++ s.db)) s.sent
  P-append ws s h =
      All-weaken (E s.genesis s.committee s.db) (E s.genesis s.committee (ws ++ s.db)) s.sent
        (stable.grows s.genesis s.committee ws s.db) h

  pub emit-Keeps : (e : Effect) → IsQuiet e → Keeps P (emit e)
  unfolding emit
  emit-Keeps e q = record {
    at = λ s h.
        All-append (E s.genesis s.committee s.db) s.sent (e ∷ []) h
          (stable.quiet s.genesis s.committee s.db e q, tt);
  }

  pub store : (key : Digest) (value : List ℕ) → Keeps P (modify (write key value))
  unfolding modify write
  store key value = record { at = λ s h. P-append ((to_vec key, value) ∷ []) s h }

  network-IsSent :
      (m : PrimaryMessage)
      → ((address : SocketAddr) → IsQuiet (to_network address m))
      → (s : Core) (xs : List SocketAddr)
      → All (E s.genesis s.committee s.db) (map (λ address. to_network address m) xs)
  network-IsSent m q s [] = tt
  network-IsSent m q s (x ∷ xs) =
      (stable.quiet s.genesis s.committee s.db (to_network x m) (q x), network-IsSent m q s xs)

  pub broadcast-Keeps :
      (round : Round) (m : PrimaryMessage)
      → ((address : SocketAddr) → IsQuiet (to_network address m))
      → Keeps P (broadcast round m)
  unfolding broadcast
  broadcast-Keeps round m q = record {
    at = λ s h.
        All-append (E s.genesis s.committee s.db) s.sent
          (map (λ address. to_network address m) (primaries s)) h
          (network-IsSent m q s (primaries s));
  }

  pub to_author-at :
      (h : Header) (v : Vote) (o : Result ConfigError PrimaryAddresses) (s : Core)
      → P s
      → ((address : SocketAddr)
          → E s.genesis s.committee s.db (to_network address (PrimaryMessage.vote v)))
      → P (to_author h v o s).1
  unfolding to_author send State.raise
  to_author-at h v (ok addresses) s k justified =
      All-append (E s.genesis s.committee s.db) s.sent
        (to_network addresses.primary_to_primary (PrimaryMessage.vote v) ∷ []) k
        (justified addresses.primary_to_primary, tt)
  to_author-at h v (err e) s k justified = k
  to_author-at h v panic s k justified = k

  pub register-Keeps : (h : Header) → Keeps P (register h)
  unfolding register
  register-Keeps h = record { at = λ s k. k }

  pub mark : (h : Header) → Keeps P (mark_processing h)
  unfolding mark_processing
  mark h = record { at = λ s k. k }

  pub voted : (v : Vote) → Keeps P (append_to_votes v)
  unfolding append_to_votes
  voted v = record { at = λ s k. k }

  pub propose :
      (h : Header)
      → Keeps P (modify (λ s. record s { current_header = h; votes_aggregator = new_votes }))
  unfolding modify
  propose h = record { at = λ s k. k }
