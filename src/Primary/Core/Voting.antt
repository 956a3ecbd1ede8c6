-- ===== src/Primary/Core/Voting.antt =====
-- The votes that `Core` sends: each is recorded in `last_voted`, as long as its round is kept.
use narwhal_td.Base.{
  ℕ, ◌+◌, ◌≤◌, ◌≡◌, refl, Bool, true, false, ◌&&◌, ◌||◌, Option, none, some, List, [], ◌∷◌, ◌++◌,
  map, arith, ◌==◌, Bool-cases, inl, inr, if◌then◌else◌,
}
use narwhal_td.Base.Map
use narwhal_td.Base.Map.{lookup-update, lookup-retain}
use narwhal_td.Base.Set
use narwhal_td.Base.Set.{contains-insert}
use narwhal_td.Base.Results.{Result, ok, err, panic}
use narwhal_td.Crypto.{PublicKey, Primitives, SignatureService}
use narwhal_td.Config
use narwhal_td.Config.{Committee, ConfigError, PrimaryAddresses}
use narwhal_td.Primary.Header.{Header, Round}
use narwhal_td.Primary.Vote
use narwhal_td.Primary.Vote.{Vote}
use narwhal_td.Primary.Aggregators.{new_votes}
use narwhal_td.Primary.Certificate.{Certificate}
use narwhal_td.Primary.Platform.{Platform, PrimaryMessage}
use narwhal_td.Primary.Core.State.{
  Core, Exec, Effect, to_network, to_consensus, ◌>>=◌, pure, raise, query, modify, expect, send,
  broadcast, emit, primaries,
}
use narwhal_td.Primary.Core.Process.{
  write, register, deliver_vote, to_author, vote_for, accept_header, mark_processing,
  append_to_votes, append_to_certificates,
}
use narwhal_td.Primary.Core.Keeps.{
  Keeps, process_header_with-Keeps, IsLocal, IsKept, finish_certificate-Keeps,
}

-- Whether an effect sends a vote for the header of an author in a round.
abbrev pub is_vote_for : Round → PublicKey → Effect → Bool
is_vote_for r a (to_network address (PrimaryMessage.vote v)) = v.round == r && v.origin == a
is_vote_for r a _ = false

unfoldable pub votes_sent : Round → PublicKey → List Effect → ℕ
votes_sent r a [] = 0
votes_sent r a (e ∷ es) = (if is_vote_for r a e then 1 else 0) + votes_sent r a es

votes_sent-append :
    (r : Round) (a : PublicKey) (xs ys : List Effect)
    → votes_sent r a (xs ++ ys) ≡ votes_sent r a xs + votes_sent r a ys
unfolding votes_sent
votes_sent-append r a [] ys = omega arith
votes_sent-append r a (x ∷ xs) ys = omega (arith, votes_sent-append r a xs ys)

abbrev pub has_voted : Round → PublicKey → Core → Bool
has_voted r a s = Set.contains a (Map.or_default [] (Map.lookup r s.last_voted))

-- The votes sent for `a` in round `r` are recorded, with the collection at `gc` of depth `d`.
pub record IsRecorded (r : Round) (a : PublicKey) (gc d : Round) (s : Core) : Type 0 where
  pub collected : s.gc_round ≡ gc
  pub deep : s.gc_depth ≡ d
  pub once : gc ≤ r → votes_sent r a s.sent ≤ (if has_voted r a s then 1 else 0)

new-origin :
    (p : Primitives) (service : SignatureService) (h : Header) (name : PublicKey) (v : Vote)
    → Vote.new p service h name ≡ some v
    → (v.origin ≡ h.author) × (v.round ≡ h.round)
unfolding Vote.new
new-origin p service h name v e = ground arith

module _ (p : Platform) (r : Round) (a : PublicKey) (gc d : Round) where
  abbrev pub P : Core → Type 0
  P = IsRecorded r a gc d

  local : (e : Effect) → IsLocal e → Keeps P (emit e)
  unfolding emit votes_sent
  local (to_network address message) l = absurd l
  local (to_consensus c) l = absurd l
  local e l = record {
    at = λ s h. record {
      collected = h.collected;
      deep = h.deep;
      once = λ g. omega (arith, votes_sent-append r a s.sent (e ∷ []), h.once g);
    };
  }

  pass : (c : Certificate) → Keeps P (emit (to_consensus c))
  unfolding emit votes_sent
  pass c = record {
    at = λ s h. record {
      collected = h.collected;
      deep = h.deep;
      once = λ g. omega (arith, votes_sent-append r a s.sent (to_consensus c ∷ []), h.once g);
    };
  }

  -- A vote for the header can still be sent: none was for its author in its round, if that is `a`.
  record HasRoom (h : Header) (s : Core) : Type 0 where
    recorded : P s
    marked : has_voted h.round h.author s ≡ true
    none_sent : gc ≤ r → h.round ≡ r → h.author ≡ a → votes_sent r a s.sent ≡ 0

  has_voted-register :
      (h : Header) (s : Core)
      → has_voted r a (register h s).1
        ≡ (if h.round == r then a == h.author || has_voted r a s else has_voted r a s)
  unfolding register
  has_voted-register h s = ground (
    arith,
    lookup-update h.round r [] (Set.insert h.author) s.last_voted,
    contains-insert h.author a (Map.or_default [] (Map.lookup h.round s.last_voted)),
  )

  has_voted-register_self :
      (h : Header) (s : Core) → has_voted h.round h.author (register h s).1 ≡ true
  unfolding register
  has_voted-register_self h s = ground (
    arith,
    lookup-update h.round h.round [] (Set.insert h.author) s.last_voted,
    contains-insert h.author h.author (Map.or_default [] (Map.lookup h.round s.last_voted)),
  )

  register-recorded : (h : Header) (s : Core) → P s → P (register h s).1
  unfolding register
  register-recorded h s i = record {
    collected = i.collected;
    deep = i.deep;
    once = λ g. ground (arith, i.once g, has_voted-register h s);
  }

  register-HasRoom :
      (h : Header) (s : Core)
      → has_voted h.round h.author s ≡ false
      → P s
      → HasRoom h (register h s).1
  unfolding register
  register-HasRoom h s new i = record {
    recorded = register-recorded h s i;
    marked = has_voted-register_self h s;
    none_sent = λ g er ea.
        let none : has_voted r a s ≡ false = rw (← er, ← ea) new in ground (arith, i.once g, none);
  }

  to_author-Keeps :
      (h : Header) (v : Vote) (o : Result ConfigError PrimaryAddresses)
      → v.origin ≡ h.author
      → v.round ≡ h.round
      → (s : Core) → HasRoom h s
      → P (to_author h v o s).1
  unfolding to_author send raise votes_sent
  to_author-Keeps h v (ok addresses) eo er s m = record {
    collected = m.recorded.collected;
    deep = m.recorded.deep;
    once = λ g. ground (
      arith,
      votes_sent-append r a s.sent
          (to_network addresses.primary_to_primary (PrimaryMessage.vote v) ∷ []),
      m.recorded.once g,
      m.marked,
      m.none_sent g,
      eo,
      er,
    );
  }
  to_author-Keeps h v (err e) eo er s m = m.recorded
  to_author-Keeps h v panic eo er s m = m.recorded

  deliver_vote-Keeps :
      (f : Vote → Exec Unit)
      → ((v : Vote) → Keeps P (f v))
      → (h : Header) (o : Option Vote)
      → ((v : Vote) → o ≡ some v → (v.origin ≡ h.author) × (v.round ≡ h.round))
      → (s : Core) → HasRoom h s
      → P (deliver_vote f h o s).1
  unfolding deliver_vote raise
  deliver_vote-Keeps f k h none of s m = m.recorded
  deliver_vote-Keeps f k h (some v) of s m =
      let (eo, er) = of v refl in
      let other = to_author-Keeps h v (Config.primary s.committee h.author) eo er s m in
      let own = (k v).at s m.recorded in
      unfold ◌>>=◌ query expect in
      elim (Bool-cases (v.origin == s.name)) [ inl e ↦ rw e own | inr e ↦ rw e other ]

  vote_for-Keeps :
      (f : Vote → Exec Unit)
      → ((v : Vote) → Keeps P (f v))
      → (h : Header) (s : Core) → HasRoom h s
      → P (vote_for p f h s).1
  unfolding vote_for ◌>>=◌ query
  vote_for-Keeps f k h s m =
      deliver_vote-Keeps f k h _ (λ v e. new-origin p.primitives s.signature_service h s.name v e) s
        m

  store : (key : ℕ) (value : List ℕ) → Keeps P (modify (write key value))
  unfolding modify write
  store key value = record {
    at = λ s i. record { collected = i.collected; deep = i.deep; once = i.once };
  }

  vote_once-Keeps :
      (f : Vote → Exec Unit)
      → ((v : Vote) → Keeps P (f v))
      → (h : Header) (s : Core) → P s
      → P ((register h >>= λ first. if first then vote_for p f h else pure tt) s).1
  vote_once-Keeps f k h s i = elim (Bool-cases (has_voted h.round h.author s)) [
    | inl old ↦ let kept = register-recorded h s i in unfold ◌>>=◌ register pure in rw old kept
    | inr new ↦
        let kept = vote_for-Keeps f k h (register h s).1 (register-HasRoom h s new i) in
        unfold ◌>>=◌ register pure in rw new kept
  ]

  accept :
      (f : Vote → Exec Unit)
      → ((v : Vote) → Keeps P (f v))
      → (h : Header) → Keeps P (accept_header p f h)
  unfolding accept_header ◌>>=◌ modify
  accept f k h = record {
    at = λ s i.
        vote_once-Keeps f k h (write h.id (p.serialize_header h) s)
          ((store h.id (p.serialize_header h)).at s i);
  }

  mark : (h : Header) → Keeps P (mark_processing h)
  unfolding mark_processing
  mark h = record { at = λ s i. record { collected = i.collected; deep = i.deep; once = i.once } }

  voted : (v : Vote) → Keeps P (append_to_votes v)
  unfolding append_to_votes
  voted v = record { at = λ s i. record { collected = i.collected; deep = i.deep; once = i.once } }

  certified : (c : Certificate) → Keeps P (append_to_certificates p c)
  unfolding append_to_certificates
  certified c = record {
    at = λ s i. record { collected = i.collected; deep = i.deep; once = i.once };
  }

  votes_sent-broadcast :
      (m : PrimaryMessage)
      → ((address : ℕ) → is_vote_for r a (to_network address m) ≡ false)
      → (xs : List ℕ) → votes_sent r a (map (λ address. to_network address m) xs) ≡ 0
  unfolding votes_sent
  votes_sent-broadcast m other [] = refl
  votes_sent-broadcast m other (x ∷ xs) =
      rw (other x) (omega (arith, votes_sent-broadcast m other xs))

  -- A broadcast of anything but a vote.
  broadcast-Keeps :
      (round : Round) (m : PrimaryMessage)
      → ((address : ℕ) → is_vote_for r a (to_network address m) ≡ false)
      → Keeps P (broadcast round m)
  unfolding broadcast
  broadcast-Keeps round m other = record {
    at = λ s i. record {
      collected = i.collected;
      deep = i.deep;
      once = λ g. omega (
        arith,
        votes_sent-append r a s.sent (map (λ address. to_network address m) (primaries s)),
        votes_sent-broadcast m other (primaries s),
        i.once g,
      );
    };
  }

  propose :
      (h : Header)
      → Keeps P (modify (λ s. record s { current_header = h; votes_aggregator = new_votes }))
  unfolding modify
  propose h = record {
    at = λ s i. record { collected = i.collected; deep = i.deep; once = i.once };
  }

  pub kept : IsKept p P
  kept = record {
    process = process_header_with-Keeps p local mark accept;
    voted = voted;
    cast = λ c. broadcast-Keeps _ _ (λ _. refl);
    finish = finish_certificate-Keeps p local pass store certified;
    propose = propose;
    announce = λ h. broadcast-Keeps _ _ (λ _. refl);
  }
