-- ===== src/Primary/Core/Process/Depth.antt =====
-- How deep the `process_…` methods call one another. A header of our own may
-- lead to a certificate of `current_header`; that header is then being processed, so that a second
-- certificate of it does not process it again.
use narwhal_td.Base.{
  ℕ, suc, ◌≡◌, refl, Bool, true, false, Option, none, some, List, [], arith, is_empty, ap, sym, ◌∙◌,
  ◌==◌, if◌then◌else◌,
}
use narwhal_td.Base.Map
use narwhal_td.Base.Map.{lookup-update}
use narwhal_td.Base.Set
use narwhal_td.Base.Set.{contains-insert}
use narwhal_td.Base.Results.{ok, err, panic}
use narwhal_td.Crypto.{Digest}
use narwhal_td.Primary.Error.{DagResult}
use narwhal_td.Primary.Header.{Header, Round}
use narwhal_td.Primary.Vote.{Vote}
use narwhal_td.Primary.Aggregators.{append_vote}
use narwhal_td.Primary.Certificate
use narwhal_td.Primary.Certificate.{Certificate}
use narwhal_td.Primary.Platform.{Platform, PrimaryMessage}
use narwhal_td.Primary.Core.State.{
  Core, Exec, Effect, continue, ◌>>=◌, ◌>>◌, query, modify, expect, expected, pure, emit, broadcast,
}
use narwhal_td.Primary.Core.Keeps.{
  Keeps, Keeps-query, IsLocal, get_parents-Keeps, missing_payload-Keeps,
}
use narwhal_td.Primary.Core.Process.{
  check_parents, mark_processing, is_processing, get_parents, missing_payload, register, write,
  deliver_vote, vote_for, accept_header, check_header, process_header_with, append_to_votes,
  publish, process_vote_with, finish_certificate, process_certificate_with, process_header, depth,
}

-- The header that votes are collected for is being processed.
abbrev IsSettled : Core → Type 0
IsSettled s = is_processing s s.current_header ≡ true

continue-cong :
    {A B : Type 0} (f g : A → Exec B) (r : DagResult A) (s : Core)
    → ((a : A) → f a s ≡ g a s)
    → continue f r s ≡ continue g r s
unfolding continue
continue-cong f g (ok a) s h = h a
continue-cong f g (err e) s h = refl
continue-cong f g panic s h = refl

bind-cong :
    {A B : Type 0} (m : Exec A) (f g : A → Exec B) (s : Core)
    → ((a : A) → f a (m s).1 ≡ g a (m s).1)
    → (m >>= f) s ≡ (m >>= g) s
unfolding ◌>>=◌
bind-cong m f g s h = continue-cong f g (m s).0 (m s).1 h

-- The same, where the value is known to be what the first action returns.
bind-cong_of :
    {A B : Type 0} (m : Exec A) (f g : A → Exec B) (s : Core)
    → ((a : A) → (m s).0 ≡ ok a → f a (m s).1 ≡ g a (m s).1)
    → (m >>= f) s ≡ (m >>= g) s
unfolding ◌>>=◌ continue
bind-cong_of {A} m f g s h = go (m s).0 refl
  where
    go : (r : DagResult A) → (m s).0 ≡ r → continue f r (m s).1 ≡ continue g r (m s).1
    go (ok a) e = h a e
    go (err x) e = refl
    go panic e = refl

query-bind :
    {A B : Type 0} (v : Core → A) (k : A → Exec B) (s : Core)
    → (query (λ t. ok (v t)) >>= k) s ≡ k (v s) s
unfolding ◌>>=◌ query continue
query-bind v k s = refl

unless-cong :
    {A : Type 0} (b : Bool) (k m n : Exec A) (s : Core)
    → (b ≡ false → m s ≡ n s)
    → (if b then k else m) s ≡ (if b then k else n) s
unless-cong true k m n s h = refl
unless-cong false k m n s h = h refl

bind-cong_left :
    {A B : Type 0} (m n : Exec A) (f : A → Exec B) (s : Core)
    → m s ≡ n s
    → (m >>= f) s ≡ (n >>= f) s
unfolding ◌>>=◌
bind-cong_left m n f s h = ap (λ r. continue f r.0 r.1) h

if-cong :
    {A : Type 0} (b : Bool) (m m' n n' : Exec A) (s : Core)
    → m s ≡ m' s
    → n s ≡ n' s
    → (if b then m else n) s ≡ (if b then m' else n') s
if-cong true m m' n n' s e k = e
if-cong false m m' n n' s e k = k

is_processing-mark :
    (h k : Header) (s : Core)
    → is_processing s k ≡ true
    → is_processing (mark_processing h s).1 k ≡ true
unfolding is_processing mark_processing
is_processing-mark h k s e = ground (
  arith,
  lookup-update h.round k.round [] (Set.insert h.id) s.processing,
  contains-insert h.id k.id (Map.or_default [] (Map.lookup h.round s.processing)),
  e,
)

is_processing-mark_self : (h : Header) (s : Core) → is_processing (mark_processing h s).1 h ≡ true
unfolding is_processing mark_processing
is_processing-mark_self h s = ground (
  arith,
  lookup-update h.round h.round [] (Set.insert h.id) s.processing,
  contains-insert h.id h.id (Map.or_default [] (Map.lookup h.round s.processing)),
)

local-IsSettled : (e : Effect) → IsLocal e → Keeps IsSettled (emit e)
unfolding emit is_processing
local-IsSettled e l = record { at = λ s h. h }

register-IsSettled : (h : Header) → Keeps IsSettled (register h)
unfolding register is_processing
register-IsSettled h = record { at = λ s e. e }

write-IsSettled : (key : Digest) (value : List ℕ) → Keeps IsSettled (modify (write key value))
unfolding modify write is_processing
write-IsSettled key value = record { at = λ s e. e }

mark-current : (h : Header) (s : Core) → (mark_processing h s).1.current_header ≡ s.current_header
unfolding mark_processing
mark-current h s = refl

-- A predicate that the changes before a vote keep.
record IsStable (Q : Core → Type 0) : Type 0 where
  local : (e : Effect) → IsLocal e → Keeps Q (emit e)
  registered : (h : Header) → Keeps Q (register h)
  written : (key : Digest) (value : List ℕ) → Keeps Q (modify (write key value))

IsSettled-stable : IsStable IsSettled
IsSettled-stable = record {
  local = local-IsSettled;
  registered = register-IsSettled;
  written = write-IsSettled;
}

IsAny-stable : IsStable (λ _. Unit)
IsAny-stable = record {
  local = λ e l. record { at = λ s u. tt };
  registered = λ h. record { at = λ s u. tt };
  written = λ k v. record { at = λ s u. tt };
}

-- Two processors of votes that agree where `Q` holds make no difference to `process_header`.
module _ (p : Platform) (Q : Core → Type 0) (stable : IsStable Q) (f g : Vote → Exec Unit)
    (agree : (v : Vote) (s : Core) → Q s → f v s ≡ g v s) where
  deliver_vote-cong :
      (h : Header) (v : Option Vote) (s : Core) → Q s → deliver_vote f h v s ≡ deliver_vote g h v s
  unfolding deliver_vote ◌>>=◌ query expect
  deliver_vote-cong h none s e = refl
  deliver_vote-cong h (some v) s e = if-cong (v.origin == s.name) _ _ _ _ s (rw (agree v s e)) refl

  vote_for-cong : (h : Header) (s : Core) → Q s → vote_for p f h s ≡ vote_for p g h s
  unfolding vote_for ◌>>=◌ query
  vote_for-cong h s e = deliver_vote-cong h _ s e

  accept_header-cong : (h : Header) (s : Core) → Q s → accept_header p f h s ≡ accept_header p g h s
  unfolding accept_header
  accept_header-cong h s e =
      let w = modify (write h.id (p.serialize_header h)) in
      let e' = (stable.registered h).at _ ((stable.written h.id (p.serialize_header h)).at s e) in
      bind-cong w _ _ s λ _. bind-cong (register h) _ _ (w s).1 λ first.
        if-cong first (vote_for p f h) (vote_for p g h) (pure tt) (pure tt) (register h (w s).1).1
          (vote_for-cong h _ e') refl

  check_header-cong :
      (h : Header) (parents : List Certificate) (s : Core)
      → Q s
      → check_header p f h parents s ≡ check_header p g h parents s
  unfolding check_header
  check_header-cong h parents s e =
      let check : Exec Unit = query (λ t. check_parents t.committee h parents) in
      let same : Keeps Q check = Keeps-query (λ t. check_parents t.committee h parents) in
      let e' = (missing_payload-Keeps p stable.local h).at (check s).1 (same.at s e) in
      bind-cong check _ _ s λ _. bind-cong (missing_payload p h) _ _ (check s).1 λ missing.
        if-cong missing (pure tt) (pure tt) (accept_header p f h) (accept_header p g h)
          (missing_payload p h (check s).1).1 refl (accept_header-cong h _ e')

  process_header_with-cong :
      (h : Header) (s : Core)
      → Q (mark_processing h s).1
      → process_header_with p f h s ≡ process_header_with p g h s
  unfolding process_header_with
  process_header_with-cong h s e =
      let e' = (get_parents-Keeps p stable.local h).at (mark_processing h s).1 e in
      bind-cong (mark_processing h) _ _ s λ _.
        bind-cong (get_parents p h) _ _ (mark_processing h s).1 λ parents.
          if-cong (is_empty parents) (pure tt) (pure tt) (check_header p f h parents)
            (check_header p g h parents) (get_parents p h (mark_processing h s).1).1 refl
            (check_header-cong h parents _ e')

-- Two processors of headers that agree on the header of a certificate that is not being processed
-- make no difference to `process_certificate`.
process_certificate-cong :
    (p : Platform) (f g : Header → Exec Unit) (c : Certificate) (s : Core)
    → (is_processing s c.header ≡ false → f c.header s ≡ g c.header s)
    → process_certificate_with p f c s ≡ process_certificate_with p g c s
unfolding process_certificate_with
process_certificate-cong p f g c s agree =
    let known = λ (t : Core). is_processing t c.header in
    query-bind known (λ b. (if b then pure tt else f c.header) >> finish_certificate p c) s
    ∙ bind-cong_left (if known s then pure tt else f c.header)
        (if known s then pure tt else g c.header) (λ _. finish_certificate p c) s
        (unless-cong (known s) (pure tt) (f c.header) (g c.header) s agree)
    ∙ sym (query-bind known (λ b. (if b then pure tt else g c.header) >> finish_certificate p c) s)

abbrev Agree : (f g : Header → Exec Unit) → Core → Type 0
Agree f g s =
    (t : Core)
    → t.processing ≡ s.processing
    → t.current_header ≡ s.current_header
    → is_processing t s.current_header ≡ false
    → f s.current_header t ≡ g s.current_header t

Agree-at :
    (f g : Header → Exec Unit) (s : Core) (h : Header) (t : Core)
    → Agree f g s
    → h ≡ s.current_header
    → t.processing ≡ s.processing
    → t.current_header ≡ s.current_header
    → is_processing t h ≡ false
    → f h t ≡ g h t
Agree-at f g s h t agree e ep ec unknown = rw e (agree t ep ec (rw e at unknown))

expect-cong : {A : Type 0} (m n : Exec A) (s : Core) → m s ≡ n s → expect m s ≡ expect n s
unfolding expect
expect-cong m n s e = ap (λ r. (expected r.0, r.1)) e

broadcast-processing :
    (r : Round) (m : PrimaryMessage) (s : Core) → (broadcast r m s).1.processing ≡ s.processing
unfolding broadcast
broadcast-processing r m s = refl

broadcast-current :
    (r : Round) (m : PrimaryMessage) (s : Core)
    → (broadcast r m s).1.current_header ≡ s.current_header
unfolding broadcast
broadcast-current r m s = refl

publish-cong :
    (p : Platform) (f g : Header → Exec Unit) (s : Core) (o : Option Certificate) (t : Core)
    → Agree f g s
    → ((c : Certificate) → o ≡ some c → c.header ≡ s.current_header)
    → t.processing ≡ s.processing
    → t.current_header ≡ s.current_header
    → publish (process_certificate_with p f) o t ≡ publish (process_certificate_with p g) o t
unfolding publish
publish-cong p f g s none t agree of ep ec = refl
publish-cong p f g s (some c) t agree of ep ec =
    let send = broadcast (Certificate.round c) (PrimaryMessage.certificate c) in
    bind-cong send _ _ t λ _.
      expect-cong (process_certificate_with p f c) (process_certificate_with p g c) (send t).1 (
        process_certificate-cong p f g c (send t).1 λ unknown.
          Agree-at f g s c.header (send t).1 agree (of c refl) (broadcast-processing _ _ t ∙ ep)
            (broadcast-current _ _ t ∙ ec) unknown)

append-processing : (v : Vote) (s : Core) → (append_to_votes v s).1.processing ≡ s.processing
unfolding append_to_votes
append-processing v s = refl

append-current : (v : Vote) (s : Core) → (append_to_votes v s).1.current_header ≡ s.current_header
unfolding append_to_votes
append-current v s = refl

append-header :
    (v : Vote) (s : Core) (c : Certificate)
    → (append_to_votes v s).0 ≡ ok (some c)
    → c.header ≡ s.current_header
unfolding append_to_votes append_vote
append-header v s c e = ground arith

-- `process_vote` tells two processors of headers apart only by the header that votes are collected
-- for, where that is not being processed.
process_vote-cong :
    (p : Platform) (f g : Header → Exec Unit) (v : Vote) (s : Core)
    → Agree f g s
    → process_vote_with (process_certificate_with p f) v s
      ≡ process_vote_with (process_certificate_with p g) v s
unfolding process_vote_with
process_vote-cong p f g v s agree = bind-cong_of (append_to_votes v) _ _ s λ o e.
    publish-cong p f g s o (append_to_votes v s).1 agree
      (λ c eo. append-header v s c (e ∙ ap ok eo)) (append-processing v s) (append-current v s)

is_processing-eq :
    (s t : Core) (h : Header) → t.processing ≡ s.processing → is_processing t h ≡ is_processing s h
unfolding is_processing
is_processing-eq s t h e = rw e

-- Once the header that votes are collected for is being processed, one header deep is enough.
process_header-settled :
    (p : Platform) (m n : ℕ) (h : Header) (s : Core)
    → IsSettled (mark_processing h s).1
    → process_header p (suc m) h s ≡ process_header p (suc n) h s
unfolding process_header
process_header-settled p m n h s settled =
    process_header_with-cong p IsSettled IsSettled-stable _ _
      (λ v t e. process_vote-cong p (process_header p m) (process_header p n) v t λ u ep ec unknown.
        absurd (
          clash (is_processing u t.current_header) (is_processing-eq t u t.current_header ep ∙ e)
            unknown))
      h s settled
  where
    clash : (b : Bool) → b ≡ true → b ≡ false → ⊥
    clash true e k = cc
    clash false e k = cc

-- Two headers deep are enough for `process_header`: more fuel changes neither its result nor the
-- state that it leaves, for any header and any state.
pub process_header-depth :
    (p : Platform) (n : ℕ) (h : Header) (s : Core)
    → process_header p (suc (suc n)) h s ≡ process_header p depth h s
unfolding process_header
process_header-depth p n h s =
    process_header_with-cong p (λ _. Unit) IsAny-stable _ _
      (λ v t _.
        process_vote-cong p (process_header p (suc n)) (process_header p 1) v t λ u ep ec unknown.
          process_header-settled p n 0 t.current_header u (
            rw (mark-current t.current_header u ∙ ec) (is_processing-mark_self t.current_header u)))
      h s tt
