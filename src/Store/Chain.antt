-- ===== src/Store/Chain.antt =====
-- Chains of events: what reading a log establishes, and how a log is extended (store.ts).
use georesearch_dsh.Prelude.{
  ℕ, suc, ◌+◌, String, ◌≡◌, refl, sym, subst, ap, ◌∙◌, true, Option, none, some, List, [], ◌∷◌,
  ◌++◌, arith, eq_iff, eq_refl, length, ok, some-injective, ok-injective, ◌>>=◌, >>=-ok_parts,
}
use georesearch_dsh.Contracts.Json.{Sha256Digest}
use georesearch_dsh.Contracts.State.{ProjectReducerState}
use georesearch_dsh.Contracts.Event.{ProjectEvent}
use georesearch_dsh.Reducer.{reduce_project_event}
use georesearch_dsh.Reducer.Identity.{reduce-SameProject}
use georesearch_dsh.Store.Disk.{Line, entry, Encoding, is_sha256_digest}
use georesearch_dsh.Store.Log.{
  parse_event, parse_lines, same_hash, replay_from, replay_events, checked_project,
}
use georesearch_dsh.Store.Snapshot.{last}

pub same_hash_refl : (h : Option Sha256Digest) → same_hash h h ≡ true
same_hash_refl none = refl
same_hash_refl (some a) = eq_refl a

pub last-append {ℓ} : {A : Type ℓ} (xs : List A) (x : A) → last (xs ++ x ∷ []) ≡ some x
last-append [] x = refl
last-append (y ∷ []) x = refl
last-append (y ∷ z ∷ zs) x = last-append (z ∷ zs) x

-- The hash of the last event, or `h` of none.
abbrev pub last_hash : Option Sha256Digest → List ProjectEvent → Option Sha256Digest
last_hash h [] = h
last_hash h (e ∷ es) = last_hash (some e.hash) es

pub last_hash-last :
    (h : Option Sha256Digest) (es : List ProjectEvent) {e : ProjectEvent}
    → last es ≡ some e
    → last_hash h es ≡ some e.hash
last_hash-last h [] p = cc
last_hash-last h (x ∷ []) p = cc
last_hash-last h (x ∷ y ∷ ys) p = last_hash-last (some x.hash) (y ∷ ys) p

module _ (p : Encoding) where
  parse_event-ok :
      (l : Line) (seq : ℕ) (h : Option Sha256Digest) (e : ProjectEvent)
      → parse_event p l seq h ≡ ok e
      → (l ≡ entry e) × (e.seq ≡ seq) × (is_sha256_digest e.hash ≡ true)
  unfolding parse_event
  parse_event-ok (entry x) seq h e q = ground arith
  parse_event-ok _ seq h e q = cc

  parse_lines-cons :
      (seq : ℕ) (h : Option Sha256Digest) (l : Line) (ls : List Line) (es : List ProjectEvent)
      → parse_lines p seq h (l ∷ ls) ≡ ok es
      → (x : ProjectEvent) × (xs : List ProjectEvent) × (parse_event p l seq h ≡ ok x)
        × (parse_lines p (suc seq) (some x.hash) ls ≡ ok xs)
        × (es ≡ x ∷ xs)
  unfolding parse_lines
  parse_lines-cons seq h l ls es q =
      let (x, a, q') = >>=-ok_parts (parse_event p l seq h) _ q in
      let (xs, b, q'') = >>=-ok_parts (parse_lines p (suc seq) (some x.hash) ls) _ q' in
      (x, xs, a, b, sym (ok-injective q''))

  -- Reading a log and one more event.
  pub parse_lines-append :
      (seq : ℕ) (h : Option Sha256Digest) (ls : List Line) (es : List ProjectEvent)
      (e : ProjectEvent)
      → parse_lines p seq h ls ≡ ok es
      → parse_event p (entry e) (seq + length es) (last_hash h es) ≡ ok e
      → parse_lines p seq h (ls ++ entry e ∷ []) ≡ ok (es ++ e ∷ [])
  unfolding parse_lines
  parse_lines-append seq h [] [] e q r = let at : seq + 0 ≡ seq = omega arith in rw (rw at at r)
  parse_lines-append seq h [] (x ∷ es) e q r = cc
  parse_lines-append seq h (l ∷ ls) es e q r =
      let (x, xs, a, b, same) = parse_lines-cons seq h l ls es q in
      subst
        (λ ys.
          parse_event p (entry e) (seq + length ys) (last_hash h ys) ≡ ok e
          → parse_lines p seq h ((l ∷ ls) ++ entry e ∷ []) ≡ ok (ys ++ e ∷ []))
        (sym same)
        (λ r'.
          let at : seq + suc (length xs) ≡ suc seq + length xs = omega arith in
          rw a (rw (parse_lines-append (suc seq) (some x.hash) ls xs e b (rw at at r'))))
        r

  -- The last event of a log that was read has its place in the log as its number.
  pub parse_lines-last :
      (seq : ℕ) (h : Option Sha256Digest) (ls : List Line) (es : List ProjectEvent)
      (e : ProjectEvent)
      → parse_lines p seq h ls ≡ ok es
      → last es ≡ some e
      → (e.seq + 1 ≡ seq + length es) × (is_sha256_digest e.hash ≡ true)
  unfolding parse_lines
  parse_lines-last seq h [] es e q r = cc (r, ap last (ok-injective q))
  parse_lines-last seq h (l ∷ ls) es e q r =
      let (x, xs, a, b, same) = parse_lines-cons seq h l ls es q in
      last_of x xs (sym (ap last same) ∙ r) (parse_event-ok l seq h x a) same
        (λ f. parse_lines-last (suc seq) (some x.hash) ls xs e b f)
    where
      last_of :
          (x : ProjectEvent) (xs : List ProjectEvent)
          → last (x ∷ xs) ≡ some e
          → (l ≡ entry x) × (x.seq ≡ seq) × (is_sha256_digest x.hash ≡ true)
          → es ≡ x ∷ xs
          → (last xs ≡ some e
              → (e.seq + 1 ≡ suc seq + length xs) × (is_sha256_digest e.hash ≡ true))
          → (e.seq + 1 ≡ seq + length es) × (is_sha256_digest e.hash ≡ true)
      last_of x [] f g same later =
          subst
            (λ (y : ProjectEvent). (y.seq + 1 ≡ seq + length es) × (is_sha256_digest y.hash ≡ true))
            (some-injective f) (omega (arith, g.1, ap length same), g.2)
      last_of x (y ∷ ys) f g same later =
          let (n, d) = later f in (omega (arith, n, ap length same), d)

-- Replaying the events and one more event.
replay_from-append :
    (current : Option ProjectReducerState) (es : List ProjectEvent) (e : ProjectEvent)
    (s : ProjectReducerState)
    → replay_from current es ≡ ok (some s)
    → replay_from current (es ++ e ∷ []) ≡ (reduce_project_event (some s) e >>= λ t. ok (some t))
unfolding replay_from
replay_from-append current [] e s h = rw (ok-injective h)
replay_from-append current (x ∷ es) e s h =
    let (t, a, b) = >>=-ok_parts (reduce_project_event current x) _ h in
    rw a (replay_from-append (some t) es e s b)

replay_events-from :
    (project_id : String) (es : List ProjectEvent) (s : ProjectReducerState)
    → replay_events project_id es ≡ ok s
    → (replay_from none es ≡ ok (some s)) × (s.project_id ≡ project_id)
unfolding replay_events
replay_events-from project_id es s h =
    let (o, a, b) = >>=-ok_parts (replay_from none es) _ h in go o a b
  where
    go :
        (o : Option ProjectReducerState)
        → replay_from none es ≡ ok o
        → checked_project project_id o ≡ ok s
        → (replay_from none es ≡ ok (some s)) × (s.project_id ≡ project_id)
    go none a b = cc
    go (some t) a b =
        let same : t ≡ s = ground arith in
        (a ∙ ap (λ x. ok (some x)) same, ground (arith, eq_iff t.project_id project_id))

pub replay_events-append :
    (project_id : String) (es : List ProjectEvent) (e : ProjectEvent) (s t : ProjectReducerState)
    → replay_events project_id es ≡ ok s
    → reduce_project_event (some s) e ≡ ok t
    → replay_events project_id (es ++ e ∷ []) ≡ ok t
unfolding replay_events
replay_events-append project_id es e s t h r =
    let (a, b) = replay_events-from project_id es s h in
    let same : t.project_id ≡ project_id = (reduce-SameProject s t e r).project_id ∙ b in
    rw (replay_from-append none es e s a, r) (rw same (rw eq_refl))
