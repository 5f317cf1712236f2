-- ===== src/Provider/Steps.antt =====
-- The pieces of `ProviderLifecycle` in every order that the event loop may choose, and what holds in
-- every state that they reach.
use georesearch_dsh.Prelude.{◌<◌, ◌≡◌, refl, Bool, true, false, none, some, arith}
use georesearch_dsh.Provider.{
  Provider, ProviderLifecycleState, Disposal, new_provider, is_accepting, admit, leave, drain,
  dispose, cancelled, clean_up, cleaned,
}

-- One piece runs. An operation ends only if one is in flight, a hook ends only after it was called.
pub data Step : Provider → Provider → Type 0 where
  admits : {p q : Provider} → admit p ≡ some q → Step p q
  leaves : {p : Provider} → 0 < p.active_count → Step p (leave p)
  drains : {p : Provider} → Step p (drain p)
  disposes : {p : Provider} → Step p (dispose p)
  cancels :
      {p : Provider} (ended_well : Bool)
      → p.disposal ≡ Disposal.cancelling
      → Step p (cancelled ended_well p)
  cleans_up : {p : Provider} → p.disposal ≡ Disposal.drained → Step p (clean_up p)
  cleans :
      {p : Provider} (ended_well : Bool)
      → p.disposal ≡ Disposal.cleaning
      → Step p (cleaned ended_well p)

pub data Steps : Provider → Provider → Type 0 where
  stop : {p : Provider} → Steps p p
  follow : {p q r : Provider} → Step p q → Steps q r → Steps p r

-- Past `drain`.
abbrev pub is_quiet : Disposal → Bool
is_quiet Disposal.drained = true
is_quiet Disposal.cleaning = true
is_quiet Disposal.finished = true
is_quiet _ = false

abbrev pub is_waiting : Disposal → Bool
is_waiting Disposal.waiting = true
is_waiting _ = false

abbrev pub is_started : Disposal → Bool
is_started Disposal.not_started = false
is_started _ = true

abbrev pub is_finished : Disposal → Bool
is_finished Disposal.finished = true
is_finished _ = false

abbrev pub is_disposed : ProviderLifecycleState → Bool
is_disposed ProviderLifecycleState.disposed = true
is_disposed _ = false

-- Disposal is past `drain` only when nothing is in flight, and nothing is admitted since it started;
-- it waits only for operations in flight, and no `drain` waits for nothing.
pub record IsSound (p : Provider) : Type 0 where
  pub quiet : is_quiet p.disposal ≡ true → p.active_count ≡ 0
  pub closed : is_started p.disposal ≡ true → is_accepting p.current_state ≡ false
  pub awaited : is_waiting p.disposal ≡ true → 0 < p.active_count
  pub idle : p.active_count ≡ 0 → p.idle_waiters ≡ 0
  pub ended : is_finished p.disposal ≡ true → is_disposed p.current_state ≡ true

admit-IsSound : (p : Provider) → (q : Provider) → admit p ≡ some q → IsSound p → IsSound q
unfolding admit
admit-IsSound p q h s = record {
  quiet = λ k. ground (arith, s);
  closed = λ k. ground (arith, s);
  awaited = λ k. ground (arith, s);
  idle = λ k. ground (arith, s);
  ended = λ k. ground (arith, s);
}

leave-IsSound : (p : Provider) → 0 < p.active_count → IsSound p → IsSound (leave p)
unfolding leave
leave-IsSound p h s = record {
  quiet = λ k. ground (arith, s);
  closed = λ k. ground (arith, s);
  awaited = λ k. ground (arith, s);
  idle = λ k. ground (arith, s);
  ended = λ k. ground (arith, s);
}

drain-IsSound : (p : Provider) → IsSound p → IsSound (drain p)
unfolding drain
drain-IsSound p s = record {
  quiet = λ k. ground (arith, s);
  closed = λ k. ground (arith, s);
  awaited = λ k. ground (arith, s);
  idle = λ k. ground (arith, s);
  ended = λ k. ground (arith, s);
}

dispose-IsSound : (p : Provider) → IsSound p → IsSound (dispose p)
unfolding dispose
dispose-IsSound p s = record {
  quiet = λ k. ground (arith, s);
  closed = λ k. ground (arith, s);
  awaited = λ k. ground (arith, s);
  idle = λ k. ground (arith, s);
  ended = λ k. ground (arith, s);
}

cancelled-IsSound :
    (p : Provider)
    → (b : Bool) → p.disposal ≡ Disposal.cancelling
    → IsSound p
    → IsSound (cancelled b p)
unfolding cancelled
cancelled-IsSound p b h s = record {
  quiet = λ k. ground (arith, s);
  closed = λ k. ground (arith, s);
  awaited = λ k. ground (arith, s);
  idle = λ k. ground (arith, s);
  ended = λ k. ground (arith, s);
}

clean_up-IsSound : (p : Provider) → p.disposal ≡ Disposal.drained → IsSound p → IsSound (clean_up p)
unfolding clean_up
clean_up-IsSound p h s = record {
  quiet = λ k. ground (arith, s);
  closed = λ k. ground (arith, s);
  awaited = λ k. ground (arith, s);
  idle = λ k. ground (arith, s);
  ended = λ k. ground (arith, s);
}

cleaned-IsSound :
    (p : Provider) → (b : Bool) → p.disposal ≡ Disposal.cleaning → IsSound p → IsSound (cleaned b p)
unfolding cleaned
cleaned-IsSound p b h s = record {
  quiet = λ k. ground (arith, s);
  closed = λ k. ground (arith, s);
  awaited = λ k. ground (arith, s);
  idle = λ k. ground (arith, s);
  ended = λ k. ground (arith, s);
}

Step-IsSound : {p q : Provider} → Step p q → IsSound p → IsSound q
Step-IsSound (admits h) s = admit-IsSound _ _ h s
Step-IsSound (leaves h) s = leave-IsSound _ h s
Step-IsSound drains s = drain-IsSound _ s
Step-IsSound disposes s = dispose-IsSound _ s
Step-IsSound (cancels b h) s = cancelled-IsSound _ b h s
Step-IsSound (cleans_up h) s = clean_up-IsSound _ h s
Step-IsSound (cleans b h) s = cleaned-IsSound _ b h s

pub new-IsSound : IsSound new_provider
new-IsSound = record {
  quiet = λ k. refl;
  closed = λ k. cc;
  awaited = λ k. cc;
  idle = λ k. refl;
  ended = λ k. cc;
}

pub Steps-IsSound : {p q : Provider} → Steps p q → IsSound p → IsSound q
Steps-IsSound stop s = s
Steps-IsSound (follow a rest) s = Steps-IsSound rest (Step-IsSound a s)

-- In whatever order calls and hooks run, once disposal is past `drain` no operation is in flight,
-- none is admitted, and no call of `drain` still waits. So the `cleanup` hook never runs beside an
-- operation.
pub cleanup_excludes_work :
    (p : Provider)
    → Steps new_provider p
    → is_quiet p.disposal ≡ true
    → (p.active_count ≡ 0) × (admit p ≡ none) × (p.idle_waiters ≡ 0)
unfolding admit
cleanup_excludes_work p run k =
    let s = Steps-IsSound run new-IsSound in (s.quiet k, ground (arith, s), s.idle (s.quiet k))
