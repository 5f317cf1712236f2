-- ===== src/Runs/Lifecycle.antt =====
-- The states of a run.
use georesearch_dsh.Prelude.{
  ℕ, ◌+◌, ◌≤◌, ◌<◌, ◌≡◌, ◌≢◌, ◌⊎◌, inl, inr, refl, Bool, true, false, arith,
}
use georesearch_dsh.Contracts.Run.{RunState}
use georesearch_dsh.Runs.{valid_run_transition}

-- How many transitions may follow at most.
abbrev pub rank : RunState → ℕ
rank RunState.starting = 3
rank RunState.running = 2
rank RunState.collecting = 1
rank _ = 0

pub rank-transition : (s t : RunState) → valid_run_transition s t ≡ true → rank t < rank s
unfolding valid_run_transition
rank-transition s t h = ground (arith, h)

abbrev pub is_terminal : RunState → Bool
is_terminal RunState.succeeded = true
is_terminal RunState.failed = true
is_terminal RunState.cancelled = true
is_terminal RunState.recovery_required = true
is_terminal _ = false

pub last_update : (t : RunState) (n : ℕ) → n + rank t ≤ 3 → (n ≢ 3) ⊎ (is_terminal t ≡ true)
last_update RunState.starting n h = inl (λ e. absurd (omega arith))
last_update RunState.running n h = inl (λ e. absurd (omega arith))
last_update RunState.collecting n h = inl (λ e. absurd (omega arith))
last_update RunState.succeeded n h = inr refl
last_update RunState.failed n h = inr refl
last_update RunState.cancelled n h = inr refl
last_update RunState.recovery_required n h = inr refl

pub no_way_out : (s t : RunState) → is_terminal s ≡ true → valid_run_transition s t ≡ false
unfolding valid_run_transition
no_way_out s t h = ground (arith, h)
