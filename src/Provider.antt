-- ===== src/Provider.antt =====
-- packages/provider-lifecycle/src/index.ts: `ProviderLifecycle`, cut at its `await`s. Between two cuts
-- the code runs without interruption, so that each function here is one such piece. The `cancel` hook
-- does not call `dispose` before its own first `await`: the source would start a second disposal then.
pub mod Steps
pub mod Ending
use georesearch_dsh.Prelude.{
  ℕ, suc, ◌+◌, ◌-◌, Bool, true, false, Option, none, some, nat_eq, if◌then◌else◌,
}

pub data ProviderLifecycleState : Type 0 where
  accepting draining disposed : ProviderLifecycleState

-- How far `disposeOnce` is: before it, in the `cancel` hook, waiting in `drain`, past `drain`, in the
-- `cleanup` hook, and at its end.
pub data Disposal : Type 0 where
  not_started cancelling waiting drained cleaning finished : Disposal

-- `idle_waiters` counts the waiters of `drain` calls other than that of `disposeOnce`; `errors` counts
-- what the hooks have thrown.
pub record Provider : Type 0 where
  pub current_state : ProviderLifecycleState
  pub active_count : ℕ
  pub idle_waiters : ℕ
  pub disposal : Disposal
  pub errors : ℕ

abbrev pub new_provider : Provider
new_provider = record {
  current_state = ProviderLifecycleState.accepting;
  active_count = 0;
  idle_waiters = 0;
  disposal = Disposal.not_started;
  errors = 0;
}

abbrev pub is_accepting : ProviderLifecycleState → Bool
is_accepting ProviderLifecycleState.accepting = true
is_accepting _ = false

-- `admit` up to the call of the operation; none is a `ProviderAdmissionError`.
unfoldable pub admit : Provider → Option Provider
admit p =
    if is_accepting p.current_state
    then some (record p { active_count = p.active_count + 1 })
    else none

abbrev resumed : Disposal → Disposal
resumed Disposal.waiting = Disposal.drained
resumed d = d

-- The `finally` block of `admit`: the last operation to end resolves all waiters.
unfoldable pub leave : Provider → Provider
leave p =
    if nat_eq (p.active_count - 1) 0
    then record p {
      active_count = p.active_count - 1;
      idle_waiters = 0;
      disposal = resumed p.disposal;
    }
    else record p { active_count = p.active_count - 1 }

abbrev closed : ProviderLifecycleState → ProviderLifecycleState
closed ProviderLifecycleState.accepting = ProviderLifecycleState.draining
closed s = s

-- A call of `drain` from outside.
unfoldable pub drain : Provider → Provider
drain p =
    if nat_eq p.active_count 0
    then record p { current_state = closed p.current_state }
    else record p { current_state = closed p.current_state; idle_waiters = p.idle_waiters + 1 }

-- `dispose`: every call but the first returns the promise of the first.
unfoldable pub dispose : Provider → Provider
dispose p = elim p.disposal [
  | Disposal.not_started ↦ record p {
    current_state = ProviderLifecycleState.draining;
    disposal = Disposal.cancelling;
  }
  | _ ↦ p
]

abbrev count_error : Bool → ℕ → ℕ
count_error true n = n
count_error false n = suc n

-- The `cancel` hook has ended, well or with an error, and `disposeOnce` calls `drain`.
unfoldable pub cancelled : Bool → Provider → Provider
cancelled ended_well p = record p {
  current_state = closed p.current_state;
  disposal = if nat_eq p.active_count 0 then Disposal.drained else Disposal.waiting;
  errors = count_error ended_well p.errors;
}

-- `drain` has returned to `disposeOnce`, which calls the `cleanup` hook.
unfoldable pub clean_up : Provider → Provider
clean_up p = record p { disposal = Disposal.cleaning }

unfoldable pub cleaned : Bool → Provider → Provider
cleaned ended_well p = record p {
  current_state = ProviderLifecycleState.disposed;
  disposal = Disposal.finished;
  errors = count_error ended_well p.errors;
}
