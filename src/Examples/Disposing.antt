-- ===== src/Examples/Disposing.antt =====
-- A provider with one operation in flight when it is disposed of.
use georesearch_dsh.Prelude.{◌≡◌, refl, true, false, none, arith}
use georesearch_dsh.Provider.{
  Provider, ProviderLifecycleState, Disposal, new_provider, admit, leave, dispose, cancelled,
}
use georesearch_dsh.Provider.Steps.{
  Steps, stop, follow, admits, leaves, disposes, cancels, is_disposed, cleanup_excludes_work,
}
use georesearch_dsh.Provider.Ending.{disposal_can_end}

abbrev busy : Provider
busy = record new_provider { active_count = 1 }

-- The `cancel` hook has thrown, and disposal waits for the operation.
abbrev waiting : Provider
waiting = record busy {
  current_state = ProviderLifecycleState.draining;
  disposal = Disposal.waiting;
  errors = 1;
}

abbrev quiet : Provider
quiet = record waiting { active_count = 0; disposal = Disposal.drained }

to_waiting : Steps new_provider waiting
unfolding admit dispose cancelled
to_waiting =
    follow (admits {q = busy} refl)
      (follow (disposes {p = busy}) (follow (cancels {p = dispose busy} false refl) stop))

to_quiet : Steps new_provider quiet
unfolding admit dispose cancelled leave
to_quiet = follow (admits {q = busy} refl) (
    follow (disposes {p = busy}) (
      follow (cancels {p = dispose busy} false refl)
        (follow (leaves {p = waiting} (omega arith)) stop)))

cleanup_excludes_work_example :
    (quiet.active_count ≡ 0) × (admit quiet ≡ none) × (quiet.idle_waiters ≡ 0)
cleanup_excludes_work_example = cleanup_excludes_work quiet to_quiet refl

disposal_can_end_example :
    (q : Provider) × Steps waiting q
    × (q.disposal ≡ Disposal.finished)
    × (is_disposed q.current_state ≡ true)
disposal_can_end_example = disposal_can_end waiting to_waiting refl
