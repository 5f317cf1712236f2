-- ===== src/Reducer/Step.antt =====
-- `reduceProjectEvent` on a state is the case of the event's type (reducer.ts).
use georesearch_dsh.Prelude.{◌≡◌, refl, some}
use georesearch_dsh.Contracts.State.{ProjectReducerState}
use georesearch_dsh.Contracts.Event.{ProjectEvent, ProjectEventData, project_created}
use georesearch_dsh.Prelude.{String}
use georesearch_dsh.Reducer.Apply.{apply_event}
use georesearch_dsh.Reducer.{reduce, reduce_project_event}

reduce-some :
    (s : ProjectReducerState) (time : String) (e : ProjectEventData)
    → reduce (some s) time e ≡ apply_event s time e
unfolding reduce apply_event
reduce-some s time (project_created b w) = refl
reduce-some s time _ = refl

pub reduce-apply :
    (s : ProjectReducerState) (e : ProjectEvent)
    → reduce_project_event (some s) e ≡ apply_event s e.time e.content
unfolding reduce_project_event
reduce-apply s e = reduce-some s e.time e.content
