-- ===== src/Routes/Tasks/Work.antt =====
-- backend/app/routers/tasks.py: what its handlers do in the database session.
use kids_chores_api.StateMachine.{complete}
use kids_chores_api.SeriesCompletion.{evaluate}
use kids_chores_api.StateMachine.{resolve_excuse, review, submit_excuse, cancel_task}
use kids_chores_api.Prelude.{none, if◌then◌else◌, some, Bool, Text, Option}
use kids_chores_api.Session.{
  raise, ◌>>◌, query, ◌>>=◌, on_error, pure, value_error, Action, find_row, invalid_transition, Db,
  http, Error,
}
use kids_chores_api.Models.{
  TaskStatus, is_status, Time, Household, TaskDefinition, Member, Series, RowId, SeriesInstance,
  TaskInstance,
}

-- `except InvalidTransitionError`
abbrev pub refused_422 : Error → Error
refused_422 invalid_transition = http 422
refused_422 e = e

-- `except (InvalidTransitionError, ValueError)`
abbrev pub rejected_422 : Error → Error
rejected_422 invalid_transition = http 422
rejected_422 value_error = http 422
rejected_422 e = e

-- The series instance of a completed task, with its series.
with_series : SeriesInstance → Db → Option (SeriesInstance × Series)
with_series r db = elim (find_row (λ (x : Series). x.id) r.series_id db.series) [
  | none ↦ none
  | some series ↦ some (r, series)
]

unfoldable pub series_instance_of : RowId → Db → Option (SeriesInstance × Series)
unfolding with_series
series_instance_of id db = elim (find_row (λ (x : SeriesInstance). x.id) id db.series_instances) [
  | none ↦ none
  | some r ↦ with_series r db
]

-- `if series_instance:`
unfoldable pub evaluate_found : Option (SeriesInstance × Series) → Member → Time → Action Unit
evaluate_found none member now = pure tt
evaluate_found (some (r, series)) member now = evaluate r series member now >> pure tt

-- `if completed.series_instance_id:`
unfoldable pub check_series : Option RowId → Member → Time → Action Unit
unfolding evaluate_found series_instance_of
check_series none member now = pure tt
check_series (some id) member now = do
  found ← query (series_instance_of id)
  evaluate_found found member now

-- What the handlers do in the session, once the request may run.
unfoldable pub complete_work :
    TaskInstance → TaskDefinition → Member → Household → Option Text → Time → Action TaskInstance
complete_work instance definition member household note now = do
  done ← on_error refused_422 (complete instance definition member household note now)
  check_series done.series_instance_id member now
  pure done

unfoldable pub excuse_work : TaskInstance → Member → Text → Time → Action TaskInstance
excuse_work instance member text now =
    on_error rejected_422 (submit_excuse instance member text now)

unfoldable pub review_work :
    TaskInstance
    → TaskDefinition
    → Member
    → Household
    → Bool
    → Option Text
    → Time
    → Action TaskInstance
review_work instance definition parent household approve comment now = on_error rejected_422 (
    if is_status instance.status TaskStatus.review_pending
    then review instance definition parent household approve comment now
    else if is_status instance.status TaskStatus.excuse_pending
    then resolve_excuse instance definition parent household approve comment now
    else raise (http 422))

unfoldable pub cancel_work : TaskInstance → Member → Option Text → Time → Action TaskInstance
cancel_work instance parent reason now =
    on_error refused_422 (cancel_task instance parent reason now)
