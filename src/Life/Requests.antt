-- ===== src/Life/Requests.antt =====
-- Requests on tasks, one after another, keep every task paid as its status says.
use kids_chores_api.SeriesCompletion.{evaluate}
use kids_chores_api.Life.Frame.{IsSettled}
use kids_chores_api.Life.Steps.{run_task-IsSettled}
use kids_chores_api.Life.Series.{bind-IsSettled, on_error-IsSettled, evaluate-IsSettled}
use kids_chores_api.Routes.Tasks.Work.{
  refused_422, rejected_422, check_series, evaluate_found, series_instance_of, complete_work,
  excuse_work, review_work, cancel_work,
}
use kids_chores_api.StateMachine.{complete, submit_excuse, review, resolve_excuse, cancel_task}
use kids_chores_api.StateMachine.Plan.{
  TaskCall, completing, excusing, reviewing, resolving, cancelling, Context, run_task,
}
use kids_chores_api.Session.{◌>>◌, on_error, Session, find_row, pure}
use kids_chores_api.Models.{
  RowId, Time, Household, Member, TaskDefinition, TaskInstance, Series, SeriesInstance, TaskStatus,
  is_status,
}
use kids_chores_api.Prelude.{Bool, ◌≡◌, inl, inr, Option, none, some, Text, Bool-cases}

check_series-IsSettled :
    (id : Option RowId) (member : Member) (now : Time) (s : Session)
    → IsSettled s
    → IsSettled (check_series id member now s).1
unfolding check_series
check_series-IsSettled none member now s kept = kept
check_series-IsSettled (some id) member now s kept = go (series_instance_of id s.current)
  where
    go :
        (found : Option (SeriesInstance × Series)) → IsSettled (evaluate_found found member now s).1
    go none = kept
    go (some (r, series)) =
        bind-IsSettled s (evaluate r series member now) (λ _. pure tt)
          (evaluate-IsSettled r series member now s kept) (λ _ t h. h)

module _ (i : TaskInstance) (d : TaskDefinition) (member : Member) (household : Household)
    (now : Time) (s : Session)
    (found : find_row (λ (r : TaskInstance). r.id) i.id s.current.task_instances ≡ some i)
    (kept : IsSettled s) where
  abbrev context : Context
  context = record { definition = d; actor = member; household = household; now = now }

  called : (c : TaskCall) → IsSettled (run_task c context i s).1
  called c = run_task-IsSettled c context i s found kept

  pub complete_work-IsSettled :
      (note : Option Text) → IsSettled (complete_work i d member household note now s).1
  unfolding complete_work run_task
  complete_work-IsSettled note =
      bind-IsSettled s (on_error refused_422 (complete i d member household note now))
        (λ done. check_series done.series_instance_id member now >> pure done)
        (on_error-IsSettled s refused_422 (complete i d member household note now)
          (called (completing note)))
        (λ done t h.
          bind-IsSettled t (check_series done.series_instance_id member now) (λ _. pure done)
            (check_series-IsSettled done.series_instance_id member now t h) (λ _ u k. k))

  pub excuse_work-IsSettled : (text : Text) → IsSettled (excuse_work i member text now s).1
  unfolding excuse_work run_task
  excuse_work-IsSettled text =
      on_error-IsSettled s rejected_422 (submit_excuse i member text now) (called (excusing text))

  pub review_work-IsSettled :
      (approve : Bool) (comment : Option Text)
      → IsSettled (review_work i d member household approve comment now s).1
  unfolding review_work run_task
  review_work-IsSettled approve comment =
      elim (Bool-cases (is_status i.status TaskStatus.review_pending)) [
        | inl reviewed ↦ rw reviewed (
            on_error-IsSettled s rejected_422 (review i d member household approve comment now)
              (called (reviewing approve comment)))
        | inr other ↦ elim (Bool-cases (is_status i.status TaskStatus.excuse_pending)) [
          | inl excused ↦
              rw (other, excused)
                (on_error-IsSettled s rejected_422
                  (resolve_excuse i d member household approve comment now)
                  (called (resolving approve comment)))
          | inr neither ↦ rw (other, neither) kept
        ]
      ]

  pub cancel_work-IsSettled :
      (reason : Option Text) → IsSettled (cancel_work i member reason now s).1
  unfolding cancel_work run_task
  cancel_work-IsSettled reason =
      on_error-IsSettled s refused_422 (cancel_task i member reason now)
        (called (cancelling reason))
