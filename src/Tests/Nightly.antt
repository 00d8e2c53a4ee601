-- ===== src/Tests/Nightly.antt =====
-- The theorems on series and on the nightly job at concrete inputs.
use kids_chores_api.Web.Notifications.{notify_task_reminder}
use kids_chores_api.Reminders.{
  loaded_task, is_near, reminder_push, reminder_pushes, reminded, is_due_soon, wants_reminder,
  send_task_reminders,
}
use kids_chores_api.Generation.Horizon.{generate_for_household-covers}
use mathlib.Core.List.Memᴰ
use kids_chores_api.SeriesCompletion.Payout.{evaluate-pays}
use kids_chores_api.Prelude.Int.{pos, ◌+ℤ◌}
use kids_chores_api.Ledger.Awards.{balance}
use kids_chores_api.Reminders.Once.{first_reminder, reminder_runs, reminders_once}
use kids_chores_api.SeriesCompletion.Verdict.{
  evaluate-verdict, completed_tasks, pay_and_close, tasks_of, all_settled,
}
use kids_chores_api.Generation.Upsert.{upsert_again}
use kids_chores_api.Life.Sweep.{sweep-IsSettled}
use kids_chores_api.Ledger.Index.{count_series, count_task}
use kids_chores_api.Generation.Sweep.{sweep-UpToDate, UpToDate}
use kids_chores_api.StateMachine.Payment.{IsPaid, net_points}
use kids_chores_api.Generation.Failure.{job_stops, Raises}
use kids_chores_api.Generation.{
  generate_for_household, taken, Date, sweep, should_generate_for_date, generate_all_households,
  Calendar, upsert_instance_for_date,
}
use kids_chores_api.Session.{Db, ok, modify, Session, find_row}
use kids_chores_api.Prelude.{
  codes, ◌+◌, List, length, arith, true, ◌≤◌, false, inr, subst, inl, ◌==◌, Bool-cases, ◌&&◌, refl,
  ◌/◌, if◌then◌else◌, none, ◌*◌, ◌≡◌, Option, ◌∷◌, [], some, All, Text,
}
use kids_chores_api.Life.Frame.{AllPaid, IsSettled}
use kids_chores_api.Models.{
  Time, RowId, SeriesWindowType, is_active, SeriesPayoutMode, TaskStatus, SeriesStatus,
  SeriesInstance, Series, TaskDefinition,
}
use kids_chores_api.SeriesCompletion.{sum_points, evaluate}
use kids_chores_api.Tests.{finished, home, teen, dishes, empty_db, fresh, task}

abbrev week : Series
week = record {
  id = 20;
  household_id = 1;
  name = [];
  assignee_id = 2;
  bonus_points = 30;
  payout_mode = SeriesPayoutMode.individual_plus_bonus;
  window_type = SeriesWindowType.weekly;
  archived_at = none;
  created_at = 0;
}

abbrev this_week : SeriesInstance
this_week = record {
  id = 21;
  series_id = 20;
  window_start = 0;
  window_end = 5_000_000_000;
  status = SeriesStatus.active;
  completed_at = none;
  expiring_reminder_sent_at = none;
}

abbrev with_series : Session
with_series = record fresh {
  current = record empty_db {
    series_instances = this_week ∷ [];
    task_instances =
        record task { status = TaskStatus.complete; series_instance_id = some 21 } ∷ [];
  };
}

evaluate-verdict_example : evaluate this_week week teen 9 with_series ≡ (
    if is_active this_week.status && all_settled (tasks_of this_week with_series.current)
    then pay_and_close this_week week teen 9
        (completed_tasks this_week with_series.current)
        with_series
    else (ok false, with_series))
evaluate-verdict_example = evaluate-verdict this_week week teen 9 with_series

-- A text is a date when it is one number.
abbrev read_day : Text → Option Date
read_day [] = none
read_day (d ∷ []) = some d
read_day (d ∷ e ∷ t) = none

abbrev pub calendar : Calendar
calendar = record {
  parse_date = read_day;
  due_at = λ zone day time. some (day * 86_400_000_000);
  local_date = λ zone now. now / 86_400_000_000;
}

abbrev daily : TaskDefinition
daily = record dishes { start_date = 3 ∷ [] }

upsert_again_example :
    let after = (upsert_instance_for_date calendar daily 4 [] 0 fresh).1 in
    (upsert_instance_for_date calendar daily 4 [] 9 after).1.current ≡ after.current
unfolding upsert_instance_for_date should_generate_for_date taken
upsert_again_example = upsert_again calendar daily 4 [] 0 9 fresh refl

sweep-UpToDate_example :
    All
      (UpToDate (dishes ∷ []) 24 2_000_000_000)
      (sweep (dishes ∷ []) 24 2_000_000_000 empty_db).task_instances
sweep-UpToDate_example = sweep-UpToDate (dishes ∷ []) 24 2_000_000_000 empty_db

abbrev broken : TaskDefinition
broken = record dishes { start_date = 0 ∷ []; end_date = some (1 ∷ 2 ∷ []) }

abbrev with_broken : Session
with_broken = record fresh { current = record empty_db { task_definitions = broken ∷ [] } }

job_stops_example :
    Raises (generate_all_households calendar (home ∷ []) 9 with_broken)
    × ((generate_all_households calendar (home ∷ []) 9 with_broken).1.current ≡ empty_db)
job_stops_example =
    job_stops calendar home 9 broken [] [] [] with_broken
      (record {
        start = 0;
        text = 1 ∷ 2 ∷ [];
        starts = refl;
        started = refl;
        ends = refl;
        not_empty = refl;
        no_date = refl;
      })
      refl

empty-AllPaid : AllPaid empty_db
unfolding find_row net_points count_task
empty-AllPaid i found = elim (Bool-cases (5 == i.id)) [
  | inl here ↦
      let same : task ≡ i = cc (rw here at found) in subst (λ t. IsPaid t []) same (refl, refl)
  | inr there ↦ cc (rw there at found)
]

sweep-IsSettled_example : IsSettled (modify (sweep (dishes ∷ []) 24 2_000_000_000) fresh).1
sweep-IsSettled_example =
    sweep-IsSettled (dishes ∷ []) 24 2_000_000_000 fresh
      (record { now = empty-AllPaid; saved = empty-AllPaid })

abbrev with_token : Db
with_token = record empty_db { members = record teen { push_token = some (codes "t") } ∷ [] }

-- The task is the second of three, and the job runs three times while it is due.
abbrev reminder_times : List (Time × Db)
reminder_times =
    (999_000_000, with_token) ∷ (999_500_000, with_token) ∷ (1_000_000_001, with_token) ∷ []

-- The second run sends nothing.
one_reminder : length (reminder_runs reminder_times (task ∷ [])) ≡ 1
unfolding reminder_runs send_task_reminders reminder_pushes reminder_push wants_reminder is_due_soon
    is_near loaded_task reminded find_row notify_task_reminder
one_reminder = refl

reminders_once_example :
    (length (reminder_runs reminder_times (finished ∷ task ∷ finished ∷ []))
      ≡ length (reminder_runs reminder_times (task ∷ []))
        + length (reminder_runs reminder_times (finished ∷ finished ∷ [])))
    × (reminder_runs reminder_times (task ∷ []) ≡ first_reminder reminder_times task)
    × (length (first_reminder reminder_times task) ≤ 1)
reminders_once_example = reminders_once reminder_times (finished ∷ []) task (finished ∷ [])

abbrev strict_week : Series
strict_week = record week { payout_mode = SeriesPayoutMode.all_or_nothing }

-- The task's 51 points are paid once more with the bonus of 30.
evaluate-pays_example :
    let after = evaluate this_week strict_week teen 9 with_series in
    (after.0 ≡ ok true)
    × ((m : RowId)
        → balance m after.1
          ≡ (if 2 == m then balance m with_series +ℤ pos 81 else balance m with_series))
    × (find_row (λ (x : SeriesInstance). x.id) 21 after.1.current.series_instances
        ≡ some (record this_week { status = SeriesStatus.complete; completed_at = some 9 }))
unfolding all_settled sum_points count_series find_row
evaluate-pays_example = evaluate-pays this_week strict_week teen with_series 9 refl refl refl refl

abbrev all_week : Session
all_week = record fresh { current = record empty_db { task_definitions = daily ∷ [] } }

-- The second day from now is day 5.
generate_for_household-covers_example :
    let after = generate_for_household calendar home (3 * 86_400_000_000) all_week in
    (after.0 ≡ ok tt) × (taken 3 (5 * 86_400_000_000) after.1.committed.task_instances ≡ true)
unfolding should_generate_for_date
generate_for_household-covers_example =
    generate_for_household-covers calendar home (3 * 86_400_000_000) all_week
      (
        record {
          start = 3;
          starts = refl;
          ends = λ text said. cc;
          due = λ day. (day * 86_400_000_000, refl);
        },
        tt,
      )
      daily 5 (5 * 86_400_000_000) (Memᴰ.head refl) (omega arith) (omega arith) refl refl
