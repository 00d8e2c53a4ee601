-- ===== src/Tests.antt =====
-- The theorems at concrete inputs: a teen with a task worth 51 points that is under way, one that
-- waits for review, one that has been completed, and an excuse.
use kids_chores_api.Ledger.Twice.{award_committed_once, run_later, HasOne}
mod Requests
mod Services
mod Nightly
mod Accounts
mod Plans
mod Summaries
use kids_chores_api.StateMachine.Outcomes.{resolve_excuse_denied, denied_to, saving}
use kids_chores_api.Prelude.{
  true, Bool, List, ◌++◌, ◌+◌, ◌-◌, ◌*◌, ◌/◌, ◌≡◌, refl, false, none, some, [], ◌∷◌, arith, codes,
}
use kids_chores_api.Prelude.Int.{pos, ◌+ℤ◌, sub_ℕ}
use kids_chores_api.Models.{
  AuthProvider, ExcusedPayoutPolicy, ScheduleType, TaskStatus, LedgerEntryType, MemberRole,
  Household, Member, TaskDefinition, TaskInstance, LedgerEntry,
}
use kids_chores_api.Session.{commit, Db, Session, err, duplicate_ledger_entry}
use kids_chores_api.Ledger.{award_task_completion, violates_unique, sum_delta}
use kids_chores_api.Ledger.Index.{count_task}
use kids_chores_api.Ledger.Posting.{LedgerCall, run_call}
use kids_chores_api.Ledger.Audit.{IsSound, run_calls, run_calls-IsSound}
use kids_chores_api.Ledger.Awards.{Moves, run_call-Moves}
use kids_chores_api.Grace.{second, hour, grace_remaining, suspend_grace, resume_grace}
use kids_chores_api.Grace.Clock.{grace_used, grace_remaining_lem}
use kids_chores_api.Grace.Suspension.{suspension_counts, suspended_twice}
use kids_chores_api.StateMachine.{resolve_excuse, complete}
use kids_chores_api.StateMachine.Plan.{TaskCall, Context, run_task, plan, carry_out, run_task-plan}
use kids_chores_api.StateMachine.Diagram.{◌⟶◌, SameTask, run_task_walks}
use kids_chores_api.StateMachine.Payment.{IsPaid, net_points}
use kids_chores_api.StateMachine.Payment.Calls.{run_task-IsPaid}

abbrev pub home : Household
home = record {
  id = 1;
  name = [];
  timezone = [];
  points_label = [];
  excused_payout_policy = ExcusedPayoutPolicy.excused_pays_partial;
  grace_period_hours = 24;
  task_reminder_minutes_before_due = 60;
  created_at = 0;
}

abbrev pub teen : Member
teen = record {
  id = 2;
  household_id = 1;
  role = MemberRole.teen;
  display_name = [];
  avatar = none;
  auth_provider = AuthProvider.email;
  auth_subject = [];
  password_hash = none;
  pin_hash = none;
  birthdate = none;
  push_token = none;
  created_at = 0;
  archived_at = none;
}

abbrev pub dishes : TaskDefinition
dishes = record {
  id = 3;
  household_id = 1;
  assignee_id = 2;
  title = [];
  description = none;
  point_value = 51;
  schedule_type = ScheduleType.daily;
  weekday_mask = none;
  start_date = [];
  end_date = none;
  due_time = [];
  requires_review = false;
  series_id = none;
  archived_at = none;
  created_by = 4;
  created_at = 0;
}

abbrev pub task_in : TaskStatus → TaskInstance
task_in status = record {
  id = 5;
  definition_id = 3;
  assignee_id = 2;
  due_at = 1_000_000_000;
  point_value = 51;
  status = status;
  completed_at = none;
  completion_note = none;
  excuse_text = none;
  excuse_submitted_at = none;
  grace_paused_at = none;
  grace_elapsed_seconds = 0;
  reviewed_by = none;
  reviewed_at = none;
  review_comment = none;
  series_instance_id = none;
  reminder_sent_at = none;
}

abbrev pub empty_db : Db
empty_db = record {
  households = home ∷ [];
  members = teen ∷ [];
  task_definitions = dishes ∷ [];
  task_instances = task_in TaskStatus.pending ∷ [];
  series = [];
  series_instances = [];
  ledger_entries = [];
  claims = [];
  savings_goals = [];
}

abbrev pub fresh : Session
fresh = record {
  committed = empty_db;
  current = empty_db;
  tx_time = 7;
  uuids = λ n. n + 100;
  drawn = 0;
}

abbrev today : Context
today = record { definition = dishes; actor = teen; household = home; now = 2_000_000_000 }

abbrev pub task : TaskInstance
task = task_in TaskStatus.pending

run_task-plan_example :
    run_task (TaskCall.completing none) today task fresh
    ≡ carry_out (plan (TaskCall.completing none) today task) fresh
run_task-plan_example = run_task-plan (TaskCall.completing none) today task fresh

abbrev finished : TaskInstance
finished = record task { status = TaskStatus.complete; completed_at = some 2_000_000_000 }

run_task-IsPaid_example :
    IsPaid finished (run_task (TaskCall.completing none) today task fresh).1.current.ledger_entries
unfolding run_task complete award_task_completion violates_unique sum_delta net_points count_task
run_task-IsPaid_example =
    run_task-IsPaid (TaskCall.completing none) today task fresh {j = finished} (refl, refl) refl

run_task_walks_example : (TaskStatus.pending ⟶ TaskStatus.complete) × SameTask task finished
unfolding run_task complete award_task_completion violates_unique sum_delta
run_task_walks_example =
    run_task_walks (TaskCall.completing none) today task fresh {j = finished} refl

abbrev pay : LedgerCall
pay = LedgerCall.task_completion task dishes teen home

run_calls-IsSound_example : IsSound (run_calls (pay ∷ pay ∷ []) fresh)
run_calls-IsSound_example =
    run_calls-IsSound (pay ∷ pay ∷ []) fresh (record { now = tt; saved = tt })

run_call-Moves_example : Moves pay fresh (run_call pay fresh)
run_call-Moves_example = run_call-Moves pay fresh

abbrev pub entry : LedgerEntry
entry = record {
  id = 100;
  member_id = 2;
  delta = pos 51;
  balance_after = pos 51;
  entry_type = LedgerEntryType.task_completed;
  task_instance_id = some 5;
  series_instance_id = none;
  claim_id = none;
  reason = codes "Completed: " ++ [];
  created_by = 2;
  created_at = 7;
}

-- The award is committed, then asked for again in vain, then reversed, and asked for a third time.
abbrev later_calls : List (LedgerCall × Bool)
later_calls =
    (pay, true) ∷ (LedgerCall.reversal task teen (codes "by mistake"), true) ∷ (pay, false) ∷ []

abbrev award_session : Session
award_session = run_later later_calls (commit (award_task_completion task dishes teen home fresh).1)

award_committed_once_example :
    ((award_task_completion task dishes teen home award_session).0 ≡ err duplicate_ledger_entry)
    × HasOne 5 (award_task_completion task dishes teen home award_session).1
unfolding award_task_completion violates_unique sum_delta ◌+ℤ◌
award_committed_once_example =
    award_committed_once task task dishes dishes teen teen home home fresh later_calls {e = entry}
      refl refl

grace_remaining_lem_example : grace_remaining task 24 5 ≡ sub_ℕ (24 * hour) (grace_used task 5)
grace_remaining_lem_example = grace_remaining_lem task 24 5

abbrev waiting : TaskInstance
waiting = record (task_in TaskStatus.excuse_pending) { grace_paused_at = some 5 }

resolve_excuse_denied_example :
    resolve_excuse waiting dishes teen home false (some (7 ∷ [])) 9_000_000_000 fresh
    ≡ saving
        (record waiting {
          reviewed_by = some 2;
          reviewed_at = some 9_000_000_000;
          review_comment = some (7 ∷ []);
          grace_paused_at = none;
          status = denied_to waiting home 9_000_000_000;
        })
        fresh
resolve_excuse_denied_example =
    resolve_excuse_denied waiting dishes teen home (some (7 ∷ [])) 9_000_000_000 fresh refl refl

suspension_counts_example :
    grace_remaining
      (resume_grace (suspend_grace (task_in TaskStatus.overdue) 2_000_000_000) 9_000_000_000)
      24
      9_000_000_000
    ≡ grace_remaining (task_in TaskStatus.overdue) 24 9_000_000_000
suspension_counts_example =
    suspension_counts (task_in TaskStatus.overdue) 24 {paused = 2_000_000_000}
      {resumed = 9_000_000_000} {now = 9_000_000_000} refl refl (omega arith) (omega arith)

suspended_twice_example :
    grace_remaining
      (suspend_grace
        (resume_grace (suspend_grace (task_in TaskStatus.overdue) 2_000_000_000) 3_000_000_000)
        4_000_000_000)
      24
      4_000_000_000
    ≡ sub_ℕ (24 * hour) (
        ((2_000_000_000 - 1_000_000_000) / second + (4_000_000_000 - 1_000_000_000) / second)
        * second)
suspended_twice_example =
    suspended_twice (task_in TaskStatus.overdue) 24 2_000_000_000 3_000_000_000 4_000_000_000 refl
      refl
