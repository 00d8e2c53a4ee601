-- ===== src/StateMachine.antt =====
-- backend/app/services/state_machine.py: the transition table and `StateMachineService`. A method
-- takes the instance that the session has loaded and the definition that was loaded with it, writes
-- the changed row to the session and returns it; `now` is what `datetime.now(UTC)` reads.
use kids_chores_api.Prelude.Int.{pos, ltb_ℤ}
use kids_chores_api.Ledger.{award_excuse_if_policy, award_task_completion, write_reversal}
use kids_chores_api.Session.{
  value_error, when, pure, add_instance, invalid_transition, raise_if, ◌>>◌, ◌>>=◌, key_error,
  or_raise, Action,
}
use kids_chores_api.Prelude.{
  strip, length, is_missing, ltb, ◌&&◌, if◌then◌else◌, not, none, ◌||◌, some, Text, Option, Bool,
}
use kids_chores_api.Grace.{grace_remaining, suspend_grace, resume_grace}
use kids_chores_api.Models.{
  Time, Household, is_status, TaskDefinition, Member, TaskInstance, TaskStatus,
}
pub mod Outcomes
pub mod Plan
pub mod Diagram
pub mod Payment

pub data Trigger : Type 0 where
  complete_auto complete_review excuse due_passes cancel approve deny_before_due deny_after_due
        grace_expires deny_grace_remaining deny_grace_expired parent_reverses_before_due
        parent_reverses_after_due :
      Trigger

-- `_TRANSITIONS`; a pair that is not a key has no value.
unfoldable pub transitions : TaskStatus → Trigger → Option TaskStatus
transitions TaskStatus.pending complete_auto = some TaskStatus.complete
transitions TaskStatus.pending complete_review = some TaskStatus.review_pending
transitions TaskStatus.pending excuse = some TaskStatus.excuse_pending
transitions TaskStatus.pending due_passes = some TaskStatus.overdue
transitions TaskStatus.pending cancel = some TaskStatus.cancelled
transitions TaskStatus.overdue complete_auto = some TaskStatus.complete
transitions TaskStatus.overdue complete_review = some TaskStatus.review_pending
transitions TaskStatus.overdue excuse = some TaskStatus.excuse_pending
transitions TaskStatus.overdue grace_expires = some TaskStatus.missed
transitions TaskStatus.overdue cancel = some TaskStatus.cancelled
transitions TaskStatus.review_pending approve = some TaskStatus.complete
transitions TaskStatus.review_pending deny_before_due = some TaskStatus.pending
transitions TaskStatus.review_pending deny_after_due = some TaskStatus.overdue
transitions TaskStatus.excuse_pending approve = some TaskStatus.excused
transitions TaskStatus.excuse_pending deny_grace_remaining = some TaskStatus.overdue
transitions TaskStatus.excuse_pending deny_grace_expired = some TaskStatus.missed
transitions TaskStatus.complete parent_reverses_before_due = some TaskStatus.overdue
transitions TaskStatus.complete parent_reverses_after_due = some TaskStatus.missed
transitions _ _ = none

-- `_TRANSITIONS[(status, trigger)]`
abbrev pub transition : TaskStatus → Trigger → Action TaskStatus
transition status trigger = or_raise (transitions status trigger) key_error

-- `TERMINAL_STATES`
abbrev pub is_terminal : TaskStatus → Bool
is_terminal status =
    is_status status TaskStatus.missed
    || is_status status TaskStatus.excused
    || is_status status TaskStatus.cancelled

-- `status in (TaskStatus.pending, TaskStatus.overdue)`
abbrev pub is_open : TaskStatus → Bool
is_open status = is_status status TaskStatus.pending || is_status status TaskStatus.overdue

unfoldable pub complete :
    TaskInstance → TaskDefinition → Member → Household → Option Text → Time → Action TaskInstance
unfolding transitions
complete instance definition actor household note now = do
  raise_if (not (is_open instance.status)) invalid_transition
  let trigger = if definition.requires_review then complete_review else complete_auto
  new_status ← transition instance.status trigger
  let done = record instance {
    completed_at = some now;
    completion_note = note;
    status = new_status;
  }
  when (is_status new_status TaskStatus.complete)
      (award_task_completion done definition actor household)
  add_instance done
  pure done

unfoldable pub submit_excuse : TaskInstance → Member → Text → Time → Action TaskInstance
unfolding transitions suspend_grace
submit_excuse instance actor excuse_text now = do
  raise_if (not (is_open instance.status)) invalid_transition
  raise_if (ltb (length (strip excuse_text)) 10) value_error
  let noted = record instance { excuse_text = some excuse_text; excuse_submitted_at = some now }
  let paused =
      if is_status instance.status TaskStatus.overdue then suspend_grace noted now else noted
  new_status ← transition instance.status excuse
  let submitted = record paused { status = new_status }
  add_instance submitted
  pure submitted

-- The columns that every decision of a parent writes.
abbrev decided : TaskInstance → Member → Option Text → Time → TaskInstance
decided instance reviewer comment now = record instance {
  reviewed_by = some reviewer.id;
  reviewed_at = some now;
  review_comment = comment;
}

unfoldable pub review :
    TaskInstance
    → TaskDefinition
    → Member
    → Household
    → Bool
    → Option Text
    → Time
    → Action TaskInstance
unfolding transitions resume_grace
review instance definition reviewer household approved comment now = do
  raise_if (not (is_status instance.status TaskStatus.review_pending)) invalid_transition
  raise_if (not approved && is_missing comment) value_error
  let seen = decided instance reviewer comment now
  if approved
      then (do
        new_status ← transition TaskStatus.review_pending approve
        let accepted = record seen { status = new_status }
        award_task_completion accepted definition reviewer household
        add_instance accepted
        pure accepted)
      else do
        let trigger = if ltb now instance.due_at then deny_before_due else deny_after_due
        new_status ← transition TaskStatus.review_pending trigger
        let denied = record seen { status = new_status }
        let resumed =
            if is_status new_status TaskStatus.overdue then resume_grace denied now else denied
        add_instance resumed
        pure resumed

unfoldable pub resolve_excuse :
    TaskInstance
    → TaskDefinition
    → Member
    → Household
    → Bool
    → Option Text
    → Time
    → Action TaskInstance
unfolding transitions resume_grace
resolve_excuse instance definition reviewer household approved comment now = do
  raise_if (not (is_status instance.status TaskStatus.excuse_pending)) invalid_transition
  raise_if (not approved && is_missing comment) value_error
  let seen = decided instance reviewer comment now
  if approved
      then (do
        new_status ← transition TaskStatus.excuse_pending approve
        let accepted = record seen { status = new_status }
        award_excuse_if_policy accepted definition reviewer household
        add_instance accepted
        pure accepted)
      else do
        let resumed = resume_grace seen now
        let remaining = grace_remaining resumed household.grace_period_hours now
        let trigger = if ltb_ℤ (pos 0) remaining then deny_grace_remaining else deny_grace_expired
        new_status ← transition TaskStatus.excuse_pending trigger
        let denied = record resumed { status = new_status }
        add_instance denied
        pure denied

unfoldable pub cancel_task : TaskInstance → Member → Option Text → Time → Action TaskInstance
unfolding transitions
cancel_task instance actor reason now = do
  raise_if (not (is_open instance.status)) invalid_transition
  new_status ← transition instance.status cancel
  let voided = record (decided instance actor reason now) { status = new_status }
  add_instance voided
  pure voided

unfoldable pub reverse_completion : TaskInstance → Member → Text → Time → Action TaskInstance
unfolding transitions
reverse_completion instance reviewer reason now = do
  raise_if (not (is_status instance.status TaskStatus.complete)) invalid_transition
  let trigger =
      if ltb now instance.due_at then parent_reverses_before_due else parent_reverses_after_due
  new_status ← transition TaskStatus.complete trigger
  let reversed = record (decided instance reviewer (some reason) now) { status = new_status }
  write_reversal reversed reviewer reason
  add_instance reversed
  pure reversed
