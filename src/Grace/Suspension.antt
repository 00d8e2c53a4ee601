-- ===== src/Grace/Suspension.antt =====
-- What a suspension of the grace clock is worth once the clock runs again.
use kids_chores_api.Prelude.Int.{sub_ℕ}
use kids_chores_api.Prelude.{◌+◌, ◌/◌, ◌-◌, ◌*◌, arith, ◌≤◌, none, ◌≡◌, ℕ}
use kids_chores_api.Models.{Time, TaskInstance}
use kids_chores_api.Grace.{second, hour, grace_remaining, suspend_grace, resume_grace}
use kids_chores_api.Grace.Clock.{grace_used, grace_remaining_lem}

module _ (i : TaskInstance) (hours : ℕ) where
  -- A clock that is paused at one time and resumed later reads, from then on, exactly what a clock
  -- that was never paused reads: the time in between counts against the task.
  pub suspension_counts :
      {paused resumed now : Time}
      → i.grace_paused_at ≡ none
      → i.grace_elapsed_seconds ≡ 0
      → paused ≤ resumed
      → resumed ≤ now
      → grace_remaining (resume_grace (suspend_grace i paused) resumed) hours now
        ≡ grace_remaining i hours now
  unfolding suspend_grace resume_grace grace_used
  suspension_counts {paused} {resumed} {now} running fresh h k =
      rw
        (
          grace_remaining_lem i hours now,
          grace_remaining_lem (resume_grace (suspend_grace i paused) resumed) hours now,
        )
        (ground arith)

  -- A second suspension counts the time since the due time again, on top of what the first counted.
  pub suspended_twice :
      (first resumed again : Time)
      → i.grace_paused_at ≡ none
      → i.grace_elapsed_seconds ≡ 0
      → grace_remaining
          (suspend_grace (resume_grace (suspend_grace i first) resumed) again)
          hours
          again
        ≡ sub_ℕ
            (hours * hour)
            (((first - i.due_at) / second + (again - i.due_at) / second) * second)
  unfolding suspend_grace resume_grace grace_used
  suspended_twice first resumed again running fresh =
      rw
        (grace_remaining_lem (suspend_grace (resume_grace (suspend_grace i first) resumed) again)
          hours again)
        (ground arith)
