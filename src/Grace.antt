-- ===== src/Grace.antt =====
-- The grace-period clock of backend/app/services/state_machine.py: `grace_remaining`,
-- `_suspend_grace` and `_resume_grace`. A `timedelta` is an integer of microseconds.
use kids_chores_api.Prelude.Int.{◌+ℤ◌, ◌-ℤ◌, sub_ℕ, max_ℤ, pos, ℤ}
use kids_chores_api.Prelude.{some, ◌/◌, ◌+◌, ◌-◌, ◌*◌, is_none, if◌then◌else◌, none, ℕ}
use kids_chores_api.Models.{Time, TaskInstance}
pub mod Clock
pub mod Suspension

abbrev pub second : ℕ
second = 1_000_000

abbrev pub hour : ℕ
hour = 3_600_000_000

-- `instance.grace_elapsed_seconds` is an integer column, so `int` drops the fraction of a second.
unfoldable pub suspend_grace : TaskInstance → Time → TaskInstance
suspend_grace instance now =
    if is_none instance.grace_paused_at
    then (let elapsed = now - instance.due_at in
        record instance {
          grace_elapsed_seconds = instance.grace_elapsed_seconds + elapsed / second;
          grace_paused_at = some now;
        })
    else record instance { grace_paused_at = some now }

unfoldable pub resume_grace : TaskInstance → Time → TaskInstance
resume_grace instance now = record instance { grace_paused_at = none }

unfoldable pub grace_remaining : TaskInstance → ℕ → Time → ℤ
grace_remaining instance grace_period_hours now =
    let total_grace = pos (grace_period_hours * hour) in
    let used = pos (instance.grace_elapsed_seconds * second) in
    let extra = max_ℤ (pos 0) (sub_ℕ now instance.due_at -ℤ used) in
    total_grace -ℤ (if is_none instance.grace_paused_at then used +ℤ extra else used)
