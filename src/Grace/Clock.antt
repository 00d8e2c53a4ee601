-- ===== src/Grace/Clock.antt =====
-- `grace_remaining` in closed form, and how it runs down.
use kids_chores_api.Prelude.{arith, none, ◌-◌, ◌≢◌, ◌*◌, max, is_none, if◌then◌else◌, ◌≡◌, ◌≤◌, ℕ}
use kids_chores_api.Prelude.Int.{sub_ℕ, ◌≤ℤ◌, ◌-ℤ◌, ◌+ℤ◌}
use kids_chores_api.Models.{Time, TaskInstance}
use kids_chores_api.Grace.{second, hour, grace_remaining}

-- A paused clock has the counted seconds used up, whatever the time is; a running one has used the
-- longer of the counted seconds and the time since the due time.
unfoldable pub grace_used : TaskInstance → Time → ℕ
grace_used i now =
    if is_none i.grace_paused_at
    then max (i.grace_elapsed_seconds * second) (now - i.due_at)
    else i.grace_elapsed_seconds * second

-- What is left of the grace period is the period less what has been used: the counted seconds while
-- the clock is paused, the longer of these and the time since the due time while it runs.
pub grace_remaining_lem :
    (i : TaskInstance) (hours : ℕ) (now : Time)
    → grace_remaining i hours now ≡ sub_ℕ (hours * hour) (grace_used i now)
unfolding grace_remaining grace_used ◌+ℤ◌ ◌-ℤ◌
grace_remaining_lem i hours now = ground arith

-- The grace that is left never grows as time passes.
pub grace_remaining_antitone :
    (i : TaskInstance) (hours : ℕ) {now later : Time}
    → now ≤ later
    → grace_remaining i hours later ≤ℤ grace_remaining i hours now
unfolding grace_used
grace_remaining_antitone i hours {now} {later} h =
    rw (grace_remaining_lem i hours now, grace_remaining_lem i hours later) (ground arith)

-- While the clock is paused, the grace that is left stays the same.
pub grace_remaining_paused :
    (i : TaskInstance) (hours : ℕ) (now later : Time)
    → i.grace_paused_at ≢ none
    → grace_remaining i hours later ≡ grace_remaining i hours now
unfolding grace_used
grace_remaining_paused i hours now later h =
    rw (grace_remaining_lem i hours now, grace_remaining_lem i hours later) (ground arith)
