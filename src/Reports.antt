-- ===== src/Reports.antt =====
-- backend/app/services/reports.py: a member's weeks. `local_date` is what `pytz` makes of a moment in
-- the household's zone. A rate is the pair of the numbers that are divided.
pub mod Counts
pub mod Weeks
use kids_chores_api.Prelude.Int.{pos, ◌+ℤ◌, ℤ}
use kids_chores_api.Generation.{weekday, Date}
use kids_chores_api.Prelude.{
  zero, map, none, ◌==◌, some, ◌∷◌, [], ◌+◌, suc, ◌-◌, List, Option, ltb, ℕ, if◌then◌else◌,
}
use kids_chores_api.Models.{TaskInstance, LedgerEntry, TaskStatus, Time}

-- What a week has been counted to.
pub record Bucket : Type 0 where
  pub week_start : Date
  pub completed : ℕ
  pub missed : ℕ
  pub excuse_count : ℕ
  pub points_earned : ℤ

pub record ReportWeek : Type 0 where
  pub week_start : Date
  pub completed : ℕ
  pub missed : ℕ
  pub completion_rate : Option (ℕ × ℕ)
  pub excuse_count : ℕ
  pub points_earned : ℤ

-- `buckets.get(week)`, and what is done to it if it is there.
unfoldable at_week : Date → (Bucket → Bucket) → List Bucket → List Bucket
at_week week f [] = []
at_week week f (b ∷ bs) =
    let rest = at_week week f bs in if b.week_start == week then f b ∷ rest else b ∷ rest

unfoldable empty_buckets : Date → ℕ → List Bucket
empty_buckets week zero = []
empty_buckets week (suc n) =
    record { week_start = week; completed = 0; missed = 0; excuse_count = 0; points_earned = pos 0 }
    ∷ empty_buckets (week + 7) n

unfoldable count_status : TaskStatus → Bucket → Bucket
count_status TaskStatus.complete b = record b { completed = suc b.completed }
count_status TaskStatus.missed b = record b { missed = suc b.missed }
count_status TaskStatus.pending b = b
count_status TaskStatus.review_pending b = b
count_status TaskStatus.overdue b = b
count_status TaskStatus.excuse_pending b = b
count_status TaskStatus.excused b = b
count_status TaskStatus.cancelled b = b

unfoldable report_week : Bucket → ReportWeek
report_week b = record {
  week_start = b.week_start;
  completed = b.completed;
  missed = b.missed;
  completion_rate =
      if ltb 0 (b.completed + b.missed) then some (b.completed, b.completed + b.missed) else none;
  excuse_count = b.excuse_count;
  points_earned = b.points_earned;
}

module _ (local_date : Time → Date) where
  unfoldable pub week_start_of : Time → Date
  week_start_of t = local_date t - weekday (local_date t)

  unfoldable count_excuse : Option Time → List Bucket → List Bucket
  unfolding at_week week_start_of
  count_excuse none bs = bs
  count_excuse (some t) bs =
      at_week (week_start_of t) (λ (b : Bucket). record b { excuse_count = suc b.excuse_count }) bs

  unfoldable count_instances : List TaskInstance → List Bucket → List Bucket
  unfolding count_excuse at_week week_start_of count_status
  count_instances [] bs = bs
  count_instances (i ∷ is) bs = count_instances is (
      count_excuse i.excuse_submitted_at
        (at_week (week_start_of i.due_at) (count_status i.status) bs))

  unfoldable count_entries : List LedgerEntry → List Bucket → List Bucket
  unfolding at_week week_start_of
  count_entries [] bs = bs
  count_entries (e ∷ es) bs = count_entries es (
      at_week (week_start_of e.created_at)
        (λ (b : Bucket). record b { points_earned = b.points_earned +ℤ e.delta }) bs)

  -- The weeks stand in their order from the start.
  unfoldable pub build_weekly_report :
      List TaskInstance → List LedgerEntry → Date → ℕ → List ReportWeek
  unfolding count_instances count_entries empty_buckets report_week
  build_weekly_report instances ledger_entries range_start num_weeks = map report_week (
      count_entries ledger_entries
        (count_instances instances (empty_buckets range_start num_weeks)))
