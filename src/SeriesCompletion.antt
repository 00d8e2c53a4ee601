-- ===== src/SeriesCompletion.antt =====
-- backend/app/services/series_completion.py: `SeriesCompletionService.evaluate`. The caller has loaded
-- the series with its instance.
pub mod Verdict
pub mod Payout
use kids_chores_api.Ledger.{award_series_bonus, award_all_or_nothing_series}
use kids_chores_api.Models.{
  Time, TaskStatus, is_status, SeriesStatus, is_active, Member, TaskInstance, Series,
  SeriesInstance, SeriesPayoutMode, individual_plus_bonus, all_or_nothing, LedgerEntry,
}
use kids_chores_api.Prelude.{
  ℕ, ◌+◌, Bool, true, false, not, ◌&&◌, ◌||◌, some, List, [], ◌∷◌, filter, is_id, if◌then◌else◌,
}
use kids_chores_api.Session.{Action, pure, query, add_series_instance, ◌>>=◌, ◌>>◌}

abbrev pub is_empty_list : List TaskInstance → Bool
is_empty_list [] = true
is_empty_list (i ∷ is) = false

-- `sum(i.point_value for i in completed)`
unfoldable pub sum_points : List TaskInstance → ℕ
sum_points [] = 0
sum_points (i ∷ is) = i.point_value + sum_points is

-- The branch of `series.payout_mode`.
unfoldable pub pay_series :
    SeriesPayoutMode → SeriesInstance → Series → Member → List TaskInstance → Action LedgerEntry
pay_series individual_plus_bonus series_instance series actor completed =
    award_series_bonus series_instance series series.assignee_id actor series.bonus_points
pay_series all_or_nothing series_instance series actor completed =
    let completed_value = sum_points completed in
    let total = completed_value + series.bonus_points in
    award_all_or_nothing_series series_instance series series.assignee_id actor total

-- From the instances that the query has found.
settle_series : List TaskInstance → SeriesInstance → Series → Member → Time → Action Bool
unfolding pay_series
settle_series instances series_instance series actor now =
    let completed =
      filter (λ (i : TaskInstance). is_status i.status TaskStatus.complete) instances in
    let excused = filter (λ (i : TaskInstance). is_status i.status TaskStatus.excused) instances in
    let other =
      filter
        (λ (i : TaskInstance).
          not (is_status i.status TaskStatus.complete || is_status i.status TaskStatus.excused))
        instances in
    if is_empty_list instances
    then pure false
    else if not (is_empty_list other)
    then pure false
    else if is_empty_list completed && not (is_empty_list excused)
    then pure false
    else do
      pay_series series.payout_mode series_instance series actor completed
      add_series_instance
          (record series_instance { status = SeriesStatus.complete; completed_at = some now })
      pure true

unfoldable pub evaluate : SeriesInstance → Series → Member → Time → Action Bool
unfolding settle_series
evaluate series_instance series actor now =
    if not (is_active series_instance.status) then pure false else do
      instances ← query λ db.
          filter (λ (i : TaskInstance). is_id i.series_instance_id series_instance.id)
            db.task_instances
      settle_series instances series_instance series actor now
