-- ===== src/Reports/Weeks.antt =====
-- The weeks of a report are those of the rows.
use kids_chores_api.Prelude.Int.{int_laws, pos, ◌+ℤ◌, ℤ}
use kids_chores_api.Reports.{
  week_start_of, empty_buckets, report_week, count_entries, build_weekly_report, Bucket,
}
use kids_chores_api.Prelude.{
  zero, refl, inr, none, inl, some, ◌∙◌, ltb, Bool-cases, [], suc, ap, arith, ◌∷◌, ◌==◌, ◌&&◌, map,
  if◌then◌else◌, ◌≡◌, ◌+◌, ℕ, List,
}
use kids_chores_api.Generation.{Date}
use kids_chores_api.Models.{TaskInstance, LedgerEntry, Time}
use kids_chores_api.Reports.Counts.{
  week_report, weeks_from, with_instances, with_entries, at_week-map, map_twice, map_same,
  count_instances-map, is_complete, is_missed, is_in, is_excused_in, points_in, count,
}

module _ (local_date : Time → Date) where
  for_entry : LedgerEntry → Bucket → Bucket
  for_entry e b =
      if b.week_start == week_start_of local_date e.created_at
      then record b { points_earned = b.points_earned +ℤ e.delta }
      else b

  plus_nothing : (a : ℤ) → a ≡ a +ℤ pos 0
  plus_nothing a = omega int_laws

  nothing_plus : (a : ℤ) → pos 0 +ℤ a ≡ a
  nothing_plus a = omega int_laws

  plus_assoc : (a b c : ℤ) → (a +ℤ b) +ℤ c ≡ a +ℤ (b +ℤ c)
  plus_assoc a b c = omega int_laws

  with_entries-nil : (bs : List Bucket) → bs ≡ map (with_entries local_date []) bs
  unfolding points_in
  with_entries-nil [] = refl
  with_entries-nil (b ∷ bs) =
      λ i. record b { points_earned = plus_nothing b.points_earned i } ∷ with_entries-nil bs i

  with_entries-cons :
      (e : LedgerEntry) (es : List LedgerEntry) (b : Bucket)
      → with_entries local_date es (for_entry e b) ≡ with_entries local_date (e ∷ es) b
  unfolding for_entry points_in
  with_entries-cons e es b =
      elim (Bool-cases (b.week_start == week_start_of local_date e.created_at)) [
        | inl here ↦ rw here (λ i. record b {
          points_earned =
              plus_assoc b.points_earned e.delta (points_in local_date b.week_start es) i;
        })
        | inr there ↦ rw there refl
      ]

  count_entries-map :
      (es : List LedgerEntry) (bs : List Bucket)
      → count_entries local_date es bs ≡ map (with_entries local_date es) bs
  unfolding count_entries for_entry
  count_entries-map [] bs = with_entries-nil bs
  count_entries-map (e ∷ es) bs =
      ap (count_entries local_date es)
        (at_week-map local_date (week_start_of local_date e.created_at) _ bs)
      ∙ count_entries-map es (map (for_entry e) bs)
      ∙ map_twice local_date (for_entry e) (with_entries local_date es) bs
      ∙ map_same local_date _ _ (with_entries-cons e es) bs

  abbrev empty_at : Date → Bucket
  empty_at week = record {
    week_start = week;
    completed = 0;
    missed = 0;
    excuse_count = 0;
    points_earned = pos 0;
  }

  zero_plus : (n : ℕ) → 0 + n ≡ n
  zero_plus n = omega arith

  report_empty :
      (is : List TaskInstance) (es : List LedgerEntry) (week : Date)
      → report_week (with_entries local_date es (with_instances local_date is (empty_at week)))
        ≡ week_report local_date is es week
  unfolding report_week
  report_empty is es week = λ i.
      let completed : ℕ =
        zero_plus (count (λ (t : TaskInstance). is_in local_date week t.due_at && is_complete t) is)
          i in
      let missed : ℕ =
        zero_plus (count (λ (t : TaskInstance). is_in local_date week t.due_at && is_missed t) is)
          i in
      record {
        week_start = week;
        completed = completed;
        missed = missed;
        completion_rate =
            if ltb 0 (completed + missed) then some (completed, completed + missed) else none;
        excuse_count =
            zero_plus
              (count (λ (t : TaskInstance). is_excused_in local_date week t.excuse_submitted_at) is)
              i;
        points_earned = nothing_plus (points_in local_date week es) i;
      }

  reports_empty :
      (is : List TaskInstance) (es : List LedgerEntry) (week : Date) (n : ℕ)
      → map report_week (
          map
            (λ b. with_entries local_date es (with_instances local_date is b))
            (empty_buckets week n))
        ≡ map (week_report local_date is es) (weeks_from week n)
  unfolding empty_buckets
  reports_empty is es week zero = refl
  reports_empty is es week (suc n) =
      λ i. report_empty is es week i ∷ reports_empty is es (week + 7) n i

  -- The report has the weeks in their order, and each counts exactly the rows that fall in it: the
  -- completed and the missed tasks by the week they were due, the excuses by the week they were sent,
  -- the points by the week they were written.
  pub build_weekly_report-weeks :
      (is : List TaskInstance) (es : List LedgerEntry) (start : Date) (n : ℕ)
      → build_weekly_report local_date is es start n
        ≡ map (week_report local_date is es) (weeks_from start n)
  unfolding build_weekly_report
  build_weekly_report-weeks is es start n =
      ap (map report_week) (
        ap (count_entries local_date es) (count_instances-map local_date is (empty_buckets start n))
        ∙ count_entries-map es (map (with_instances local_date is) (empty_buckets start n))
        ∙ map_twice local_date (with_instances local_date is) (with_entries local_date es)
            (empty_buckets start n))
      ∙ reports_empty is es start n
