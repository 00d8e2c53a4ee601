-- ===== src/Reports/Counts.antt =====
-- What the weeks of a report hold, week by week.
use kids_chores_api.Prelude.Int.{pos, ℤ, ◌+ℤ◌}
use kids_chores_api.Reports.{
  count_instances, count_excuse, at_week, count_status, ReportWeek, week_start_of, Bucket,
}
use kids_chores_api.Prelude.{
  ◌∙◌, ap, arith, inr, inl, refl, Bool-cases, map, ◌≡◌, ltb, zero, ◌&&◌, none, suc, ◌+◌, ◌∷◌, false,
  if◌then◌else◌, some, [], List, ◌==◌, ℕ, Option, Bool,
}
use kids_chores_api.Generation.{Date}
use kids_chores_api.Models.{TaskStatus, LedgerEntry, is_status, TaskInstance, Time}

-- The Mondays of `n` weeks.
abbrev pub weeks_from : Date → ℕ → List Date
weeks_from week zero = []
weeks_from week (suc n) = week ∷ weeks_from (week + 7) n

abbrev pub is_complete : TaskInstance → Bool
is_complete i = is_status i.status TaskStatus.complete

abbrev pub is_missed : TaskInstance → Bool
is_missed i = is_status i.status TaskStatus.missed

-- The number of those that meet a test.
abbrev pub count : {A : Type 0} → (A → Bool) → List A → ℕ
count p [] = 0
count p (x ∷ xs) = (if p x then 1 else 0) + count p xs

module _ (local_date : Time → Date) where
  abbrev pub is_in : Date → Time → Bool
  is_in week t = week == week_start_of local_date t

  -- An excuse that was sent in that week.
  abbrev pub is_excused_in : Date → Option Time → Bool
  is_excused_in week none = false
  is_excused_in week (some t) = is_in week t

  -- The points of the rows of that week.
  unfoldable pub points_in : Date → List LedgerEntry → ℤ
  points_in week [] = pos 0
  points_in week (e ∷ es) =
      if is_in week e.created_at then e.delta +ℤ points_in week es else points_in week es

  -- One week of the report, from the rows alone.
  abbrev pub week_report : List TaskInstance → List LedgerEntry → Date → ReportWeek
  week_report is es week =
      let completed = count (λ (i : TaskInstance). is_in week i.due_at && is_complete i) is in
      let missed = count (λ (i : TaskInstance). is_in week i.due_at && is_missed i) is in
      record {
        week_start = week;
        completed = completed;
        missed = missed;
        completion_rate =
            if ltb 0 (completed + missed) then some (completed, completed + missed) else none;
        excuse_count = count (λ (i : TaskInstance). is_excused_in week i.excuse_submitted_at) is;
        points_earned = points_in week es;
      }

  -- What the instances and the rows add to one bucket.
  abbrev pub with_instances : List TaskInstance → Bucket → Bucket
  with_instances is b = record b {
    completed =
        b.completed + count (λ (i : TaskInstance). is_in b.week_start i.due_at && is_complete i) is;
    missed = b.missed + count (λ (i : TaskInstance). is_in b.week_start i.due_at && is_missed i) is;
    excuse_count =
        b.excuse_count
        + count (λ (i : TaskInstance). is_excused_in b.week_start i.excuse_submitted_at) is;
  }

  abbrev pub with_entries : List LedgerEntry → Bucket → Bucket
  with_entries es b = record b { points_earned = b.points_earned +ℤ points_in b.week_start es }

  abbrev for_excuse : Option Time → Bucket → Bucket
  for_excuse none b = b
  for_excuse (some t) b =
      if is_in b.week_start t then record b { excuse_count = suc b.excuse_count } else b

  abbrev for_instance : TaskInstance → Bucket → Bucket
  for_instance i b =
      for_excuse i.excuse_submitted_at
        (if is_in b.week_start i.due_at then count_status i.status b else b)

  pub at_week-map :
      (week : Date) (f : Bucket → Bucket) (bs : List Bucket)
      → at_week week f bs ≡ map (λ (b : Bucket). if b.week_start == week then f b else b) bs
  unfolding at_week
  at_week-map week f [] = refl
  at_week-map week f (b ∷ bs) = elim (Bool-cases (b.week_start == week)) [
    | inl here ↦ rw here (λ i. f b ∷ at_week-map week f bs i)
    | inr there ↦ rw there (λ i. b ∷ at_week-map week f bs i)
  ]

  count_excuse-map :
      (o : Option Time) (bs : List Bucket) → count_excuse local_date o bs ≡ map (for_excuse o) bs
  unfolding count_excuse
  count_excuse-map none [] = refl
  count_excuse-map none (b ∷ bs) = λ i. b ∷ count_excuse-map none bs i
  count_excuse-map (some t) bs = at_week-map (week_start_of local_date t) _ bs

  -- What one instance adds, by its status.
  for_instance_lem :
      (st : TaskStatus) (o : Option Time) (due : Time) (b : Bucket)
      → for_excuse o (if is_in b.week_start due then count_status st b else b) ≡ record b {
        completed =
            b.completed
            + (if is_in b.week_start due && is_status st TaskStatus.complete then 1 else 0);
        missed =
            b.missed + (if is_in b.week_start due && is_status st TaskStatus.missed then 1 else 0);
        excuse_count = b.excuse_count + (if is_excused_in b.week_start o then 1 else 0);
      }
  unfolding count_status
  for_instance_lem TaskStatus.pending o due b = ground arith
  for_instance_lem TaskStatus.complete o due b = ground arith
  for_instance_lem TaskStatus.review_pending o due b = ground arith
  for_instance_lem TaskStatus.overdue o due b = ground arith
  for_instance_lem TaskStatus.excuse_pending o due b = ground arith
  for_instance_lem TaskStatus.excused o due b = ground arith
  for_instance_lem TaskStatus.missed o due b = ground arith
  for_instance_lem TaskStatus.cancelled o due b = ground arith

  pub map_twice :
      (f g : Bucket → Bucket) (bs : List Bucket) → map g (map f bs) ≡ map (λ b. g (f b)) bs
  map_twice f g [] = refl
  map_twice f g (b ∷ bs) = λ i. g (f b) ∷ map_twice f g bs i

  pub map_same :
      (f g : Bucket → Bucket) (same : (b : Bucket) → f b ≡ g b) (bs : List Bucket)
      → map f bs ≡ map g bs
  map_same f g same [] = refl
  map_same f g same (b ∷ bs) = λ i. same b i ∷ map_same f g same bs i

  with_instances-cons :
      (i : TaskInstance) (is : List TaskInstance) (b : Bucket)
      → with_instances is (for_instance i b) ≡ with_instances (i ∷ is) b
  with_instances-cons i is b =
      ap (with_instances is) (for_instance_lem i.status i.excuse_submitted_at i.due_at b)
      ∙ ground arith

  with_instances-nil : (bs : List Bucket) → bs ≡ map (with_instances []) bs
  with_instances-nil [] = refl
  with_instances-nil (b ∷ bs) =
      let same : b ≡ with_instances [] b = ground arith in λ i. same i ∷ with_instances-nil bs i

  pub count_instances-map :
      (is : List TaskInstance) (bs : List Bucket)
      → count_instances local_date is bs ≡ map (with_instances is) bs
  unfolding count_instances
  count_instances-map [] bs = with_instances-nil bs
  count_instances-map (i ∷ is) bs =
      ap (λ x. count_instances local_date is (count_excuse local_date i.excuse_submitted_at x))
        (at_week-map (week_start_of local_date i.due_at) (count_status i.status) bs)
      ∙ ap (count_instances local_date is) (
          count_excuse-map i.excuse_submitted_at _
          ∙ map_twice _ (for_excuse i.excuse_submitted_at) bs)
      ∙ count_instances-map is (map (for_instance i) bs)
      ∙ map_twice (for_instance i) (with_instances is) bs
      ∙ map_same _ _ (with_instances-cons i is) bs
