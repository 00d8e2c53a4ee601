-- ===== src/Generation/Horizon.antt =====
-- After a night, every day of the horizon that a schedule calls for has its instance.
use mathlib.Core.List.{Memᴰ}
use mathlib.Core.List.Memᴰ.{not-nil, cases_cons}
use kids_chores_api.Session.Request.{get_db}
use kids_chores_api.Grace.{grace_remaining}
use kids_chores_api.Prelude.Int.{pos, leb_ℤ}
use kids_chores_api.Session.{Result, ok, modify, Session}
use kids_chores_api.Models.{
  Household, TaskStatus, is_status, Time, TaskDefinition, RowId, TaskInstance,
}
use kids_chores_api.Prelude.{
  sym, subst, some, true, ◌+◌, ◌<◌, ◌≤◌, ◌||◌, ◌==◌, inr, inl, leb, ap, ◌&&◌, refl, [], ◌∙◌, All,
  ◌∷◌, Bool-cases, map, ℕ, ◌≡◌, Text, List,
}
use kids_chores_api.Generation.{
  should_generate_for_date, live_definitions, generate_household_body, generate_for_household,
  generation_horizon_days, generate_days, is_of, Date, generate_definitions, sweep, to_missed,
  to_overdue, Calendar, taken,
}
use kids_chores_api.Generation.Presence.{definitions-Has, Has}
use kids_chores_api.Generation.Coverage.{due_anywhere, days-make, IsReadable, days_return}
use kids_chores_api.Session.Binds.{after_ok, bind-ok}

-- Moving tasks on neither moves their due time nor takes one away.
taken-map :
    (f : TaskInstance → TaskInstance) (k : RowId) (t : Time) (rows : List TaskInstance)
    → ((i : TaskInstance) → ((f i).definition_id ≡ i.definition_id) × ((f i).due_at ≡ i.due_at))
    → taken k t (map f rows) ≡ taken k t rows
unfolding taken
taken-map f k t [] keeps = refl
taken-map f k t (i ∷ rows) keeps =
    λ j. ((keeps i).0 j == k && (keeps i).1 j == t) || taken-map f k t rows keeps j

to_overdue_keeps :
    (ds : List TaskDefinition) (now : Time) (i : TaskInstance)
    → ((to_overdue ds now i).definition_id ≡ i.definition_id)
      × ((to_overdue ds now i).due_at ≡ i.due_at)
unfolding to_overdue
to_overdue_keeps ds now i =
    elim (Bool-cases (is_status i.status TaskStatus.pending && leb i.due_at now && is_of ds i)) [
      | inl late ↦ rw late (refl, refl)
      | inr fine ↦ rw fine (refl, refl)
    ]

to_missed_keeps :
    (ds : List TaskDefinition) (hours : ℕ) (now : Time) (i : TaskInstance)
    → ((to_missed ds hours now i).definition_id ≡ i.definition_id)
      × ((to_missed ds hours now i).due_at ≡ i.due_at)
unfolding to_missed
to_missed_keeps ds hours now i =
    elim (Bool-cases (
      is_status i.status TaskStatus.overdue
      && is_of ds i
      && leb_ℤ (grace_remaining i hours now) (pos 0))) [
        | inl over ↦ rw over (refl, refl)
        | inr left ↦ rw left (refl, refl)
      ]

sweep-Has :
    (ds : List TaskDefinition) (hours : ℕ) (now : Time) (k : RowId) (t : Time) (s : Session)
    → Has k t s
    → Has k t (modify (sweep ds hours now) s).1
unfolding sweep
sweep-Has ds hours now k t s there =
    taken-map (to_missed ds hours now) k t (map (to_overdue ds now) s.current.task_instances)
      (to_missed_keeps ds hours now)
    ∙ taken-map (to_overdue ds now) k t s.current.task_instances (to_overdue_keeps ds now)
    ∙ there

module _ (calendar : Calendar) (zone : Text) (now : Time) where
  definitions_return :
      (ds : List TaskDefinition) (today : Date) (s : Session)
      → All (IsReadable calendar zone now) ds
      → (generate_definitions calendar ds today zone now s).0 ≡ ok tt
  unfolding generate_definitions
  definitions_return [] today s readable = refl
  definitions_return (d ∷ ds) today s readable =
      ap (λ (r : Result Unit × Session). r.0)
        (bind-ok (generate_days calendar d generation_horizon_days today zone now)
          (λ _. generate_definitions calendar ds today zone now) s
          (after_ok (generate_days calendar d generation_horizon_days today zone now) s
            (days_return calendar zone now d generation_horizon_days today s readable.0)))
      ∙ definitions_return ds today _ readable.1

  definitions-make :
      (ds : List TaskDefinition) (d : TaskDefinition) (today target : Date) (t : Time) (s : Session)
      → All (IsReadable calendar zone now) ds
      → Memᴰ d ds
      → today ≤ target
      → target < today + generation_horizon_days
      → (should_generate_for_date calendar d target s).0 ≡ ok true
      → calendar.due_at zone target d.due_time ≡ some t
      → Has d.id t (generate_definitions calendar ds today zone now s).1
  unfolding generate_definitions
  definitions-make [] d today target t s readable member from_today until due read =
      absurd (not-nil member)
  definitions-make (e ∷ ds) d today target t s readable member from_today until due read =
      let u = (generate_days calendar e generation_horizon_days today zone now s).1 in
      let first : generate_definitions calendar (e ∷ ds) today zone now s
          ≡ generate_definitions calendar ds today zone now u =
        bind-ok (generate_days calendar e generation_horizon_days today zone now)
          (λ _. generate_definitions calendar ds today zone now) s
          (after_ok (generate_days calendar e generation_horizon_days today zone now) s
            (days_return calendar zone now e generation_horizon_days today s readable.0)) in
      rw first (elim (cases_cons member) [
        | inl same ↦ definitions-Has calendar zone now d.id t ds today u (
            subst
              (λ x.
                Has d.id t (generate_days calendar x generation_horizon_days today zone now s).1)
              same
              (days-make calendar zone now d generation_horizon_days today target t s
                (subst (IsReadable calendar zone now) (sym same) readable.0) from_today until due
                read))
        | inr rest ↦
            definitions-make ds d today target t u readable.1 rest from_today until
              (due_anywhere calendar zone now d target s u due) read
      ])

module _ (calendar : Calendar) (h : Household) (now : Time) (s : Session) where
  abbrev today : Date
  today = calendar.local_date h.timezone now

  -- When the texts of the live definitions of a household can be read, a night's work for it returns,
  -- and what is committed has an instance for each live definition and each of the fourteen days from
  -- today on that its schedule calls for, due when that day's due time is reached.
  pub generate_for_household-covers :
      All (IsReadable calendar h.timezone now) (live_definitions h.id s.current)
      → (d : TaskDefinition) (target : Date) (t : Time) → Memᴰ d (live_definitions h.id s.current)
      → today ≤ target
      → target < today + generation_horizon_days
      → (should_generate_for_date calendar d target s).0 ≡ ok true
      → calendar.due_at h.timezone target d.due_time ≡ some t
      → let after = generate_for_household calendar h now s in
        (after.0 ≡ ok tt) × (taken d.id t after.1.committed.task_instances ≡ true)
  unfolding generate_for_household generate_household_body get_db
  generate_for_household-covers readable d target t member from_today until due read =
      let ds = live_definitions h.id s.current in
      let made =
        after_ok (generate_definitions calendar ds today h.timezone now) s
          (definitions_return calendar h.timezone now ds today s readable) in
      let swept =
        bind-ok (generate_definitions calendar ds today h.timezone now)
          (λ _. modify (sweep ds h.grace_period_hours now)) s made in
      rw swept (
        refl,
        sweep-Has ds h.grace_period_hours now d.id t
            (generate_definitions calendar ds today h.timezone now s).1
            (definitions-make calendar h.timezone now ds d today target t s readable member
              from_today until due read),
      )
