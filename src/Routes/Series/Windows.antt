-- ===== src/Routes/Series/Windows.antt =====
-- The window that a series begins with, and the definitions that it takes.
use kids_chores_api.Schemas.{SeriesCreate}
use kids_chores_api.Session.{member_in, ◌>>◌, http, raise_if, Session, Db}
use kids_chores_api.Generation.{weekday, Date}
use kids_chores_api.Prelude.{
  [], inr, any, inl, Bool-cases, ◌∷◌, none, false, true, length, some, is_none, refl, arith, ◌+◌,
  Option, Bool, ◌<◌, ◌≡◌, map, ◌==◌, not, ◌≤◌, filter, List,
}
use kids_chores_api.Models.{Member, Time, Household, SeriesWindowType, TaskDefinition, RowId}
use kids_chores_api.Routes.Series.{
  link_named, named, insert_linked, create_series, window_days, Months,
}

-- The definitions of other households.
abbrev pub elsewhere : RowId → Db → List TaskDefinition
elsewhere household_id db =
    filter (λ (d : TaskDefinition). not (d.household_id == household_id)) db.task_definitions

module _ (months : Months) where
  -- The window of a weekly series begins on a Monday, is a week long and has today in it.
  pub weekly_window :
      (today : Date)
      → 7 ≤ today
      → let (first, after) = window_days months SeriesWindowType.weekly today in
        (weekday first ≡ 0) × (first ≤ today) × (today < after) × (after ≡ first + 7)
  unfolding window_days
  weekly_window today far = (omega (arith, far), omega arith, omega (arith, far), refl)

  linked_elsewhere :
      (ids : List RowId) (household_id series_id : RowId) (ds : List TaskDefinition)
      → filter
          (λ (d : TaskDefinition). not (d.household_id == household_id))
          (map (link_named ids household_id series_id) ds)
        ≡ filter (λ (d : TaskDefinition). not (d.household_id == household_id)) ds
  linked_elsewhere ids household_id series_id [] = refl
  linked_elsewhere ids household_id series_id (d ∷ ds) =
      let ih = linked_elsewhere ids household_id series_id ds in
      elim (Bool-cases (d.household_id == household_id)) [
        | inl ours ↦ elim (Bool-cases (any (λ (id : RowId). d.id == id) ids)) [
          | inl chosen ↦ rw chosen (rw ours (rw ours ih))
          | inr left ↦ rw left (rw ours ih)
        ]
        | inr other ↦ elim (Bool-cases (any (λ (id : RowId). d.id == id) ids)) [
          | inl chosen ↦ rw chosen (rw other (rw other (λ i. d ∷ ih i)))
          | inr left ↦ rw left (rw other (λ i. d ∷ ih i))
        ]
      ]

  -- Creating a series leaves the definitions of every other household as they are, whichever ids the
  -- request names and whether it succeeds or is refused.
  pub create_series-elsewhere :
      (body : SeriesCreate) (household : Household) (now : Time) (s : Session)
      → elsewhere household.id (create_series months body household now s).1.current
        ≡ elsewhere household.id s.current
  unfolding create_series insert_linked
  create_series-elsewhere body household now s =
      go
        (not (
          length (filter (named body.task_definition_ids household.id) s.current.task_definitions)
          == length body.task_definition_ids))
        (member_in body.assignee_id household.id s.current)
    where
      go :
          (b : Bool) (o : Option Member)
          → elsewhere household.id
              ((raise_if b (http 422)
                  >> (raise_if (is_none o) (http 422) >> insert_linked months body household now))
                s).1.current
            ≡ elsewhere household.id s.current
      go true o = refl
      go false none = refl
      go false (some m) =
          linked_elsewhere body.task_definition_ids household.id (s.uuids s.drawn)
            s.current.task_definitions
