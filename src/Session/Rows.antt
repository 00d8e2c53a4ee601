-- ===== src/Session/Rows.antt =====
-- The queries that scope a row to a household, and the insertion of new rows.
use kids_chores_api.Prelude.{◌&&◌, Option, none, some, ◌∷◌, ◌==◌, find?}
use kids_chores_api.Models.{
  RowId, Household, Member, TaskDefinition, TaskInstance, Series, SeriesInstance, Claim,
  SavingsGoal,
}
use kids_chores_api.Session.Monad.{Db, Action, modify}

-- `select(Member).where(Member.id == id, Member.household_id == household_id)`
unfoldable pub member_in : RowId → RowId → Db → Option Member
member_in id household_id db =
    find? (λ (m : Member). m.id == id && m.household_id == household_id) db.members

unfoldable pub definition_in : RowId → RowId → Db → Option TaskDefinition
definition_in id household_id db =
    find? (λ (d : TaskDefinition). d.id == id && d.household_id == household_id) db.task_definitions

unfoldable pub series_in : RowId → RowId → Db → Option Series
series_in id household_id db =
    find? (λ (r : Series). r.id == id && r.household_id == household_id) db.series

-- `.join(TaskDefinition)`, with the definition loaded beside the instance.
unfoldable pub with_definition : RowId → Db → TaskInstance → Option (TaskInstance × TaskDefinition)
unfolding definition_in
with_definition household_id db instance =
    elim (definition_in instance.definition_id household_id db) [
      | none ↦ none
      | some definition ↦ some (instance, definition)
    ]

unfoldable pub instance_in : RowId → RowId → Db → Option (TaskInstance × TaskDefinition)
unfolding with_definition
instance_in id household_id db = elim (find? (λ (i : TaskInstance). i.id == id) db.task_instances) [
  | none ↦ none
  | some instance ↦ with_definition household_id db instance
]

abbrev pub insert_member : Member → Action Unit
insert_member m = modify λ db. record db { members = m ∷ db.members }

abbrev pub insert_household : Household → Action Unit
insert_household h = modify λ db. record db { households = h ∷ db.households }

abbrev pub insert_definition : TaskDefinition → Action Unit
insert_definition d = modify λ db. record db { task_definitions = d ∷ db.task_definitions }

abbrev pub insert_series : Series → Action Unit
insert_series r = modify λ db. record db { series = r ∷ db.series }

abbrev pub insert_series_instance : SeriesInstance → Action Unit
insert_series_instance r = modify λ db. record db { series_instances = r ∷ db.series_instances }

abbrev pub insert_claim : Claim → Action Unit
insert_claim c = modify λ db. record db { claims = c ∷ db.claims }

abbrev pub insert_goal : SavingsGoal → Action Unit
insert_goal g = modify λ db. record db { savings_goals = g ∷ db.savings_goals }
