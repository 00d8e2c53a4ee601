-- ===== src/Reminders.antt =====
-- backend/app/workers/reminders.py: the pushes that are sent before a task is due and before a series
-- ends.
use kids_chores_api.Grace.{hour, second}
use kids_chores_api.Web.Notifications.{notify_task_reminder, notify_series_expiring}
use kids_chores_api.Web.{Push}
use kids_chores_api.Session.{find_row, Db}
use kids_chores_api.Prelude.{
  is_id, any, ◌-◌, ◌+◌, leb, none, ◌*◌, ltb, ◌++◌, map, not, [], is_none, ◌∷◌, false, true, ◌&&◌,
  some, Bool, List, if◌then◌else◌, Option, ℕ,
}
use kids_chores_api.Models.{
  is_status, is_active, Member, Household, Series, SeriesInstance, TaskStatus, TaskInstance,
  TaskDefinition, Time,
}
pub mod Once

-- A task with its definition, the definition's household and the assignee.
abbrev pub LoadedTask : Type 0
LoadedTask = TaskDefinition × Household × Member

-- The join is an inner join.
with_household : TaskInstance → Db → TaskDefinition → Option LoadedTask
with_household i db d = elim (find_row (λ (h : Household). h.id) d.household_id db.households) [
  | none ↦ none
  | some h ↦ elim (find_row (λ (m : Member). m.id) i.assignee_id db.members) [
    | none ↦ none
    | some m ↦ some (d, h, m)
  ]
]

unfoldable pub loaded_task : Db → TaskInstance → Option LoadedTask
unfolding with_household
loaded_task db i =
    elim (find_row (λ (d : TaskDefinition). d.id) i.definition_id db.task_definitions) [
      | none ↦ none
      | some d ↦ with_household i db d
    ]

-- `_REMINDER_OUTER_BOUND_HOURS`
abbrev reminder_outer_bound_hours : ℕ
reminder_outer_bound_hours = 24

unfoldable pub is_due_soon : Time → TaskInstance → Bool
is_due_soon now i =
    is_status i.status TaskStatus.pending
    && is_none i.reminder_sent_at
    && ltb now i.due_at
    && leb i.due_at (now + reminder_outer_bound_hours * hour)

-- Inside the lead time of the household.
unfoldable pub is_near : Time → TaskInstance → Option LoadedTask → Bool
is_near now i none = false
is_near now i (some (d, h, m)) =
    not (ltb (h.task_reminder_minutes_before_due * 60 * second) (i.due_at - now))

-- The task is reminded of in this run.
unfoldable pub wants_reminder : Time → Db → TaskInstance → Bool
unfolding is_due_soon
wants_reminder now db i = is_due_soon now i && is_near now i (loaded_task db i)

unfoldable pub reminder_push : TaskInstance → Option LoadedTask → List Push
reminder_push i none = []
reminder_push i (some (d, h, m)) = notify_task_reminder m d.title

unfoldable pub reminded : Time → Db → TaskInstance → TaskInstance
reminded now db i = if wants_reminder now db i then record i { reminder_sent_at = some now } else i

unfoldable pub reminder_pushes : Time → Db → List TaskInstance → List Push
unfolding reminder_push
reminder_pushes now db [] = []
reminder_pushes now db (i ∷ is) =
    let rest = reminder_pushes now db is in
    if wants_reminder now db i then reminder_push i (loaded_task db i) ++ rest else rest

unfoldable pub send_task_reminders : Time → Db → List Push × Db
unfolding reminder_pushes
send_task_reminders now db = (
  reminder_pushes now db db.task_instances,
  record db { task_instances = map (reminded now db) db.task_instances },
)

-- `_SERIES_EXPIRING_LEAD_HOURS`
abbrev series_expiring_lead_hours : ℕ
series_expiring_lead_hours = 24

-- `_OUTSTANDING_STATUSES`
is_outstanding : TaskStatus → Bool
is_outstanding TaskStatus.pending = true
is_outstanding TaskStatus.overdue = true
is_outstanding TaskStatus.review_pending = true
is_outstanding TaskStatus.excuse_pending = true
is_outstanding TaskStatus.complete = false
is_outstanding TaskStatus.excused = false
is_outstanding TaskStatus.missed = false
is_outstanding TaskStatus.cancelled = false

unfoldable pub is_expiring : Time → Db → SeriesInstance → Bool
unfolding is_outstanding
is_expiring now db r =
    is_active r.status
    && is_none r.expiring_reminder_sent_at
    && ltb now r.window_end
    && leb r.window_end (now + series_expiring_lead_hours * hour)
    && any (λ (i : TaskInstance). is_id i.series_instance_id r.id && is_outstanding i.status)
        db.task_instances

-- The series of the instance and its assignee; the join is an inner join.
loaded_series : Db → SeriesInstance → Option (Series × Member)
loaded_series db r = elim (find_row (λ (q : Series). q.id) r.series_id db.series) [
  | none ↦ none
  | some q ↦ elim (find_row (λ (m : Member). m.id) q.assignee_id db.members) [
    | none ↦ none
    | some m ↦ some (q, m)
  ]
]

unfoldable pub wants_warning : Time → Db → SeriesInstance → Bool
unfolding loaded_series
wants_warning now db r = is_expiring now db r && not (is_none (loaded_series db r))

warning_push : Option (Series × Member) → List Push
warning_push none = []
warning_push (some (q, m)) = notify_series_expiring m q.name

warning_pushes : Time → Db → List SeriesInstance → List Push
unfolding loaded_series warning_push
warning_pushes now db [] = []
warning_pushes now db (r ∷ rs) =
    let rest = warning_pushes now db rs in
    if wants_warning now db r then warning_push (loaded_series db r) ++ rest else rest

unfoldable pub warned : Time → Db → SeriesInstance → SeriesInstance
warned now db r =
    if wants_warning now db r then record r { expiring_reminder_sent_at = some now } else r

unfoldable pub send_series_expiring : Time → Db → List Push × Db
unfolding warning_pushes
send_series_expiring now db = (
  warning_pushes now db db.series_instances,
  record db { series_instances = map (warned now db) db.series_instances },
)
