-- ===== src/Digest.antt =====
-- backend/app/workers/notify_digest.py: the daily nudge to parents.
use kids_chores_api.Grace.{hour}
use kids_chores_api.Web.Notifications.{notify_pending_approvals}
use kids_chores_api.Web.{Push}
use kids_chores_api.Prelude.{
  is_none, not, ◌+◌, ◌==◌, [], leb, ◌||◌, ◌*◌, any, ◌&&◌, none, ◌-◌, if◌then◌else◌, ◌++◌, false,
  filter, ◌∷◌, some, Bool, Option, List, ℕ,
}
use kids_chores_api.Session.{find_row, Db}
use kids_chores_api.Models.{
  Household, is_parent, is_status, TaskDefinition, TaskInstance, Member, Time, RowId, TaskStatus,
}
pub mod Recipients

-- `NUDGE_AFTER_HOURS`
abbrev nudge_after_hours : ℕ
nudge_after_hours = 24

abbrev is_waiting : TaskStatus → Bool
is_waiting status =
    is_status status TaskStatus.review_pending || is_status status TaskStatus.excuse_pending

-- `completed_at <= cutoff`, which is not true of a null.
unfoldable pub is_overlong : Time → Option Time → Bool
is_overlong cutoff none = false
is_overlong cutoff (some t) = leb t cutoff

-- The household of the definition; the joins are inner joins.
unfoldable with_home : Db → Option TaskDefinition → Option RowId
with_home db none = none
with_home db (some d) =
    if any (λ (h : Household). h.id == d.household_id) db.households
    then some d.household_id
    else none

unfoldable pub household_of : Db → TaskInstance → Option RowId
unfolding with_home
household_of db i =
    with_home db (find_row (λ (d : TaskDefinition). d.id) i.definition_id db.task_definitions)

unfoldable collect : Option RowId → List RowId → List RowId
collect none rest = rest
collect (some household_id) rest = household_id ∷ rest

-- The household of each instance that has waited for long.
unfoldable pending_of : Time → Db → List TaskInstance → List RowId
unfolding collect is_overlong household_of
pending_of cutoff db [] = []
pending_of cutoff db (i ∷ is) =
    let rest = pending_of cutoff db is in
    if is_waiting i.status && is_overlong cutoff i.completed_at
    then collect (household_of db i) rest
    else rest

unfoldable pub pending_households : Time → Db → List RowId
unfolding pending_of
pending_households cutoff db = pending_of cutoff db db.task_instances

-- A set of ids, in the order in which they are last met.
unfoldable pub distinct : List RowId → List RowId
distinct [] = []
distinct (k ∷ ks) =
    let rest = distinct ks in if any (λ (j : RowId). j == k) ks then rest else k ∷ rest

-- `sum(1 for i in pending_instances if ...)`
unfoldable pub times : RowId → List RowId → ℕ
times k [] = 0
times k (j ∷ ks) = (if j == k then 1 else 0) + times k ks

unfoldable pub parents_of : RowId → Db → List Member
parents_of household_id db =
    filter
      (λ (m : Member).
        m.household_id == household_id && is_parent m.role && not (is_none m.push_token))
      db.members

unfoldable notify_all : List Member → ℕ → List Push
notify_all [] count = []
notify_all (m ∷ ms) count = notify_pending_approvals m count ++ notify_all ms count

unfoldable digest_of : List RowId → List RowId → Db → List Push
unfolding notify_all parents_of
digest_of pending [] db = []
digest_of pending (household_id ∷ ids) db =
    notify_all (parents_of household_id db) (times household_id pending) ++ digest_of pending ids db

-- The pushes of the job.
unfoldable pub send_digests : Time → Db → List Push
unfolding digest_of
send_digests now db =
    let pending = pending_households (now - nudge_after_hours * hour) db in
    digest_of pending (distinct pending) db
