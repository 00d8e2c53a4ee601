-- ===== src/Routes/Tasks.antt =====
-- backend/app/routers/tasks.py: the today and week views, and the four requests on a task instance.
use kids_chores_api.Routes.Tasks.Work.{review_work, excuse_work, complete_work, cancel_work}
use kids_chores_api.Web.Notifications.{notify_new_excuse, notify_excuse_resolved}
use kids_chores_api.Schemas.{
  response_of, CancelTaskRequest, CompleteTaskRequest, ReviewRequest, ExcuseTaskRequest,
  TaskInstanceResponse,
}
use kids_chores_api.Redis.Idempotency.{run_idempotent, IdemKey}
use kids_chores_api.Redis.{Cache}
pub mod Work
pub mod Guards
pub mod Rewards
pub mod Payment
pub mod Approval
use kids_chores_api.Web.{
  on_session, require_parent, send_pushes, Push, Web, pure, or_raise, raise_if, query, ◌>>=◌, ◌>>◌,
}
use kids_chores_api.Session.{Db, http, value_error, member_in, instance_in, find_row}
use kids_chores_api.Models.{
  is_teen, TaskStatus, is_status, RowId, Time, Household, Member, TaskDefinition, TaskInstance,
  is_parent,
}
use kids_chores_api.Prelude.{
  [], Bool, ◌+◌, ◌*◌, not, ◌&&◌, Option, none, some, List, ◌==◌, ltb, leb, filter, Text,
  if◌then◌else◌, is_none,
}
use kids_chores_api.Prelude.Order.{order_by}
use kids_chores_api.Grace.{hour}

-- The tasks of a member that are due in a range, by due time.
due_between : RowId → Time → Time → Db → List TaskInstance
due_between target_id start end db =
    order_by (λ (i : TaskInstance) (j : TaskInstance). leb i.due_at j.due_at)
      (filter
        (λ (i : TaskInstance). i.assignee_id == target_id && leb start i.due_at && ltb i.due_at end)
        db.task_instances)

module _ {S : Type 0} where
  -- A member that another household holds is not found.
  other_member : RowId → Member → Household → Web S RowId
  other_member target member household = do
    raise_if (not (is_parent member.role)) (http 403)
    found ← query (member_in target household.id)
    raise_if (is_none found) (http 404)
    pure target

  unfoldable pub resolve_target_id : Option RowId → Member → Household → Web S RowId
  unfolding other_member
  resolve_target_id none member household = pure member.id
  resolve_target_id (some target) member household =
      if target == member.id then pure member.id else other_member target member household

  unfoldable pub get_instance_or_404 : RowId → Household → Web S (TaskInstance × TaskDefinition)
  get_instance_or_404 instance_id household = do
    found ← query (instance_in instance_id household.id)
    or_raise found (http 404)

  -- `midnight` is `pytz`: the local midnight before a moment, as a moment. Adding a `timedelta` to it
  -- adds that many hours.
  unfoldable pub get_today_tasks :
      (Text → Time → Time) → Option RowId → Member → Household → Time → Web S (List TaskInstance)
  unfolding due_between
  get_today_tasks midnight member_id member household now = do
    target_id ← resolve_target_id member_id member household
    let start = midnight household.timezone now
    query (due_between target_id start (start + 24 * hour))

  -- `local_start` is `strptime` and `pytz`: the local start of a day that is given as text.
  unfoldable pub get_week_tasks :
      (Text → Text → Option Time)
      → Text
      → Option RowId
      → Member
      → Household
      → Web S (List TaskInstance)
  unfolding due_between
  get_week_tasks local_start start member_id member household = do
    target_id ← resolve_target_id member_id member household
    week_start ← or_raise (local_start household.timezone start) value_error
    query (due_between target_id week_start (week_start + 7 * 24 * hour))

excuse_push : Option Member → Text → Bool → List Push
excuse_push none title approve = []
excuse_push (some assignee) title approve = notify_excuse_resolved assignee title approve

-- Sends after the work is done, if the work has not raised.
unfoldable pub notifying : {S A : Type 0} → Web S A → (A → Db → List Push) → Web S A
notifying work pushes = do
  result ← work
  told ← query (pushes result)
  send_pushes told
  pure result

module _ {J : Type 0} (C : Cache IdemKey J) (serialize : TaskInstanceResponse → J)
    (deserialize : J → TaskInstanceResponse) where
  -- `_idempotent`
  unfoldable pub idempotent :
      Member → RowId → Web C.Store TaskInstance → Time → Web C.Store TaskInstanceResponse
  idempotent member idempotency_key handler now =
      run_idempotent C serialize deserialize member.id idempotency_key
        (handler >>= λ i. pure (response_of i)) now

  -- Each handler, from the instance that it has found.
  unfoldable pub complete_found :
      CompleteTaskRequest
      → Member
      → Household
      → Time
      → TaskInstance × TaskDefinition
      → Web C.Store TaskInstanceResponse
  unfolding idempotent
  complete_found body member household now (instance, definition) = do
    raise_if (is_teen member.role && not (instance.assignee_id == member.id)) (http 403)
    idempotent member body.idempotency_key
        (on_session (complete_work instance definition member household body.note now)) now

  unfoldable pub complete_task :
      RowId → CompleteTaskRequest → Member → Household → Time → Web C.Store TaskInstanceResponse
  complete_task instance_id body member household now =
      get_instance_or_404 instance_id household >>= complete_found body member household now

  unfoldable pub excuse_found :
      ExcuseTaskRequest
      → Member
      → Household
      → Time
      → TaskInstance × TaskDefinition
      → Web C.Store TaskInstanceResponse
  unfolding idempotent
  excuse_found body member household now (instance, definition) = do
    raise_if (is_teen member.role && not (instance.assignee_id == member.id)) (http 403)
    idempotent member body.idempotency_key
        (notifying (on_session (excuse_work instance member body.excuse_text now))
          (λ _. notify_new_excuse household.id member.display_name definition.title))
        now

  unfoldable pub excuse_task :
      RowId → ExcuseTaskRequest → Member → Household → Time → Web C.Store TaskInstanceResponse
  excuse_task instance_id body member household now =
      get_instance_or_404 instance_id household >>= excuse_found body member household now

  -- The assignee that was loaded with the instance is told how an excuse was decided.
  unfoldable pub told_assignee :
      TaskInstance → TaskDefinition → Bool → TaskInstance → Db → List Push
  unfolding excuse_push
  told_assignee instance definition approve result db =
      if is_status instance.status TaskStatus.excuse_pending
      then excuse_push (find_row (λ (m : Member). m.id) result.assignee_id db.members)
          definition.title approve
      else []

  unfoldable pub review_found :
      ReviewRequest
      → Member
      → Household
      → Time
      → TaskInstance × TaskDefinition
      → Web C.Store TaskInstanceResponse
  unfolding idempotent
  review_found body parent household now (instance, definition) =
      idempotent parent body.idempotency_key
        (notifying
          (on_session
            (review_work instance definition parent household body.approve body.comment now))
          (told_assignee instance definition body.approve))
        now

  unfoldable pub review_task :
      RowId → ReviewRequest → Member → Household → Time → Web C.Store TaskInstanceResponse
  review_task instance_id body member household now = do
    parent ← require_parent member
    get_instance_or_404 instance_id household >>= review_found body parent household now

  unfoldable pub cancel_found :
      CancelTaskRequest
      → Member
      → Time
      → TaskInstance × TaskDefinition
      → Web C.Store TaskInstanceResponse
  unfolding idempotent
  cancel_found body parent now (instance, definition) =
      idempotent parent body.idempotency_key
        (on_session (cancel_work instance parent body.reason now)) now

  unfoldable pub cancel_task_route :
      RowId → CancelTaskRequest → Member → Household → Time → Web C.Store TaskInstanceResponse
  cancel_task_route instance_id body member household now = do
    parent ← require_parent member
    get_instance_or_404 instance_id household >>= cancel_found body parent now
