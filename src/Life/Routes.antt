-- ===== src/Life/Routes.antt =====
-- The routes of backend/app/routers/tasks.py as steps of the application.
use kids_chores_api.Web.Notifications.{notify_new_excuse}
use kids_chores_api.Life.Requests.{
  review_work-IsSettled, excuse_work-IsSettled, complete_work-IsSettled, cancel_work-IsSettled,
}
use kids_chores_api.Routes.Tasks.{
  told_assignee, review_found, cancel_found, excuse_found, complete_found, notifying, complete_task,
  excuse_task, review_task, cancel_task_route,
}
use kids_chores_api.Routes.Tasks.Work.{complete_work, excuse_work, review_work, cancel_work}
use kids_chores_api.Models.{
  is_parent, is_teen, Time, Member, TaskDefinition, TaskInstance, Household, RowId,
}
use kids_chores_api.Routes.Tasks.{get_instance_or_404}
use kids_chores_api.Schemas.{
  ReviewRequest, CancelTaskRequest, CompleteTaskRequest, ExcuseTaskRequest, response_of,
  TaskInstanceResponse,
}
use kids_chores_api.Redis.Idempotency.{ttl_seconds, answer, run_idempotent, IdemKey}
use kids_chores_api.Redis.{Cache}
use kids_chores_api.Life.Frame.{IsSettled}
use kids_chores_api.Routes.Tasks.{idempotent}
use kids_chores_api.Web.{
  raise_if, query, send_pushes, Push, on_session, require_parent, Web, World, on_store, or_raise,
  pure, request, ◌>>=◌, ◌>>◌,
}
use kids_chores_api.Session.{
  Error, definition_in, Db, http, find_row, with_definition, instance_in, Result, ok, err,
}
use kids_chores_api.Prelude.{
  find?-holds, false, not, ◌&&◌, sym, ==_iff, ◌∙◌, ◌==◌, ap, none, Option, subst, Bool, true, ◌≡◌,
  refl, inl, inr, some, List, find?, Bool-cases,
}

pub with_definition-same :
    (household_id : RowId) (db : Db) (i : TaskInstance) {j : TaskInstance} {d : TaskDefinition}
    → with_definition household_id db i ≡ some (j, d)
    → i ≡ j
unfolding with_definition
with_definition-same household_id db i {j} {d} h =
    go (definition_in i.definition_id household_id db) h
  where
    go :
        (o : Option TaskDefinition)
        → elim o as (λ _. Option (TaskInstance × TaskDefinition)) [
          | none ↦ none
          | some e ↦ some (i, e)
        ]
          ≡ some (j, d)
        → i ≡ j
    go none e = cc
    go (some x) e =
        ap
          (λ (o : Option (TaskInstance × TaskDefinition)). elim o as (λ _. TaskInstance) [
            | none ↦ i
            | some p ↦ p.0
          ])
          e

-- The instance that a request names is a row of the table.
pub instance_in-found :
    (id household_id : RowId) (db : Db) {i : TaskInstance} {d : TaskDefinition}
    → instance_in id household_id db ≡ some (i, d)
    → find_row (λ (r : TaskInstance). r.id) i.id db.task_instances ≡ some i
unfolding instance_in find_row
instance_in-found id household_id db {i} {d} h =
    go (find? (λ (r : TaskInstance). r.id == id) db.task_instances) refl h
  where
    go :
        (o : Option TaskInstance)
        → find? (λ (r : TaskInstance). r.id == id) db.task_instances ≡ o
        → elim o as (λ _. Option (TaskInstance × TaskDefinition)) [
          | none ↦ none
          | some x ↦ with_definition household_id db x
        ]
          ≡ some (i, d)
        → find? (λ (r : TaskInstance). r.id == i.id) db.task_instances ≡ some i
    go none e k = cc
    go (some x) e k =
        let same : x ≡ i = with_definition-same household_id db x k in
        let hit : find? (λ (r : TaskInstance). r.id == id) db.task_instances ≡ some i =
          e ∙ ap some same in
        let key : i.id ≡ id =
          (==_iff i.id id).0
            (find?-holds (λ (r : TaskInstance). r.id == id) db.task_instances hit) in
        subst (λ (k : RowId). find? (λ (r : TaskInstance). r.id == k) db.task_instances ≡ some i)
          (sym key) hit

module _ {S A B : Type 0} (w : World S) where
  pub bind-kept :
      (m : Web S A) (f : A → Web S B)
      → IsSettled (m w).1.session
      → ((a : A) (v : World S)
          → m w ≡ (ok a, v)
          → IsSettled v.session
          → IsSettled (f a v).1.session)
      → IsSettled ((m >>= f) w).1.session
  bind-kept m f kept rest = go (m w) refl kept
    where
      go :
          (r : Result A × World S)
          → m w ≡ r
          → IsSettled r.1.session
          → IsSettled (((λ (t : World S). r) >>= f) w).1.session
      go (ok a, v) e h = rest a v e h
      go (err e', v) e h = h

notifying-IsSettled :
    {S : Type 0} (work : Web S TaskInstance) (pushes : TaskInstance → Db → List Push) (w : World S)
    → IsSettled (work w).1.session
    → IsSettled (notifying work pushes w).1.session
unfolding notifying
notifying-IsSettled work pushes w kept =
    bind-kept w work (λ result. query (pushes result) >>= λ told. send_pushes told >> pure result)
      kept (λ a v e h. h)

-- A request commits what it has kept, or goes back to what was kept before.
pub request-IsSettled :
    {S A : Type 0} (handler : Web S A) (w : World S)
    → IsSettled (handler w).1.session
    → IsSettled (request handler w).1.session
unfolding request
request-IsSettled {S} {A} handler w kept = go (handler w) kept
  where
    go :
        (r : Result A × World S)
        → IsSettled r.1.session
        → IsSettled (request (λ (t : World S). r) w).1.session
    go (ok a, v) h = record { now = h.now; saved = h.now }
    go (err e, v) h = record { now = h.saved; saved = h.saved }

pub barred-IsSettled :
    {S A : Type 0} (member : Member) (w : World S) (rest : Member → Web S A)
    → IsSettled w.session
    → IsSettled (rest member w).1.session
    → IsSettled ((require_parent member >>= rest) w).1.session
unfolding require_parent
barred-IsSettled member w rest kept work = elim (Bool-cases (is_parent member.role)) [
  | inl parent ↦ rw parent work
  | inr teen ↦ rw teen kept
]

module _ {J : Type 0} (C : Cache IdemKey J) (serialize : TaskInstanceResponse → J)
    (deserialize : J → TaskInstanceResponse) where
  -- Either the handler runs, or nothing does.
  pub idempotent-IsSettled :
      (member : Member) (key : RowId) (handler : Web C.Store TaskInstance) (now : Time)
      (w : World C.Store)
      → IsSettled w.session
      → IsSettled (handler w).1.session
      → IsSettled (idempotent C serialize deserialize member key handler now w).1.session
  unfolding idempotent run_idempotent
  idempotent-IsSettled member key handler now w kept worked =
      go (C.get now (member.id, key) w.store)
    where
      respond : TaskInstance → Web C.Store TaskInstanceResponse
      respond i = pure (response_of i)

      go :
          (o : Option J)
          → IsSettled
              (answer C serialize deserialize o
                (member.id, key)
                (handler >>= respond)
                now
                w).1.session
      go (some j) = kept
      go none =
          bind-kept w (handler >>= respond)
            (λ r. on_store (C.set_nx now (member.id, key) (serialize r) ttl_seconds) >> pure r)
            (bind-kept w handler respond worked (λ a v e h. h)) (λ a v e h. h)

  -- A route finds its instance or raises, and then works on it in the session as it was.
  found-IsSettled :
      {A : Type 0} (id : RowId) (household : Household) (w : World C.Store)
      (rest : TaskInstance × TaskDefinition → Web C.Store A)
      → IsSettled w.session
      → ((i : TaskInstance) (d : TaskDefinition)
          → find_row (λ (r : TaskInstance). r.id) i.id w.session.current.task_instances ≡ some i
          → IsSettled (rest (i, d) w).1.session)
      → IsSettled ((get_instance_or_404 id household >>= rest) w).1.session
  unfolding get_instance_or_404
  found-IsSettled {A} id household w rest kept work =
      go (instance_in id household.id w.session.current) refl
    where
      go :
          (o : Option (TaskInstance × TaskDefinition))
          → instance_in id household.id w.session.current ≡ o
          → IsSettled (((λ (v : World C.Store). or_raise o (http 404) v) >>= rest) w).1.session
      go none e = kept
      go (some (i, d)) e = work i d (instance_in-found id household.id w.session.current e)

  guarded-IsSettled :
      {A : Type 0} (c : Bool) (e : Error) (w : World C.Store) (rest : Web C.Store A)
      → IsSettled w.session
      → IsSettled (rest w).1.session
      → IsSettled ((raise_if c e >> rest) w).1.session
  guarded-IsSettled true e w rest kept work = kept
  guarded-IsSettled false e w rest kept work = work

  module _ (member : Member) (household : Household) (now : Time) (w : World C.Store)
      (kept : IsSettled w.session) where
    pub complete_task-IsSettled :
        (id : RowId) (body : CompleteTaskRequest)
        → IsSettled (complete_task C serialize deserialize id body member household now w).1.session
    unfolding complete_task complete_found
    complete_task-IsSettled id body =
        found-IsSettled id household w
          (complete_found C serialize deserialize body member household now) kept
          λ i d found.
            guarded-IsSettled (is_teen member.role && not (i.assignee_id == member.id)) (http 403) w
              (idempotent C serialize deserialize member body.idempotency_key
                (on_session (complete_work i d member household body.note now)) now)
              kept
              (idempotent-IsSettled member body.idempotency_key
                (on_session (complete_work i d member household body.note now)) now w kept
                (complete_work-IsSettled i d member household now w.session found kept body.note))

    pub excuse_task-IsSettled :
        (id : RowId) (body : ExcuseTaskRequest)
        → IsSettled (excuse_task C serialize deserialize id body member household now w).1.session
    unfolding excuse_task excuse_found
    excuse_task-IsSettled id body =
        found-IsSettled id household w
          (excuse_found C serialize deserialize body member household now) kept
          λ i d found.
            let handler : Web C.Store TaskInstance =
              notifying (on_session (excuse_work i member body.excuse_text now))
                (λ _. notify_new_excuse household.id member.display_name d.title) in
            guarded-IsSettled (is_teen member.role && not (i.assignee_id == member.id)) (http 403) w
              (idempotent C serialize deserialize member body.idempotency_key handler now) kept
              (idempotent-IsSettled member body.idempotency_key handler now w kept (
                notifying-IsSettled (on_session (excuse_work i member body.excuse_text now)) _ w (
                  excuse_work-IsSettled i d member household now w.session found kept
                    body.excuse_text)))

    pub review_task-IsSettled :
        (id : RowId) (body : ReviewRequest)
        → IsSettled (review_task C serialize deserialize id body member household now w).1.session
    unfolding review_task review_found
    review_task-IsSettled id body =
        barred-IsSettled member w
          (λ parent.
            get_instance_or_404 id household
            >>= review_found C serialize deserialize body parent household now)
          kept
          (found-IsSettled id household w
            (review_found C serialize deserialize body member household now) kept
            λ i d found. idempotent-IsSettled member body.idempotency_key _ now w kept (
              notifying-IsSettled
                (on_session (review_work i d member household body.approve body.comment now))
                (told_assignee C serialize deserialize i d body.approve) w
                (review_work-IsSettled i d member household now w.session found kept body.approve
                  body.comment)))

    pub cancel_task-IsSettled :
        (id : RowId) (body : CancelTaskRequest)
        → IsSettled
            (cancel_task_route C serialize deserialize id body member household now w).1.session
    unfolding cancel_task_route cancel_found
    cancel_task-IsSettled id body =
        barred-IsSettled member w
          (λ parent.
            get_instance_or_404 id household
            >>= cancel_found C serialize deserialize body parent now)
          kept
          (found-IsSettled id household w (cancel_found C serialize deserialize body member now)
            kept
            λ i d found.
              idempotent-IsSettled member body.idempotency_key
                (on_session (cancel_work i member body.reason now)) now w kept
                (cancel_work-IsSettled i d member household now w.session found kept body.reason))
