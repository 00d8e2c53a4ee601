-- ===== src/Routes/Tasks/Payment.antt =====
-- A task that is done is paid for: from the request to the committed balance.
use kids_chores_api.Ledger.Once.{completions}
use kids_chores_api.StateMachine.{is_open}
use kids_chores_api.Prelude.Int.{pos, ◌+ℤ◌}
use kids_chores_api.Ledger.Awards.{balance}
use kids_chores_api.Routes.Tasks.Work.{complete_work}
use kids_chores_api.StateMachine.Outcomes.{completed}
use kids_chores_api.Prelude.{
  ◌∙◌, refl, true, none, false, ◌==◌, if◌then◌else◌, not, ap, ◌&&◌, some, ◌≡◌,
}
use kids_chores_api.Routes.Tasks.{get_instance_or_404, idempotent, complete_found, complete_task}
use kids_chores_api.Session.{http, Result, ok, instance_in, Session}
use kids_chores_api.Schemas.{response_of, TaskInstanceResponse, CompleteTaskRequest}
use kids_chores_api.Models.{
  is_teen, TaskStatus, TaskDefinition, TaskInstance, Time, Household, Member, RowId,
}
use kids_chores_api.Redis.Idempotency.{run_idempotent-ok, ttl_seconds, IdemKey}
use kids_chores_api.Redis.{IsCache, Cache}
use kids_chores_api.Routes.Tasks.Rewards.{rewarded, balance-rewarded, complete_work-free}
use kids_chores_api.Web.{>>=-ok, on_session, Web, request, World, ◌>>=◌, pure, or_raise, raise_if}

-- Nobody is barred, the key is new, and the task is open, needs no review, belongs to no series and
-- has not been paid before.
pub record IsPayable {J : Type 0} (C : Cache IdemKey J) (id : RowId) (body : CompleteTaskRequest)
    (member : Member) (household : Household) (now : Time) (w : World C.Store) (i : TaskInstance)
    (d : TaskDefinition) : Type 0 where
  pub found : instance_in id household.id w.session.current ≡ some (i, d)
  pub allowed : (is_teen member.role && not (i.assignee_id == member.id)) ≡ false
  pub new_key : C.get now (member.id, body.idempotency_key) w.store ≡ none
  pub todo : is_open i.status ≡ true
  pub automatic : d.requires_review ≡ false
  pub alone : i.series_instance_id ≡ none
  pub unpaid : completions i w.session ≡ 0

module _ {J : Type 0} (C : Cache IdemKey J) (lawful : IsCache C)
    (serialize : TaskInstanceResponse → J) (deserialize : J → TaskInstanceResponse) (id : RowId)
    (body : CompleteTaskRequest) (member : Member) (household : Household) (now : Time)
    (w : World C.Store) (i : TaskInstance) (d : TaskDefinition)
    (payable : IsPayable C id body member household now w i d) where
  abbrev pub done : TaskInstance
  done = completed i TaskStatus.complete body.note now

  abbrev session_after : Session
  session_after = rewarded done d member household w.session

  abbrev handler : Web C.Store TaskInstanceResponse
  handler = on_session (complete_work i d member household body.note now) >>= λ (r : TaskInstance).
      pure (response_of r)

  handler-ok : handler w ≡ (ok (response_of done), record w { session = session_after })
  handler-ok =
      >>=-ok (on_session (complete_work i d member household body.note now))
        (λ (r : TaskInstance). pure (response_of r)) w
        (ap (λ (r : Result TaskInstance × Session). (r.0, record w { session = r.1 }))
          (complete_work-free i d member household body.note now w.session payable.todo
            payable.automatic payable.alone payable.unpaid))

  found_instance : get_instance_or_404 id household w ≡ (ok (i, d), w)
  unfolding get_instance_or_404
  found_instance = ap (λ o. or_raise o (http 404) w) payable.found

  answered : complete_task C serialize deserialize id body member household now w ≡ (
    ok (response_of done),
    record w {
      session = session_after;
      store =
          C.set now
            (member.id, body.idempotency_key)
            (serialize (response_of done))
            ttl_seconds
            w.store;
    },
  )
  unfolding complete_task complete_found idempotent
  answered =
      >>=-ok (get_instance_or_404 id household)
        (complete_found C serialize deserialize body member household now) w found_instance
      ∙ >>=-ok (raise_if (is_teen member.role && not (i.assignee_id == member.id)) (http 403))
          (λ _.
            idempotent C serialize deserialize member body.idempotency_key
              (on_session (complete_work i d member household body.note now)) now)
          w (ap (λ b. raise_if b (http 403) w) payable.allowed)
      ∙ (run_idempotent-ok C serialize deserialize lawful member.id body.idempotency_key handler now
          w payable.new_key handler-ok payable.new_key)

  -- A request to complete a task succeeds when the caller may act on the task, the key is new, and
  -- the task is open, needs no review, belongs to no series and has not been paid before: the task
  -- is answered as complete, and what is committed has its points in the wallet of its assignee and
  -- every other balance as it was.
  pub complete_task-pays :
      let after = request (complete_task C serialize deserialize id body member household now) w in
      (after.0 ≡ ok (response_of done))
      × (after.1.session.committed ≡ after.1.session.current)
      × ((m : RowId)
          → balance m after.1.session ≡ (
              if i.assignee_id == m
              then balance m w.session +ℤ pos i.point_value
              else balance m w.session))
  unfolding request
  complete_task-pays = rw answered (refl, refl, balance-rewarded done d member household w.session)
