-- ===== src/Routes/Tasks/Approval.antt =====
-- A task that waits for review is paid for when a parent approves it.
use kids_chores_api.Prelude.Int.{pos, ◌+ℤ◌}
use kids_chores_api.StateMachine.{review}
use kids_chores_api.Session.Binds.{on_error-ok}
use kids_chores_api.Ledger.Awards.{balance}
use kids_chores_api.Ledger.Once.{completions}
use kids_chores_api.StateMachine.Outcomes.{review_approved, judged}
use kids_chores_api.Session.{http, Result, ok, Session, instance_in}
use kids_chores_api.Prelude.{
  refl, ◌∙◌, ◌==◌, none, not, if◌then◌else◌, ap, some, true, ◌≡◌, ◌++◌, Text, Option,
}
use kids_chores_api.Schemas.{response_of, ReviewRequest, TaskInstanceResponse}
use kids_chores_api.Models.{
  is_status, is_parent, TaskStatus, Time, Household, Member, RowId, TaskDefinition, TaskInstance,
}
use kids_chores_api.Redis.Idempotency.{run_idempotent-ok, ttl_seconds, IdemKey}
use kids_chores_api.Redis.{IsCache, Cache}
use kids_chores_api.Routes.Tasks.Work.{rejected_422, review_work}
use kids_chores_api.Routes.Tasks.Rewards.{rewarded, balance-rewarded, paying-free}
use kids_chores_api.Routes.Tasks.{
  get_instance_or_404, idempotent, review_task, review_found, notifying, told_assignee,
}
use kids_chores_api.Web.{
  >>=-ok, on_session, Web, request, World, ◌>>=◌, pure, or_raise, raise_if, query, send_pushes,
  require_parent,
}

review_work-free :
    (i : TaskInstance) (d : TaskDefinition) (a : Member) (h : Household) (comment : Option Text)
    (now : Time) (s : Session)
    → i.status ≡ TaskStatus.review_pending
    → completions i s ≡ 0
    → let done = judged i a TaskStatus.complete comment now in
      review_work i d a h true comment now s ≡ (ok done, rewarded done d a h s)
unfolding review_work
review_work-free i d a h comment now s at unpaid =
    let done : TaskInstance = judged i a TaskStatus.complete comment now in
    let reviewed : is_status i.status TaskStatus.review_pending ≡ true =
      ap (λ t. is_status t TaskStatus.review_pending) at in
    rw reviewed (
      on_error-ok rejected_422 (review i d a h true comment now) s
        (review_approved i d a h comment now s at ∙ paying-free done d a h s unpaid))

-- The caller is a parent of the household, the key is new, and the task waits for review and has not
-- been paid before.
pub record IsApprovable {J : Type 0} (C : Cache IdemKey J) (id key : RowId) (member : Member)
    (household : Household) (now : Time) (w : World C.Store) (i : TaskInstance) (d : TaskDefinition)
    : Type 0 where
  pub found : instance_in id household.id w.session.current ≡ some (i, d)
  pub by_parent : is_parent member.role ≡ true
  pub new_key : C.get now (member.id, key) w.store ≡ none
  pub waiting : i.status ≡ TaskStatus.review_pending
  pub unpaid : completions i w.session ≡ 0

module _ {J : Type 0} (C : Cache IdemKey J) (lawful : IsCache C)
    (serialize : TaskInstanceResponse → J) (deserialize : J → TaskInstanceResponse) (id key : RowId)
    (comment : Option Text) (member : Member) (household : Household) (now : Time)
    (w : World C.Store) (i : TaskInstance) (d : TaskDefinition)
    (approvable : IsApprovable C id key member household now w i d) where
  abbrev pub approval : ReviewRequest
  approval = record { idempotency_key = key; approve = true; comment = comment }

  abbrev pub approved : TaskInstance
  approved = judged i member TaskStatus.complete comment now

  abbrev session_after : Session
  session_after = rewarded approved d member household w.session

  abbrev working : Web C.Store TaskInstance
  working = on_session (review_work i d member household true comment now)

  abbrev telling : TaskInstance → Web C.Store TaskInstance
  telling result = query (told_assignee C serialize deserialize i d true result) >>= λ told.
      send_pushes told >>= λ _. pure result

  abbrev handler : Web C.Store TaskInstanceResponse
  handler =
      notifying working (told_assignee C serialize deserialize i d true) >>= λ (r : TaskInstance).
      pure (response_of r)

  abbrev world_after : World C.Store
  world_after = record w {
    session = session_after;
    pushed =
        w.pushed ++ told_assignee C serialize deserialize i d true approved session_after.current;
  }

  handler-ok : handler w ≡ (ok (response_of approved), world_after)
  unfolding notifying
  handler-ok =
      >>=-ok (notifying working (told_assignee C serialize deserialize i d true))
        (λ (r : TaskInstance). pure (response_of r)) w
        (>>=-ok working telling w (
          ap (λ (r : Result TaskInstance × Session). (r.0, record w { session = r.1 }))
            (review_work-free i d member household comment now w.session approvable.waiting
              approvable.unpaid)))

  answered : review_task C serialize deserialize id approval member household now w ≡ (
    ok (response_of approved),
    record world_after {
      store = C.set now (member.id, key) (serialize (response_of approved)) ttl_seconds w.store;
    },
  )
  unfolding review_task review_found idempotent get_instance_or_404 require_parent
  answered =
      >>=-ok (require_parent member)
        (λ parent.
          get_instance_or_404 id household
          >>= review_found C serialize deserialize approval parent household now)
        w (ap (λ b. (raise_if (not b) (http 403) >>= λ _. pure member) w) approvable.by_parent)
      ∙ >>=-ok (get_instance_or_404 id household)
          (review_found C serialize deserialize approval member household now) w
          (ap (λ o. or_raise o (http 404) w) approvable.found)
      ∙ run_idempotent-ok C serialize deserialize lawful member.id key handler now w
          approvable.new_key handler-ok approvable.new_key

  -- A parent's approval succeeds when the task is of the household, the key is new, and the task
  -- waits for review and has not been paid before: the task is answered as complete, and what is
  -- committed has its points in the wallet of its assignee and every other balance as it was.
  pub review_task-pays :
      let after =
        request (review_task C serialize deserialize id approval member household now) w in
      (after.0 ≡ ok (response_of approved))
      × (after.1.session.committed ≡ after.1.session.current)
      × ((m : RowId)
          → balance m after.1.session ≡ (
              if i.assignee_id == m
              then balance m w.session +ℤ pos i.point_value
              else balance m w.session))
  unfolding request
  review_task-pays =
      rw answered (refl, refl, balance-rewarded approved d member household w.session)
