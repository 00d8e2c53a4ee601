-- ===== src/StateMachine/Diagram.antt =====
-- The task lifecycle as the diagram of README.md and docs/prd.md §7.0, and the calls as walks on it.
use kids_chores_api.StateMachine.Outcomes.{paying}
use kids_chores_api.Ledger.Posting.{run_call}
use kids_chores_api.StateMachine.{is_terminal}
use kids_chores_api.Session.{ok-injective, err, invalid_transition, ok, Session, Result}
use kids_chores_api.Prelude.{subst, true, ◌≡◌, arith}
use kids_chores_api.Models.{TaskStatus, TaskInstance}
use kids_chores_api.StateMachine.Plan.{
  run_task-plan, run_task, carry_out, TaskCall, completing, excusing, reviewing, resolving,
  cancelling, reversing, Context, Plan, refuse, save, pay, plan,
}

infix 40 ◌⟶◌
pub data ◌⟶◌ : TaskStatus → TaskStatus → Type 0 where
  done : TaskStatus.pending ⟶ TaskStatus.complete
  done_for_review : TaskStatus.pending ⟶ TaskStatus.review_pending
  excused_early : TaskStatus.pending ⟶ TaskStatus.excuse_pending
  voided : TaskStatus.pending ⟶ TaskStatus.cancelled
  late_done : TaskStatus.overdue ⟶ TaskStatus.complete
  late_for_review : TaskStatus.overdue ⟶ TaskStatus.review_pending
  excused_late : TaskStatus.overdue ⟶ TaskStatus.excuse_pending
  late_voided : TaskStatus.overdue ⟶ TaskStatus.cancelled
  approved : TaskStatus.review_pending ⟶ TaskStatus.complete
  denied_early : TaskStatus.review_pending ⟶ TaskStatus.pending
  denied_late : TaskStatus.review_pending ⟶ TaskStatus.overdue
  excuse_approved : TaskStatus.excuse_pending ⟶ TaskStatus.excused
  excuse_denied : TaskStatus.excuse_pending ⟶ TaskStatus.overdue
  excuse_too_late : TaskStatus.excuse_pending ⟶ TaskStatus.missed
  reversed_early : TaskStatus.complete ⟶ TaskStatus.overdue
  reversed_late : TaskStatus.complete ⟶ TaskStatus.missed

ruleset edges = (
  done, done_for_review, excused_early, voided, late_done, late_for_review, excused_late,
  late_voided, approved, denied_early, denied_late, excuse_approved, excuse_denied, excuse_too_late,
  reversed_early, reversed_late,
)

-- What no call of the service changes: whose task it is, when it was due and what it is worth.
pub record SameTask (i j : TaskInstance) : Type 0 where
  pub id : j.id ≡ i.id
  pub definition_id : j.definition_id ≡ i.definition_id
  pub assignee_id : j.assignee_id ≡ i.assignee_id
  pub due_at : j.due_at ≡ i.due_at
  pub point_value : j.point_value ≡ i.point_value
  pub series_instance_id : j.series_instance_id ≡ i.series_instance_id

abbrev pub Follows : TaskInstance → Plan → Type 0
Follows i (refuse e) = Unit
Follows i (save j) = (i.status ⟶ j.status) × SameTask i j
Follows i (pay c j) = (i.status ⟶ j.status) × SameTask i j

pub plan-Follows : (c : TaskCall) (x : Context) (i : TaskInstance) → Follows i (plan c x i)
unfolding plan
plan-Follows (completing n) x i = grind (arith, edges)
plan-Follows (excusing text) x i = grind (arith, edges)
plan-Follows (reviewing b comment) x i = grind (arith, edges)
plan-Follows (resolving b comment) x i = grind (arith, edges)
plan-Follows (cancelling reason) x i = grind (arith, edges)
plan-Follows (reversing reason) x i = grind (arith, edges)

abbrev Walked : TaskInstance → Result TaskInstance × Session → Type 0
Walked i (ok j, s) = (i.status ⟶ j.status) × SameTask i j
Walked i (err e, s) = Unit

paying-Walked :
    {A : Type 0} (i j : TaskInstance) (r : Result A × Session)
    → (i.status ⟶ j.status) × SameTask i j
    → Walked i (paying (λ s. r) j r.1)
paying-Walked i j (ok a, s) h = h
paying-Walked i j (err e, s) h = tt

carry_out-Walked :
    (i : TaskInstance) (p : Plan) (s : Session) → Follows i p → Walked i (carry_out p s)
unfolding carry_out
carry_out-Walked i (refuse e) s h = tt
carry_out-Walked i (save j) s h = h
carry_out-Walked i (pay c j) s h = paying-Walked i j (run_call c s) h

Walked-ok :
    (i : TaskInstance) (r : Result TaskInstance × Session) {j : TaskInstance}
    → Walked i r
    → r.0 ≡ ok j
    → (i.status ⟶ j.status) × SameTask i j
Walked-ok i (ok k, s) h e =
    subst (λ (t : TaskInstance). (i.status ⟶ t.status) × SameTask i t) (ok-injective e) h
Walked-ok i (err e', s) h e = cc

-- Whatever call of the service succeeds, on whatever session, the task has moved along one arrow of
-- the documented diagram, and keeps its identity, its assignee, its due time, its series and the
-- points that it was created with.
pub run_task_walks :
    (c : TaskCall) (x : Context) (i : TaskInstance) (s : Session) {j : TaskInstance}
    → (run_task c x i s).0 ≡ ok j
    → (i.status ⟶ j.status) × SameTask i j
run_task_walks c x i s =
    Walked-ok i (run_task c x i s)
      (rw (run_task-plan c x i s) (carry_out-Walked i (plan c x i) s (plan-Follows c x i)))

plan-terminal :
    (c : TaskCall) (x : Context) (i : TaskInstance)
    → is_terminal i.status ≡ true
    → plan c x i ≡ refuse invalid_transition
unfolding plan
plan-terminal (completing n) x i h = ground arith
plan-terminal (excusing text) x i h = ground arith
plan-terminal (reviewing b comment) x i h = ground arith
plan-terminal (resolving b comment) x i h = ground arith
plan-terminal (cancelling reason) x i h = ground arith
plan-terminal (reversing reason) x i h = ground arith

-- A missed, excused or cancelled task is final: every call of the service is refused as an invalid
-- transition and leaves the session as it was.
pub terminal_refuses :
    (c : TaskCall) (x : Context) (i : TaskInstance) (s : Session)
    → is_terminal i.status ≡ true
    → run_task c x i s ≡ (err invalid_transition, s)
unfolding carry_out
terminal_refuses c x i s h = rw (run_task-plan c x i s, plan-terminal c x i h)
