-- ===== src/StateMachine/Payment/Calls.antt =====
-- Each call of the state machine keeps the ledger in step with the task's status.
use kids_chores_api.StateMachine.Payment.{
  IsPaid, PaidAs, Unpaid, OnOk, award-PaidAs, reversal-PaidAs, excuse-PaidAs,
}
use kids_chores_api.Grace.{second, hour}
use kids_chores_api.StateMachine.Outcomes.{judged, paying, completed}
use kids_chores_api.StateMachine.Plan.{
  open-cases, resolving, reviewing, is_status_eq, run_task-plan, carry_out, run_task, excusing,
  cancelling, reversing, completing, pay, save, plan, refuse, TaskCall, Context, Plan,
}
use kids_chores_api.StateMachine.{is_open}
use kids_chores_api.Ledger.Posting.{run_call}
use kids_chores_api.Session.{ok-injective, err, ok, Session, Result}
use kids_chores_api.Prelude.{
  is_none, max, ◌*◌, ◌+◌, leb, strip, some, is_missing, length, ltb, subst, Bool, Bool-cases,
  Option, false, true, refl, inr, inl, Text, ◌≡◌, List,
}
use kids_chores_api.Models.{is_status, LedgerEntry, TaskInstance, TaskStatus}

open-Unpaid :
    (i : TaskInstance) (entries : List LedgerEntry)
    → is_open i.status ≡ true
    → IsPaid i entries
    → Unpaid i.id entries
open-Unpaid i entries free h = elim (open-cases i.status free) [
  | inl at ↦ subst (λ t. PaidAs t i.point_value i.id entries) at h
  | inr at ↦ subst (λ t. PaidAs t i.point_value i.id entries) at h
]

pub status_paid :
    (i : TaskInstance) (t : TaskStatus) (entries : List LedgerEntry)
    → is_status i.status t ≡ true
    → IsPaid i entries
    → PaidAs t i.point_value i.id entries
status_paid i t entries at h =
    subst (λ u. PaidAs u i.point_value i.id entries) (is_status_eq i.status t at) h

abbrev pub Pays : Session → Plan → Type 0
Pays s (refuse e) = Unit
Pays s (save j) = IsPaid j s.current.ledger_entries
Pays s (pay c j) = OnOk (IsPaid j) (run_call c s)

module _ (x : Context) (i : TaskInstance) (s : Session)
    (h : IsPaid i s.current.ledger_entries) where
  open x use {definition, actor, household, now}

  complete-Pays : (n : Option Text) → Pays s (plan (completing n) x i)
  unfolding plan
  complete-Pays n = elim (Bool-cases (is_open i.status)) [
    | inr shut ↦ rw shut tt
    | inl free ↦ elim (Bool-cases definition.requires_review) [
      | inl r ↦ rw (free, r) (open-Unpaid i s.current.ledger_entries free h)
      | inr r ↦
          simp (free, r)
            (award-PaidAs (completed i TaskStatus.complete n now) definition actor s household
              (open-Unpaid i s.current.ledger_entries free h))
    ]
  ]

  excuse_task-Pays : (text : Text) → Pays s (plan (excusing text) x i)
  unfolding plan
  excuse_task-Pays text = elim (Bool-cases (is_open i.status)) [
    | inr shut ↦ rw shut tt
    | inl free ↦ elim (Bool-cases (ltb (length (strip text)) 10)) [
      | inl short ↦ rw (free, short) tt
      | inr long ↦ elim (open-cases i.status free) [
        | inl at ↦ simp (at, long) (open-Unpaid i s.current.ledger_entries free h)
        | inr at ↦ elim (Bool-cases (is_none i.grace_paused_at)) [
          | inl running ↦ simp (at, long, running) (open-Unpaid i s.current.ledger_entries free h)
          | inr paused ↦ simp (at, long, paused) (open-Unpaid i s.current.ledger_entries free h)
        ]
      ]
    ]
  ]

  review-Pays : (b : Bool) (comment : Option Text) → Pays s (plan (reviewing b comment) x i)
  unfolding plan
  review-Pays b comment = elim (Bool-cases (is_status i.status TaskStatus.review_pending)) [
    | inr shut ↦ rw shut tt
    | inl at ↦ decide b at (status_paid i TaskStatus.review_pending s.current.ledger_entries at h)
  ]
    where
      decide :
          (b : Bool)
          → is_status i.status TaskStatus.review_pending ≡ true
          → Unpaid i.id s.current.ledger_entries
          → Pays s (plan (reviewing b comment) x i)
      decide true at u = simp at (
          award-PaidAs (judged i actor TaskStatus.complete comment now) definition actor s household
            u)
      decide false at u = elim (Bool-cases (is_missing comment)) [
        | inl silent ↦ simp (at, silent) tt
        | inr said ↦ elim (Bool-cases (ltb now i.due_at)) [
          | inl early ↦ simp (at, said, early) u
          | inr late ↦ simp (at, said, late) u
        ]
      ]

  resolve-Pays : (b : Bool) (comment : Option Text) → Pays s (plan (resolving b comment) x i)
  unfolding plan
  resolve-Pays b comment = elim (Bool-cases (is_status i.status TaskStatus.excuse_pending)) [
    | inr shut ↦ rw shut tt
    | inl at ↦ decide b at (status_paid i TaskStatus.excuse_pending s.current.ledger_entries at h)
  ]
    where
      decide :
          (b : Bool)
          → is_status i.status TaskStatus.excuse_pending ≡ true
          → Unpaid i.id s.current.ledger_entries
          → Pays s (plan (resolving b comment) x i)
      decide true at u = simp at (
          excuse-PaidAs (judged i actor TaskStatus.excused comment now) definition actor s household
            household.excused_payout_policy refl u)
      decide false at u = elim (Bool-cases (is_missing comment)) [
        | inl silent ↦ simp (at, silent) tt
        | inr said ↦
            elim (Bool-cases (
              leb (i.due_at + household.grace_period_hours * hour)
                (max now (i.due_at + i.grace_elapsed_seconds * second)))) [
                  | inl gone ↦ simp (at, said, gone) u
                  | inr left ↦ simp (at, said, left) u
                ]
      ]

  cancel-Pays : (reason : Option Text) → Pays s (plan (cancelling reason) x i)
  unfolding plan
  cancel-Pays reason = elim (Bool-cases (is_open i.status)) [
    | inr shut ↦ rw shut tt
    | inl free ↦ rw free (open-Unpaid i s.current.ledger_entries free h)
  ]

  reverse-Pays : (reason : Text) → Pays s (plan (reversing reason) x i)
  unfolding plan
  reverse-Pays reason = elim (Bool-cases (is_status i.status TaskStatus.complete)) [
    | inr shut ↦ rw shut tt
    | inl at ↦
        let paid = status_paid i TaskStatus.complete s.current.ledger_entries at h in
        elim (Bool-cases (ltb now i.due_at)) [
          | inl early ↦
              simp (at, early)
                (reversal-PaidAs (judged i actor TaskStatus.overdue (some reason) now) definition
                  actor s reason paid)
          | inr late ↦
              simp (at, late)
                (reversal-PaidAs (judged i actor TaskStatus.missed (some reason) now) definition
                  actor s reason paid)
        ]
  ]

  pub plan-Pays : (c : TaskCall) → Pays s (plan c x i)
  plan-Pays (completing n) = complete-Pays n
  plan-Pays (excusing text) = excuse_task-Pays text
  plan-Pays (reviewing b comment) = review-Pays b comment
  plan-Pays (resolving b comment) = resolve-Pays b comment
  plan-Pays (cancelling reason) = cancel-Pays reason
  plan-Pays (reversing reason) = reverse-Pays reason

abbrev PaidRow : Result TaskInstance × Session → Type 0
PaidRow (ok j, s) = IsPaid j s.current.ledger_entries
PaidRow (err e, s) = Unit

paying-PaidRow :
    {A : Type 0} (j : TaskInstance) (r : Result A × Session)
    → OnOk (IsPaid j) r
    → PaidRow (paying (λ s. r) j r.1)
paying-PaidRow j (ok a, s) h = h
paying-PaidRow j (err e, s) h = tt

carry_out-PaidRow : (p : Plan) (s : Session) → Pays s p → PaidRow (carry_out p s)
unfolding carry_out
carry_out-PaidRow (refuse e) s h = tt
carry_out-PaidRow (save j) s h = h
carry_out-PaidRow (pay c j) s h = paying-PaidRow j (run_call c s) h

PaidRow-ok :
    (r : Result TaskInstance × Session) {j : TaskInstance}
    → PaidRow r
    → r.0 ≡ ok j
    → IsPaid j r.1.current.ledger_entries
PaidRow-ok (ok k, s) h e =
    subst (λ (t : TaskInstance). IsPaid t s.current.ledger_entries) (ok-injective e) h
PaidRow-ok (err x, s) h e = cc

-- A call that succeeds on a task that the ledger has paid as its status says leaves the task paid as
-- its new status says.
pub run_task-IsPaid :
    (c : TaskCall) (x : Context) (i : TaskInstance) (s : Session) {j : TaskInstance}
    → IsPaid i s.current.ledger_entries
    → (run_task c x i s).0 ≡ ok j
    → IsPaid j (run_task c x i s).1.current.ledger_entries
run_task-IsPaid c x i s h =
    PaidRow-ok (run_task c x i s)
      (rw (run_task-plan c x i s) (carry_out-PaidRow (plan c x i) s (plan-Pays x i s h c)))
