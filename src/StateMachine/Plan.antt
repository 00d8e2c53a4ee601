-- ===== src/StateMachine/Plan.antt =====
-- A call of `StateMachineService` decides first, and only then writes: it is refused, saves a row, or
-- has the ledger post and then saves a row.
use kids_chores_api.Ledger.{write_reversal, award_task_completion}
use kids_chores_api.StateMachine.Outcomes.{
  review_closed, resolve_excuse_closed, submit_excuse_overdue, review_denied_late,
  resolve_excuse_denied, submit_excuse_pending, review_denied_early, submit_excuse_short,
  resolve_excuse_silent, review_silent, review_approved, resolve_excuse_approved,
  submit_excuse_closed, reversed_to, reverse_completion_open, denied_to, reverse_completion_closed,
  cancel_task_open, cancel_task_closed, judged, excused_with, complete_paid, complete_reviewed,
  complete_closed, completed, saving, paying,
}
use kids_chores_api.Models.{
  Time, Household, LedgerEntry, Member, is_status, TaskInstance, TaskDefinition, TaskStatus,
}
use kids_chores_api.Grace.{resume_grace, suspend_grace}
use kids_chores_api.Prelude.{
  false, ◌⊎◌, some, is_missing, sym, ◌∙◌, strip, length, inl, ltb, refl, inr, arith, true,
  Bool-cases, not, if◌then◌else◌, Bool, ◌≡◌, Text, Option,
}
use kids_chores_api.Ledger.Posting.{one, LedgerCall, run_call}
use kids_chores_api.Session.{
  value_error, err, invalid_transition, ok, Result, Session, raise, Error, Action,
}
use kids_chores_api.StateMachine.{
  is_open, complete, submit_excuse, review, resolve_excuse, cancel_task, reverse_completion,
}

pub data TaskCall : Type 0 where
  completing : Option Text → TaskCall
  excusing : Text → TaskCall
  reviewing : Bool → Option Text → TaskCall
  resolving : Bool → Option Text → TaskCall
  cancelling : Option Text → TaskCall
  reversing : Text → TaskCall

-- Everything else that a call is given.
pub record Context : Type 0 where
  pub definition : TaskDefinition
  pub actor : Member
  pub household : Household
  pub now : Time

unfoldable pub run_task : TaskCall → Context → TaskInstance → Action TaskInstance
run_task (completing note) x i = complete i x.definition x.actor x.household note x.now
run_task (excusing text) x i = submit_excuse i x.actor text x.now
run_task (reviewing b comment) x i = review i x.definition x.actor x.household b comment x.now
run_task (resolving b comment) x i =
    resolve_excuse i x.definition x.actor x.household b comment x.now
run_task (cancelling reason) x i = cancel_task i x.actor reason x.now
run_task (reversing reason) x i = reverse_completion i x.actor reason x.now

pub data Plan : Type 0 where
  refuse : Error → Plan
  save : TaskInstance → Plan
  pay : LedgerCall → TaskInstance → Plan

unfoldable pub carry_out : Plan → Action TaskInstance
carry_out (refuse e) = raise e
carry_out (save i) = saving i
carry_out (pay c i) = paying (run_call c) i

abbrev award_then : Context → TaskInstance → Plan
award_then x i = pay (LedgerCall.task_completion i x.definition x.actor x.household) i

unfoldable pub plan : TaskCall → Context → TaskInstance → Plan
unfolding suspend_grace resume_grace
plan (completing note) x i =
    if not (is_open i.status)
    then refuse invalid_transition
    else if x.definition.requires_review
    then save (completed i TaskStatus.review_pending note x.now)
    else award_then x (completed i TaskStatus.complete note x.now)
plan (excusing text) x i =
    if not (is_open i.status)
    then refuse invalid_transition
    else if ltb (length (strip text)) 10
    then refuse value_error
    else save (
        if is_status i.status TaskStatus.overdue
        then suspend_grace (excused_with i text x.now) x.now
        else excused_with i text x.now)
plan (reviewing b comment) x i =
    if not (is_status i.status TaskStatus.review_pending)
    then refuse invalid_transition
    else if b
    then award_then x (judged i x.actor TaskStatus.complete comment x.now)
    else if is_missing comment
    then refuse value_error
    else if ltb x.now i.due_at
    then save (judged i x.actor TaskStatus.pending comment x.now)
    else save (resume_grace (judged i x.actor TaskStatus.overdue comment x.now) x.now)
plan (resolving b comment) x i =
    if not (is_status i.status TaskStatus.excuse_pending)
    then refuse invalid_transition
    else if b
    then (let accepted = judged i x.actor TaskStatus.excused comment x.now in
        pay (LedgerCall.excuse accepted x.definition x.actor x.household) accepted)
    else if is_missing comment
    then refuse value_error
    else save (resume_grace (judged i x.actor (denied_to i x.household x.now) comment x.now) x.now)
plan (cancelling reason) x i =
    if not (is_open i.status)
    then refuse invalid_transition
    else save (judged i x.actor TaskStatus.cancelled reason x.now)
plan (reversing reason) x i =
    if not (is_status i.status TaskStatus.complete)
    then refuse invalid_transition
    else (let back = judged i x.actor (reversed_to i x.now) (some reason) x.now in
        pay (LedgerCall.reversal back x.actor reason) back)

pub open-cases :
    (status : TaskStatus)
    → is_open status ≡ true
    → (status ≡ TaskStatus.pending) ⊎ (status ≡ TaskStatus.overdue)
open-cases status h = ground arith

pub is_status_eq : (s t : TaskStatus) → is_status s t ≡ true → s ≡ t
is_status_eq s t h = ground arith

paying-one :
    (m : Action LedgerEntry) (i : TaskInstance) (s : Session) → paying (one m) i s ≡ paying m i s
paying-one m i s = go (m s)
  where
    go : (r : Result LedgerEntry × Session) → paying (one (λ t. r)) i s ≡ paying (λ t. r) i s
    go (ok e, t) = refl
    go (err e, t) = refl

module _ (x : Context) (i : TaskInstance) (s : Session) where
  open x use {definition, actor, household, now}

  award-plan :
      (j : TaskInstance)
      → paying (award_task_completion j definition actor household) j s
        ≡ carry_out (award_then x j) s
  unfolding carry_out run_call
  award-plan j = sym (paying-one (award_task_completion j definition actor household) j s)

  complete-plan :
      (note : Option Text)
      → run_task (completing note) x i s ≡ carry_out (plan (completing note) x i) s
  unfolding run_task plan
  complete-plan note = elim (Bool-cases (is_open i.status)) [
    | inr shut ↦
        complete_closed i definition actor household note now s shut ∙ unfold carry_out in rw shut
    | inl free ↦ elim (Bool-cases definition.requires_review) [
      | inl r ↦
          complete_reviewed i definition actor household note now s free r
          ∙ unfold carry_out in rw (free, r)
      | inr r ↦
          complete_paid i definition actor household note now s free r
          ∙ award-plan (completed i TaskStatus.complete note now)
          ∙ simp (free, r)
    ]
  ]

  excuse-plan :
      (text : Text) → run_task (excusing text) x i s ≡ carry_out (plan (excusing text) x i) s
  unfolding run_task plan carry_out
  excuse-plan text = elim (Bool-cases (is_open i.status)) [
    | inr shut ↦ submit_excuse_closed i actor text now s shut ∙ rw shut
    | inl free ↦ elim (Bool-cases (ltb (length (strip text)) 10)) [
      | inl short ↦ submit_excuse_short i actor text now s free short ∙ rw (free, short)
      | inr long ↦ elim (open-cases i.status free) [
        | inl at ↦ submit_excuse_pending i actor text now s at long ∙ rw (at, long)
        | inr at ↦ submit_excuse_overdue i actor text now s at long ∙ rw (at, long)
      ]
    ]
  ]

  review-plan :
      (b : Bool) (comment : Option Text)
      → run_task (reviewing b comment) x i s ≡ carry_out (plan (reviewing b comment) x i) s
  unfolding run_task plan
  review-plan b comment = elim (Bool-cases (is_status i.status TaskStatus.review_pending)) [
    | inr shut ↦
        review_closed i definition actor household b comment now s shut
        ∙ unfold carry_out in rw shut
    | inl at ↦ decide b (is_status_eq i.status TaskStatus.review_pending at)
  ]
    where
      decide :
          (b : Bool)
          → i.status ≡ TaskStatus.review_pending
          → run_task (reviewing b comment) x i s ≡ carry_out (plan (reviewing b comment) x i) s
      decide true at =
          review_approved i definition actor household comment now s at
          ∙ award-plan (judged i actor TaskStatus.complete comment now)
          ∙ simp at
      decide false at = elim (Bool-cases (is_missing comment)) [
        | inl silent ↦
            review_silent i definition actor household comment now s at silent
            ∙ unfold carry_out in rw (at, silent)
        | inr said ↦ elim (Bool-cases (ltb now i.due_at)) [
          | inl early ↦
              review_denied_early i definition actor household comment now s at said early
              ∙ unfold carry_out in rw (at, said, early)
          | inr late ↦
              review_denied_late i definition actor household comment now s at said late
              ∙ unfold carry_out in rw (at, said, late)
        ]
      ]

  resolve-plan :
      (b : Bool) (comment : Option Text)
      → run_task (resolving b comment) x i s ≡ carry_out (plan (resolving b comment) x i) s
  unfolding run_task plan
  resolve-plan b comment = elim (Bool-cases (is_status i.status TaskStatus.excuse_pending)) [
    | inr shut ↦
        resolve_excuse_closed i definition actor household b comment now s shut
        ∙ unfold carry_out in rw shut
    | inl at ↦ decide b (is_status_eq i.status TaskStatus.excuse_pending at)
  ]
    where
      decide :
          (b : Bool)
          → i.status ≡ TaskStatus.excuse_pending
          → run_task (resolving b comment) x i s ≡ carry_out (plan (resolving b comment) x i) s
      decide true at =
          resolve_excuse_approved i definition actor household comment now s at
          ∙ unfold carry_out run_call in simp at
      decide false at = elim (Bool-cases (is_missing comment)) [
        | inl silent ↦
            resolve_excuse_silent i definition actor household comment now s at silent
            ∙ unfold carry_out in rw (at, silent)
        | inr said ↦
            resolve_excuse_denied i definition actor household comment now s at said
            ∙ unfold carry_out in rw (at, said)
      ]

  reverse-plan :
      (reason : Text)
      → run_task (reversing reason) x i s ≡ carry_out (plan (reversing reason) x i) s
  unfolding run_task plan
  reverse-plan reason = elim (Bool-cases (is_status i.status TaskStatus.complete)) [
    | inr shut ↦ reverse_completion_closed i actor reason now s shut ∙ unfold carry_out in rw shut
    | inl at ↦
        let back : TaskInstance = judged i actor (reversed_to i now) (some reason) now in
        reverse_completion_open i actor reason now s (is_status_eq i.status TaskStatus.complete at)
        ∙ sym (paying-one (write_reversal back actor reason) back s)
        ∙ unfold carry_out run_call in simp at
  ]

  cancel-plan :
      (reason : Option Text)
      → run_task (cancelling reason) x i s ≡ carry_out (plan (cancelling reason) x i) s
  unfolding run_task plan carry_out
  cancel-plan reason = elim (Bool-cases (is_open i.status)) [
    | inr shut ↦ cancel_task_closed i actor reason now s shut ∙ rw shut
    | inl free ↦ cancel_task_open i actor reason now s free ∙ rw free
  ]

-- Every method of the service does what the plan says: it is refused and leaves the session as it
-- was, or it saves exactly the planned row, after the planned call of the ledger where one is due.
pub run_task-plan :
    (c : TaskCall) (x : Context) (i : TaskInstance) (s : Session)
    → run_task c x i s ≡ carry_out (plan c x i) s
run_task-plan (completing note) x i s = complete-plan x i s note
run_task-plan (excusing text) x i s = excuse-plan x i s text
run_task-plan (reviewing b comment) x i s = review-plan x i s b comment
run_task-plan (resolving b comment) x i s = resolve-plan x i s b comment
run_task-plan (cancelling reason) x i s = cancel-plan x i s reason
run_task-plan (reversing reason) x i s = reverse-plan x i s reason
