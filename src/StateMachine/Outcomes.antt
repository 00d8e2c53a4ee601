-- ===== src/StateMachine/Outcomes.antt =====
-- What each method of `StateMachineService` comes to, branch by branch.
use kids_chores_api.Prelude.Int.{pos, ltb_ℤ}
use kids_chores_api.Grace.Clock.{grace_remaining_lem, grace_used}
use kids_chores_api.Grace.{grace_remaining, second, hour, suspend_grace, resume_grace}
use kids_chores_api.Ledger.{award_excuse_if_policy, write_reversal, award_task_completion}
use kids_chores_api.StateMachine.{
  reverse_completion, review, submit_excuse, cancel_task, resolve_excuse, excuse,
}
use kids_chores_api.Prelude.{
  ap, ◌∙◌, not, refl, ℕ, is_none, max, inr, strip, inl, ◌*◌, none, ◌+◌, Bool-cases, length, ltb,
  leb, is_missing, if◌then◌else◌, Bool, arith, false, some, Text, Option, true, ◌≡◌,
}
use kids_chores_api.Models.{
  is_status, Time, Household, Member, TaskStatus, TaskDefinition, TaskInstance,
}
use kids_chores_api.Session.{
  ok, Result, value_error, invalid_transition, err, Session, pure, ◌>>◌, add_instance, ◌>>=◌,
  Action,
}
use kids_chores_api.StateMachine.{
  cancel, complete_review, complete_auto, transitions, is_open, complete,
}

-- A decision that pays: the ledger call first, then the row.
abbrev pub paying : {A : Type 0} → Action A → TaskInstance → Action TaskInstance
paying award i = award >>= λ _. add_instance i >> pure i

abbrev pub saving : TaskInstance → Action TaskInstance
saving i = add_instance i >> pure i

-- The rows that the methods save.
abbrev pub completed : TaskInstance → TaskStatus → Option Text → Time → TaskInstance
completed i status note now = record i {
  completed_at = some now;
  completion_note = note;
  status = status;
}

abbrev pub excused_with : TaskInstance → Text → Time → TaskInstance
excused_with i text now = record i {
  excuse_text = some text;
  excuse_submitted_at = some now;
  status = TaskStatus.excuse_pending;
}

abbrev pub judged : TaskInstance → Member → TaskStatus → Option Text → Time → TaskInstance
judged i a status comment now = record i {
  reviewed_by = some a.id;
  reviewed_at = some now;
  review_comment = comment;
  status = status;
}

-- Where a reversed completion and a denied excuse go.
abbrev pub reversed_to : TaskInstance → Time → TaskStatus
reversed_to i now = if ltb now i.due_at then TaskStatus.overdue else TaskStatus.missed

abbrev pub denied_to : TaskInstance → Household → Time → TaskStatus
denied_to i h now =
    if leb (i.due_at + h.grace_period_hours * hour)
      (max now (i.due_at + i.grace_elapsed_seconds * second))
    then TaskStatus.missed
    else TaskStatus.overdue

module _ {A B : Type 0} (m : Action A) (k : Action B) (s : Session) where
  when_true : ((m >> pure tt) >> k) s ≡ (m >> k) s
  when_true = go (m s)
    where
      go : (r : Result A × Session) → (((λ t. r) >> pure tt) >> k) s ≡ ((λ t. r) >> k) s
      go (ok x, t) = refl
      go (err e, t) = refl

-- A running clock has nothing left from the end of the grace period on, or once all of it has been
-- counted.
grace_over :
    (j : TaskInstance) (hours : ℕ) (now : Time)
    → j.grace_paused_at ≡ none
    → ltb_ℤ (pos 0) (grace_remaining j hours now)
      ≡ not (leb (j.due_at + hours * hour) (max now (j.due_at + j.grace_elapsed_seconds * second)))
unfolding grace_used
grace_over j hours now running = rw (grace_remaining_lem j hours now) (ground arith)

transition-open :
    (status : TaskStatus)
    → is_open status ≡ true
    → (transitions status complete_auto ≡ some TaskStatus.complete)
      × (transitions status complete_review ≡ some TaskStatus.review_pending)
      × (transitions status excuse ≡ some TaskStatus.excuse_pending)
      × (transitions status cancel ≡ some TaskStatus.cancelled)
unfolding transitions
transition-open status h = ground arith

module _ (i : TaskInstance) (d : TaskDefinition) (a : Member) (h : Household) where
  module _ (note : Option Text) (now : Time) (s : Session) where
    pub complete_closed :
        is_open i.status ≡ false → complete i d a h note now s ≡ (err invalid_transition, s)
    unfolding complete
    complete_closed shut = rw shut

    pub complete_reviewed :
        is_open i.status ≡ true
        → d.requires_review ≡ true
        → complete i d a h note now s ≡ saving (completed i TaskStatus.review_pending note now) s
    unfolding complete
    complete_reviewed free r = rw (free, r, (transition-open i.status free).1)

    pub complete_paid :
        is_open i.status ≡ true
        → d.requires_review ≡ false
        → complete i d a h note now s
          ≡ paying
              (award_task_completion (completed i TaskStatus.complete note now) d a h)
              (completed i TaskStatus.complete note now)
              s
    unfolding complete
    complete_paid free r =
        simp (free, r, (transition-open i.status free).0)
          (when_true (award_task_completion (completed i TaskStatus.complete note now) d a h)
            (saving (completed i TaskStatus.complete note now)) s)

module _ (i : TaskInstance) (a : Member) where
  module _ (text : Text) (now : Time) (s : Session) where
    pub submit_excuse_closed :
        is_open i.status ≡ false → submit_excuse i a text now s ≡ (err invalid_transition, s)
    unfolding submit_excuse
    submit_excuse_closed shut = rw shut

    pub submit_excuse_short :
        is_open i.status ≡ true
        → ltb (length (strip text)) 10 ≡ true
        → submit_excuse i a text now s ≡ (err value_error, s)
    unfolding submit_excuse
    submit_excuse_short free short = rw (free, short)

    pub submit_excuse_pending :
        i.status ≡ TaskStatus.pending
        → ltb (length (strip text)) 10 ≡ false
        → submit_excuse i a text now s ≡ saving (excused_with i text now) s
    unfolding submit_excuse
    submit_excuse_pending at long = rw (at, long)

    pub submit_excuse_overdue :
        i.status ≡ TaskStatus.overdue
        → ltb (length (strip text)) 10 ≡ false
        → submit_excuse i a text now s ≡ saving (suspend_grace (excused_with i text now) now) s
    unfolding submit_excuse suspend_grace
    submit_excuse_overdue at long = elim (Bool-cases (is_none i.grace_paused_at)) [
      | inl running ↦ rw (at, long, running)
      | inr paused ↦ rw (at, long, paused)
    ]

  module _ (reason : Option Text) (now : Time) (s : Session) where
    pub cancel_task_closed :
        is_open i.status ≡ false → cancel_task i a reason now s ≡ (err invalid_transition, s)
    unfolding cancel_task
    cancel_task_closed shut = rw shut

    pub cancel_task_open :
        is_open i.status ≡ true
        → cancel_task i a reason now s ≡ saving (judged i a TaskStatus.cancelled reason now) s
    unfolding cancel_task
    cancel_task_open free = rw (free, (transition-open i.status free).3)

  module _ (reason : Text) (now : Time) (s : Session) where
    pub reverse_completion_closed :
        is_status i.status TaskStatus.complete ≡ false
        → reverse_completion i a reason now s ≡ (err invalid_transition, s)
    unfolding reverse_completion
    reverse_completion_closed shut = rw shut

    pub reverse_completion_open :
        i.status ≡ TaskStatus.complete
        → reverse_completion i a reason now s
          ≡ paying
              (write_reversal (judged i a (reversed_to i now) (some reason) now) a reason)
              (judged i a (reversed_to i now) (some reason) now)
              s
    unfolding reverse_completion
    reverse_completion_open at = elim (Bool-cases (ltb now i.due_at)) [
      | inl early ↦ rw (at, early)
      | inr late ↦ rw (at, late)
    ]

module _ (i : TaskInstance) (d : TaskDefinition) (a : Member) (h : Household) where
  module _ (yes? : Bool) (comment : Option Text) (now : Time) (s : Session) where
    pub review_closed :
        is_status i.status TaskStatus.review_pending ≡ false
        → review i d a h yes? comment now s ≡ (err invalid_transition, s)
    unfolding review
    review_closed shut = rw shut

    pub resolve_excuse_closed :
        is_status i.status TaskStatus.excuse_pending ≡ false
        → resolve_excuse i d a h yes? comment now s ≡ (err invalid_transition, s)
    unfolding resolve_excuse
    resolve_excuse_closed shut = rw shut

  module _ (comment : Option Text) (now : Time) (s : Session) where
    pub review_silent :
        i.status ≡ TaskStatus.review_pending
        → is_missing comment ≡ true
        → review i d a h false comment now s ≡ (err value_error, s)
    unfolding review
    review_silent at silent = rw (at, silent)

    pub review_approved :
        i.status ≡ TaskStatus.review_pending
        → review i d a h true comment now s
          ≡ paying
              (award_task_completion (judged i a TaskStatus.complete comment now) d a h)
              (judged i a TaskStatus.complete comment now)
              s
    unfolding review
    review_approved at = rw at

    pub review_denied_early :
        i.status ≡ TaskStatus.review_pending
        → is_missing comment ≡ false
        → ltb now i.due_at ≡ true
        → review i d a h false comment now s ≡ saving (judged i a TaskStatus.pending comment now) s
    unfolding review
    review_denied_early at said early = rw (at, said, early)

    pub review_denied_late :
        i.status ≡ TaskStatus.review_pending
        → is_missing comment ≡ false
        → ltb now i.due_at ≡ false
        → review i d a h false comment now s
          ≡ saving (resume_grace (judged i a TaskStatus.overdue comment now) now) s
    unfolding review
    review_denied_late at said late = rw (at, said, late)

    pub resolve_excuse_silent :
        i.status ≡ TaskStatus.excuse_pending
        → is_missing comment ≡ true
        → resolve_excuse i d a h false comment now s ≡ (err value_error, s)
    unfolding resolve_excuse
    resolve_excuse_silent at silent = rw (at, silent)

    pub resolve_excuse_approved :
        i.status ≡ TaskStatus.excuse_pending
        → resolve_excuse i d a h true comment now s
          ≡ paying
              (award_excuse_if_policy (judged i a TaskStatus.excused comment now) d a h)
              (judged i a TaskStatus.excused comment now)
              s
    unfolding resolve_excuse
    resolve_excuse_approved at = rw at

    -- Denying an excuse with a comment starts the clock again at once and records the decision; the
    -- task is missed exactly when, with the clock running, the due time and the grace period are
    -- over by now or by the counted seconds, and is overdue otherwise.
    pub resolve_excuse_denied :
        i.status ≡ TaskStatus.excuse_pending
        → is_missing comment ≡ false
        → resolve_excuse i d a h false comment now s
          ≡ saving
              (record i {
                reviewed_by = some a.id;
                reviewed_at = some now;
                review_comment = comment;
                grace_paused_at = none;
                status = denied_to i h now;
              })
              s
    unfolding resolve_excuse
    resolve_excuse_denied at said =
        let waiting : TaskInstance = record (judged i a TaskStatus.excuse_pending comment now) {
          grace_paused_at = none;
        } in
        let over = grace_over waiting h.grace_period_hours now refl in
        elim (Bool-cases (
          leb (i.due_at + h.grace_period_hours * hour)
            (max now (i.due_at + i.grace_elapsed_seconds * second)))) [
              | inl gone ↦ rw (at, said, over ∙ ap not gone, gone)
              | inr left ↦ rw (at, said, over ∙ ap not left, left)
            ]
