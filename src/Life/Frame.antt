-- ===== src/Life/Frame.antt =====
-- What a row of the ledger leaves alone.
use kids_chores_api.StateMachine.Payment.{PaidAs, IsPaid, net_points, awards, reversals}
use kids_chores_api.Ledger.{violates_unique}
use kids_chores_api.Ledger.Index.{count_task}
use kids_chores_api.Ledger.Posting.{
  LedgerCall, run_call, Posting, posting_of, perform, perform_free, perform_taken, run_call-posting,
  entry_of, posted, refused,
}
use kids_chores_api.Session.{Session, Db, Result, ok, err, duplicate_ledger_entry, find_row}
use kids_chores_api.Models.{TaskStatus, TaskInstance, LedgerEntry}
use kids_chores_api.Prelude.{
  ℕ, ◌≡◌, refl, ◌∙◌, sym, inl, inr, ◌⊎◌, false, none, some, Option, is_id, List, ◌∷◌, Bool-cases,
}

-- Every task of the database has been paid as its status says.
abbrev pub AllPaid : Db → Type 0
AllPaid db =
    (i : TaskInstance)
    → find_row (λ (r : TaskInstance). r.id) i.id db.task_instances ≡ some i
    → IsPaid i db.ledger_entries

-- So it is in the session, and in what a rollback returns to.
pub record IsSettled (s : Session) : Type 0 where
  pub now : AllPaid s.current
  pub saved : AllPaid s.committed

module _ (k v : ℕ) (entries after : List LedgerEntry)
    (net : net_points k after ≡ net_points k entries)
    (same_awards : awards k after ≡ awards k entries)
    (same_reversals : reversals k after ≡ reversals k entries) where
  PaidAs-frame : (t : TaskStatus) → PaidAs t v k entries → PaidAs t v k after
  PaidAs-frame TaskStatus.complete h = (net ∙ h.0, same_awards ∙ h.1, same_reversals ∙ h.2)
  PaidAs-frame TaskStatus.excused (inl h) = inl (net ∙ h)
  PaidAs-frame TaskStatus.excused (inr (inl h)) = inr (inl (net ∙ h))
  PaidAs-frame TaskStatus.excused (inr (inr h)) = inr (inr (net ∙ h))
  PaidAs-frame TaskStatus.pending h = (net ∙ h.0, same_awards ∙ h.1 ∙ sym same_reversals)
  PaidAs-frame TaskStatus.review_pending h = (net ∙ h.0, same_awards ∙ h.1 ∙ sym same_reversals)
  PaidAs-frame TaskStatus.overdue h = (net ∙ h.0, same_awards ∙ h.1 ∙ sym same_reversals)
  PaidAs-frame TaskStatus.excuse_pending h = (net ∙ h.0, same_awards ∙ h.1 ∙ sym same_reversals)
  PaidAs-frame TaskStatus.missed h = (net ∙ h.0, same_awards ∙ h.1 ∙ sym same_reversals)
  PaidAs-frame TaskStatus.cancelled h = (net ∙ h.0, same_awards ∙ h.1 ∙ sym same_reversals)

-- A row about another task, or about none, pays a task nothing.
pub IsPaid-cons :
    (i : TaskInstance) (e : LedgerEntry) (entries : List LedgerEntry)
    → is_id e.task_instance_id i.id ≡ false
    → IsPaid i entries
    → IsPaid i (e ∷ entries)
unfolding net_points count_task
IsPaid-cons i e entries other h =
    PaidAs-frame i.id i.point_value entries (e ∷ entries) (rw other) (rw other) (rw other) i.status
      h

abbrev pub Outcome : LedgerCall → Session → Type 0
Outcome c s =
    ((run_call c s).1 ≡ s)
    ⊎ (((p : Posting) × (posting_of c ≡ ok (some p))
          × (run_call c s ≡ (ok (some (entry_of p s)), posted (entry_of p s) s)))
        ⊎ (run_call c s ≡ (err duplicate_ledger_entry, refused s)))

-- A call of the ledger writes nothing, writes its one row, or rolls back.
pub call-cases : (c : LedgerCall) (s : Session) → Outcome c s
call-cases c s = go (posting_of c) refl
  where
    go : (r : Result (Option Posting)) → posting_of c ≡ r → Outcome c s
    go (err x) h = inl (rw (run_call-posting c s) (rw h (unfold perform in refl)))
    go (ok none) h = inl (rw (run_call-posting c s) (rw h (unfold perform in refl)))
    go (ok (some p)) h =
        elim (Bool-cases (violates_unique (entry_of p s) s.current.ledger_entries)) [
          | inl taken ↦ inr (inr (run_call-posting c s ∙ (rw h (perform_taken p s taken))))
          | inr free ↦ inr (inl (p, h, run_call-posting c s ∙ (rw h (perform_free p s free))))
        ]
