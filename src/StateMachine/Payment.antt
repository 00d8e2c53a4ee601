-- ===== src/StateMachine/Payment.antt =====
-- What a task has paid, over its whole life: the entries of the ledger that name it.
pub mod Calls
use kids_chores_api.Ledger.Once.{completion, task_post-cases}
use kids_chores_api.Ledger.Posting.{
  perform, full_posting, partial_posting, reversal_posting, run_call-posting, LedgerCall, run_call,
  task_posting, posting_of,
}
use kids_chores_api.Session.{err, ok, Session, Result}
use kids_chores_api.Ledger.Index.{count_task}
use kids_chores_api.Prelude.Int.{int_laws, ◌+ℤ◌, pos, ℤ}
use kids_chores_api.Prelude.{
  refl, inr, inl, Text, [], is_id, ◌/◌, if◌then◌else◌, ◌⊎◌, ◌∷◌, ◌≡◌, List, ℕ,
}
use kids_chores_api.Models.{
  excused_pays_full, excused_pays_partial, excused_pays_nothing, ExcusedPayoutPolicy, Household,
  Member, TaskDefinition, LedgerEntryType, LedgerEntry, TaskInstance, TaskStatus, RowId,
}

-- The points that the ledger holds for a task, debits included.
unfoldable pub net_points : RowId → List LedgerEntry → ℤ
net_points k [] = pos 0
net_points k (e ∷ entries) =
    let rest = net_points k entries in if is_id e.task_instance_id k then rest +ℤ e.delta else rest

abbrev pub awards : RowId → List LedgerEntry → ℕ
awards k entries = count_task k LedgerEntryType.task_completed entries

abbrev pub reversals : RowId → List LedgerEntry → ℕ
reversals k entries = count_task k LedgerEntryType.reversal entries

-- What the ledger holds for a task in each status: a complete task has been paid its points once; an
-- excused one nothing, half or all of them; any other nothing, every award having been reversed.
abbrev pub PaidAs : TaskStatus → ℕ → RowId → List LedgerEntry → Type 0
PaidAs TaskStatus.complete v k entries =
    (net_points k entries ≡ pos v) × (awards k entries ≡ 1) × (reversals k entries ≡ 0)
PaidAs TaskStatus.excused v k entries =
    (net_points k entries ≡ pos 0)
    ⊎ (net_points k entries ≡ pos (v / 2))
    ⊎ (net_points k entries ≡ pos v)
PaidAs _ v k entries = (net_points k entries ≡ pos 0) × (awards k entries ≡ reversals k entries)

abbrev pub IsPaid : TaskInstance → List LedgerEntry → Type 0
IsPaid i entries = PaidAs i.status i.point_value i.id entries

abbrev pub OnOk : {A : Type 0} → (List LedgerEntry → Type 0) → Result A × Session → Type 0
OnOk P (ok _, s) = P s.current.ledger_entries
OnOk P (err _, s) = Unit

-- Before an award nothing that the task was paid is outstanding.
abbrev pub Unpaid : RowId → List LedgerEntry → Type 0
Unpaid k entries = (net_points k entries ≡ pos 0) × (awards k entries ≡ reversals k entries)

module _ (j : TaskInstance) (d : TaskDefinition) (a : Member) (s : Session) where
  pub award-PaidAs :
      (h : Household)
      → Unpaid j.id s.current.ledger_entries
      → OnOk
          (PaidAs TaskStatus.complete j.point_value j.id)
          (run_call (LedgerCall.task_completion j d a h) s)
  unfolding posting_of task_posting
  award-PaidAs h u =
      rw (run_call-posting (LedgerCall.task_completion j d a h) s)
        (elim (task_post-cases (completion j d a) j.id s refl refl) [
          | inl taken ↦ rw taken tt
          | inr (free, first) ↦ rw free (unfold count_task net_points in grind int_laws)
        ])

  pub reversal-PaidAs :
      (reason : Text)
      → PaidAs TaskStatus.complete j.point_value j.id s.current.ledger_entries
      → OnOk (Unpaid j.id) (run_call (LedgerCall.reversal j a reason) s)
  unfolding posting_of reversal_posting
  reversal-PaidAs reason u =
      rw (run_call-posting (LedgerCall.reversal j a reason) s)
        (elim (task_post-cases (reversal_posting j a reason) j.id s refl refl) [
          | inl taken ↦ rw taken tt
          | inr (free, first) ↦ rw free (unfold count_task net_points in grind int_laws)
        ])

  pub excuse-PaidAs :
      (h : Household) (policy : ExcusedPayoutPolicy)
      → h.excused_payout_policy ≡ policy
      → Unpaid j.id s.current.ledger_entries
      → OnOk (PaidAs TaskStatus.excused j.point_value j.id) (run_call (LedgerCall.excuse j d a h) s)
  unfolding posting_of partial_posting full_posting
  excuse-PaidAs h excused_pays_nothing e u =
      rw (run_call-posting (LedgerCall.excuse j d a h) s) (rw e (unfold perform in inl u.0))
  excuse-PaidAs h excused_pays_partial e u = rw (run_call-posting (LedgerCall.excuse j d a h) s) (
      rw e (elim (task_post-cases (partial_posting j d a) j.id s refl refl) [
        | inl taken ↦ rw taken tt
        | inr (free, first) ↦ rw free (unfold net_points in inr (inl (grind int_laws)))
      ]))
  excuse-PaidAs h excused_pays_full e u = rw (run_call-posting (LedgerCall.excuse j d a h) s) (
      rw e (elim (task_post-cases (full_posting j d a) j.id s refl refl) [
        | inl taken ↦ rw taken tt
        | inr (free, first) ↦ rw free (unfold net_points in inr (inr (grind int_laws)))
      ]))
