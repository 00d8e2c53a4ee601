-- ===== src/Ledger/Twice.antt =====
-- The award of a task's points, and whatever the service is called for after it.
use kids_chores_api.Session.{duplicate_ledger_entry, commit, err, ok, Session, Result}
use kids_chores_api.Ledger.Posting.{
  perform_free, perform_taken, posting_of, entry_of, run_call-posting, run_call, Posting,
  LedgerCall, perform,
}
use kids_chores_api.Models.{
  Household, Member, LedgerEntryType, TaskDefinition, RowId, LedgerEntry, TaskInstance,
}
use kids_chores_api.Prelude.{
  none, inr, true, inl, refl, Bool-cases, [], some, arith, if◌then◌else◌, ◌∷◌, Option, false, Bool,
  ℕ, ◌≡◌, List,
}
use kids_chores_api.Ledger.{award_task_completion, violates_unique}
use kids_chores_api.Ledger.Index.{count_task, count_task-eq-zero}
use kids_chores_api.Ledger.Once.{award-eq, completions-award}

-- How many `task_completed` entries a task has.
abbrev pub awarded : RowId → List LedgerEntry → ℕ
awarded k entries = count_task k LedgerEntryType.task_completed entries

-- The task has one, in the session and in what a rollback returns to.
pub record HasOne (k : RowId) (s : Session) : Type 0 where
  pub now : awarded k s.current.ledger_entries ≡ 1
  pub saved : awarded k s.committed.ledger_entries ≡ 1

-- Calls of the service, one after the other, and whether the caller commits after each.
unfoldable pub run_later : List (LedgerCall × Bool) → Session → Session
run_later [] s = s
run_later ((c, commits) ∷ later) s =
    run_later later (if commits then commit (run_call c s).1 else (run_call c s).1)

-- A row that the index admits beside the entry of the task is not another such entry.
awarded-cons :
    (e : LedgerEntry) (k : RowId) (entries : List LedgerEntry)
    → violates_unique e entries ≡ false
    → awarded k entries ≡ 1
    → awarded k (e ∷ entries) ≡ 1
unfolding count_task
awarded-cons e k entries free one_entry =
    ground (arith, count_task-eq-zero e k LedgerEntryType.task_completed entries free)

perform-HasOne :
    (r : Result (Option Posting)) (k : RowId) (s : Session) → HasOne k s → HasOne k (perform r s).1
unfolding perform
perform-HasOne (err x) k s h = h
perform-HasOne (ok none) k s h = h
perform-HasOne (ok (some p)) k s h =
    elim (Bool-cases (violates_unique (entry_of p s) s.current.ledger_entries)) [
      | inl taken ↦ rw (perform_taken p s taken) (record { now = h.saved; saved = h.saved })
      | inr free ↦ rw (perform_free p s free) (record {
        now = awarded-cons (entry_of p s) k s.current.ledger_entries free h.now;
        saved = h.saved;
      })
    ]

run_later-HasOne :
    (later : List (LedgerCall × Bool)) (k : RowId) (s : Session)
    → HasOne k s
    → HasOne k (run_later later s)
unfolding run_later
run_later-HasOne [] k s h = h
run_later-HasOne ((c, commits) ∷ later) k s h =
    run_later-HasOne later k (if commits then commit (run_call c s).1 else (run_call c s).1)
      (after_commit commits (rw (run_call-posting c s) (perform-HasOne (posting_of c) k s h)))
  where
    after_commit :
        (b : Bool)
        → HasOne k (run_call c s).1
        → HasOne k (if b then commit (run_call c s).1 else (run_call c s).1)
    after_commit true n = record { now = n.now; saved = n.now }
    after_commit false n = n

-- After an award that succeeds and is committed, and any further calls of the service, each committed
-- or not, an award for the same task is refused as a duplicate, whatever copy of the task it is asked
-- for and whoever asks; and the ledger then still has exactly one `task_completed` entry for the task,
-- in the session and in the committed tables: a double tap pays once.
pub award_committed_once :
    (i j : TaskInstance) (d c : TaskDefinition) (a b : Member) (h k : Household) (s : Session)
    (later : List (LedgerCall × Bool)) {e : LedgerEntry}
    → j.id ≡ i.id
    → (award_task_completion i d a h s).0 ≡ ok e
    → let t = run_later later (commit (award_task_completion i d a h s).1) in
      ((award_task_completion j c b k t).0 ≡ err duplicate_ledger_entry)
      × HasOne i.id (award_task_completion j c b k t).1
award_committed_once i j d c a b h k s later same first =
    let one_entry = (completions-award i d a h s first).1 in
    let kept =
      run_later-HasOne later i.id (commit (award_task_completion i d a h s).1)
        (record { now = one_entry; saved = one_entry }) in
    rw
      (
        award-eq j c b k (run_later later (commit (award_task_completion i d a h s).1)),
        same,
        kept.now,
      )
      (refl, record { now = kept.saved; saved = kept.saved })
