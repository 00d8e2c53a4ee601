-- ===== src/Ledger/Once.antt =====
-- Points for a task are awarded once: `award_task_completion`, its repetition and its reversal.
use kids_chores_api.Ledger.Awards.{balance-one, balance}
use kids_chores_api.Ledger.{violates_unique, write_reversal, award_task_completion}
use kids_chores_api.Prelude.Int.{int_laws, pos}
use kids_chores_api.Prelude.{
  ◌∙◌, sym, ◌⊎◌, none, some, false, arith, inr, inl, refl, ap, Text, Bool-cases, ltb, if◌then◌else◌,
  ◌++◌, ◌≡◌, codes, ℕ,
}
use kids_chores_api.Session.{duplicate_ledger_entry, err, ok, Session}
use kids_chores_api.Models.{
  RowId, LedgerEntry, Household, LedgerEntryType, Member, TaskDefinition, TaskInstance,
}
use kids_chores_api.Ledger.Posting.{
  perform_free, perform_taken, perform, run_call, LedgerCall, Posting, task_posting, entry_of,
  posted, refused,
}
use kids_chores_api.Ledger.Index.{violates-task, count_task}

abbrev pub completion : TaskInstance → TaskDefinition → Member → Posting
completion i d a =
    task_posting i a (pos i.point_value) LedgerEntryType.task_completed
      (codes "Completed: " ++ d.title)

abbrev pub completions : TaskInstance → Session → ℕ
completions i s = count_task i.id LedgerEntryType.task_completed s.current.ledger_entries

ltb-false : (n : ℕ) → ltb 0 n ≡ false → n ≡ 0
ltb-false n h = ground arith

module _ (i : TaskInstance) (d : TaskDefinition) (a : Member) (h : Household) (s : Session) where
  -- The award is refused exactly when the task has a `task_completed` entry; else the entry is added.
  pub award-eq : award_task_completion i d a h s ≡ (
      if ltb 0 (completions i s)
      then (err duplicate_ledger_entry, refused s)
      else (ok (entry_of (completion i d a) s), posted (entry_of (completion i d a) s) s))
  unfolding award_task_completion task_posting
  award-eq =
      ap
        (λ b.
          if b
          then (err duplicate_ledger_entry, refused s)
          else (ok (entry_of (completion i d a) s), posted (entry_of (completion i d a) s) s))
        (violates-task (entry_of (completion i d a) s) i.id s.current.ledger_entries refl refl)

  pub completions-award :
      {e : LedgerEntry}
      → (award_task_completion i d a h s).0 ≡ ok e
      → (completions i s ≡ 0) × (completions i (award_task_completion i d a h s).1 ≡ 1)
  completions-award first = elim (Bool-cases (ltb 0 (completions i s))) [
    | inl taken ↦ cc (rw (award-eq, taken) at first)
    | inr free ↦ (
      omega (arith, ltb-false (completions i s) free),
      rw (award-eq, free) (unfold count_task task_posting in ground arith),
    )
  ]

-- A reversal that succeeds after an award gives every member the balance from before the award.
pub award-reversal :
    (i : TaskInstance) (d : TaskDefinition) (a b : Member) (h : Household) (reason : Text)
    (s : Session) {e f : LedgerEntry}
    → (award_task_completion i d a h s).0 ≡ ok e
    → (write_reversal i b reason (award_task_completion i d a h s).1).0 ≡ ok f
    → (m : RowId)
    → balance m (write_reversal i b reason (award_task_completion i d a h s).1).1 ≡ balance m s
unfolding run_call
award-reversal i d a b h reason s first second m =
    let t = (award_task_completion i d a h s).1 in
    grind (
      int_laws,
      balance-one (LedgerCall.task_completion i d a h) (award_task_completion i d a h) s refl first
          m,
      balance-one (LedgerCall.reversal i b reason) (write_reversal i b reason) t refl second m,
    )

-- A posting about a task either finds an entry of its type and is refused, or is the first.
pub task_post-cases :
    (p : Posting) (k : RowId) (s : Session)
    → p.task_instance_id ≡ some k
    → p.series_instance_id ≡ none
    → (perform (ok (some p)) s ≡ (err duplicate_ledger_entry, refused s))
      ⊎ ((perform (ok (some p)) s ≡ (ok (some (entry_of p s)), posted (entry_of p s) s))
          × (count_task k p.entry_type s.current.ledger_entries ≡ 0))
task_post-cases p k s at no_series =
    elim (Bool-cases (violates_unique (entry_of p s) s.current.ledger_entries)) [
      | inl taken ↦ inl (perform_taken p s taken)
      | inr free ↦ inr (
        perform_free p s free,
        ltb-false (count_task k p.entry_type s.current.ledger_entries)
            (sym (violates-task (entry_of p s) k s.current.ledger_entries at no_series) ∙ free),
      )
    ]
