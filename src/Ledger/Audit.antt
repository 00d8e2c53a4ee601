-- ===== src/Ledger/Audit.antt =====
-- The invariant of the ledger table, over any sequence of calls of the service.
use kids_chores_api.Prelude.{
  ◌≤◌, ◌≡◌, refl, false, Option, none, some, List, [], ◌∷◌, arith, Bool-cases, inl, inr,
}
use kids_chores_api.Prelude.Int.{◌+ℤ◌}
use kids_chores_api.Models.{RowId, LedgerEntryType, LedgerEntry}
use kids_chores_api.Session.{Session, Result, ok, err}
use kids_chores_api.Ledger.{violates_unique, sum_delta}
use kids_chores_api.Ledger.Index.{
  count_series-eq-zero, count_task-eq-zero, count_series, count_task,
}
use kids_chores_api.Ledger.Posting.{
  Posting, post, entry_of, LedgerCall, run_call, posting_of, perform, run_call-posting,
}

-- Every row was admitted by the unique indexes, and its `balance_after` is the sum of its member's
-- rows up to and including it.
abbrev pub IsAudited : List LedgerEntry → Type 0
IsAudited [] = Unit
IsAudited (e ∷ entries) =
    (violates_unique e entries ≡ false)
    × (e.balance_after ≡ sum_delta e.member_id entries +ℤ e.delta)
    × IsAudited entries

pub record IsSound (s : Session) : Type 0 where
  pub now : IsAudited s.current.ledger_entries
  pub saved : IsAudited s.committed.ledger_entries

pub post-IsSound : (p : Posting) (s : Session) → IsSound s → IsSound (post p s).1
unfolding post
post-IsSound p s h = elim (Bool-cases (violates_unique (entry_of p s) s.current.ledger_entries)) [
  | inl taken ↦ rw taken (record { now = h.saved; saved = h.saved })
  | inr free ↦ rw free (record { now = (free, refl, h.now); saved = h.saved })
]

perform-IsSound : (r : Result (Option Posting)) (s : Session) → IsSound s → IsSound (perform r s).1
unfolding perform
perform-IsSound (err x) s h = h
perform-IsSound (ok none) s h = h
perform-IsSound (ok (some p)) s h = ground (arith, post-IsSound p s h)

pub run_calls : List LedgerCall → Session → Session
run_calls [] s = s
run_calls (c ∷ cs) s = run_calls cs (run_call c s).1

-- From a sound session, whatever methods of the service are called and whether they succeed or are
-- refused, every row of the ledger stays admitted by the indexes and carries the balance of its
-- member at that row, both in the session and in what a rollback returns to.
pub run_calls-IsSound : (cs : List LedgerCall) (s : Session) → IsSound s → IsSound (run_calls cs s)
unfolding run_calls
run_calls-IsSound [] s h = h
run_calls-IsSound (c ∷ cs) s h =
    run_calls-IsSound cs (run_call c s).1
      (rw (run_call-posting c s) (perform-IsSound (posting_of c) s h))

-- In an audited ledger a task instance has at most one entry of each type, and so has a series
-- instance: points are awarded at most once for an event.
pub IsAudited-once :
    (entries : List LedgerEntry)
    → IsAudited entries
    → (k : RowId) (t : LedgerEntryType)
    → (count_task k t entries ≤ 1) × (count_series k t entries ≤ 1)
unfolding count_task count_series
IsAudited-once [] h k t = omega arith
IsAudited-once (e ∷ entries) h k t = ground (
  arith,
  IsAudited-once entries h.2 k t,
  count_task-eq-zero e k t entries h.0,
  count_series-eq-zero e k t entries h.0,
)
