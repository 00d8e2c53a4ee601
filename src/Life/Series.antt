-- ===== src/Life/Series.antt =====
-- Entries that name no task, and the evaluation of a series, keep every task paid.
use kids_chores_api.SeriesCompletion.Verdict.{
  completed_tasks, evaluate-verdict, tasks_of, all_settled,
}
use kids_chores_api.Ledger.{award_all_or_nothing_series, award_series_bonus}
use kids_chores_api.Session.Binds.{bind_keeps, on_error_keeps}
use kids_chores_api.Life.Frame.{IsSettled, IsPaid-cons, call-cases}
use kids_chores_api.Ledger.Posting.{LedgerCall, run_call, Posting, posting_of, entry_of, one}
use kids_chores_api.SeriesCompletion.{sum_points, evaluate, pay_series}
use kids_chores_api.Session.{
  pure, ◌>>◌, add_series_instance, Session, Result, ok, err, Action, Error, on_error, ◌>>=◌,
}
use kids_chores_api.Models.{
  SeriesStatus, is_active, Time, Member, TaskInstance, Series, SeriesInstance, LedgerEntry,
  SeriesPayoutMode, individual_plus_bonus, all_or_nothing,
}
use kids_chores_api.Prelude.{
  true, ◌&&◌, ◌+◌, Bool-cases, ℕ, ◌≡◌, refl, sym, subst, inl, inr, none, some, List,
}

module _ {A B : Type 0} (s : Session) where
  pub bind-IsSettled :
      (m : Action A) (f : A → Action B)
      → IsSettled (m s).1
      → ((a : A) (t : Session) → IsSettled t → IsSettled (f a t).1)
      → IsSettled ((m >>= f) s).1
  bind-IsSettled = bind_keeps IsSettled s

module _ {A : Type 0} (s : Session) where
  pub on_error-IsSettled :
      (f : Error → Error) (m : Action A) → IsSettled (m s).1 → IsSettled (on_error f m s).1
  on_error-IsSettled = on_error_keeps IsSettled s

-- A call whose row names no task.
pub neutral-IsSettled :
    (c : LedgerCall) (s : Session)
    → ((p : Posting) → posting_of c ≡ ok (some p) → p.task_instance_id ≡ none)
    → IsSettled s
    → IsSettled (run_call c s).1
neutral-IsSettled c s neutral kept = elim (call-cases c s) [
  | inl same ↦ subst IsSettled (sym same) kept
  | inr (inl (p, posts, e)) ↦ rw e (record {
    now = λ i found.
        IsPaid-cons i (entry_of p s) s.current.ledger_entries (rw (neutral p posts) refl)
          (kept.now i found);
    saved = kept.saved;
  })
  | inr (inr e) ↦ rw e (record { now = kept.saved; saved = kept.saved })
]

pub one-session : (m : Action LedgerEntry) (s : Session) → (one m s).1 ≡ (m s).1
one-session m s = go (m s)
  where
    go : (r : Result LedgerEntry × Session) → (one (λ (t : Session). r) s).1 ≡ r.1
    go (ok e, t) = refl
    go (err e, t) = refl

bonus_neutral :
    (r : SeriesInstance) (series : Series) (a : Member) (n : ℕ) (p : Posting)
    → posting_of (LedgerCall.bonus r series series.assignee_id a n) ≡ ok (some p)
    → p.task_instance_id ≡ none
unfolding posting_of
bonus_neutral r series a n p e = cc

all_or_nothing_neutral :
    (r : SeriesInstance) (series : Series) (a : Member) (n : ℕ) (p : Posting)
    → posting_of (LedgerCall.all_or_nothing r series series.assignee_id a n) ≡ ok (some p)
    → p.task_instance_id ≡ none
unfolding posting_of
all_or_nothing_neutral r series a n p e = cc

pay_series-IsSettled :
    (mode : SeriesPayoutMode) (r : SeriesInstance) (series : Series) (actor : Member)
    (completed : List TaskInstance) (s : Session)
    → IsSettled s
    → IsSettled (pay_series mode r series actor completed s).1
unfolding pay_series run_call
pay_series-IsSettled individual_plus_bonus r series actor completed s kept =
    subst IsSettled
      (one-session (award_series_bonus r series series.assignee_id actor series.bonus_points) s)
      (neutral-IsSettled (LedgerCall.bonus r series series.assignee_id actor series.bonus_points) s
        (bonus_neutral r series actor series.bonus_points) kept)
pay_series-IsSettled all_or_nothing r series actor completed s kept =
    let total : ℕ = sum_points completed + series.bonus_points in
    subst IsSettled
      (one-session (award_all_or_nothing_series r series series.assignee_id actor total) s)
      (neutral-IsSettled (LedgerCall.all_or_nothing r series series.assignee_id actor total) s
        (all_or_nothing_neutral r series actor total) kept)

-- The evaluation of a series keeps every task paid as its status says.
pub evaluate-IsSettled :
    (r : SeriesInstance) (series : Series) (actor : Member) (now : Time) (s : Session)
    → IsSettled s
    → IsSettled (evaluate r series actor now s).1
evaluate-IsSettled r series actor now s kept =
    elim (Bool-cases (is_active r.status && all_settled (tasks_of r s.current))) [
      | inr stays ↦ rw (evaluate-verdict r series actor now s, stays) kept
      | inl done ↦
          rw (evaluate-verdict r series actor now s, done)
            (bind-IsSettled s
              (pay_series series.payout_mode r series actor (completed_tasks r s.current))
              (λ _.
                add_series_instance
                  (record r { status = SeriesStatus.complete; completed_at = some now })
                >> pure true)
              (pay_series-IsSettled series.payout_mode r series actor (completed_tasks r s.current)
                s kept)
              (λ _ t h. record { now = h.now; saved = h.saved }))
    ]
