-- ===== src/SeriesCompletion/Payout.antt =====
-- What a series that completes is worth to its assignee.
use kids_chores_api.Session.Binds.{bind-ok}
use kids_chores_api.Prelude.Int.{pos, ◌+ℤ◌}
use kids_chores_api.Ledger.Awards.{balance}
use kids_chores_api.SeriesCompletion.Verdict.{
  evaluate-verdict, completed_tasks, tasks_of, all_settled,
}
use kids_chores_api.SeriesCompletion.{evaluate, sum_points, pay_series}
use kids_chores_api.Ledger.Posting.{refused, posted, entry_of, Posting, series_posting}
use kids_chores_api.Ledger.{
  violates_unique, award_all_or_nothing_series, award_series_bonus, sum_delta,
}
use kids_chores_api.Ledger.Index.{violates-series, count_series}
use kids_chores_api.Session.{
  find_row-update_row_self, update_row, find_row, pure, add_series_instance, ◌>>◌,
  duplicate_ledger_entry, err, ok, Result, Session,
}
use kids_chores_api.Prelude.{
  some, ◌==◌, refl, ltb, ap, ◌∙◌, false, true, if◌then◌else◌, ◌+◌, Bool, ◌++◌, ◌≡◌, codes, List,
  Text, ℕ,
}
use kids_chores_api.Models.{
  SeriesStatus, all_or_nothing, RowId, individual_plus_bonus, is_active, Time, TaskInstance,
  LedgerEntry, LedgerEntryType, Member, Series, SeriesInstance, SeriesPayoutMode,
}

-- The bonus, and under `all_or_nothing` the values of the completed tasks besides.
abbrev pub payout : SeriesPayoutMode → ℕ → List TaskInstance → ℕ
payout individual_plus_bonus bonus completed = bonus
payout all_or_nothing bonus completed = sum_points completed + bonus

-- Whether the bonus of a series instance has been written.
abbrev pub bonuses : SeriesInstance → Session → ℕ
bonuses r s = count_series r.id LedgerEntryType.series_bonus s.current.ledger_entries

abbrev payout_reason : SeriesPayoutMode → Series → Text
payout_reason individual_plus_bonus series = codes "Series bonus: " ++ series.name
payout_reason all_or_nothing series = codes "Series complete (all-or-nothing): " ++ series.name

abbrev payout_posting :
    SeriesPayoutMode → SeriesInstance → Series → Member → List TaskInstance → Posting
payout_posting mode r series actor completed =
    series_posting r series.assignee_id actor (payout mode series.bonus_points completed)
      (payout_reason mode series)

module _ (r : SeriesInstance) (series : Series) (actor : Member) (s : Session) where
  abbrev payout_entry : SeriesPayoutMode → List TaskInstance → LedgerEntry
  payout_entry mode completed = entry_of (payout_posting mode r series actor completed) s

  abbrev written : LedgerEntry → Bool → Result LedgerEntry × Session
  written e taken = if taken then (err duplicate_ledger_entry, refused s) else (ok e, posted e s)

  payout-free :
      (mode : SeriesPayoutMode) (completed : List TaskInstance)
      → bonuses r s ≡ 0
      → violates_unique (payout_entry mode completed) s.current.ledger_entries ≡ false
  unfolding series_posting
  payout-free mode completed none_yet =
      violates-series (payout_entry mode completed) r.id s.current.ledger_entries refl refl
      ∙ ap (ltb 0) none_yet

  pay_free :
      (mode : SeriesPayoutMode) (completed : List TaskInstance)
      → bonuses r s ≡ 0
      → pay_series mode r series actor completed s
        ≡ (ok (payout_entry mode completed), posted (payout_entry mode completed) s)
  unfolding pay_series award_series_bonus award_all_or_nothing_series series_posting
  pay_free individual_plus_bonus completed none_yet =
      ap (written (payout_entry individual_plus_bonus completed))
        (payout-free individual_plus_bonus completed none_yet)
  pay_free all_or_nothing completed none_yet =
      ap (written (payout_entry all_or_nothing completed))
        (payout-free all_or_nothing completed none_yet)

  abbrev closed : Time → Session → Session
  closed now t =
      (add_series_instance (record r { status = SeriesStatus.complete; completed_at = some now })
        t).1

  row_closed :
      (now : Time)
      → find_row (λ (x : SeriesInstance). x.id) r.id s.current.series_instances ≡ some r
      → find_row
          (λ (x : SeriesInstance). x.id)
          r.id
          (update_row
            (λ (x : SeriesInstance). x.id)
            (record r { status = SeriesStatus.complete; completed_at = some now })
            s.current.series_instances)
        ≡ some (record r { status = SeriesStatus.complete; completed_at = some now })
  row_closed now there =
      find_row-update_row_self (λ (x : SeriesInstance). x.id)
        (record r { status = SeriesStatus.complete; completed_at = some now })
        s.current.series_instances (λ e. cc)

  evaluate-closes :
      (now : Time)
      → is_active r.status ≡ true
      → all_settled (tasks_of r s.current) ≡ true
      → bonuses r s ≡ 0
      → evaluate r series actor now s ≡ (
        ok true,
        closed now (posted (payout_entry series.payout_mode (completed_tasks r s.current)) s),
      )
  evaluate-closes now active settled none_yet =
      evaluate-verdict r series actor now s
      ∙ rw (active, settled)
          (bind-ok (pay_series series.payout_mode r series actor (completed_tasks r s.current))
            (λ _.
              add_series_instance
                (record r { status = SeriesStatus.complete; completed_at = some now })
              >> pure true)
            s (pay_free series.payout_mode (completed_tasks r s.current) none_yet))

  -- An active instance of the table whose tasks are all settled, and whose bonus has not been written,
  -- is paid and closed: its assignee gets the bonus, and under `all_or_nothing` the values of the
  -- completed tasks as well, whatever those have paid before; no other balance moves; and the row of
  -- the instance is then complete, with the time of the call, and otherwise as it was.
  pub evaluate-pays :
      (now : Time)
      → find_row (λ (x : SeriesInstance). x.id) r.id s.current.series_instances ≡ some r
      → is_active r.status ≡ true
      → all_settled (tasks_of r s.current) ≡ true
      → bonuses r s ≡ 0
      → let after = evaluate r series actor now s in
        (after.0 ≡ ok true)
        × ((m : RowId)
            → balance m after.1 ≡ (
                if series.assignee_id == m
                then balance m s
                  +ℤ pos
                      (payout series.payout_mode series.bonus_points (completed_tasks r s.current))
                else balance m s))
        × (find_row (λ (x : SeriesInstance). x.id) r.id after.1.current.series_instances
            ≡ some (record r { status = SeriesStatus.complete; completed_at = some now }))
  unfolding sum_delta series_posting
  evaluate-pays now there active settled none_yet =
      rw (evaluate-closes now active settled none_yet) (refl, λ m. refl, row_closed now there)
