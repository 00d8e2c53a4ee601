-- ===== src/Ledger/Posting.antt =====
-- What each method of `LedgerService` posts, written as a table beside the code: the member, the
-- signed amount, the type of entry and the event that the entry stands for.
use kids_chores_api.Prelude.{
  Bool, false, true, ℕ, suc, ◌/◌, ◌≡◌, ap, refl, Option, none, some, ◌++◌, if◌then◌else◌, Text,
  codes, strip, is_empty, Bool-cases, inl, inr,
}
use kids_chores_api.Prelude.Int.{ℤ, pos, ◌+ℤ◌, ◌-ℤ◌, int_laws}
use kids_chores_api.Models.{
  RowId, ExcusedPayoutPolicy, excused_pays_nothing, excused_pays_partial, excused_pays_full,
  LedgerEntryType, Household, Member, TaskDefinition, TaskInstance, Series, SeriesInstance,
  LedgerEntry, Claim,
}
use kids_chores_api.Session.{
  Session, Action, Result, ok, err, value_error, duplicate_ledger_entry, pure, put_entry, ◌>>=◌,
}
use kids_chores_api.Ledger.{
  violates_unique, sum_delta, award_task_completion, award_excuse_if_policy, award_series_bonus,
  award_all_or_nothing_series, fulfil_claim, manual_adjustment, write_reversal,
}

pub record Posting : Type 0 where
  pub member_id : RowId
  pub delta : ℤ
  pub entry_type : LedgerEntryType
  pub task_instance_id : Option RowId
  pub series_instance_id : Option RowId
  pub claim_id : Option RowId
  pub reason : Text
  pub created_by : RowId

-- The row that a posting becomes, given the balance that it states.
abbrev pub entry_with : ℤ → Posting → Session → LedgerEntry
entry_with balance p s = record {
  id = s.uuids s.drawn;
  member_id = p.member_id;
  delta = p.delta;
  balance_after = balance;
  entry_type = p.entry_type;
  task_instance_id = p.task_instance_id;
  series_instance_id = p.series_instance_id;
  claim_id = p.claim_id;
  reason = p.reason;
  created_by = p.created_by;
  created_at = s.tx_time;
}

-- Its balance is the sum so far and its own amount.
abbrev pub entry_of : Posting → Session → LedgerEntry
entry_of p s = entry_with (sum_delta p.member_id s.current.ledger_entries +ℤ p.delta) p s

-- The session after one id has been drawn and the row has been added, or rolled back.
abbrev pub posted : LedgerEntry → Session → Session
posted e s = record s { current = put_entry e s.current; drawn = suc s.drawn }

abbrev pub refused : Session → Session
refused s = record s { current = s.committed; drawn = suc s.drawn }

unfoldable pub post_entry : LedgerEntry → Action LedgerEntry
post_entry e s =
    if violates_unique e s.current.ledger_entries
    then (err duplicate_ledger_entry, refused s)
    else (ok e, posted e s)

unfoldable pub post : Posting → Action LedgerEntry
unfolding post_entry
post p s = post_entry (entry_of p s) s

-- A call of a method of `LedgerService` that may write.
pub data LedgerCall : Type 0 where
  task_completion : TaskInstance → TaskDefinition → Member → Household → LedgerCall
  excuse : TaskInstance → TaskDefinition → Member → Household → LedgerCall
  bonus : SeriesInstance → Series → RowId → Member → ℕ → LedgerCall
  all_or_nothing : SeriesInstance → Series → RowId → Member → ℕ → LedgerCall
  claim : Claim → Member → LedgerCall
  adjustment : RowId → ℤ → Text → Member → LedgerCall
  reversal : TaskInstance → Member → Text → LedgerCall

abbrev pub one : Action LedgerEntry → Action (Option LedgerEntry)
one m = m >>= λ e. pure (some e)

unfoldable pub run_call : LedgerCall → Action (Option LedgerEntry)
run_call (task_completion i d a h) = one (award_task_completion i d a h)
run_call (excuse i d a h) = award_excuse_if_policy i d a h
run_call (bonus si s m a n) = one (award_series_bonus si s m a n)
run_call (all_or_nothing si s m a n) = one (award_all_or_nothing_series si s m a n)
run_call (claim c a) = one (fulfil_claim c a)
run_call (adjustment m d r a) = one (manual_adjustment m d r a)
run_call (reversal i a r) = one (write_reversal i a r)

unfoldable pub task_posting : TaskInstance → Member → ℤ → LedgerEntryType → Text → Posting
task_posting i a d t r = record {
  member_id = i.assignee_id;
  delta = d;
  entry_type = t;
  task_instance_id = some i.id;
  series_instance_id = none;
  claim_id = none;
  reason = r;
  created_by = a.id;
}

unfoldable pub series_posting : SeriesInstance → RowId → Member → ℕ → Text → Posting
series_posting si m a n r = record {
  member_id = m;
  delta = pos n;
  entry_type = LedgerEntryType.series_bonus;
  task_instance_id = none;
  series_instance_id = some si.id;
  claim_id = none;
  reason = r;
  created_by = a.id;
}

unfoldable pub debit_posting : Claim → Member → Posting
debit_posting c a = record {
  member_id = c.member_id;
  delta = pos 0 -ℤ pos c.points;
  entry_type = LedgerEntryType.claim_fulfilled;
  task_instance_id = none;
  series_instance_id = none;
  claim_id = some c.id;
  reason = codes "Claim fulfilled: " ++ c.requested_item;
  created_by = a.id;
}

unfoldable pub adjustment_posting : RowId → ℤ → Text → Member → Posting
adjustment_posting m d r a = record {
  member_id = m;
  delta = d;
  entry_type = LedgerEntryType.manual_adjustment;
  task_instance_id = none;
  series_instance_id = none;
  claim_id = none;
  reason = r;
  created_by = a.id;
}

unfoldable pub reversal_posting : TaskInstance → Member → Text → Posting
unfolding task_posting
reversal_posting i a r =
    task_posting i a (pos 0 -ℤ pos i.point_value) LedgerEntryType.reversal (codes "Reversal: " ++ r)

unfoldable pub partial_posting : TaskInstance → TaskDefinition → Member → Posting
unfolding task_posting
partial_posting i d a =
    task_posting i a (pos (i.point_value / 2)) LedgerEntryType.excused_partial
      (codes "Excused (50%): " ++ d.title)

unfoldable pub full_posting : TaskInstance → TaskDefinition → Member → Posting
unfolding task_posting
full_posting i d a =
    task_posting i a (pos i.point_value) LedgerEntryType.task_completed
      (codes "Excused (full): " ++ d.title)

-- What an accepted excuse is worth under each policy: nothing, half rounded down, or all.
unfoldable pub excuse_posting :
    ExcusedPayoutPolicy → TaskInstance → TaskDefinition → Member → Option Posting
unfolding partial_posting full_posting
excuse_posting excused_pays_nothing i d a = none
excuse_posting excused_pays_partial i d a = some (partial_posting i d a)
excuse_posting excused_pays_full i d a = some (full_posting i d a)

unfoldable pub posting_of : LedgerCall → Result (Option Posting)
unfolding task_posting series_posting excuse_posting debit_posting adjustment_posting
    reversal_posting
posting_of (task_completion i d a h) = ok (
    some (
      task_posting i a (pos i.point_value) LedgerEntryType.task_completed
        (codes "Completed: " ++ d.title)))
posting_of (excuse i d a h) = ok (excuse_posting h.excused_payout_policy i d a)
posting_of (bonus si s m a n) =
    ok (some (series_posting si m a n (codes "Series bonus: " ++ s.name)))
posting_of (all_or_nothing si s m a n) =
    ok (some (series_posting si m a n (codes "Series complete (all-or-nothing): " ++ s.name)))
posting_of (claim c a) = ok (some (debit_posting c a))
posting_of (adjustment m d r a) =
    if is_empty (strip r) then err value_error else ok (some (adjustment_posting m d r a))
posting_of (reversal i a r) = ok (some (reversal_posting i a r))

unfoldable pub perform : Result (Option Posting) → Action (Option LedgerEntry)
unfolding post
perform (err x) s = (err x, s)
perform (ok none) s = (ok none, s)
perform (ok (some p)) s = one (post p) s

module _ (p : Posting) (s : Session) where
  abbrev outcome : Bool → Result (Option LedgerEntry) × Session
  outcome b =
      one
        (λ t.
          if b
          then (err duplicate_ledger_entry, refused s)
          else (ok (entry_of p s), posted (entry_of p s) s))
        s

  pub perform_taken :
      violates_unique (entry_of p s) s.current.ledger_entries ≡ true
      → perform (ok (some p)) s ≡ (err duplicate_ledger_entry, refused s)
  unfolding perform
  perform_taken h = ap outcome h

  pub perform_free :
      violates_unique (entry_of p s) s.current.ledger_entries ≡ false
      → perform (ok (some p)) s ≡ (ok (some (entry_of p s)), posted (entry_of p s) s)
  unfolding perform
  perform_free h = ap outcome h

sub-eq-add_neg : (a : ℤ) (n : ℕ) → a -ℤ pos n ≡ a +ℤ (pos 0 -ℤ pos n)
sub-eq-add_neg a n = omega int_laws

run_call-excuse :
    (p : ExcusedPayoutPolicy) (i : TaskInstance) (d : TaskDefinition) (a : Member) (h : Household)
    (s : Session)
    → h.excused_payout_policy ≡ p
    → run_call (excuse i d a h) s ≡ perform (ok (excuse_posting p i d a)) s
unfolding run_call award_excuse_if_policy perform excuse_posting
run_call-excuse excused_pays_nothing i d a h s e = rw e
run_call-excuse excused_pays_partial i d a h s e = rw e
run_call-excuse excused_pays_full i d a h s e = rw e

-- Every method of the service posts what the table says, on every session: it writes that one row
-- with the running balance, is refused by the index and rolls back, or (an excuse that pays nothing)
-- writes nothing; a blank reason is refused before anything is read.
pub run_call-posting : (c : LedgerCall) (s : Session) → run_call c s ≡ perform (posting_of c) s
unfolding run_call perform posting_of
run_call-posting (task_completion i d a h) s = unfold award_task_completion in refl
run_call-posting (excuse i d a h) s = run_call-excuse h.excused_payout_policy i d a h s refl
run_call-posting (bonus si sr m a n) s = unfold award_series_bonus in refl
run_call-posting (all_or_nothing si sr m a n) s = unfold award_all_or_nothing_series in refl
run_call-posting (claim c a) s =
    unfold fulfil_claim in
    ap (λ balance. one (post_entry (entry_with balance (debit_posting c a) s)) s)
      (sub-eq-add_neg (sum_delta c.member_id s.current.ledger_entries) c.points)
run_call-posting (adjustment m d r a) s = elim (Bool-cases (is_empty (strip r))) [
  | inl blank ↦ unfold manual_adjustment in rw blank
  | inr given ↦ unfold manual_adjustment in rw given
]
run_call-posting (reversal i a r) s =
    unfold write_reversal in
    ap (λ balance. one (post_entry (entry_with balance (reversal_posting i a r) s)) s)
      (sub-eq-add_neg (sum_delta i.assignee_id s.current.ledger_entries) i.point_value)
