-- ===== src/Ledger.antt =====
-- backend/app/services/ledger.py: `LedgerService`, every write to `ledger_entries`, over the partial
-- unique indexes that backend/app/db/migrations/versions/0001_initial_schema.py creates.
pub mod Index
pub mod Posting
pub mod Audit
pub mod Awards
pub mod Once
pub mod Twice
use kids_chores_api.Prelude.{
  ℕ, ◌/◌, Bool, ◌&&◌, ◌||◌, Option, none, some, List, [], ◌∷◌, ◌++◌, ◌==◌, if◌then◌else◌, is_id,
  any, Text, codes, strip, is_empty,
}
use kids_chores_api.Prelude.Int.{ℤ, pos, ◌+ℤ◌, ◌-ℤ◌}
use kids_chores_api.Models.{
  RowId, Time, ExcusedPayoutPolicy, excused_pays_nothing, excused_pays_partial, excused_pays_full,
  LedgerEntryType, is_entry_type, Household, Member, TaskDefinition, TaskInstance, Series,
  SeriesInstance, LedgerEntry, Claim,
}
use kids_chores_api.Session.{
  Action, ok, err, value_error, duplicate_ledger_entry, pure, raise_if, query, uuid, db_now,
  rollback, put_entry, ◌>>=◌, ◌>>◌,
}

-- A partial index has no entry for a null, so a null conflicts with nothing.
abbrev pub same_key : Option RowId → Option RowId → Bool
same_key none other = Bool.false
same_key (some k) other = is_id other k

-- `uq_ledger_task_instance_entry_type` and `uq_ledger_series_instance_entry_type`
abbrev pub conflicts : LedgerEntry → LedgerEntry → Bool
conflicts e x =
    is_entry_type e.entry_type x.entry_type
    && (same_key e.task_instance_id x.task_instance_id
        || same_key e.series_instance_id x.series_instance_id)

unfoldable pub violates_unique : LedgerEntry → List LedgerEntry → Bool
violates_unique e entries = any (conflicts e) entries

-- `SELECT coalesce(sum(delta), 0) WHERE member_id = ?`
unfoldable pub sum_delta : RowId → List LedgerEntry → ℤ
sum_delta member_id [] = pos 0
sum_delta member_id (e ∷ entries) =
    let rest = sum_delta member_id entries in
    if e.member_id == member_id then rest +ℤ e.delta else rest

unfoldable pub current_balance : RowId → Action ℤ
current_balance member_id = query λ db. sum_delta member_id db.ledger_entries

-- The flush of `_write`: an `IntegrityError` rolls the whole session back.
unfoldable pub flush_entry : LedgerEntry → Action LedgerEntry
flush_entry entry s =
    if violates_unique entry s.current.ledger_entries
    then (err duplicate_ledger_entry, rollback s)
    else (ok entry, record s { current = put_entry entry s.current })

-- `_write`; the column defaults of the entry are filled in at the flush.
unfoldable pub write : (RowId → Time → LedgerEntry) → Action LedgerEntry
unfolding flush_entry
write entry = do id ← uuid; created_at ← db_now; flush_entry (entry id created_at)

unfoldable pub award_task_completion :
    TaskInstance → TaskDefinition → Member → Household → Action LedgerEntry
unfolding current_balance write
award_task_completion instance definition actor household = do
  balance ← current_balance instance.assignee_id
  write λ id created_at. record {
    id = id;
    member_id = instance.assignee_id;
    delta = pos instance.point_value;
    balance_after = balance +ℤ pos instance.point_value;
    entry_type = LedgerEntryType.task_completed;
    task_instance_id = some instance.id;
    series_instance_id = none;
    claim_id = none;
    reason = codes "Completed: " ++ definition.title;
    created_by = actor.id;
    created_at = created_at;
  }

award_excuse : TaskInstance → Member → ℕ → LedgerEntryType → Text → Action LedgerEntry
unfolding current_balance write
award_excuse instance actor points entry_type reason = do
  balance ← current_balance instance.assignee_id
  write λ id created_at. record {
    id = id;
    member_id = instance.assignee_id;
    delta = pos points;
    balance_after = balance +ℤ pos points;
    entry_type = entry_type;
    task_instance_id = some instance.id;
    series_instance_id = none;
    claim_id = none;
    reason = reason;
    created_by = actor.id;
    created_at = created_at;
  }

by_policy :
    ExcusedPayoutPolicy → TaskInstance → TaskDefinition → Member → Action (Option LedgerEntry)
unfolding award_excuse
by_policy excused_pays_nothing instance definition actor = pure none
by_policy excused_pays_partial instance definition actor = do
  entry ←
      award_excuse instance actor (instance.point_value / 2) LedgerEntryType.excused_partial
        (codes "Excused (50%): " ++ definition.title)
  pure (some entry)
by_policy excused_pays_full instance definition actor = do
  entry ←
      award_excuse instance actor instance.point_value LedgerEntryType.task_completed
        (codes "Excused (full): " ++ definition.title)
  pure (some entry)

unfoldable pub award_excuse_if_policy :
    TaskInstance → TaskDefinition → Member → Household → Action (Option LedgerEntry)
unfolding by_policy
award_excuse_if_policy instance definition actor household =
    by_policy household.excused_payout_policy instance definition actor

unfoldable pub award_series_bonus :
    SeriesInstance → Series → RowId → Member → ℕ → Action LedgerEntry
unfolding current_balance write
award_series_bonus series_instance series member_id actor bonus_points = do
  balance ← current_balance member_id
  write λ id created_at. record {
    id = id;
    member_id = member_id;
    delta = pos bonus_points;
    balance_after = balance +ℤ pos bonus_points;
    entry_type = LedgerEntryType.series_bonus;
    task_instance_id = none;
    series_instance_id = some series_instance.id;
    claim_id = none;
    reason = codes "Series bonus: " ++ series.name;
    created_by = actor.id;
    created_at = created_at;
  }

unfoldable pub award_all_or_nothing_series :
    SeriesInstance → Series → RowId → Member → ℕ → Action LedgerEntry
unfolding current_balance write
award_all_or_nothing_series series_instance series member_id actor total_points = do
  balance ← current_balance member_id
  write λ id created_at. record {
    id = id;
    member_id = member_id;
    delta = pos total_points;
    balance_after = balance +ℤ pos total_points;
    entry_type = LedgerEntryType.series_bonus;
    task_instance_id = none;
    series_instance_id = some series_instance.id;
    claim_id = none;
    reason = codes "Series complete (all-or-nothing): " ++ series.name;
    created_by = actor.id;
    created_at = created_at;
  }

unfoldable pub fulfil_claim : Claim → Member → Action LedgerEntry
unfolding current_balance write
fulfil_claim claim actor = do
  balance ← current_balance claim.member_id
  write λ id created_at. record {
    id = id;
    member_id = claim.member_id;
    delta = pos 0 -ℤ pos claim.points;
    balance_after = balance -ℤ pos claim.points;
    entry_type = LedgerEntryType.claim_fulfilled;
    task_instance_id = none;
    series_instance_id = none;
    claim_id = some claim.id;
    reason = codes "Claim fulfilled: " ++ claim.requested_item;
    created_by = actor.id;
    created_at = created_at;
  }

unfoldable pub manual_adjustment : RowId → ℤ → Text → Member → Action LedgerEntry
unfolding current_balance write
manual_adjustment member_id delta reason actor = do
  raise_if (is_empty (strip reason)) value_error
  balance ← current_balance member_id
  write λ id created_at. record {
    id = id;
    member_id = member_id;
    delta = delta;
    balance_after = balance +ℤ delta;
    entry_type = LedgerEntryType.manual_adjustment;
    task_instance_id = none;
    series_instance_id = none;
    claim_id = none;
    reason = reason;
    created_by = actor.id;
    created_at = created_at;
  }

unfoldable pub write_reversal : TaskInstance → Member → Text → Action LedgerEntry
unfolding current_balance write
write_reversal instance actor reason = do
  balance ← current_balance instance.assignee_id
  write λ id created_at. record {
    id = id;
    member_id = instance.assignee_id;
    delta = pos 0 -ℤ pos instance.point_value;
    balance_after = balance -ℤ pos instance.point_value;
    entry_type = LedgerEntryType.reversal;
    task_instance_id = some instance.id;
    series_instance_id = none;
    claim_id = none;
    reason = codes "Reversal: " ++ reason;
    created_by = actor.id;
    created_at = created_at;
  }
