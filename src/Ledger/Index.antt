-- ===== src/Ledger/Index.antt =====
-- The unique index of `ledger_entries` as a property of the table, and what it bounds.
use kids_chores_api.Ledger.{violates_unique}
use kids_chores_api.Prelude.{
  ltb, ℕ, suc, ◌≡◌, refl, false, true, none, some, arith, ◌&&◌, List, [], ◌∷◌, if◌then◌else◌, is_id,
}
use kids_chores_api.Models.{RowId, LedgerEntryType, is_entry_type, LedgerEntry}

is_entry_type-sym : (t u : LedgerEntryType) → is_entry_type t u ≡ is_entry_type u t
is_entry_type-sym t u = ground arith

-- How many entries of a type a task instance has.
unfoldable pub count_task : RowId → LedgerEntryType → List LedgerEntry → ℕ
count_task k t [] = 0
count_task k t (e ∷ entries) =
    let rest = count_task k t entries in
    if is_id e.task_instance_id k && is_entry_type e.entry_type t then suc rest else rest

-- How many entries of a type a series instance has.
unfoldable pub count_series : RowId → LedgerEntryType → List LedgerEntry → ℕ
count_series k t [] = 0
count_series k t (e ∷ entries) =
    let rest = count_series k t entries in
    if is_id e.series_instance_id k && is_entry_type e.entry_type t then suc rest else rest

-- A row that the index admits has no earlier row of its type for its task.
pub count_task-eq-zero :
    (e : LedgerEntry) (k : RowId) (t : LedgerEntryType) (entries : List LedgerEntry)
    → violates_unique e entries ≡ false
    → is_id e.task_instance_id k ≡ true
    → is_entry_type e.entry_type t ≡ true
    → count_task k t entries ≡ 0
unfolding violates_unique count_task
count_task-eq-zero e k t [] h a b = refl
count_task-eq-zero e k t (x ∷ entries) h a b = ground (arith, count_task-eq-zero e k t entries)

-- A row that the index admits has no earlier row of its type for its series instance.
pub count_series-eq-zero :
    (e : LedgerEntry) (k : RowId) (t : LedgerEntryType) (entries : List LedgerEntry)
    → violates_unique e entries ≡ false
    → is_id e.series_instance_id k ≡ true
    → is_entry_type e.entry_type t ≡ true
    → count_series k t entries ≡ 0
unfolding violates_unique count_series
count_series-eq-zero e k t [] h a b = refl
count_series-eq-zero e k t (x ∷ entries) h a b = ground (arith, count_series-eq-zero e k t entries)

-- A row about a task instance is refused exactly when the task has an entry of its type.
pub violates-task :
    (e : LedgerEntry) (k : RowId) (entries : List LedgerEntry)
    → e.task_instance_id ≡ some k
    → e.series_instance_id ≡ none
    → violates_unique e entries ≡ ltb 0 (count_task k e.entry_type entries)
unfolding violates_unique count_task
violates-task e k [] a b = refl
violates-task e k (x ∷ entries) a b =
    ground (arith, violates-task e k entries, is_entry_type-sym e.entry_type x.entry_type)

-- A row about a series instance is refused exactly when it has an entry of its type.
pub violates-series :
    (e : LedgerEntry) (k : RowId) (entries : List LedgerEntry)
    → e.task_instance_id ≡ none
    → e.series_instance_id ≡ some k
    → violates_unique e entries ≡ ltb 0 (count_series k e.entry_type entries)
unfolding violates_unique count_series
violates-series e k [] a b = refl
violates-series e k (x ∷ entries) a b =
    ground (arith, violates-series e k entries, is_entry_type-sym e.entry_type x.entry_type)

-- A row about neither is never refused.
pub violates-neither :
    (e : LedgerEntry) (entries : List LedgerEntry)
    → e.task_instance_id ≡ none
    → e.series_instance_id ≡ none
    → violates_unique e entries ≡ false
unfolding violates_unique
violates-neither e [] a b = refl
violates-neither e (x ∷ entries) a b = ground (arith, violates-neither e entries)
