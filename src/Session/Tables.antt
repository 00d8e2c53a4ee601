-- ===== src/Session/Tables.antt =====
-- `db.add` of a changed row, and a query by primary key, for the tables that the services write.
use kids_chores_api.Prelude.{
  ◌≡◌, refl, ◌≢◌, Option, none, some, List, [], ◌∷◌, arith, ◌==◌, ==_iff, Bool-cases, inl, inr,
  if◌then◌else◌, find?,
}
use kids_chores_api.Models.{RowId, TaskInstance, SeriesInstance, Claim, LedgerEntry}
use kids_chores_api.Session.Monad.{Db, Action, modify}

module _ {ℓ} {A : Type ℓ} (id : A → RowId) where
  -- Writes the row over the one with its key.
  unfoldable pub update_row : A → List A → List A
  update_row r [] = []
  update_row r (x ∷ xs) = if id x == id r then r ∷ xs else x ∷ update_row r xs

  unfoldable pub find_row : RowId → List A → Option A
  find_row k rows = find? (λ r. id r == k) rows

module _ {ℓ} {A : Type ℓ} (id : A → RowId) where
  pub find_row-update_row_self :
      (r : A) (rows : List A)
      → find_row id (id r) rows ≢ none
      → find_row id (id r) (update_row id r rows) ≡ some r
  unfolding find_row update_row
  find_row-update_row_self r [] h = absurd (h refl)
  find_row-update_row_self r (x ∷ rows) h = elim (Bool-cases (id x == id r)) [
    | inl here ↦ rw here (rw ((==_iff (id r) (id r)).1 refl))
    | inr there ↦ rw there (rw there (find_row-update_row_self r rows (λ e. h (rw there e))))
  ]

  pub find_row-update_row_ne :
      (r : A) (k : RowId) (rows : List A)
      → id r ≢ k
      → find_row id k (update_row id r rows) ≡ find_row id k rows
  unfolding find_row update_row
  find_row-update_row_ne r k [] h = refl
  find_row-update_row_ne r k (x ∷ rows) h = ground (arith, find_row-update_row_ne r k rows h)

abbrev pub put_instance : TaskInstance → Db → Db
put_instance i db = record db {
  task_instances = update_row (λ (r : TaskInstance). r.id) i db.task_instances;
}

-- `self._db.add(instance)` for a row that the session holds.
abbrev pub add_instance : TaskInstance → Action Unit
add_instance i = modify (put_instance i)

abbrev pub add_series_instance : SeriesInstance → Action Unit
add_series_instance i = modify λ db. record db {
  series_instances = update_row (λ (r : SeriesInstance). r.id) i db.series_instances;
}

abbrev pub add_claim : Claim → Action Unit
add_claim c = modify λ db. record db { claims = update_row (λ (r : Claim). r.id) c db.claims }

abbrev pub put_entry : LedgerEntry → Db → Db
put_entry e db = record db { ledger_entries = e ∷ db.ledger_entries }
