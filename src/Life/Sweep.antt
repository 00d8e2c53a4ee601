-- ===== src/Life/Sweep.antt =====
-- The nightly passes keep every task paid as its status says: they move unpaid tasks only.
use kids_chores_api.Life.Frame.{AllPaid, IsSettled}
use kids_chores_api.Generation.{to_overdue, to_missed, sweep, is_of}
use kids_chores_api.Grace.{grace_remaining}
use kids_chores_api.StateMachine.Payment.{IsPaid}
use kids_chores_api.StateMachine.Payment.Calls.{status_paid}
use kids_chores_api.Session.{Session, Db, find_row, modify}
use kids_chores_api.Models.{
  RowId, Time, TaskDefinition, TaskInstance, TaskStatus, is_status, LedgerEntry,
}
use kids_chores_api.Prelude.Int.{pos, leb_ℤ}
use kids_chores_api.Prelude.{
  false, ℕ, ◌≡◌, refl, sym, ap, subst, ◌∙◌, inl, inr, Bool, true, ◌&&◌, some, List, [], ◌∷◌, map,
  leb, ◌==◌, Bool-cases, arith,
}

and-left : (a b : Bool) → (a && b) ≡ true → a ≡ true
and-left a b h = ground arith

module _ (f : TaskInstance → TaskInstance) (same_id : (i : TaskInstance) → (f i).id ≡ i.id) where
  -- A row of the mapped table comes from the row with its key.
  find_row-map :
      (k : RowId) (is : List TaskInstance) {i : TaskInstance}
      → find_row (λ (r : TaskInstance). r.id) k (map f is) ≡ some i
      → (j : TaskInstance) × (find_row (λ (r : TaskInstance). r.id) k is ≡ some j) × (f j ≡ i)
  unfolding find_row
  find_row-map k [] h = cc
  find_row-map k (x ∷ is) {i} h = elim (Bool-cases (x.id == k)) [
    | inl here ↦
        let test : ((f x).id == k) ≡ true = ap (λ (j : RowId). j == k) (same_id x) ∙ here in
        (x, rw here refl, cc (rw test at h))
    | inr there ↦
        let test : ((f x).id == k) ≡ false = ap (λ (j : RowId). j == k) (same_id x) ∙ there in
        let (j, e, g) = find_row-map k is (rw test at h) in (j, rw there e, g)
  ]

  map-AllPaid :
      (db : Db)
      → ((i : TaskInstance) → IsPaid i db.ledger_entries → IsPaid (f i) db.ledger_entries)
      → AllPaid db
      → AllPaid (record db { task_instances = map f db.task_instances })
  map-AllPaid db keeps all i found =
      let (j, e, g) = find_row-map i.id db.task_instances found in
      let key : j.id ≡ i.id = sym (same_id j) ∙ ap (λ (t : TaskInstance). t.id) g in
      subst (λ (t : TaskInstance). IsPaid t db.ledger_entries) g
        (keeps j (
          all j (
            ap (λ (k : RowId). find_row (λ (r : TaskInstance). r.id) k db.task_instances) key ∙ e)))

module _ (definitions : List TaskDefinition) (hours : ℕ) (now : Time) where
  to_overdue-id : (i : TaskInstance) → (to_overdue definitions now i).id ≡ i.id
  unfolding to_overdue
  to_overdue-id i = ground arith

  to_missed-id : (i : TaskInstance) → (to_missed definitions hours now i).id ≡ i.id
  unfolding to_missed
  to_missed-id i = ground arith

  to_overdue-IsPaid :
      (entries : List LedgerEntry) (i : TaskInstance)
      → IsPaid i entries
      → IsPaid (to_overdue definitions now i) entries
  unfolding to_overdue
  to_overdue-IsPaid entries i h =
      elim (Bool-cases
        (is_status i.status TaskStatus.pending && leb i.due_at now && is_of definitions i)) [
          | inl late ↦
              rw late
                (status_paid i TaskStatus.pending entries (and-left _ _ (and-left _ _ late)) h)
          | inr stays ↦ rw stays h
        ]

  to_missed-IsPaid :
      (entries : List LedgerEntry) (i : TaskInstance)
      → IsPaid i entries
      → IsPaid (to_missed definitions hours now i) entries
  unfolding to_missed
  to_missed-IsPaid entries i h =
      elim (Bool-cases (
        is_status i.status TaskStatus.overdue
        && is_of definitions i
        && leb_ℤ (grace_remaining i hours now) (pos 0))) [
          | inl gone ↦
              rw gone
                (status_paid i TaskStatus.overdue entries (and-left _ _ (and-left _ _ gone)) h)
          | inr stays ↦ rw stays h
        ]

  sweep-AllPaid : (db : Db) → AllPaid db → AllPaid (sweep definitions hours now db)
  unfolding sweep
  sweep-AllPaid db all =
      map-AllPaid (to_missed definitions hours now) to_missed-id
        (record db { task_instances = map (to_overdue definitions now) db.task_instances })
        (to_missed-IsPaid db.ledger_entries)
        (map-AllPaid (to_overdue definitions now) to_overdue-id db
          (to_overdue-IsPaid db.ledger_entries) all)

  -- The nightly passes keep every task paid as its status says.
  pub sweep-IsSettled :
      (s : Session) → IsSettled s → IsSettled (modify (sweep definitions hours now) s).1
  sweep-IsSettled s kept = record { now = sweep-AllPaid s.current kept.now; saved = kept.saved }
