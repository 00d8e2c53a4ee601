-- ===== src/Life/Steps.antt =====
-- The work of a request on one task keeps every task paid as its status says.
use kids_chores_api.StateMachine.Outcomes.{paying, saving}
use native.Mathlib.Decide.{ℕ_discrete}
use kids_chores_api.StateMachine.Payment.Calls.{plan-Pays, Pays}
use kids_chores_api.StateMachine.Diagram.{plan-Follows, Follows}
use kids_chores_api.StateMachine.Payment.{OnOk, IsPaid}
use kids_chores_api.Life.Frame.{IsPaid-cons, call-cases, AllPaid, IsSettled}
use kids_chores_api.StateMachine.Plan.{
  run_task-plan, run_task, carry_out, TaskCall, completing, excusing, reviewing, resolving,
  cancelling, reversing, Context, Plan, refuse, save, pay, plan,
}
use kids_chores_api.Ledger.Posting.{posted, run_call, entry_of, LedgerCall, posting_of, Posting}
use kids_chores_api.Session.{
  find_row-update_row_ne, err, update_row, Result, find_row-update_row_self, put_instance, find_row,
  Db, Session, ok,
}
use kids_chores_api.Models.{RowId, LedgerEntry, TaskInstance}
use kids_chores_api.Prelude.{
  inr, inl, subst, ◌∷◌, Option, ap, ◌∙◌, sym, List, none, ◌≢◌, ◌≡◌, Bool, true, false, some, ◌==◌,
  arith,
}

-- The ledger is called for the row that is saved.
unfoldable pub pays_itself : Plan → Bool
pays_itself (refuse e) = true
pays_itself (save j) = true
pays_itself (pay (LedgerCall.task_completion i d a h) j) = i.id == j.id
pays_itself (pay (LedgerCall.excuse i d a h) j) = i.id == j.id
pays_itself (pay (LedgerCall.reversal i a r) j) = i.id == j.id
pays_itself (pay _ j) = false

plan-pays_itself : (c : TaskCall) (x : Context) (i : TaskInstance) → pays_itself (plan c x i) ≡ true
unfolding pays_itself plan
plan-pays_itself (completing text) x i = ground arith
plan-pays_itself (excusing text) x i = ground arith
plan-pays_itself (reviewing b comment) x i = ground arith
plan-pays_itself (resolving b comment) x i = ground arith
plan-pays_itself (cancelling reason) x i = ground arith
plan-pays_itself (reversing reason) x i = ground arith

posts_for_itself :
    (c : LedgerCall) (j : TaskInstance) (p : Posting)
    → pays_itself (pay c j) ≡ true
    → posting_of c ≡ ok (some p)
    → p.task_instance_id ≡ some j.id
unfolding pays_itself posting_of
posts_for_itself (LedgerCall.task_completion i d a h) j p e q = ground arith
posts_for_itself (LedgerCall.excuse i d a h) j p e q = ground arith
posts_for_itself (LedgerCall.bonus r x m a n) j p e q = cc
posts_for_itself (LedgerCall.all_or_nothing r x m a n) j p e q = cc
posts_for_itself (LedgerCall.claim c a) j p e q = cc
posts_for_itself (LedgerCall.adjustment m d r a) j p e q = cc
posts_for_itself (LedgerCall.reversal i a r) j p e q = ground arith

-- The task of a row is moved to that row, and the ledger gains nothing about another task.
put-AllPaid :
    (db : Db) (j : TaskInstance) (entries : List LedgerEntry)
    → AllPaid db
    → find_row (λ (r : TaskInstance). r.id) j.id db.task_instances ≢ none
    → ((i : TaskInstance) → i.id ≢ j.id → IsPaid i db.ledger_entries → IsPaid i entries)
    → IsPaid j entries
    → AllPaid (put_instance j (record db { ledger_entries = entries }))
put-AllPaid db j entries all there others paid i found = elim (ℕ_discrete i.id j.id) [
  | yes same ↦
      let hit = find_row-update_row_self (λ (r : TaskInstance). r.id) j db.task_instances there in
      let found' =
        sym found
        ∙ ap
            (λ (k : RowId).
              find_row (λ (r : TaskInstance). r.id) k
                (update_row (λ (r : TaskInstance). r.id) j db.task_instances))
            same
        ∙ hit in
      let row : j ≡ i = cc found' in subst (λ (t : TaskInstance). IsPaid t entries) row paid
  | no other ↦ others i other (
      all i (
        sym (
          find_row-update_row_ne (λ (r : TaskInstance). r.id) j i.id db.task_instances
            (λ e. other (sym e)))
        ∙ found))
]

module _ (j i : TaskInstance) (target : j.id ≡ i.id) where
  -- The row that is saved is there.
  is_there :
      (s : Session)
      → find_row (λ (r : TaskInstance). r.id) i.id s.current.task_instances ≡ some i
      → find_row (λ (r : TaskInstance). r.id) j.id s.current.task_instances ≢ none
  is_there s found e = cc (
      sym found
      ∙ ap (λ (k : RowId). find_row (λ (r : TaskInstance). r.id) k s.current.task_instances)
          (sym target)
      ∙ e)

  saving-IsSettled :
      (s : Session)
      → IsSettled s
      → find_row (λ (r : TaskInstance). r.id) i.id s.current.task_instances ≡ some i
      → IsPaid j s.current.ledger_entries
      → IsSettled (saving j s).1
  saving-IsSettled s kept found paid = record {
    now =
        put-AllPaid s.current j s.current.ledger_entries kept.now (is_there s found)
          (λ k other h. h) paid;
    saved = kept.saved;
  }

  unmoved-IsSettled :
      (s : Session) (r : Result (Option LedgerEntry) × Session)
      → IsSettled s
      → find_row (λ (r : TaskInstance). r.id) i.id s.current.task_instances ≡ some i
      → r.1 ≡ s
      → OnOk (IsPaid j) r
      → IsSettled (paying (λ t. r) j s).1
  unmoved-IsSettled s (ok e, t) kept found same paid =
      saving-IsSettled t (subst IsSettled (sym same) kept)
        (ap (λ (u : Session). find_row (λ (r : TaskInstance). r.id) i.id u.current.task_instances)
            same
          ∙ found)
        paid
  unmoved-IsSettled s (err e, t) kept found same paid = subst IsSettled (sym same) kept

  posted-IsSettled :
      (s : Session) (p : Posting)
      → IsSettled s
      → find_row (λ (r : TaskInstance). r.id) i.id s.current.task_instances ≡ some i
      → p.task_instance_id ≡ some j.id
      → IsPaid j (entry_of p s ∷ s.current.ledger_entries)
      → IsSettled (saving j (posted (entry_of p s) s)).1
  posted-IsSettled s p kept found about paid = record {
    now =
        put-AllPaid s.current j (entry_of p s ∷ s.current.ledger_entries) kept.now
          (is_there s found)
          (λ k other.
            IsPaid-cons k (entry_of p s) s.current.ledger_entries
              (rw about (ground (arith, other))))
          paid;
    saved = kept.saved;
  }

  paying-IsSettled :
      (c : LedgerCall) (s : Session)
      → IsSettled s
      → find_row (λ (r : TaskInstance). r.id) i.id s.current.task_instances ≡ some i
      → pays_itself (pay c j) ≡ true
      → OnOk (IsPaid j) (run_call c s)
      → IsSettled (paying (run_call c) j s).1
  paying-IsSettled c s kept found self paid = elim (call-cases c s) [
    | inl same ↦ unmoved-IsSettled s (run_call c s) kept found same paid
    | inr (inl (p, posts, e)) ↦ subst settled_by (sym e) (
        posted-IsSettled s p kept found (posts_for_itself c j p self posts)
          (subst (OnOk (IsPaid j)) e paid))
    | inr (inr e) ↦ subst settled_by (sym e) (record { now = kept.saved; saved = kept.saved })
  ]
    where
      settled_by : Result (Option LedgerEntry) × Session → Type 0
      settled_by r = IsSettled (paying (λ t. r) j s).1

-- A decision that pays for its own row keeps the whole database paid.
carry_out-IsSettled :
    (p : Plan) (s : Session) (i : TaskInstance)
    → IsSettled s
    → find_row (λ (r : TaskInstance). r.id) i.id s.current.task_instances ≡ some i
    → pays_itself p ≡ true
    → Follows i p
    → Pays s p
    → IsSettled (carry_out p s).1
unfolding carry_out
carry_out-IsSettled (refuse e) s i kept found self follows paid = kept
carry_out-IsSettled (save j) s i kept found self follows paid =
    saving-IsSettled j i follows.1.id s kept found paid
carry_out-IsSettled (pay c j) s i kept found self follows paid =
    paying-IsSettled j i follows.1.id c s kept found self paid

-- Whatever method of the state machine is called on a row of the table, and whether it succeeds or
-- is refused, a database whose tasks have all been paid as their statuses say stays one, and so does
-- what a rollback returns to.
pub run_task-IsSettled :
    (c : TaskCall) (x : Context) (i : TaskInstance) (s : Session)
    → find_row (λ (r : TaskInstance). r.id) i.id s.current.task_instances ≡ some i
    → IsSettled s
    → IsSettled (run_task c x i s).1
run_task-IsSettled c x i s found kept = rw (run_task-plan c x i s) (
    carry_out-IsSettled (plan c x i) s i kept found (plan-pays_itself c x i) (plan-Follows c x i)
      (plan-Pays x i s (kept.now i found) c))
