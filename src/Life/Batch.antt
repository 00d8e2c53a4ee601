-- ===== src/Life/Batch.antt =====
-- A batch of decisions is a sequence of reviews.
use kids_chores_api.Life.Frame.{IsSettled}
use kids_chores_api.Life.Steps.{run_task-IsSettled}
use kids_chores_api.Life.Series.{bind-IsSettled}
use kids_chores_api.Life.Routes.{instance_in-found}
use kids_chores_api.Routes.Approvals.{
  result_item, decide_found, decide_loaded, decide_item, run_batch,
}
use kids_chores_api.StateMachine.{review, resolve_excuse}
use kids_chores_api.StateMachine.Plan.{reviewing, resolving, Context, run_task}
use kids_chores_api.Session.{
  assertion_error, integrity_error, rate_limit_exceeded, duplicate_ledger_entry, key_error,
  value_error, invalid_transition, http, Session, Result, ok, err, Action, Error, attempt, find_row,
  instance_in, ◌>>=◌, pure,
}
use kids_chores_api.Schemas.{BulkApproveItem}
use kids_chores_api.Models.{
  RowId, Time, Household, Member, TaskDefinition, TaskInstance, TaskStatus, is_status,
}
use kids_chores_api.Prelude.{
  sym, subst, ◌≡◌, refl, inl, inr, Option, none, some, List, [], ◌∷◌, Bool-cases,
}

-- Whatever comes of an item, the session is as the decision has left it.
pub result_item-session :
    (id : RowId) (r : Result TaskInstance) (s : Session) → (result_item id r s).1 ≡ s
unfolding result_item
result_item-session id (ok i) s = refl
result_item-session id (err e) s = by_error e
  where
    by_error : (e : Error) → (result_item id (err e) s).1 ≡ s
    by_error invalid_transition = refl
    by_error value_error = refl
    by_error key_error = refl
    by_error duplicate_ledger_entry = refl
    by_error rate_limit_exceeded = refl
    by_error integrity_error = refl
    by_error assertion_error = refl
    by_error (http n) = refl

attempted-IsSettled :
    (id : RowId) (m : Action TaskInstance) (s : Session)
    → IsSettled (m s).1
    → IsSettled ((attempt m >>= result_item id) s).1
attempted-IsSettled id m s kept =
    subst IsSettled (sym (result_item-session id (m s).0 (m s).1)) kept

module _ (item : BulkApproveItem) (parent : Member) (household : Household) (now : Time)
    (s : Session) (kept : IsSettled s) where
  decide_found-IsSettled :
      (i : TaskInstance) (d : TaskDefinition)
      → find_row (λ (r : TaskInstance). r.id) i.id s.current.task_instances ≡ some i
      → IsSettled (decide_found (i, d) item parent household now s).1
  unfolding decide_found run_task
  decide_found-IsSettled i d found =
      let x : Context = record {
        definition = d;
        actor = parent;
        household = household;
        now = now;
      } in
      elim (Bool-cases (is_status i.status TaskStatus.review_pending)) [
        | inl reviewed ↦ rw reviewed (
            attempted-IsSettled item.task_instance_id
              (review i d parent household item.approve item.comment now) s
              (run_task-IsSettled (reviewing item.approve item.comment) x i s found kept))
        | inr other ↦ elim (Bool-cases (is_status i.status TaskStatus.excuse_pending)) [
          | inl excused ↦
              rw (other, excused)
                (attempted-IsSettled item.task_instance_id
                  (resolve_excuse i d parent household item.approve item.comment now) s
                  (run_task-IsSettled (resolving item.approve item.comment) x i s found kept))
          | inr neither ↦ rw (other, neither) kept
        ]
      ]

  decide_item-IsSettled : IsSettled (decide_item item parent household now s).1
  unfolding decide_item
  decide_item-IsSettled = go (instance_in item.task_instance_id household.id s.current) refl
    where
      go :
          (o : Option (TaskInstance × TaskDefinition))
          → instance_in item.task_instance_id household.id s.current ≡ o
          → IsSettled (decide_loaded o item parent household now s).1
      go none e = kept
      go (some (i, d)) e =
          decide_found-IsSettled i d
            (instance_in-found item.task_instance_id household.id s.current e)

pub run_batch-IsSettled :
    (items : List BulkApproveItem) (parent : Member) (household : Household) (now : Time)
    (s : Session)
    → IsSettled s
    → IsSettled (run_batch items parent household now s).1
unfolding run_batch
run_batch-IsSettled [] parent household now s kept = kept
run_batch-IsSettled (item ∷ items) parent household now s kept =
    bind-IsSettled s (decide_item item parent household now)
      (λ r. run_batch items parent household now >>= λ rs. pure (r ∷ rs))
      (decide_item-IsSettled item parent household now s kept)
      (λ r t h.
        bind-IsSettled t (run_batch items parent household now) (λ rs. pure (r ∷ rs))
          (run_batch-IsSettled items parent household now t h) (λ rs u k. k))
