-- ===== src/Routes/Approvals/Results.antt =====
-- One result for each item, in order.
use kids_chores_api.Routes.Approvals.{
  result_item, decide_found, decide_loaded, decide_item, run_batch,
}
use kids_chores_api.Session.{
  assertion_error, integrity_error, rate_limit_exceeded, duplicate_ledger_entry, key_error,
  value_error, invalid_transition, http, Session, Result, ok, err, Error, Action, instance_in,
  ◌>>=◌, pure,
}
use kids_chores_api.Schemas.{BulkApproveItem, BulkApproveResultItem}
use kids_chores_api.Models.{
  RowId, Time, Household, Member, TaskDefinition, TaskInstance, TaskStatus, is_status,
}
use kids_chores_api.Prelude.{
  ◌≡◌, refl, inl, inr, Option, none, some, List, [], ◌∷◌, map, Bool-cases,
}

-- What a run returns, if it returns.
abbrev pub OnResult : {A : Type 0} → (A → Type 0) → Result A × Session → Type 0
OnResult P (ok a, s) = P a
OnResult P (err e, s) = Unit

abbrev Names : RowId → BulkApproveResultItem → Type 0
Names id r = r.task_instance_id ≡ id

result_item-Names :
    (id : RowId) (r : Result TaskInstance) (s : Session) → OnResult (Names id) (result_item id r s)
unfolding result_item
result_item-Names id (ok i) s = refl
result_item-Names id (err e) s = by_error e
  where
    by_error : (e : Error) → OnResult (Names id) (result_item id (err e) s)
    by_error invalid_transition = refl
    by_error value_error = refl
    by_error key_error = tt
    by_error duplicate_ledger_entry = tt
    by_error rate_limit_exceeded = tt
    by_error integrity_error = tt
    by_error assertion_error = tt
    by_error (http n) = tt

module _ (item : BulkApproveItem) (parent : Member) (household : Household) (now : Time)
    (s : Session) where
  decide_found-Names :
      (i : TaskInstance) (d : TaskDefinition)
      → OnResult (Names item.task_instance_id) (decide_found (i, d) item parent household now s)
  unfolding decide_found
  decide_found-Names i d = elim (Bool-cases (is_status i.status TaskStatus.review_pending)) [
    | inl reviewed ↦ rw reviewed (result_item-Names item.task_instance_id _ _)
    | inr other ↦ elim (Bool-cases (is_status i.status TaskStatus.excuse_pending)) [
      | inl excused ↦ rw (other, excused) (result_item-Names item.task_instance_id _ _)
      | inr neither ↦ rw (other, neither) refl
    ]
  ]

  decide_item-Names :
      OnResult (Names item.task_instance_id) (decide_item item parent household now s)
  unfolding decide_item
  decide_item-Names = go (instance_in item.task_instance_id household.id s.current)
    where
      go :
          (o : Option (TaskInstance × TaskDefinition))
          → OnResult (Names item.task_instance_id) (decide_loaded o item parent household now s)
      go none = refl
      go (some (i, d)) = decide_found-Names i d

abbrev pub ids : List BulkApproveItem → List RowId
ids = map (λ (x : BulkApproveItem). x.task_instance_id)

abbrev pub result_ids : List BulkApproveResultItem → List RowId
result_ids = map (λ (r : BulkApproveResultItem). r.task_instance_id)

-- A batch that is answered has one result for each item, in the order of the items, whatever came of
-- them.
pub run_batch-ids :
    (items : List BulkApproveItem) (parent : Member) (household : Household) (now : Time)
    (s : Session)
    → OnResult (λ rs. result_ids rs ≡ ids items) (run_batch items parent household now s)
unfolding run_batch
run_batch-ids [] parent household now s = refl
run_batch-ids (item ∷ items) parent household now s =
    go (λ t. run_batch-ids items parent household now t) (decide_item item parent household now s)
      (decide_item-Names item parent household now s)
  where
    rest : Action (List BulkApproveResultItem)
    rest = run_batch items parent household now

    last :
        (r : BulkApproveResultItem) (x : Result (List BulkApproveResultItem) × Session)
        (t : Session)
        → r.task_instance_id ≡ item.task_instance_id
        → OnResult (λ rs. result_ids rs ≡ ids items) x
        → OnResult
            (λ rs. result_ids rs ≡ ids (item ∷ items))
            (((λ (u : Session). x) >>= λ rs. pure (r ∷ rs)) t)
    last r (ok rs, u) t e k = λ i. e i ∷ k i
    last r (err e', u) t e k = tt

    go :
        ((t : Session) → OnResult (λ rs. result_ids rs ≡ ids items) (rest t))
        → (x : Result BulkApproveResultItem × Session) → OnResult (Names item.task_instance_id) x
        → OnResult
            (λ rs. result_ids rs ≡ ids (item ∷ items))
            (((λ (u : Session). x) >>= λ r. rest >>= λ rs. pure (r ∷ rs)) s)
    go ih (ok r, t) e = last r (rest t) t e (ih t)
    go ih (err e', t) e = tt
