-- ===== src/Life/History.antt =====
-- Any sequence of requests, of which some succeed, some are replays and some are refused.
use kids_chores_api.Life.Frame.{IsSettled}
use kids_chores_api.Life.Routes.{
  barred-IsSettled, bind-kept, request-IsSettled, complete_task-IsSettled, excuse_task-IsSettled,
  review_task-IsSettled, cancel_task-IsSettled,
}
use kids_chores_api.Life.Wallet.{
  manual_adjust-IsSettled, submit_claim-IsSettled, resolve_claim-IsSettled,
}
use kids_chores_api.Life.Batch.{run_batch-IsSettled}
use kids_chores_api.Routes.Tasks.{complete_task, excuse_task, review_task, cancel_task_route}
use kids_chores_api.Routes.Wallet.{manual_adjust, submit_claim, resolve_claim}
use kids_chores_api.Routes.Approvals.{bulk_approve, batch_response, run_batch}
use kids_chores_api.Redis.{Cache}
use kids_chores_api.Redis.Idempotency.{IdemKey, run_idempotent, answer, ttl_seconds}
use kids_chores_api.Web.{
  World, Web, on_session, on_store, pure, request, require_parent, ◌>>=◌, ◌>>◌,
}
use kids_chores_api.Session.{ok}
use kids_chores_api.Life.Series.{bind-IsSettled}
use kids_chores_api.Schemas.{
  TaskInstanceResponse, BulkApproveResponse, CompleteTaskRequest, ExcuseTaskRequest, ReviewRequest,
  CancelTaskRequest, BulkApproveRequest, ManualAdjustRequest, ClaimCreate, ClaimResolveRequest,
}
use kids_chores_api.Models.{RowId, Time, Household, Member}
use kids_chores_api.Prelude.{Option, none, some, List, [], ◌∷◌}

-- Who asks, and when.
pub record Caller : Type 0 where
  pub member : Member
  pub household : Household
  pub now : Time

pub data Request : Type 0 where
  completing : RowId → CompleteTaskRequest → Request
  excusing : RowId → ExcuseTaskRequest → Request
  reviewing : RowId → ReviewRequest → Request
  cancelling : RowId → CancelTaskRequest → Request
  approving_many : BulkApproveRequest → Request
  adjusting : RowId → ManualAdjustRequest → Request
  claiming : ClaimCreate → Request
  resolving : RowId → ClaimResolveRequest → Request

-- How the responses of tasks and of batches are cached.
pub record Codec (J : Type 0) : Type 0 where
  pub from_task : TaskInstanceResponse → J
  pub to_task : J → TaskInstanceResponse
  pub from_batch : BulkApproveResponse → J
  pub to_batch : J → BulkApproveResponse

module _ {J : Type 0} (C : Cache IdemKey J) (codec : Codec J) where
  open codec use {from_task, to_task, from_batch, to_batch}

  -- A route that only parents may call.
  abbrev for_parent : {A : Type 0} → Member → (Member → Web C.Store A) → Web C.Store A
  for_parent member route = require_parent member >>= route

  unfoldable pub serve : Caller → Request → World C.Store → World C.Store
  serve x (completing id body) w =
      (request (complete_task C from_task to_task id body x.member x.household x.now) w).1
  serve x (excusing id body) w =
      (request (excuse_task C from_task to_task id body x.member x.household x.now) w).1
  serve x (reviewing id body) w =
      (request (review_task C from_task to_task id body x.member x.household x.now) w).1
  serve x (cancelling id body) w =
      (request (cancel_task_route C from_task to_task id body x.member x.household x.now) w).1
  serve x (approving_many body) w =
      (request
        (for_parent x.member
          λ parent. bulk_approve C from_batch to_batch body parent x.household x.now)
        w).1
  serve x (adjusting id body) w =
      (request (for_parent x.member λ parent. on_session (manual_adjust id body parent x.household))
        w).1
  serve x (claiming body) w = (request (on_session (submit_claim body x.member)) w).1
  serve x (resolving id body) w =
      (request
        (for_parent x.member λ parent. on_session (resolve_claim id body parent x.household x.now))
        w).1

  unfoldable pub serve_all : List (Caller × Request) → World C.Store → World C.Store
  serve_all [] w = w
  serve_all ((x, r) ∷ rs) w = serve_all rs (serve x r w)

  parent-IsSettled :
      {A : Type 0} (member : Member) (route : Member → Web C.Store A) (w : World C.Store)
      → IsSettled w.session
      → IsSettled (route member w).1.session
      → IsSettled (request (for_parent member route) w).1.session
  parent-IsSettled member route w kept worked =
      request-IsSettled (for_parent member route) w (barred-IsSettled member w route kept worked)

  batch-IsSettled :
      (body : BulkApproveRequest) (parent : Member) (household : Household) (now : Time)
      (w : World C.Store)
      → IsSettled w.session
      → IsSettled (bulk_approve C from_batch to_batch body parent household now w).1.session
  unfolding bulk_approve run_idempotent
  batch-IsSettled body parent household now w kept =
      go (C.get now (parent.id, body.idempotency_key) w.store)
    where
      handler : Web C.Store BulkApproveResponse
      handler = on_session (batch_response body parent household now)

      go :
          (o : Option J)
          → IsSettled
              (answer C from_batch to_batch o
                (parent.id, body.idempotency_key)
                handler
                now
                w).1.session
      go (some j) = kept
      go none =
          bind-kept w handler
            (λ r.
              on_store (C.set_nx now (parent.id, body.idempotency_key) (from_batch r) ttl_seconds)
              >> pure r)
            (bind-IsSettled w.session (run_batch body.items parent household now)
              (λ results t. (ok (record { results = results }), t))
              (run_batch-IsSettled body.items parent household now w.session kept) (λ rs t h. h))
            (λ a v e h. h)

  serve-IsSettled :
      (x : Caller) (r : Request) (w : World C.Store)
      → IsSettled w.session
      → IsSettled (serve x r w).session
  unfolding serve
  serve-IsSettled x (completing id body) w kept =
      request-IsSettled _ w
        (complete_task-IsSettled C from_task to_task x.member x.household x.now w kept id body)
  serve-IsSettled x (excusing id body) w kept =
      request-IsSettled _ w
        (excuse_task-IsSettled C from_task to_task x.member x.household x.now w kept id body)
  serve-IsSettled x (reviewing id body) w kept =
      request-IsSettled _ w
        (review_task-IsSettled C from_task to_task x.member x.household x.now w kept id body)
  serve-IsSettled x (cancelling id body) w kept =
      request-IsSettled _ w
        (cancel_task-IsSettled C from_task to_task x.member x.household x.now w kept id body)
  serve-IsSettled x (approving_many body) w kept =
      parent-IsSettled x.member
        (λ parent. bulk_approve C from_batch to_batch body parent x.household x.now) w kept
        (batch-IsSettled body x.member x.household x.now w kept)
  serve-IsSettled x (adjusting id body) w kept =
      parent-IsSettled x.member (λ parent. on_session (manual_adjust id body parent x.household)) w
        kept (manual_adjust-IsSettled id body x.member x.household w.session kept)
  serve-IsSettled x (claiming body) w kept =
      request-IsSettled (on_session (submit_claim body x.member)) w
        (submit_claim-IsSettled body x.member w.session kept)
  serve-IsSettled x (resolving id body) w kept =
      parent-IsSettled x.member
        (λ parent. on_session (resolve_claim id body parent x.household x.now)) w kept
        (resolve_claim-IsSettled id body x.member x.household x.now w.session kept)

  -- Whatever requests on tasks, approvals and wallets are served, in any order, by anyone and at any
  -- time, and whether they succeed, are refused or are replays: a database in which every task has
  -- been paid as its status says stays one, in the session and in what is committed.
  pub serve_all-IsSettled :
      (rs : List (Caller × Request)) (w : World C.Store)
      → IsSettled w.session
      → IsSettled (serve_all rs w).session
  unfolding serve_all
  serve_all-IsSettled [] w kept = kept
  serve_all-IsSettled ((x, r) ∷ rs) w kept =
      serve_all-IsSettled rs (serve x r w) (serve-IsSettled x r w kept)
