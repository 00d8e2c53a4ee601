-- ===== src/Tests/Requests.antt =====
-- The theorems on requests at concrete inputs: the teen finishes the dishes, the parent answers.
use kids_chores_api.Routes.Tasks.Guards.{task_routes-IsRefused, IsRefused}
use kids_chores_api.Routes.Tasks.Approval.{review_task-pays}
use kids_chores_api.Routes.Tasks.Payment.{complete_task-pays}
use kids_chores_api.Routes.Wallet.Debits.{resolve_twice}
use kids_chores_api.Prelude.Int.{◌+ℤ◌, pos, ◌-ℤ◌}
use kids_chores_api.Ledger.{sum_delta, violates_unique, award_task_completion}
use native.Mathlib.Decide.{ℕ_discrete}
use kids_chores_api.Tests.{teen, home, dishes, empty_db, fresh, task}
use kids_chores_api.StateMachine.{complete}
use kids_chores_api.Ledger.Awards.{balance}
use kids_chores_api.Ledger.Index.{count_task}
use kids_chores_api.StateMachine.Payment.{IsPaid, net_points}
use kids_chores_api.Routes.Tasks.{cancel_task_route, excuse_task, review_task, complete_task}
use kids_chores_api.Redis.Memory.{memory-IsCache, memory}
use kids_chores_api.Redis.{Cache}
use kids_chores_api.Prelude.{
  if◌then◌else◌, arith, inr, some, refl, subst, inl, ◌==◌, ◌≡◌, ap, Bool-cases, ◌∷◌, none, [], true,
  codes, List,
}
use kids_chores_api.Routes.Wallet.{resolve_claim, claim_in}
use kids_chores_api.Redis.Idempotency.{run_idempotent_again, run_idempotent, IdemKey}
use kids_chores_api.Web.{request, on_session, World, Web}
use kids_chores_api.Life.Frame.{AllPaid, IsSettled}
use kids_chores_api.Life.History.{serve_all-IsSettled, Request, serve_all, Codec, Caller}
use kids_chores_api.Models.{
  Household, RowId, TaskStatus, ClaimStatus, MemberRole, TaskInstance, Claim, Member,
}
use kids_chores_api.Schemas.{
  CancelTaskRequest, ReviewRequest, ExcuseTaskRequest, CompleteTaskRequest, response_of,
  BulkApproveResponse, TaskInstanceResponse, ClaimResolveRequest,
}
use kids_chores_api.Session.{ok, member_in, instance_in, find_row, Session}

abbrev parent : Member
parent = record teen { id = 4; role = MemberRole.parent }

abbrev key_discrete : Discrete IdemKey
key_discrete (a, b) (c, d) = elim (ℕ_discrete a c) [
  | yes p ↦ elim (ℕ_discrete b d) [
    | yes q ↦ yes (λ i. (p i, q i))
    | no n ↦ no (λ e. n (ap (λ (x : IdemKey). x.1) e))
  ]
  | no n ↦ no (λ e. n (ap (λ (x : IdemKey). x.0) e))
]

-- Both kinds of response are kept as they are.
abbrev Json : Type 0
Json = TaskInstanceResponse × BulkApproveResponse

abbrev cache : Cache IdemKey Json
cache = memory key_discrete

abbrev codec : Codec Json
codec = record {
  from_task = λ r. (r, record { results = [] });
  to_task = λ j. j.0;
  from_batch = λ b. (response_of task, b);
  to_batch = λ j. j.1;
}

abbrev world : World cache.Store
world = record { session = fresh; store = λ key. none; pushed = [] }

empty_db-AllPaid : AllPaid empty_db
unfolding find_row net_points count_task
empty_db-AllPaid i found = elim (Bool-cases (5 == i.id)) [
  | inl here ↦
      let same : task ≡ i = cc (rw here at found) in subst (λ t. IsPaid t []) same (refl, refl)
  | inr there ↦ cc (rw there at found)
]

abbrev by_teen : Caller
by_teen = record { member = teen; household = home; now = 2_000_000_000 }

abbrev by_parent : Caller
by_parent = record { member = parent; household = home; now = 3_000_000_000 }

abbrev day : List (Caller × Request)
day =
    (by_teen, Request.completing 5 (record { idempotency_key = 1; note = none }))
    ∷ (by_parent, Request.cancelling 5 (record { idempotency_key = 2; reason = none }))
    ∷ (by_teen, Request.completing 5 (record { idempotency_key = 1; note = none }))
    ∷ []

serve_all-IsSettled_example : IsSettled (serve_all cache codec day world).session
serve_all-IsSettled_example =
    serve_all-IsSettled cache codec day world
      (record { now = empty_db-AllPaid; saved = empty_db-AllPaid })

abbrev tasks_cache : Cache IdemKey TaskInstance
tasks_cache = memory key_discrete

abbrev tasks_world : World tasks_cache.Store
tasks_world = record { session = fresh; store = λ key. none; pushed = [] }

abbrev completing : Web tasks_cache.Store TaskInstance
completing = on_session (complete task dishes teen home none 2_000_000_000)

abbrev seen : World tasks_cache.Store
seen = (run_idempotent tasks_cache (λ i. i) (λ i. i) 2 1 completing 2_000_000_000 tasks_world).1

run_idempotent_again_example :
    run_idempotent tasks_cache (λ i. i) (λ i. i) 2 1 completing 3_000_000_000 seen
    ≡ (ok (record task { status = TaskStatus.complete; completed_at = some 2_000_000_000 }), seen)
unfolding complete award_task_completion violates_unique sum_delta
run_idempotent_again_example =
    run_idempotent_again tasks_cache (λ i. i) (λ i. i) (memory-IsCache key_discrete) (λ i. refl) 2 1
      completing completing 2_000_000_000 3_000_000_000 tasks_world (completing tasks_world).1 refl
      refl refl (omega arith)

abbrev next_door : Household
next_door = record home { id = 7 }

-- The task is there, and its definition is of household 1: a parent of household 7 cannot act on it.
task_routes-IsRefused_example :
    ((body : CompleteTaskRequest)
      → IsRefused
          (complete_task cache codec.from_task codec.to_task 5 body parent next_door 9 world)
          world)
    × ((body : ExcuseTaskRequest)
        → IsRefused
            (excuse_task cache codec.from_task codec.to_task 5 body parent next_door 9 world)
            world)
    × ((body : ReviewRequest)
        → IsRefused
            (review_task cache codec.from_task codec.to_task 5 body parent next_door 9 world)
            world)
    × ((body : CancelTaskRequest)
        → IsRefused
            (cancel_task_route cache codec.from_task codec.to_task 5 body parent next_door 9 world)
            world)
task_routes-IsRefused_example =
    task_routes-IsRefused cache codec.from_task codec.to_task 5 parent next_door 9 world
      (inl ((λ same. ((λ owner. λ household. cc), tt)), tt))

abbrev claim : Claim
claim = record {
  id = 8;
  member_id = 2;
  points = 20;
  requested_item = codes "Cinema";
  status = ClaimStatus.pending;
  parent_note = none;
  requested_at = 5;
  resolved_at = none;
  resolved_by = none;
}

abbrev claiming : Session
claiming = record fresh { current = record empty_db { claims = claim ∷ [] } }

abbrev approval : ClaimResolveRequest
approval = record { approve = true; parent_note = none }

resolve_twice_example :
    balance 2
      (resolve_claim 8 approval parent home 9 (resolve_claim 8 approval parent home 7 claiming).1).1
    ≡ (balance 2 claiming -ℤ pos 20) -ℤ pos 20
unfolding claim_in member_in
resolve_twice_example =
    resolve_twice 8 approval approval parent parent home 7 9 claiming {c = claim} {m = teen} refl
      refl refl

abbrev tap : CompleteTaskRequest
tap = record { idempotency_key = 1; note = none }

complete_task-pays_example :
    let after =
      request
        (complete_task cache codec.from_task codec.to_task 5 tap teen home 2_000_000_000)
        world in
    (after.0
      ≡ ok (
          response_of
            (record task { status = TaskStatus.complete; completed_at = some 2_000_000_000 })))
    × (after.1.session.committed ≡ after.1.session.current)
    × ((m : RowId)
        → balance m after.1.session
          ≡ (if 2 == m then balance m fresh +ℤ pos 51 else balance m fresh))
unfolding instance_in count_task
complete_task-pays_example =
    complete_task-pays cache (memory-IsCache key_discrete) codec.from_task codec.to_task 5 tap teen
      home 2_000_000_000 world task dishes
      (record {
        found = refl;
        allowed = refl;
        new_key = refl;
        todo = refl;
        automatic = refl;
        alone = refl;
        unpaid = refl;
      })

abbrev submitted : TaskInstance
submitted = record task { status = TaskStatus.review_pending; completed_at = some 2_000_000_000 }

abbrev submitted_world : World cache.Store
submitted_world = record world {
  session = record fresh {
    current = record empty_db { members = parent ∷ teen ∷ []; task_instances = submitted ∷ [] };
  };
}

review_task-pays_example :
    let after =
      request
        (review_task cache codec.from_task codec.to_task 5
          (record { idempotency_key = 1; approve = true; comment = none })
          parent
          home
          3_000_000_000)
        submitted_world in
    (after.0
      ≡ ok (
          response_of (record submitted {
            status = TaskStatus.complete;
            reviewed_by = some 4;
            reviewed_at = some 3_000_000_000;
          })))
    × (after.1.session.committed ≡ after.1.session.current)
    × ((m : RowId)
        → balance m after.1.session ≡ (
            if 2 == m
            then balance m submitted_world.session +ℤ pos 51
            else balance m submitted_world.session))
unfolding instance_in count_task
review_task-pays_example =
    review_task-pays cache (memory-IsCache key_discrete) codec.from_task codec.to_task 5 1 none
      parent home 3_000_000_000 submitted_world submitted dishes
      (record { found = refl; by_parent = refl; new_key = refl; waiting = refl; unpaid = refl })
