-- ===== src/Routes/Wallet.antt =====
-- backend/app/routers/wallet.py: balances, claims, savings goals and manual adjustments.
pub mod Debits
pub mod Scope
use kids_chores_api.Ledger.{current_balance, fulfil_claim, manual_adjustment}
use kids_chores_api.Session.{
  Db, Action, http, pure, raise_if, query, or_raise, uuid, db_now, ◌>>=◌, ◌>>◌, member_in,
  insert_claim, insert_goal, add_claim, when,
}
use kids_chores_api.Schemas.{
  ClaimCreate, ClaimResponse, ClaimResolveRequest, ManualAdjustRequest, SavingsGoalCreate,
  SavingsGoalResponse, WalletResponse,
}
use kids_chores_api.Models.{
  RowId, Time, Household, Member, is_teen, Claim, ClaimStatus, LedgerEntry, SavingsGoal,
}
use kids_chores_api.Prelude.{
  ℕ, Bool, true, false, not, ◌&&◌, Option, none, some, List, [], ◌∷◌, ◌==◌, leb, is_none, filter,
  find?, Text, if◌then◌else◌,
}
use kids_chores_api.Prelude.Order.{order_by, take, drop}

unfoldable pub assert_same_household : RowId → Household → Action Unit
assert_same_household member_id household = do
  found ← query (member_in member_id household.id)
  raise_if (is_none found) (http 404)

unfoldable pub assert_wallet_access : Member → RowId → Household → Action Unit
assert_wallet_access member target_member_id household = do
  raise_if (is_teen member.role && not (member.id == target_member_id)) (http 403)
  assert_same_household target_member_id household

abbrev pub to_claim_response : Claim → Text → ClaimResponse
to_claim_response claim member_name = record {
  id = claim.id;
  member_id = claim.member_id;
  member_name = member_name;
  points = claim.points;
  requested_item = claim.requested_item;
  status = claim.status;
  parent_note = claim.parent_note;
  requested_at = claim.requested_at;
  resolved_at = claim.resolved_at;
}

abbrev is_claim_status : ClaimStatus → ClaimStatus → Bool
is_claim_status ClaimStatus.pending ClaimStatus.pending = true
is_claim_status ClaimStatus.fulfilled ClaimStatus.fulfilled = true
is_claim_status ClaimStatus.declined ClaimStatus.declined = true
is_claim_status s t = false

-- A filter that was not given lets everything through.
by_status : Option ClaimStatus → Claim → Bool
by_status none c = true
by_status (some status) c = is_claim_status c.status status

by_member : Option RowId → Claim → Bool
by_member none c = true
by_member (some id) c = c.member_id == id

-- Joined with the member, whose name the response has.
claim_responses : RowId → Db → List Claim → List ClaimResponse
claim_responses household_id db [] = []
claim_responses household_id db (c ∷ cs) =
    let rest = claim_responses household_id db cs in
    elim (member_in c.member_id household_id db) [
      | none ↦ rest
      | some m ↦ to_claim_response c m.display_name ∷ rest
    ]

is_other : Option RowId → Member → Bool
is_other none member = false
is_other (some id) member = not (id == member.id)

unfoldable pub list_claims :
    Option ClaimStatus → Option RowId → Member → Household → Action (List ClaimResponse)
unfolding is_other by_status by_member claim_responses
list_claims status member_id member household = do
  raise_if (is_teen member.role && is_other member_id member) (http 403)
  let target_id = if is_teen member.role then some member.id else member_id
  query λ db. claim_responses household.id db (
      order_by (λ (c : Claim) (d : Claim). leb c.requested_at d.requested_at)
        (filter (λ (c : Claim). by_member target_id c && by_status status c) db.claims))

goal_response : Option SavingsGoal → Option SavingsGoalResponse
goal_response none = none
goal_response (some g) = some (record {
  id = g.id;
  member_id = g.member_id;
  title = g.title;
  target_points = g.target_points;
  created_at = g.created_at;
  achieved_at = g.achieved_at;
})

-- `.order_by(created_at.desc()).limit(1)`
active_goal : RowId → Db → Option SavingsGoal
active_goal member_id db =
    find? (λ (g : SavingsGoal). true)
      (order_by (λ (g : SavingsGoal) (h : SavingsGoal). leb h.created_at g.created_at)
        (filter (λ (g : SavingsGoal). g.member_id == member_id && is_none g.achieved_at)
          db.savings_goals))

unfoldable pub get_wallet : RowId → Member → Household → Action WalletResponse
unfolding goal_response active_goal
get_wallet member_id member household = do
  assert_wallet_access member member_id household
  balance ← current_balance member_id
  goal ← query (active_goal member_id)
  pure (record {
    member_id = member_id;
    balance = balance;
    points_label = household.points_label;
    active_savings_goal = goal_response goal;
  })

-- `LedgerService.get_ledger`: a page of a member's entries, the latest first.
unfoldable pub get_ledger : RowId → ℕ → ℕ → Action (List LedgerEntry)
get_ledger member_id limit offset = query λ db. take limit (
    drop offset (
      order_by (λ (e : LedgerEntry) (f : LedgerEntry). leb f.created_at e.created_at)
        (filter (λ (e : LedgerEntry). e.member_id == member_id) db.ledger_entries)))

unfoldable pub get_ledger_page : RowId → ℕ → ℕ → Member → Household → Action (List LedgerEntry)
get_ledger_page member_id limit offset member household = do
  assert_wallet_access member member_id household
  get_ledger member_id limit offset

-- The caller is a parent.
unfoldable pub manual_adjust : RowId → ManualAdjustRequest → Member → Household → Action LedgerEntry
manual_adjust member_id body parent household = do
  assert_same_household member_id household
  manual_adjustment member_id body.delta body.reason parent

unfoldable pub submit_claim : ClaimCreate → Member → Action ClaimResponse
submit_claim body member = do
  id ← uuid
  requested_at ← db_now
  let claim : Claim = record {
    id = id;
    member_id = member.id;
    points = body.points;
    requested_item = body.requested_item;
    status = ClaimStatus.pending;
    parent_note = none;
    requested_at = requested_at;
    resolved_at = none;
    resolved_by = none;
  }
  insert_claim claim
  pure (to_claim_response claim member.display_name)

unfoldable with_member : RowId → Db → Claim → Option (Claim × Member)
with_member household_id db claim = elim (member_in claim.member_id household_id db) [
  | none ↦ none
  | some m ↦ some (claim, m)
]

unfoldable pub claim_in : RowId → RowId → Db → Option (Claim × Member)
unfolding with_member
claim_in claim_id household_id db = elim (find? (λ (c : Claim). c.id == claim_id) db.claims) [
  | none ↦ none
  | some claim ↦ with_member household_id db claim
]

abbrev pub resolved : Claim → ClaimStatus → Option Text → Member → Time → Claim
resolved claim status parent_note parent now = record claim {
  status = status;
  parent_note = parent_note;
  resolved_at = some now;
  resolved_by = some parent.id;
}

-- The claim is closed once the points have been debited, or at once if it is declined.
unfoldable pub close_claim :
    Bool → ClaimResolveRequest → Member → Time → Claim × Member → Action Unit → Action ClaimResponse
close_claim approve body parent now (claim, member) debit = do
  debit
  let status = if approve then ClaimStatus.fulfilled else ClaimStatus.declined
  let closed = resolved claim status body.parent_note parent now
  add_claim closed
  pure (to_claim_response closed member.display_name)

unfoldable pub resolve_loaded :
    Bool → ClaimResolveRequest → Member → Time → Claim × Member → Action ClaimResponse
unfolding close_claim
resolve_loaded approve body parent now loaded =
    close_claim approve body parent now loaded (when approve (fulfil_claim loaded.0 parent))

-- The caller is a parent.
unfoldable pub resolve_claim :
    RowId → ClaimResolveRequest → Member → Household → Time → Action ClaimResponse
unfolding resolve_loaded
resolve_claim claim_id body parent household now = do
  found ← query (claim_in claim_id household.id)
  loaded ← or_raise found (http 404)
  resolve_loaded body.approve body parent now loaded

unfoldable pub create_savings_goal :
    RowId → SavingsGoalCreate → Member → Household → Action SavingsGoal
create_savings_goal member_id body member household = do
  assert_wallet_access member member_id household
  id ← uuid
  created_at ← db_now
  let goal : SavingsGoal = record {
    id = id;
    member_id = member_id;
    title = body.title;
    target_points = body.target_points;
    created_at = created_at;
    achieved_at = none;
  }
  insert_goal goal
  pure goal
