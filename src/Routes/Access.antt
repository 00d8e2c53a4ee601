-- ===== src/Routes/Access.antt =====
-- backend/app/routers/household.py: the link codes and the PIN check, which Redis limits.
use kids_chores_api.Web.{Web, pure, raise_if, or_raise, query, on_store, ◌>>=◌, ◌>>◌}
use kids_chores_api.Redis.Linking.{create_link_code}
use kids_chores_api.Accounts.{
  Externals, RateKey, Backends, AccountStore, enforce, verify_pin as pin_matches,
}
use kids_chores_api.Routes.Household.{placeholder}
use kids_chores_api.Session.{http, member_in}
use kids_chores_api.Schemas.{VerifyPinRequest, VerifyPinResponse, LinkCodeResponse}
use kids_chores_api.Models.{RowId, Time, Household, Member, is_teen}
use kids_chores_api.Prelude.{
  if◌then◌else◌, ℕ, ◌*◌, true, false, not, Option, none, some, Text, starts_with, is_none,
}

-- `_VERIFY_PIN_LIMIT`
abbrev pub verify_pin_limit : ℕ × ℕ
verify_pin_limit = (5, 5 * 60)

module _ (B : Backends) (ext : Externals) where
  abbrev pub Account : Type 0 → Type 0
  Account A = Web (AccountStore B) A

  new_code : RowId → ℕ → Time → AccountStore B → LinkCodeResponse × AccountStore B
  new_code member_id code now s =
      let (drawn, t) =
        create_link_code B.code_keys B.member_keys member_id code now (s.coded, s.linked) in
      (record { code = drawn.0; expires_at = drawn.1 }, record s { coded = t.0; linked = t.1 })

  -- The target's archive mark is part of the query.
  active_member : Option Member → Option Member
  active_member none = none
  active_member (some m) = if is_none m.archived_at then some m else none

  -- The caller is a parent; `code` is what is drawn for the call.
  unfoldable pub generate_link_code : RowId → ℕ → Household → Time → Account LinkCodeResponse
  unfolding new_code active_member
  generate_link_code member_id code household now = do
    found ← query (member_in member_id household.id)
    target ← or_raise (active_member found) (http 404)
    raise_if (not (is_teen target.role)) (http 422)
    raise_if (not (starts_with (placeholder ext household.id) target.auth_subject)) (http 409)
    on_store (new_code target.id code now)

  pin_check : Option Text → Text → VerifyPinResponse
  pin_check none pin = record { valid = false; pin_set = false }
  pin_check (some pin_hash) pin = record { valid = pin_matches ext pin pin_hash; pin_set = true }

  unfoldable pub verify_member_pin :
      RowId → VerifyPinRequest → Household → Time → Account VerifyPinResponse
  unfolding pin_check
  verify_member_pin member_id body household now = do
    enforce B (RateKey.checking_pin member_id) verify_pin_limit now
    found ← query (member_in member_id household.id)
    target ← or_raise found (http 404)
    pure (pin_check target.pin_hash body.pin)
