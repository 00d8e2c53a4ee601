-- ===== src/Routes/Auth.antt =====
-- backend/app/routers/auth.py: how accounts are made, linked and signed in to.
pub mod Rows
pub mod Orderly
pub mod Logins
pub mod SignUp
pub mod SignIn
pub mod Refresh
use kids_chores_api.Accounts.Apple.{Payload}
use kids_chores_api.Web.{Web, pure, raise_if, or_raise, query, on_session, on_store, ◌>>=◌, ◌>>◌}
use kids_chores_api.Redis.Linking.{redeem_link_code}
use kids_chores_api.Redis.RefreshTokens.{redeem_refresh_token}
use kids_chores_api.Accounts.{
  Externals, RateKey, Backends, AccountStore, enforce, create_access_token, create_refresh_token,
  decode_refresh_token, member_by_login, same_provider, put_member,
}
use kids_chores_api.Routes.Household.{placeholder}
use kids_chores_api.Routes.Auth.Rows.{register_rows, link_rows, in_use}
use kids_chores_api.Session.{key_error, on_error, http, find_row, modify}
use kids_chores_api.Schemas.{
  TokenResponse, EmailRegisterRequest, EmailLoginRequest, RefreshTokenRequest,
  ChangePasswordRequest, LinkAccountRequest,
}
use kids_chores_api.Models.{RowId, Time, Member, is_teen, email, apple}
use kids_chores_api.Prelude.{
  ℕ, ◌*◌, Bool, false, not, ◌||◌, Option, none, some, Text, starts_with, is_none,
}

abbrev pub login_ip_limit : ℕ × ℕ
login_ip_limit = (10, 15 * 60)

abbrev pub login_email_limit : ℕ × ℕ
login_email_limit = (5, 15 * 60)

abbrev pub register_ip_limit : ℕ × ℕ
register_ip_limit = (5, 60 * 60)

abbrev pub register_email_limit : ℕ × ℕ
register_email_limit = (3, 60 * 60)

abbrev pub change_password_limit : ℕ × ℕ
change_password_limit = (5, 15 * 60)

abbrev pub link_ip_limit : ℕ × ℕ
link_ip_limit = (10, 15 * 60)

abbrev pub link_code_limit : ℕ × ℕ
link_code_limit = (5, 15 * 60)

module _ (B : Backends) (ext : Externals) where
  abbrev pub Account : Type 0 → Type 0
  Account A = Web (AccountStore B) A

  unfoldable pub token_response : Member → RowId → Time → Account TokenResponse
  token_response member household_id now = do
    refresh_token ← on_session (create_refresh_token ext member.id now)
    pure (record {
      access_token = create_access_token ext member.id household_id now;
      refresh_token = refresh_token;
      member_id = member.id;
      household_id = household_id;
      role = member.role;
    })

  unfoldable pub enforce_rate_limit : RateKey → RateKey → ℕ × ℕ → ℕ × ℕ → Time → Account (Unit {0})
  enforce_rate_limit ip address ip_limit email_limit now = do
    enforce B ip ip_limit now
    enforce B address email_limit now

  unfoldable pub register : Text → EmailRegisterRequest → Time → Account TokenResponse
  unfolding token_response
  register ip body now = do
    let address = ext.lower body.email
    enforce_rate_limit (RateKey.register_ip ip) (RateKey.register_email address) register_ip_limit
        register_email_limit now
    existing ← query (member_by_login email address)
    raise_if (not (is_none existing)) (http 409)
    rows ← on_session (
        on_error in_use
          (register_rows body.display_name email address (some (ext.hash_password body.password))))
    token_response rows.1 rows.0.id now

  -- The first sign-in makes a household; a later one finds the member and its household.
  apple_rows : Option Member → Text → Text → Account (RowId × Member)
  apple_rows (some member) display_name apple_sub = pure (member.household_id, member)
  apple_rows none display_name apple_sub = do
    rows ← on_session (register_rows display_name apple apple_sub none)
    pure (rows.0.id, rows.1)

  -- The payload that `validate_apple_identity_token` returns, if it has not raised.
  unfoldable pub sign_in_with_apple : Option Payload → Text → Time → Account TokenResponse
  unfolding token_response apple_rows
  sign_in_with_apple validated display_name now = do
    payload ← or_raise validated (http 401)
    apple_sub ← or_raise payload.sub key_error
    existing ← query (member_by_login apple apple_sub)
    rows ← apple_rows existing display_name apple_sub
    token_response rows.1 rows.0 now

  redeem : ℕ → Time → AccountStore B → Option RowId × AccountStore B
  redeem code now s =
      let (found, t) = redeem_link_code B.code_keys B.member_keys code now (s.coded, s.linked) in
      (found, record s { coded = t.0; linked = t.1 })

  unfoldable pub link_account : Text → LinkAccountRequest → Time → Account TokenResponse
  unfolding token_response redeem
  link_account ip body now = do
    enforce B (RateKey.link_ip ip) link_ip_limit now
    enforce B (RateKey.link_code body.code) link_code_limit now
    redeemed ← on_store (redeem body.code now)
    member_id ← or_raise redeemed (http 404)
    found ← query (λ db. find_row (λ (m : Member). m.id) member_id db.members)
    member ← or_raise found (http 404)
    raise_if (not (is_teen member.role)) (http 404)
    raise_if (not (starts_with (placeholder ext member.household_id) member.auth_subject))
        (http 409)
    let address = ext.lower body.email
    existing ← query (member_by_login email address)
    raise_if (not (is_none existing)) (http 409)
    linked ← on_session (link_rows member address (ext.hash_password body.password))
    token_response linked linked.household_id now

  unfoldable pub password_matches : Option Text → Text → Bool
  password_matches none password = false
  password_matches (some password_hash) password = ext.check_password password password_hash

  -- `member.household_id` names a row, so `scalar_one` finds it.
  unfoldable pub login : Text → EmailLoginRequest → Time → Account TokenResponse
  unfolding token_response password_matches
  login ip body now = do
    let address = ext.lower body.email
    enforce_rate_limit (RateKey.login_ip ip) (RateKey.login_email address) login_ip_limit
        login_email_limit now
    existing ← query (member_by_login email address)
    member ← or_raise existing (http 401)
    raise_if (not (password_matches member.password_hash body.password)) (http 401)
    token_response member member.household_id now

  redeem_claims : Option RowId → Option ℕ → Time → AccountStore B → Bool × AccountStore B
  redeem_claims none exp now s = (false, s)
  redeem_claims (some jti) none now s = (false, s)
  redeem_claims (some jti) (some exp) now s =
      let (first, t) = redeem_refresh_token B.tokens jti exp now s.redeemed in
      (first, record s { redeemed = t })

  unfoldable pub refresh : RefreshTokenRequest → Time → Account TokenResponse
  unfolding token_response redeem_claims
  refresh body now = do
    payload ← or_raise (decode_refresh_token ext body.refresh_token now) (http 401)
    first ← on_store (redeem_claims payload.jti payload.exp now)
    raise_if (not first) (http 401)
    member_id ← or_raise payload.sub key_error
    found ← query (λ db. find_row (λ (m : Member). m.id) member_id db.members)
    member ← or_raise found (http 401)
    token_response member member.household_id now

  unfoldable pub change_password : ChangePasswordRequest → Member → Time → Account (Unit {0})
  unfolding password_matches
  change_password body member now = do
    raise_if (not (same_provider member.auth_provider email) || is_none member.password_hash)
        (http 422)
    enforce B (RateKey.changing_password member.id) change_password_limit now
    raise_if (not (password_matches member.password_hash body.current_password)) (http 401)
    on_session (
        modify (
          put_member
            (record member { password_hash = some (ext.hash_password body.new_password) })))
