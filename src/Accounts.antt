-- ===== src/Accounts.antt =====
-- What signing in rests on: the tokens of backend/app/auth/jwt.py, the hashes of passwords.py and
-- pins.py beside it, the rate limits, and the insertion of a member under its unique constraints.
pub mod Tokens
pub mod Logins
pub mod Apple
use kids_chores_api.Redis.{Cache, Counters}
use kids_chores_api.Redis.RateLimit.{check_rate_limit}
use kids_chores_api.Redis.RefreshTokens.{unix_epoch}
use kids_chores_api.Web.{Web, Claims}
use kids_chores_api.Session.{
  Db, Result, ok, err, http, integrity_error, Action, uuid, rollback, insert_member, update_row,
}
use kids_chores_api.Models.{RowId, Time, Member, AuthProvider, apple, email}
use kids_chores_api.Prelude.{
  find?, ℕ, ◌+◌, ◌-◌, ◌*◌, ◌/◌, Bool, true, false, not, ◌&&◌, ◌||◌, Option, none, some, any, ◌==◌,
  Text, text_eq, if◌then◌else◌,
}
use kids_chores_api.Grace.{second}

-- The libraries behind them: argon2 and SHA-256, `str.lower`, a row's id as text, and the signing and
-- checking of tokens with the secret. A token that has expired does not decode.
pub record Externals : Type 0 where
  pub hash_password : Text → Text
  pub check_password : Text → Text → Bool
  pub sha256 : Text → Text
  pub lower : Text → Text
  pub id_text : RowId → Text
  pub encode : Claims → Text
  pub decode : Text → Time → Option Claims

-- What is counted against a limit.
pub data RateKey : Type 0 where
  login_ip login_email register_ip register_email link_ip : Text → RateKey
  link_code : ℕ → RateKey
  changing_password checking_pin : RowId → RateKey

pub record Backends : Type 1 where
  pub limits : Counters RateKey
  pub tokens : Cache RowId (Unit {0})
  pub code_keys : Cache ℕ RowId
  pub member_keys : Cache RowId ℕ

pub record AccountStore (B : Backends) : Type 0 where
  pub limited : B.limits.Store
  pub redeemed : B.tokens.Store
  pub coded : B.code_keys.Store
  pub linked : B.member_keys.Store

-- `except RateLimitExceededError`
too_many : Result Unit → Result Unit
too_many (ok u) = ok u
too_many (err e) = err (http 429)

module _ (B : Backends) where
  -- A limit is a number of attempts and the seconds of its window.
  unfoldable pub enforce : RateKey → ℕ × ℕ → Time → Web (AccountStore B) (Unit {0})
  unfolding too_many
  enforce key (attempts, seconds) now w =
      let (r, t) = check_rate_limit B.limits key attempts seconds now w.store.limited in
      (too_many r, record w { store = record w.store { limited = t } })

-- `datetime.now(UTC) + timedelta(...)` as the seconds that `exp` holds.
abbrev pub unix_of : Time → ℕ
unix_of t = (t - unix_epoch) / second

abbrev pub access_claims : RowId → RowId → Time → Claims
access_claims member_id household_id now = record {
  sub = some member_id;
  hid = some household_id;
  is_refresh = false;
  jti = none;
  exp = some (unix_of (now + 60 * 60 * second));
}

module _ (ext : Externals) where
  unfoldable pub create_access_token : RowId → RowId → Time → Text
  create_access_token member_id household_id now =
      ext.encode (access_claims member_id household_id now)

  -- The caller leaves `jti` out, so a fresh one is drawn.
  unfoldable pub create_refresh_token : RowId → Time → Action Text
  create_refresh_token member_id now s =
      let (r, s') = uuid s in
      elim r [
        | err e ↦ (err e, s')
        | ok jti ↦ (
          ok (
              ext.encode (record {
                sub = some member_id;
                hid = none;
                is_refresh = true;
                jti = some jti;
                exp = some (unix_of (now + 30 * 24 * 60 * 60 * second));
              })),
          s',
        )
      ]

  refresh_only : Option Claims → Option Claims
  refresh_only none = none
  refresh_only (some claims) = if claims.is_refresh then some claims else none

  unfoldable pub decode_refresh_token : Text → Time → Option Claims
  unfolding refresh_only
  decode_refresh_token token now = refresh_only (ext.decode token now)

  unfoldable pub hash_pin : Text → Text
  hash_pin pin = ext.sha256 pin

  unfoldable pub verify_pin : Text → Text → Bool
  unfolding hash_pin
  verify_pin pin pin_hash = text_eq (hash_pin pin) pin_hash

abbrev pub same_provider : AuthProvider → AuthProvider → Bool
same_provider apple apple = true
same_provider email email = true
same_provider p q = false

-- `uq_member_auth` and `uq_member_auth_provider_subject_global`
abbrev pub same_login : Member → Member → Bool
same_login m n =
    text_eq m.auth_subject n.auth_subject
    && (m.household_id == n.household_id || same_provider m.auth_provider n.auth_provider)

-- A flush of a new or a changed row: an `IntegrityError` ends the transaction.
unfoldable pub flush_new : Member → Action Unit
flush_new m s =
    if any (same_login m) s.current.members
    then (err integrity_error, rollback s)
    else insert_member m s

abbrev pub put_member : Member → Db → Db
put_member m db = record db { members = update_row (λ (r : Member). r.id) m db.members }

unfoldable pub flush_changed : Member → Action Unit
flush_changed m s =
    if any (λ (n : Member). not (n.id == m.id) && same_login m n) s.current.members
    then (err integrity_error, rollback s)
    else (ok tt, record s { current = put_member m s.current })

-- The row that a login finds.
unfoldable pub member_by_login : AuthProvider → Text → Db → Option Member
member_by_login provider subject db =
    find? (λ (m : Member). same_provider m.auth_provider provider && text_eq m.auth_subject subject)
      db.members
