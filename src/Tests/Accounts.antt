-- ===== src/Tests/Accounts.antt =====
-- The theorems on tokens at concrete inputs: a token that is its claims, number by number.
use kids_chores_api.Routes.Household.Isolation.{
  household_step-Spares, HouseholdStep, household_step, Spares,
}
use kids_chores_api.Routes.Auth.Orderly.{IsOrderly, IsTidy}
use kids_chores_api.Routes.Auth.Refresh.{refresh_twice}
use kids_chores_api.Routes.Auth.SignIn.{register-login}
use kids_chores_api.Routes.Auth.Rows.{new_parent, new_household, register_rows}
use kids_chores_api.Redis.RateLimit.{check_rate_limit}
use kids_chores_api.Redis.CountersMemory.{counters}
use kids_chores_api.Redis.Memory.{memory-IsCache, memory}
use kids_chores_api.Routes.Auth.{refresh, login, token_response, register, enforce_rate_limit}
use kids_chores_api.Routes.Auth.Logins.{accounts, accounts-IsOrderly, AccountStep}
use kids_chores_api.Redis.{Counters}
use kids_chores_api.Schemas.{RefreshTokenRequest, TokenResponse, EmailRegisterRequest}
use kids_chores_api.Grace.{second}
use kids_chores_api.Redis.RefreshTokens.{redeem_refresh_token, of_unix, unix_epoch}
use kids_chores_api.Session.{http, err, Session, ok, find_row}
use kids_chores_api.Accounts.{
  decode_refresh_token, flush_new, enforce, RateKey, member_by_login, AccountStore, Backends,
  unix_of, access_claims, create_refresh_token, Externals,
}
use kids_chores_api.Web.{request, get_current_member, World, Claims}
use kids_chores_api.Accounts.Tokens.{refresh_token_member, Signs}
use kids_chores_api.Models.{AuthProvider, MemberRole, Member, Time}
use kids_chores_api.Prelude.{
  List, ◌*◌, zero, false, if◌then◌else◌, ltb, refl, ◌+◌, suc, ◌==◌, none, some, arith, ◌∷◌, true,
  [], text_eq, ◌≡◌, Text, Bool, Option, ℕ,
}
use native.Mathlib.Decide.{ℕ_discrete}
use kids_chores_api.Tests.{home, teen, fresh}

abbrev number : Option ℕ → ℕ
number none = 0
number (some n) = suc n

abbrev option : ℕ → Option ℕ
option zero = none
option (suc n) = some n

abbrev flag : Bool → ℕ
flag true = 1
flag false = 0

abbrev encoded : Claims → Text
encoded c = number c.sub ∷ number c.hid ∷ flag c.is_refresh ∷ number c.jti ∷ number c.exp ∷ []

-- A token without an expiry is good for ever.
abbrev unexpired : Option ℕ → Time → Bool
unexpired none t = true
unexpired (some e) t = ltb t (of_unix e)

abbrev decoded : Text → Time → Option Claims
decoded (a ∷ b ∷ c ∷ d ∷ e ∷ []) t =
    if unexpired (option e) t
    then some (record {
      sub = option a;
      hid = option b;
      is_refresh = c == 1;
      jti = option d;
      exp = option e;
    })
    else none
decoded u t = none

abbrev libraries : Externals
libraries = record {
  hash_password = λ p. p;
  check_password = λ p h. text_eq p h;
  sha256 = λ p. p;
  lower = λ p. p;
  id_text = λ i. i ∷ [];
  encode = encoded;
  decode = decoded;
}

option-number : (o : Option ℕ) → option (number o) ≡ o
option-number none = refl
option-number (some n) = refl

flag_lem : (b : Bool) → (flag b == 1) ≡ b
flag_lem true = refl
flag_lem false = refl

libraries-Signs : Signs libraries
libraries-Signs c e t h soon =
    rw (h, option-number c.sub, option-number c.hid, flag_lem c.is_refresh, option-number c.jti)
      (ground (arith, h, soon))

abbrev world : World (Unit {0})
world = record { session = fresh; store = tt; pushed = [] }

abbrev start : Time
start = unix_epoch + 500_000

abbrev token : Text
token = encoded (access_claims 2 1 start)

refresh_token_member_example :
    get_current_member
      (λ t. decoded t (start + second))
      (encoded (record {
        sub = some 2;
        hid = none;
        is_refresh = true;
        jti = some 100;
        exp = some (unix_of (start + 30 * 24 * 60 * 60 * second));
      }))
      world
    ≡ (ok teen, world)
unfolding find_row create_refresh_token
refresh_token_member_example =
    refresh_token_member libraries libraries-Signs teen start (start + second) (omega arith) world
      refl fresh (omega arith) refl

-- What is counted, told apart by its kind alone.
abbrev kind : RateKey → ℕ
kind (RateKey.login_ip t) = 0
kind (RateKey.login_email t) = 1
kind (RateKey.register_ip t) = 2
kind (RateKey.register_email t) = 3
kind (RateKey.link_ip t) = 4
kind (RateKey.link_code n) = 5
kind (RateKey.changing_password m) = 6
kind (RateKey.checking_pin m) = 7

abbrev kinds : Counters ℕ
kinds = counters ℕ_discrete

abbrev backends : Backends
backends = record {
  limits = record {
    Store = kinds.Store;
    incr = λ now k s. kinds.incr now (kind k) s;
    expire = λ now k ex s. kinds.expire now (kind k) ex s;
    count = λ now k s. kinds.count now (kind k) s;
    deadline = λ k s. kinds.deadline (kind k) s;
  };
  tokens = memory ℕ_discrete;
  code_keys = memory ℕ_discrete;
  member_keys = memory ℕ_discrete;
}

abbrev nobody_yet : World (AccountStore backends)
nobody_yet = record {
  session = fresh;
  store = record {
    limited = λ k. (0, none);
    redeemed = λ k. none;
    coded = λ k. none;
    linked = λ k. none;
  };
  pushed = [];
}

abbrev sign_up : EmailRegisterRequest
sign_up = record { email = 1 ∷ []; password = 2 ∷ []; display_name = 3 ∷ [] }

register-login_example :
    (r : TokenResponse) × (r' : TokenResponse) × ((request
        (register backends libraries [] sign_up start)
        nobody_yet).0
      ≡ ok r)
    × ((login backends libraries []
          (record { email = 1 ∷ []; password = 2 ∷ [] })
          (start + second)
          (request (register backends libraries [] sign_up start) nobody_yet).1).0
        ≡ ok r')
    × (r'.member_id ≡ r.member_id)
    × (r'.household_id ≡ r.household_id)
unfolding member_by_login enforce_rate_limit enforce check_rate_limit register register_rows
    new_household new_parent flush_new token_response create_refresh_token request ℕ_discrete
register-login_example =
    register-login backends libraries [] sign_up start nobody_yet refl refl refl refl [] (1 ∷ [])
      (start + second) refl refl

abbrev parent : Member
parent = record teen { id = 4; role = MemberRole.parent; auth_subject = 9 ∷ [] }

abbrev family : Session
family = record fresh {
  current = record fresh.current { members = parent ∷ teen ∷ [] };
  committed = record fresh.current { members = parent ∷ teen ∷ [] };
}

-- The ids that are drawn are from 100 on.
family-IsTidy : IsTidy fresh.uuids 0 (parent ∷ teen ∷ [])
family-IsTidy = record { unique = (refl, (refl, tt)); ahead = λ k from. ground arith }

-- A household signs up, the teen's profile is removed, and the parent sets a push token.
abbrev steps : List AccountStep
steps =
    AccountStep.registering (3 ∷ []) AuthProvider.email (1 ∷ []) none
    ∷ AccountStep.removing 2 parent home start
    ∷ AccountStep.telling none 4
    ∷ []

accounts-IsOrderly_example : IsOrderly (accounts libraries (λ t. none) steps family)
accounts-IsOrderly_example =
    accounts-IsOrderly libraries (λ t. none) steps family
      (record {
        distinct = λ j k same. omega (arith, same);
        now = family-IsTidy;
        saved = family-IsTidy;
      })

abbrev refresh_claims : Claims
refresh_claims = record {
  sub = some 2;
  hid = none;
  is_refresh = true;
  jti = some 50;
  exp = some (unix_of (start + 30 * 24 * 60 * 60 * second));
}

abbrev rotating : RefreshTokenRequest
rotating = record { refresh_token = encoded refresh_claims }

refresh_twice_example :
    let after = (request (refresh backends libraries rotating start) nobody_yet).1 in
    refresh backends libraries rotating (start + second) after ≡ (err (http 401), after)
unfolding refresh decode_refresh_token redeem_refresh_token find_row token_response
    create_refresh_token request ℕ_discrete
refresh_twice_example =
    refresh_twice backends libraries libraries-Signs (memory-IsCache ℕ_discrete) refresh_claims 50
      (unix_of (start + 30 * 24 * 60 * 60 * second)) refl refl refl start (start + second)
      nobody_yet (omega arith) refl (omega arith) (omega arith)

abbrev neighbour : Member
neighbour = record teen { id = 6; household_id = 7; auth_subject = 8 ∷ [] }

abbrev two_families : Session
two_families = record fresh {
  current = record fresh.current { members = neighbour ∷ parent ∷ teen ∷ [] };
  committed = record fresh.current { members = neighbour ∷ parent ∷ teen ∷ [] };
}

household_step-Spares_example :
    Spares 1 two_families.current
      (household_step libraries
        (λ t. none)
        home
        (HouseholdStep.dismissing 2 parent start)
        two_families).current
household_step-Spares_example =
    household_step-Spares libraries (λ t. none) home two_families refl
      (HouseholdStep.dismissing 2 parent start) (refl, (refl, (refl, tt)))
