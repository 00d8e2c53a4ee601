-- ===== src/Routes/Auth/SignIn.antt =====
-- backend/app/routers/auth.py: who signs up can sign in.
use kids_chores_api.Routes.Auth.SignUp.{parent_of, signed_up, register_rows-free, signed_up-known}
use kids_chores_api.Schemas.{EmailLoginRequest, TokenResponse, EmailRegisterRequest}
use kids_chores_api.Session.Binds.{on_error-ok}
use kids_chores_api.Session.{commit, on_error, http, ok, Result, Session}
use kids_chores_api.Prelude.{
  sym, true, ap, ◌∙◌, is_none, not, Option, refl, false, ◌==◌, some, any, ℕ, none, ◌≡◌, Text,
}
use kids_chores_api.Routes.Auth.Rows.{in_use, register_rows}
use kids_chores_api.Models.{RowId, email, Time, Household, Member}
use kids_chores_api.Accounts.{
  create_refresh_token, AccountStore, member_by_login, RateKey, enforce, Externals, Backends,
}
use kids_chores_api.Routes.Auth.{
  password_matches, login_email_limit, login_ip_limit, login, register_email_limit, token_response,
  register_ip_limit, register, enforce_rate_limit,
}
use kids_chores_api.Web.{
  steps_keep, request, or_raise, query, raise_if, on_session, >>=-ok, ◌>>=◌, Web, World,
}

module _ (B : Backends) (ext : Externals) where
  enforce_rate_limit-session :
      (ip address : RateKey) (l k : ℕ × ℕ) (now : Time) (w : World (AccountStore B))
      → (enforce_rate_limit B ext ip address l k now w).1.session ≡ w.session
  unfolding enforce_rate_limit enforce
  enforce_rate_limit-session ip address l k now w =
      steps_keep (λ (v : World (AccountStore B)). v.session ≡ w.session) (enforce B ip l now)
        (λ _. enforce B address k now) w refl (λ _ v h. h)

  -- The limits leave the database alone.
  enforced :
      (ip address : RateKey) (l k : ℕ × ℕ) (now : Time) (w : World (AccountStore B))
      → (enforce_rate_limit B ext ip address l k now w).0 ≡ ok tt
      → enforce_rate_limit B ext ip address l k now w
        ≡ (ok tt, record (enforce_rate_limit B ext ip address l k now w).1 { session = w.session })
  enforced ip address l k now w under =
      let r = enforce_rate_limit B ext ip address l k now w in
      λ i. (under i, record r.1 { session = enforce_rate_limit-session ip address l k now w i })

  module _ (ip : Text) (body : EmailRegisterRequest) (now : Time) (w : World (AccountStore B)) where
    abbrev address : Text
    address = ext.lower body.email

    abbrev hash : Text
    hash = ext.hash_password body.password

    -- The limits on signing up.
    abbrev pub register_limits : Result (Unit {0}) × World (AccountStore B)
    register_limits =
        enforce_rate_limit B ext (RateKey.register_ip ip) (RateKey.register_email address)
          register_ip_limit register_email_limit now w

    abbrev new : Member
    new = parent_of body.display_name address hash w.session

    abbrev world_after : World (AccountStore B)
    world_after = record register_limits.1 {
      session = signed_up body.display_name address hash w.session;
    }

    abbrev signed : Household × Member → Web (AccountStore B) TokenResponse
    signed rows = token_response B ext rows.1 rows.0.id now

    abbrev making : Web (AccountStore B) TokenResponse
    making =
        on_session (on_error in_use (register_rows body.display_name email address (some hash)))
        >>= signed

    abbrev limited : World (AccountStore B)
    limited = record register_limits.1 { session = w.session }

    register-free :
        register_limits.0 ≡ ok tt
        → member_by_login email address w.session.current ≡ none
        → any
            (λ (n : Member). n.household_id == w.session.uuids w.session.drawn)
            w.session.current.members
          ≡ false
        → register B ext ip body now w ≡ token_response B ext new new.household_id now world_after
    unfolding register
    register-free under free unused =
        >>=-ok
          (enforce_rate_limit B ext (RateKey.register_ip ip) (RateKey.register_email address)
            register_ip_limit register_email_limit now)
          (λ _. query (member_by_login email address) >>= λ (existing : Option Member).
            raise_if (not (is_none existing)) (http 409) >>= λ _. making)
          w
          (enforced (RateKey.register_ip ip) (RateKey.register_email address) register_ip_limit
            register_email_limit now w under)
        ∙ rw free (
            >>=-ok
              (on_session
                (on_error in_use (register_rows body.display_name email address (some hash))))
              signed limited
              (ap
                (λ (r : Result (Household × Member) × Session).
                  (r.0, record limited { session = r.1 }))
                (on_error-ok in_use (register_rows body.display_name email address (some hash))
                  w.session
                  (register_rows-free body.display_name address hash w.session free unused))))

  request-ok :
      {S A : Type 0} (handler : Web S A) (w : World S) {a : A} {v : World S}
      → handler w ≡ (ok a, v)
      → request handler w ≡ (ok a, record v { session = commit v.session })
  unfolding request
  request-ok handler w done = rw done refl

  -- A token is always made.
  token_response-ok :
      (m : Member) (household_id : RowId) (now : Time) (w : World (AccountStore B))
      → (r : TokenResponse) × (v : World (AccountStore B)) × (token_response B ext m household_id
            now w
          ≡ (ok r, v))
        × (r.member_id ≡ m.id)
        × (r.household_id ≡ household_id)
        × (v.session.current ≡ w.session.current)
  unfolding token_response create_refresh_token
  token_response-ok m household_id now w = (_, _, refl, refl, refl, refl)

  -- A known login with the right password.
  login-known :
      (ip : Text) (body : EmailLoginRequest) (m : Member) (now : Time) (w : World (AccountStore B))
      → (enforce_rate_limit B ext
          (RateKey.login_ip ip)
          (RateKey.login_email (ext.lower body.email))
          login_ip_limit
          login_email_limit
          now
          w).0
        ≡ ok tt
      → member_by_login email (ext.lower body.email) w.session.current ≡ some m
      → password_matches B ext m.password_hash body.password ≡ true
      → (v : World (AccountStore B)) × (login B ext ip body now w
          ≡ token_response B ext m m.household_id now v)
  unfolding login
  login-known ip body m now w under known matches =
      let limited =
        enforce_rate_limit B ext (RateKey.login_ip ip) (RateKey.login_email (ext.lower body.email))
          login_ip_limit login_email_limit now in
      (
        record (limited w).1 { session = w.session },
        >>=-ok limited
              (λ _.
                query (member_by_login email (ext.lower body.email))
                >>= λ (existing : Option Member).
                    or_raise existing (http 401) >>= λ (member : Member).
                    raise_if (not (password_matches B ext member.password_hash body.password))
                      (http 401)
                    >>= λ _. token_response B ext member member.household_id now)
              w
              (enforced (RateKey.login_ip ip) (RateKey.login_email (ext.lower body.email))
                login_ip_limit login_email_limit now w under)
            ∙ rw known (rw matches refl),
      )

  module _ (ip : Text) (body : EmailRegisterRequest) (now : Time) (w : World (AccountStore B))
      (under : (register_limits ip body now w).0 ≡ ok tt)
      (free : member_by_login email (ext.lower body.email) w.session.current ≡ none)
      (unused : any
          (λ (n : Member). n.household_id == w.session.uuids w.session.drawn)
          w.session.current.members
        ≡ false) where
    abbrev address_of : Text
    address_of = ext.lower body.email

    abbrev hash_of : Text
    hash_of = ext.hash_password body.password

    -- The world after the request.
    abbrev pub joined : World (AccountStore B)
    joined = (request (register B ext ip body now) w).1

    abbrev again : Text → Text → EmailLoginRequest
    again other password = record { email = other; password = password }

    -- Who signs up with a free address is let in at once, and can sign in afterwards with the password
    -- and any spelling of the address that is the same in lower case, and is then the same member of
    -- the same household; the limits of both requests are not used up, the password's hash passes the
    -- check, and the id of the new household is new.
    pub register-login :
        (checks : ext.check_password body.password (ext.hash_password body.password) ≡ true)
        (other_ip other : Text) (later : Time)
        → ext.lower other ≡ ext.lower body.email
        → (enforce_rate_limit B ext
            (RateKey.login_ip other_ip)
            (RateKey.login_email (ext.lower other))
            login_ip_limit
            login_email_limit
            later
            joined).0
          ≡ ok tt
        → (r : TokenResponse) × (r' : TokenResponse) × ((request (register B ext ip body now) w).0
            ≡ ok r)
          × ((login B ext other_ip (again other body.password) later joined).0 ≡ ok r')
          × (r'.member_id ≡ r.member_id)
          × (r'.household_id ≡ r.household_id)
    unfolding password_matches
    register-login checks other_ip other later same_address under_again =
        let me : Member = parent_of body.display_name address_of hash_of w.session in
        let (r, v, made, id, home, kept) =
          token_response-ok me me.household_id now (world_after ip body now w) in
        let requested =
          request-ok (register B ext ip body now) w
            (register-free ip body now w under free unused ∙ made) in
        let current : joined.session.current
            ≡ (signed_up body.display_name address_of hash_of w.session).current =
          ap (λ (x : Result TokenResponse × World (AccountStore B)). x.1.session.current) requested
          ∙ kept in
        let (v', back) =
          login-known other_ip (again other body.password) me later joined under_again
            (rw (same_address, current)
              (signed_up-known body.display_name address_of hash_of w.session))
            checks in
        let (r', u, made', id', home', kept') = token_response-ok me me.household_id later v' in
        (
          r,
          r',
          ap (λ (x : Result TokenResponse × World (AccountStore B)). x.0) requested,
          ap (λ (x : Result TokenResponse × World (AccountStore B)). x.0) (back ∙ made'),
          id' ∙ sym id,
          home' ∙ sym home,
        )
