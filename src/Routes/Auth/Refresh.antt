-- ===== src/Routes/Auth/Refresh.antt =====
-- backend/app/routers/auth.py: a refresh token lets its bearer in once.
use kids_chores_api.Grace.{second}
use kids_chores_api.Session.{err, Result, ok, find_row, http, key_error}
use kids_chores_api.Redis.RefreshTokens.{redeem_twice, ttl_of, redeem_refresh_token, of_unix}
use kids_chores_api.Routes.Auth.{token_response, refresh}
use kids_chores_api.Schemas.{TokenResponse, RefreshTokenRequest}
use kids_chores_api.Prelude.{
  false, ap, inr, ◌*◌, inl, Bool-cases, ◌+◌, Option-cases, ◌∙◌, not, refl, Bool, ◌<◌, some, true,
  ◌≡◌, ℕ,
}
use kids_chores_api.Models.{Member, Time, RowId}
use kids_chores_api.Redis.{IsCache}
use kids_chores_api.Accounts.{
  create_refresh_token, AccountStore, decode_refresh_token, Externals, Backends,
}
use kids_chores_api.Accounts.Tokens.{Signs}
use kids_chores_api.Web.{request, steps_keep, World, Web, Claims, ◌>>=◌, or_raise, raise_if, query}

module _ (B : Backends) (ext : Externals) (signs : Signs ext) (lawful : IsCache B.tokens)
    (claims : Claims) (jti : RowId) (exp : ℕ) (is_refresh : claims.is_refresh ≡ true)
    (has_jti : claims.jti ≡ some jti) (has_exp : claims.exp ≡ some exp) where
  abbrev body : RefreshTokenRequest
  body = record { refresh_token = ext.encode claims }

  decoded :
      (now : Time)
      → now < of_unix exp
      → decode_refresh_token ext body.refresh_token now ≡ some claims
  unfolding decode_refresh_token
  decoded now valid = rw (signs claims exp now has_exp valid) (rw is_refresh refl)

  -- What is done once the token has been redeemed.
  abbrev issue : Time → Web (AccountStore B) TokenResponse
  issue now = do
    member_id ← or_raise claims.sub key_error
    found ← query (λ db. find_row (λ (m : Member). m.id) member_id db.members)
    member ← or_raise found (http 401)
    token_response B ext member member.household_id now

  abbrev redeeming : Time → World (AccountStore B) → Bool × B.tokens.Store
  redeeming now w = redeem_refresh_token B.tokens jti exp now w.store.redeemed

  abbrev spent : Time → World (AccountStore B) → World (AccountStore B)
  spent now w = record w { store = record w.store { redeemed = (redeeming now w).1 } }

  refresh-eq :
      (now : Time) (w : World (AccountStore B))
      → now < of_unix exp
      → refresh B ext body now w
        ≡ (raise_if (not (redeeming now w).0) (http 401) >>= λ _. issue now) (spent now w)
  unfolding refresh
  refresh-eq now w valid = rw (decoded now valid) (rw (has_jti, has_exp) refl)

  -- Issuing tokens leaves the stores alone.
  issue-store : (now : Time) (w : World (AccountStore B)) → (issue now w).1.store ≡ w.store
  unfolding token_response create_refresh_token
  issue-store now w = elim (Option-cases claims.sub) [
    | inl nobody ↦ rw nobody refl
    | inr (id, named) ↦
        elim (Option-cases (find_row (λ (m : Member). m.id) id w.session.current.members)) [
          | inl gone ↦ rw (named, gone) refl
          | inr (member, found) ↦ rw (named, found) refl
        ]
  ]

  refresh-store :
      (now : Time) (w : World (AccountStore B))
      → now < of_unix exp
      → (refresh B ext body now w).1.store ≡ (spent now w).store
  refresh-store now w valid = rw (refresh-eq now w valid) (
      steps_keep (λ (v : World (AccountStore B)). v.store ≡ (spent now w).store)
        (raise_if (not (redeeming now w).0) (http 401)) (λ _. issue now) (spent now w) refl
        (λ _ v h. issue-store now v ∙ h))

  first_time :
      (now : Time) (w : World (AccountStore B)) {r : TokenResponse}
      → now < of_unix exp
      → (refresh B ext body now w).0 ≡ ok r
      → (redeeming now w).0 ≡ true
  first_time now w valid done = elim (Bool-cases (redeeming now w).0) [
    | inl first ↦ first
    | inr used ↦ cc (rw (refresh-eq now w valid, used) at done)
  ]

  request-store :
      {S A : Type 0} (handler : Web S A) (w : World S)
      → (request handler w).1.store ≡ (handler w).1.store
  unfolding request
  request-store {S} {A} handler w = go (handler w)
    where
      go : (r : Result A × World S) → (request (λ (v : World S). r) w).1.store ≡ r.1.store
      go (ok a, v) = refl
      go (err e, v) = refl

  -- A refresh token that has brought new tokens is refused from then on, with 401, and nothing
  -- changes: for the whole seconds that it had left when it was used, and at least for one, as long
  -- as it has not expired.
  pub refresh_twice :
      (now later : Time) (w : World (AccountStore B)) {r : TokenResponse}
      → now < of_unix exp
      → (refresh B ext body now w).0 ≡ ok r
      → later < now + ttl_of exp now * second
      → later < of_unix exp
      → let after = (request (refresh B ext body now) w).1 in
        refresh B ext body later after ≡ (err (http 401), after)
  refresh_twice now later w valid done soon still_valid =
      let after : World (AccountStore B) = (request (refresh B ext body now) w).1 in
      let same : after.store.redeemed ≡ (redeeming now w).1 =
        ap (λ (t : AccountStore B). t.redeemed)
          (request-store (refresh B ext body now) w ∙ refresh-store now w valid) in
      let used : redeeming later after ≡ (false, after.store.redeemed) = rw same (
        redeem_twice B.tokens lawful jti exp exp now later w.store.redeemed
          (first_time now w valid done) soon) in
      refresh-eq later after still_valid
      ∙ ap
          (λ (x : Bool × B.tokens.Store).
            (raise_if (not x.0) (http 401) >>= λ _. issue later)
              (record after { store = record after.store { redeemed = x.1 } }))
          used
