-- ===== src/Redis/RefreshTokens.antt =====
-- backend/app/services/refresh_tokens.py: a refresh token is redeemed once.
use kids_chores_api.Redis.{IsCache, Cache}
use kids_chores_api.Prelude.{
  refl, ap, inr, arith, false, ◌%◌, inl, Option-cases, ◌<◌, ◌≤◌, true, ◌≡◌, ℕ, Bool, ◌+◌, ◌-◌, ◌*◌,
  ◌/◌, max,
}
use kids_chores_api.Models.{RowId, Time}
use kids_chores_api.Grace.{second}

-- 1970-01-01, where Unix time starts.
abbrev pub unix_epoch : Time
unix_epoch = 719_162 * 86_400 * second

abbrev pub of_unix : ℕ → Time
of_unix seconds = unix_epoch + seconds * second

-- `max(int(exp - now), 1)`: `int` drops the fraction, and what is past counts as 1.
abbrev pub ttl_of : ℕ → Time → ℕ
ttl_of exp now = max ((of_unix exp - now) / second) 1

module _ (C : Cache RowId (Unit {0})) where
  unfoldable pub redeem_refresh_token : RowId → ℕ → Time → C.Store → Bool × C.Store
  redeem_refresh_token jti exp now s = C.set_nx now jti tt (ttl_of exp now) s

module _ (C : Cache RowId (Unit {0})) (lawful : IsCache C) (jti : RowId) (exp : ℕ) where
  redeemed :
      (now : Time) (s : C.Store)
      → (redeem_refresh_token C jti exp now s).0 ≡ true
      → (redeem_refresh_token C jti exp now s).1 ≡ C.set now jti tt (ttl_of exp now) s
  unfolding redeem_refresh_token
  redeemed now s first = elim (Option-cases (C.get now jti s)) [
    | inl free ↦ rw (lawful.set_nx-free now jti tt (ttl_of exp now) s free) refl
    | inr (used, e) ↦ let taken = lawful.set_nx-taken now jti tt used (ttl_of exp now) s e in cc
  ]

  -- A token that has been redeemed is refused, and nothing changes, until its record expires, whatever
  -- expiry the second request states.
  pub redeem_twice :
      (other : ℕ) (now later : Time) (s : C.Store)
      → (redeem_refresh_token C jti exp now s).0 ≡ true
      → later < now + ttl_of exp now * second
      → let used = (redeem_refresh_token C jti exp now s).1 in
        redeem_refresh_token C jti other later used ≡ (false, used)
  redeem_twice other now later s first soon = rw (redeemed now s first) (
      unfold redeem_refresh_token in
      lawful.set_nx-taken later jti tt tt (ttl_of other later) _
        (lawful.get-set now later jti tt (ttl_of exp now) s soon))

  -- The record of a token that is redeemed more than a second before its expiry, with a fraction of a
  -- second to spare, is gone before the token expires: at that moment the token is accepted again.
  pub redeem_again :
      (now : Time) (s : C.Store)
      → (redeem_refresh_token C jti exp now s).0 ≡ true
      → now + second ≤ of_unix exp
      → 0 < (of_unix exp - now) % second
      → (later : Time) × (later < of_unix exp)
        × ((redeem_refresh_token C jti exp later (redeem_refresh_token C jti exp now s).1).0 ≡ true)
  redeem_again now s first long odd = (
    now + ttl_of exp now * second,
    early,
    rw (redeemed now s first) (
        unfold redeem_refresh_token in
        ap (λ r. r.0)
          (lawful.set_nx-free (now + ttl_of exp now * second) jti tt _ _
            (lawful.get-set_expired now _ jti tt (ttl_of exp now) s le_self))),
  )
    where
      early : now + ttl_of exp now * second < of_unix exp
      early = ground (arith, long, odd)

      le_self : now + ttl_of exp now * second ≤ now + ttl_of exp now * second
      le_self = omega arith
