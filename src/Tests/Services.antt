-- ===== src/Tests/Services.antt =====
-- The theorems on the services over Redis at concrete inputs.
use kids_chores_api.Redis.RateLimit.{allowed_window, at_most, allowed}
use kids_chores_api.Redis.Linking.{link_once, redeem_link_code, LinkStore, create_link_code}
use kids_chores_api.Models.{Time}
use kids_chores_api.Redis.RefreshTokens.{redeem_again, of_unix, unix_epoch, redeem_refresh_token}
use kids_chores_api.Prelude.{refl, arith, true, some, [], ◌<◌, ◌∷◌, ◌+◌, ◌≡◌, none, ℕ}
use native.Mathlib.Decide.{ℕ_discrete}
use kids_chores_api.Redis.CountersMemory.{counters, counters-IsCounters}
use kids_chores_api.Redis.Memory.{memory, memory-IsCache}
use kids_chores_api.Redis.{Cache, Counters}

abbrev limits : Counters ℕ
limits = counters ℕ_discrete

abbrev no_attempts : limits.Store
no_attempts = λ key. (0, none)

allowed_window_example : allowed limits 9 2 60 (100 ∷ 200 ∷ 300 ∷ []) no_attempts ≡ at_most 2 3
allowed_window_example =
    allowed_window limits (counters-IsCounters ℕ_discrete) 9 2 60 (omega arith) 100 no_attempts
      (200 ∷ 300 ∷ []) refl (omega arith, omega arith, (omega arith, omega arith, tt))

abbrev tokens : Cache ℕ (Unit {0})
tokens = memory ℕ_discrete

abbrev no_tokens : tokens.Store
no_tokens = λ jti. none

-- Half a second after the start of Unix time.
abbrev start : Time
start = unix_epoch + 500_000

abbrev used : tokens.Store
used = (redeem_refresh_token tokens 7 100 start no_tokens).1

redeem_again_example :
    (later : Time) × (later < of_unix 100)
    × ((redeem_refresh_token tokens 7 100 later used).0 ≡ true)
unfolding redeem_refresh_token
redeem_again_example =
    redeem_again tokens (memory-IsCache ℕ_discrete) 7 100 start no_tokens refl (omega arith)
      (omega arith)

abbrev codes_cache : Cache ℕ ℕ
codes_cache = memory ℕ_discrete

abbrev no_codes : LinkStore codes_cache codes_cache
no_codes = (λ code. none, λ member_id. none)

link_once_example :
    let s1 = (create_link_code codes_cache codes_cache 2 123_456 0 no_codes).1 in
    let s2 = (redeem_link_code codes_cache codes_cache 123_456 5 s1).1 in
    ((redeem_link_code codes_cache codes_cache 123_456 5 s1).0 ≡ some 2)
    × (redeem_link_code codes_cache codes_cache 123_456 9 s2 ≡ (none, s2))
link_once_example =
    link_once codes_cache codes_cache (memory-IsCache ℕ_discrete) (memory-IsCache ℕ_discrete) 2
      123_456 0 5 9 no_codes (omega arith)
