-- ===== src/Redis.antt =====
-- The Redis that backend/app/db/redis.py connects to: what the services assume of its commands. The
-- services prefix their keys (`idem:`, `ratelimit:`, `refresh_used:`, `link_code:`,
-- `link_code_for_member:`), so each works on a map of its own.
pub mod Idempotency
pub mod RateLimit
pub mod RefreshTokens
pub mod Linking
pub mod Memory
pub mod CountersMemory
use kids_chores_api.Prelude.{
  ℕ, suc, ◌+◌, ◌*◌, ◌<◌, ◌≤◌, ◌≡◌, ◌≢◌, Bool, true, false, Option, none, some,
}
use kids_chores_api.Models.{Time}
use kids_chores_api.Grace.{second}

-- `GET k`, `SET k v EX seconds`, `SET k v EX seconds NX` and `DEL k`. A command is carried out at a
-- time, since keys expire.
pub record Cache (K V : Type 0) : Type 1 where
  pub Store : Type 0
  pub get : Time → K → Store → Option V
  pub set : Time → K → V → ℕ → Store → Store
  pub set_nx : Time → K → V → ℕ → Store → Bool × Store
  pub delete : K → Store → Store

-- A key with a time to live reads its value until that has passed, and nothing from then on; `NX`
-- writes only where no value is read; a command touches no other key.
pub record IsCache {K V : Type 0} (C : Cache K V) : Type 0 where
  pub get-set :
      (now later : Time) (k : K) (v : V) (ex : ℕ) (s : C.Store)
      → later < now + ex * second
      → C.get later k (C.set now k v ex s) ≡ some v
  pub get-set_expired :
      (now later : Time) (k : K) (v : V) (ex : ℕ) (s : C.Store)
      → now + ex * second ≤ later
      → C.get later k (C.set now k v ex s) ≡ none
  pub get-set_ne :
      (now later : Time) (j k : K) (v : V) (ex : ℕ) (s : C.Store)
      → j ≢ k
      → C.get later j (C.set now k v ex s) ≡ C.get later j s
  pub set_nx-free :
      (now : Time) (k : K) (v : V) (ex : ℕ) (s : C.Store)
      → C.get now k s ≡ none
      → C.set_nx now k v ex s ≡ (true, C.set now k v ex s)
  pub set_nx-taken :
      (now : Time) (k : K) (v w : V) (ex : ℕ) (s : C.Store)
      → C.get now k s ≡ some w
      → C.set_nx now k v ex s ≡ (false, s)
  pub get-delete : (later : Time) (k : K) (s : C.Store) → C.get later k (C.delete k s) ≡ none
  pub get-delete_ne :
      (later : Time) (j k : K) (s : C.Store)
      → j ≢ k
      → C.get later j (C.delete k s) ≡ C.get later j s

-- `INCR k` and `EXPIRE k seconds`; `count` is what a `GET` reads as a number (0 for no key) and
-- `deadline` is when the key expires.
pub record Counters (K : Type 0) : Type 1 where
  pub Store : Type 0
  pub incr : Time → K → Store → ℕ × Store
  pub expire : Time → K → ℕ → Store → Store
  pub count : Time → K → Store → ℕ
  pub deadline : K → Store → Option Time

-- `INCR` returns the new number, and keeps the time to live of a key that is there; a new key has
-- none. A number stays until its deadline, and is gone from then on.
pub record IsCounters {K : Type 0} (C : Counters K) : Type 0 where
  pub incr-count : (now : Time) (k : K) (s : C.Store) → (C.incr now k s).0 ≡ suc (C.count now k s)
  pub count-incr :
      (now : Time) (k : K) (s : C.Store) → C.count now k (C.incr now k s).1 ≡ suc (C.count now k s)
  pub deadline-incr :
      (now : Time) (k : K) (s : C.Store)
      → 0 < C.count now k s
      → C.deadline k (C.incr now k s).1 ≡ C.deadline k s
  pub count-expire :
      (now : Time) (k : K) (ex : ℕ) (s : C.Store)
      → 0 < ex
      → C.count now k (C.expire now k ex s) ≡ C.count now k s
  pub deadline-expire :
      (now : Time) (k : K) (ex : ℕ) (s : C.Store)
      → 0 < C.count now k s
      → C.deadline k (C.expire now k ex s) ≡ some (now + ex * second)
  pub count-later :
      (now later d : Time) (k : K) (s : C.Store)
      → C.deadline k s ≡ some d
      → now ≤ later
      → later < d
      → C.count later k s ≡ C.count now k s
  pub count-expired :
      (later d : Time) (k : K) (s : C.Store)
      → C.deadline k s ≡ some d
      → d ≤ later
      → C.count later k s ≡ 0
