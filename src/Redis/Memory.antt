-- ===== src/Redis/Memory.antt =====
-- A Redis in memory, on which the theorems are tried.
use kids_chores_api.Grace.{second}
use mathlib.Core.Logic.{ite}
use kids_chores_api.Redis.{Cache, IsCache}
use kids_chores_api.Prelude.{
  refl, false, ◌*◌, true, ◌+◌, arith, Bool, Option, none, some, ltb, if◌then◌else◌,
}
use kids_chores_api.Models.{Time}

-- The value of a cell that has not expired.
abbrev alive {ℓ} : {V : Type ℓ} → Time → Option (V × Time) → Option V
alive now none = none
alive now (some (v, d)) = if ltb now d then some v else none

module _ {K V : Type 0} (dec : Discrete K) where
  abbrev put : K → Option (V × Time) → (K → Option (V × Time)) → K → Option (V × Time)
  put k cell s j = ite (dec j k) cell (s j)

  abbrev put_nx : Option V → K → V → Time → (K → Option (V × Time)) → Bool × (K → Option (V × Time))
  put_nx none k v d s = (true, put k (some (v, d)) s)
  put_nx (some w) k v d s = (false, s)

  abbrev pub memory : Cache K V
  memory = record {
    Store = K → Option (V × Time);
    get = λ now k s. alive now (s k);
    set = λ now k v ex s. put k (some (v, now + ex * second)) s;
    set_nx = λ now k v ex s. put_nx (alive now (s k)) k v (now + ex * second) s;
    delete = λ k s. put k none s;
  }

  pub memory-IsCache : IsCache memory
  memory-IsCache = record {
    get-set = λ now later k v ex s h. ground (arith, h);
    get-set_expired = λ now later k v ex s h. ground (arith, h);
    get-set_ne = λ now later j k v ex s h. ground (arith, h);
    set_nx-free = λ now k v ex s h. rw h refl;
    set_nx-taken = λ now k v w ex s h. rw h refl;
    get-delete = λ later k s. ground arith;
    get-delete_ne = λ later j k s h. ground (arith, h);
  }
