-- ===== src/Redis/CountersMemory.antt =====
-- Counters of Redis in memory, on which the theorems are tried.
use mathlib.Core.Logic.{ite}
use kids_chores_api.Grace.{second}
use kids_chores_api.Redis.{Counters, IsCounters}
use kids_chores_api.Prelude.{
  ℕ, suc, ◌*◌, ◌+◌, ◌<◌, ◌≤◌, ◌≡◌, refl, arith, Option, none, some, ltb, if◌then◌else◌,
}
use kids_chores_api.Models.{Time}

-- A number and when it expires; no number is 0.
abbrev Cell : Type 0
Cell = ℕ × Option Time

abbrev count_of : Time → Cell → ℕ
count_of now (n, none) = n
count_of now (n, some d) = if ltb now d then n else 0

abbrev bumped : Time → Cell → Cell
bumped now c = (suc (count_of now c), if ltb 0 (count_of now c) then c.1 else none)

abbrev extended : Time → ℕ → Cell → Cell
extended now ex c = if ltb 0 (count_of now c) then (c.0, some (now + ex * second)) else c

count-bumped : (now : Time) (c : Cell) → count_of now (bumped now c) ≡ suc (count_of now c)
count-bumped now (n, none) = ground arith
count-bumped now (n, some d) = ground arith

count-extended :
    (now : Time) (ex : ℕ) (c : Cell) → 0 < ex → count_of now (extended now ex c) ≡ count_of now c
count-extended now ex (n, none) h = ground (arith, h)
count-extended now ex (n, some d) h = ground (arith, h)

count-later_lem :
    (now later d : Time) (c : Cell)
    → c.1 ≡ some d
    → now ≤ later
    → later < d
    → count_of later c ≡ count_of now c
count-later_lem now later d (n, none) e h k = cc
count-later_lem now later d (n, some e') e h k = ground (arith, e, h, k)

count-expired_lem : (later d : Time) (c : Cell) → c.1 ≡ some d → d ≤ later → count_of later c ≡ 0
count-expired_lem later d (n, none) e h = cc
count-expired_lem later d (n, some e') e h = ground (arith, e, h)

module _ {K : Type 0} (dec : Discrete K) where
  abbrev put_cell : K → Cell → (K → Cell) → K → Cell
  put_cell k c s j = ite (dec j k) c (s j)

  put_cell_self : (k : K) (c : Cell) (s : K → Cell) → put_cell k c s k ≡ c
  put_cell_self k c s = ground arith

  abbrev pub counters : Counters K
  counters = record {
    Store = K → Cell;
    incr = λ now k s. (suc (count_of now (s k)), put_cell k (bumped now (s k)) s);
    expire = λ now k ex s. put_cell k (extended now ex (s k)) s;
    count = λ now k s. count_of now (s k);
    deadline = λ k s. (s k).1;
  }

  pub counters-IsCounters : IsCounters counters
  counters-IsCounters = record {
    incr-count = λ now k s. refl;
    count-incr = λ now k s. rw (put_cell_self k (bumped now (s k)) s) (count-bumped now (s k));
    deadline-incr = λ now k s h. rw (put_cell_self k (bumped now (s k)) s) (ground (arith, h));
    count-expire = λ now k ex s h.
        rw (put_cell_self k (extended now ex (s k)) s) (count-extended now ex (s k) h);
    deadline-expire =
        λ now k ex s h. rw (put_cell_self k (extended now ex (s k)) s) (ground (arith, h));
    count-later = λ now later d k s e h l. count-later_lem now later d (s k) e h l;
    count-expired = λ later d k s e h. count-expired_lem later d (s k) e h;
  }
