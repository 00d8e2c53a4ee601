-- ===== src/Prelude/Texts.antt =====
-- Python text as its code points, and the part of `str` that the program uses.
use Prim.Native.Nat.{ℕ, zero, suc, ◌+◌, ◌-◌, ◌*◌, ◌/◌, ◌%◌, ◌<◌}
use Prim.Native.Char.{code}
use Prim.Native.String.{String}
use mathlib.Core.Bool.{Bool, true, false, ◌&&◌, ◌||◌}
use mathlib.Core.Option.{Option, none, some}
use mathlib.Core.List.{List, [], ◌∷◌, ◌++◌, reverse}
use mathlib.Core.Path.{◌≡◌, refl, ◌∙◌}
use mathlib.Core.Logic.{inl, inr}
use native.Mathlib.Omega.{arith}
use kids_chores_api.Prelude.Tests.{ltb, leb, ◌==◌, if◌then◌else◌, Bool-cases}

abbrev pub Text : Type 0
Text = List ℕ

-- A literal of the source.
unfoldable pub codes : String → Text
codes String.[] = []
codes (String.◌∷◌ c s) = code c ∷ codes s

-- `str.isspace` on one character.
unfoldable pub is_space : ℕ → Bool
is_space c =
    (leb 9 c && leb c 13)
    || (leb 28 c && leb c 32)
    || (leb 8192 c && leb c 8202)
    || c == 133
    || c == 160
    || c == 5760
    || c == 8232
    || c == 8233
    || c == 8239
    || c == 8287
    || c == 12288

drop_spaces : Text → Text
drop_spaces [] = []
drop_spaces (c ∷ t) = let rest = drop_spaces t in if is_space c then rest else c ∷ t

-- `str.strip()`
unfoldable pub strip : Text → Text
unfolding drop_spaces is_space
strip t = reverse (drop_spaces (reverse (drop_spaces t)))

-- `not text`, for a text and for one that may be None.
abbrev pub is_empty : Text → Bool
is_empty [] = true
is_empty (c ∷ t) = false

abbrev pub is_missing : Option Text → Bool
is_missing none = true
is_missing (some t) = is_empty t

-- `text == other` and `text.startswith(prefix)`
abbrev pub text_eq : Text → Text → Bool
text_eq [] [] = true
text_eq [] (d ∷ u) = false
text_eq (c ∷ t) [] = false
text_eq (c ∷ t) (d ∷ u) = c == d && text_eq t u

abbrev pub starts_with : Text → Text → Bool
starts_with [] t = true
starts_with (p ∷ ps) [] = false
starts_with (p ∷ ps) (c ∷ t) = p == c && starts_with ps t

-- The decimal digits of a number, with fuel for as many.
decimal_on : ℕ → ℕ → Text
decimal_on zero n = []
decimal_on (suc fuel) n =
    let rest = decimal_on fuel (n / 10) in
    if ltb n 10 then (48 + n) ∷ [] else rest ++ (48 + n % 10) ∷ []

-- `str(n)`: a number has fewer digits than its successor counts.
unfoldable pub decimal : ℕ → Text
unfolding decimal_on
decimal n = decimal_on (suc n) n

-- The number that digits spell.
abbrev pub spelled : ℕ → Text → ℕ
spelled acc [] = acc
spelled acc (c ∷ t) = spelled (acc * 10 + (c - 48)) t

spelled-append : (acc : ℕ) (t u : Text) → spelled acc (t ++ u) ≡ spelled (spelled acc t) u
spelled-append acc [] u = refl
spelled-append acc (c ∷ t) u = spelled-append (acc * 10 + (c - 48)) t u

spelled-decimal_on : (fuel n : ℕ) → n < fuel → spelled 0 (decimal_on fuel n) ≡ n
unfolding decimal_on
spelled-decimal_on zero n h = elim h [ ]
spelled-decimal_on (suc fuel) n h = elim (Bool-cases (ltb n 10)) [
  | inl small ↦ rw small (omega arith)
  | inr large ↦
      let ih = spelled-decimal_on fuel (n / 10) (ground (arith, h, large)) in
      rw large
        (spelled-append 0 (decimal_on fuel (n / 10)) ((48 + n % 10) ∷ []) ∙ omega (arith, ih))
]

-- The fuel is enough: the digits spell the number.
pub spelled-decimal : (n : ℕ) → spelled 0 (decimal n) ≡ n
unfolding decimal
spelled-decimal n = spelled-decimal_on (suc n) n (omega arith)
