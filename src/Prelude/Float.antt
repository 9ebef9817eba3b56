-- ===== src/Prelude/Float.antt =====
-- float64: the program's scores, with the operations that the program applies to them. Nothing is
-- assumed of the operations: the theorems hold with rounding, infinities and NaN.
use Prim.Native.Nat.{ℕ, ◌+◌, ◌-◌, ◌*◌, ◌/◌}
use mathlib.Core.Bool.{Bool, ◌&&◌}
use mathlib.Core.Option.{Option, none, some}
use mathlib.Core.List.{List, [], ◌∷◌, ◌++◌}
use clue_getter.Prelude.Tests.{ltb, leb, eqb, if◌then◌else◌}
use clue_getter.Prelude.Text.{show, text}

pub record Float (F : Type 0) : Type 0 where
  pub zero : F
  pub one : F
  pub add : F → F → F
  pub mul : F → F → F
  pub div : F → F → F
  pub lt : F → F → Bool
  pub le : F → F → Bool
  pub eq : F → F → Bool
  -- fmt.Sprintf("%.2f", x)
  pub show_2 : F → List ℕ
  -- strconv.ParseFloat(s, 64), none for an error
  pub parse : List ℕ → Option F

-- A number in decimal digits.
unfoldable pub parse_from : ℕ → List ℕ → Option ℕ
parse_from n [] = some n
parse_from n (c ∷ s) =
    let rest = parse_from (n * 10 + (c - b'0')) s in if leb b'0' c && leb c b'9' then rest else none

unfoldable pub parse_digits : List ℕ → Option ℕ
unfolding parse_from
parse_digits [] = none
parse_digits (c ∷ s) = parse_from 0 (c ∷ s)

-- Whole scores, for tests.
abbrev pub whole : Float ℕ
whole = record {
  zero = 0;
  one = 1;
  add = ◌+◌;
  mul = ◌*◌;
  div = ◌/◌;
  lt = ltb;
  le = leb;
  eq = eqb;
  show_2 = λ n. show n ++ text ".00";
  parse = parse_digits;
}
