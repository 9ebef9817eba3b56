-- ===== src/Prelude/Int.antt =====
-- Go's int, a signed number of 64 bits, and the decimal numbers of package strconv and of fmt.
pub mod Printed
use clue_getter.Prelude.{
  ℕ, zero, suc, ◌+◌, ◌-◌, ◌%◌, ◌^◌, ◌≡◌, refl, Bool, true, false, Option, none, some, [], ◌∷◌,
  if◌then◌else◌, ltb, leb, eqb,
}
use clue_getter.Prelude.Text.{Text, text, show}
use clue_getter.Prelude.Float.{parse_digits}

-- `negsuc n` is -(n + 1).
pub data ℤ : Type 0 where
  pos : ℕ → ℤ
  negsuc : ℕ → ℤ

-- The int whose bits are those of a number.
abbrev pub of_bits : ℕ → ℤ
of_bits n = let m = n % 2 ^ 64 in if ltb m (2 ^ 63) then pos m else negsuc (2 ^ 64 - 1 - m)

-- uint64(z)
unfoldable pub to_bits : ℤ → ℕ
to_bits (pos n) = n % 2 ^ 64
to_bits (negsuc n) = 2 ^ 64 - 1 - n % 2 ^ 64

-- A number less an int.
unfoldable pub minus : ℕ → ℤ → ℤ
minus n (pos m) = if leb m n then pos (n - m) else negsuc (m - n - 1)
minus n (negsuc m) = of_bits (n + suc m)

-- Whether a number is above an int.
abbrev pub above : ℕ → ℤ → Bool
above n (pos m) = ltb m n
above n (negsuc m) = true

-- Whether an int is at most a number.
abbrev pub at_most : ℤ → ℕ → Bool
at_most (pos m) n = leb m n
at_most (negsuc m) n = true

-- fmt.Sprintf("%d", z)
unfoldable pub show_int : ℤ → Text
show_int (pos n) = show n
show_int (negsuc n) = b'-' ∷ show (suc n)

abbrev clip : ℕ → ℤ
clip n = if ltb n (2 ^ 63) then pos n else pos (2 ^ 63 - 1)

abbrev clip_below : ℕ → ℤ
clip_below zero = pos 0
clip_below (suc n) = if ltb n (2 ^ 63) then negsuc n else negsuc (2 ^ 63 - 1)

abbrev or_zero : (ℕ → ℤ) → Option ℕ → ℤ
or_zero f none = pos 0
or_zero f (some n) = f n

-- What strconv.Atoi returns beside its error: zero where the text is no number, and the nearest int
-- where the number is out of range.
unfoldable pub atoi : Text → ℤ
unfolding parse_digits
atoi [] = pos 0
atoi (c ∷ s) =
    let unsigned = or_zero clip (parse_digits (c ∷ s)) in
    let plus = or_zero clip (parse_digits s) in
    let minus_sign = or_zero clip_below (parse_digits s) in
    if eqb c b'+' then plus else if eqb c b'-' then minus_sign else unsigned

abbrev is_below : ℕ → Option ℕ → Bool
is_below bound none = false
is_below bound (some n) = ltb n bound

-- Whether strconv.Atoi returns without an error.
unfoldable pub is_int : Text → Bool
unfolding parse_digits
is_int [] = false
is_int (c ∷ s) =
    if eqb c b'+'
    then is_below (2 ^ 63) (parse_digits s)
    else if eqb c b'-'
    then is_below (2 ^ 63 + 1) (parse_digits s)
    else is_below (2 ^ 63) (parse_digits (c ∷ s))

-- Whether an int is a number.
unfoldable pub equals : ℤ → ℕ → Bool
equals (pos m) n = eqb m n
equals (negsuc m) n = false

-- strconv.ParseUint(s, 10, 64), none for an error
unfoldable pub parse_uint : Text → Option ℕ
unfolding parse_digits
parse_uint s = elim (parse_digits s) [
  | none ↦ none
  | some n ↦ if ltb n (2 ^ 64) then some n else none
]

atoi_tests :
    (atoi (text "86400") ≡ pos 86400)
    × (atoi (text "-3") ≡ negsuc 2)
    × (atoi (text "+3") ≡ pos 3)
    × (atoi (text "3x") ≡ pos 0)
    × (atoi (text "99999999999999999999") ≡ pos 9223372036854775807)
    × (minus 5 (pos 7) ≡ negsuc 1)
    × (to_bits (negsuc 0) ≡ 18446744073709551615)
unfolding atoi minus to_bits
atoi_tests = (refl, refl, refl, refl, refl, refl, refl)
