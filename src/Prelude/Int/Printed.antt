-- ===== src/Prelude/Int/Printed.antt =====
-- A number that was printed is read back as that number.
use clue_getter.Prelude.{
  ℕ, zero, suc, ◌+◌, ◌*◌, ◌/◌, ◌%◌, ◌^◌, ◌<◌, ◌≤◌, ◌≡◌, refl, ◌∙◌, inl, inr, true, false, some, [],
  ◌∷◌, arith, ltb, ltb_iff, ap, eqb, Bool-cases,
}
use clue_getter.Prelude.Float.{parse_from, parse_digits}
use clue_getter.Prelude.Int.{pos, atoi, is_int}
use clue_getter.Prelude.Text.{Text, show, show_from, is_empty}
use clue_getter.Prelude.Text.Cutting.{Lacks, Lacks-show}

parse_digit :
    (k d : ℕ) (s : Text) → d < 10 → parse_from k ((d + b'0') ∷ s) ≡ parse_from (k * 10 + d) s
unfolding parse_from
parse_digit k d s h = ground (arith, h)

parse_from-show_from :
    (fuel n : ℕ) (acc : Text) → n ≤ fuel → parse_from 0 (show_from fuel n acc) ≡ parse_from n acc
unfolding show_from
parse_from-show_from zero n acc h =
    parse_digit 0 (n % 10) acc (omega arith) ∙ ap (λ m. parse_from m acc) (omega (arith, h))
parse_from-show_from (suc fuel) n acc h = elim (Bool-cases (ltb n 10)) [
  | inl last ↦
      rw last (
        parse_digit 0 (n % 10) acc (omega arith)
        ∙ ap (λ m. parse_from m acc) (ground (arith, last)))
  | inr further ↦ rw further (
      parse_from-show_from fuel (n / 10) (((n % 10) + b'0') ∷ acc) (ground (arith, h, further))
      ∙ parse_digit (n / 10) (n % 10) acc (omega arith)
      ∙ ap (λ m. parse_from m acc) (omega arith))
]

is_empty-show_from : (fuel n : ℕ) (acc : Text) → is_empty (show_from fuel n acc) ≡ false
unfolding show_from
is_empty-show_from zero n acc = refl
is_empty-show_from (suc fuel) n acc =
    let more = is_empty-show_from fuel (n / 10) (((n % 10) + b'0') ∷ acc) in
    elim (Bool-cases (ltb n 10)) [ inl last ↦ rw last refl | inr further ↦ rw further more ]

read_back :
    (s : Text) (n : ℕ)
    → is_empty s ≡ false
    → Lacks b'+' s
    → Lacks b'-' s
    → parse_from 0 s ≡ some n
    → n < 2 ^ 63
    → (is_int s ≡ true) × (atoi s ≡ pos n)
unfolding is_int atoi parse_digits
read_back [] n e plus minus_sign parsed h = absurd cc
read_back (c ∷ s) n e (plus, p) (minus_sign, m) parsed h =
    let no_plus : eqb c b'+' ≡ false = ground (arith, plus) in
    let no_minus : eqb c b'-' ≡ false = ground (arith, minus_sign) in
    let small : ltb n (2 ^ 63) ≡ true = (ltb_iff n (2 ^ 63)).1 h in
    rw (no_plus, no_minus, parsed, small) (refl, refl)

-- A number below 2 ^ 63 that was printed in decimal is an int again, the same one.
pub atoi-show : (n : ℕ) → n < 2 ^ 63 → (is_int (show n) ≡ true) × (atoi (show n) ≡ pos n)
unfolding show parse_from
atoi-show n h =
    read_back (show n) n (is_empty-show_from n n []) (Lacks-show b'+' n (omega arith))
      (Lacks-show b'-' n (omega arith)) (parse_from-show_from n n [] (omega arith)) h

pub is_empty-show : (n : ℕ) → is_empty (show n) ≡ false
unfolding show
is_empty-show n = is_empty-show_from n n []
