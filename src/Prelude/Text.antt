-- ===== src/Prelude/Text.antt =====
-- Go strings as lists of bytes, and what the program uses of package strings. Letter case is that
-- of ASCII.
pub mod Cutting
use Prim.Native.Nat.{ℕ, zero, suc, ◌+◌, ◌-◌, ◌/◌, ◌%◌}
use Prim.Native.Char.{code}
use Prim.Native.String.{String}
use mathlib.Core.Path.{◌≡◌, refl}
use mathlib.Core.Logic.{◌↔◌}
use mathlib.Core.Bool.{Bool, true, false, ◌&&◌, ◌||◌}
use mathlib.Core.Option.{Option, none, some}
use mathlib.Core.List.{List, [], ◌∷◌, ◌++◌, map, reverse}
use native.Mathlib.Omega.{arith}
use clue_getter.Prelude.Tests.{if◌then◌else◌, eqb, leb, ltb}
use clue_getter.Prelude.Lists.{length}

abbrev pub Text : Type 0
Text = List ℕ

-- A literal.
abbrev pub text : String → Text
text String.[] = []
text (String.◌∷◌ c s) = code c ∷ text s

infix 50 ◌==◌
unfoldable pub ◌==◌ : Text → Text → Bool
[] == [] = true
[] == (c ∷ t) = false
(c ∷ s) == [] = false
(c ∷ s) == (d ∷ t) = eqb c d && s == t

pub eq_iff : (s t : Text) → ((s == t) ≡ true) ↔ (s ≡ t)
unfolding ◌==◌
eq_iff [] [] = ground arith
eq_iff [] (c ∷ t) = ground arith
eq_iff (c ∷ s) [] = ground arith
eq_iff (c ∷ s) (d ∷ t) = ground (arith, eq_iff s t)

pub eq_refl : (s : Text) → (s == s) ≡ true
eq_refl s = (eq_iff s s).1 refl

abbrev pub is_empty : Text → Bool
is_empty [] = true
is_empty (c ∷ s) = false

unfoldable pub lower_byte : ℕ → ℕ
lower_byte c = if leb b'A' c && leb c b'Z' then c + 32 else c

unfoldable pub upper_byte : ℕ → ℕ
upper_byte c = if leb b'a' c && leb c b'z' then c - 32 else c

-- strings.ToLower, strings.ToUpper, strings.EqualFold
unfoldable pub to_lower : Text → Text
unfolding lower_byte
to_lower s = map lower_byte s

unfoldable pub to_upper : Text → Text
unfolding upper_byte
to_upper s = map upper_byte s

unfoldable pub equal_fold : Text → Text → Bool
unfolding to_lower ◌==◌
equal_fold s t = to_lower s == to_lower t

-- strings.SplitN(s, c, 2): none where c is absent, else what stands before and after its first place.
unfoldable pub cut : ℕ → Text → Option (Text × Text)
cut c [] = none
cut c (d ∷ s) =
    if eqb d c then some ([], s) else elim (cut c s) [ none ↦ none | some (a, b) ↦ some (d ∷ a, b) ]

unfoldable pub starts_with : Text → Text → Bool
starts_with [] s = true
starts_with (c ∷ p) [] = false
starts_with (c ∷ p) (d ∷ s) = eqb c d && starts_with p s

-- strings.Contains
unfoldable pub contains : Text → Text → Bool
unfolding starts_with
contains p [] = is_empty p
contains p (d ∷ s) = starts_with p (d ∷ s) || contains p s

-- strings.Split by one byte.
abbrev pub push_head : ℕ → List Text → List Text
push_head d [] = (d ∷ []) ∷ []
push_head d (w ∷ ws) = (d ∷ w) ∷ ws

unfoldable pub split : ℕ → Text → List Text
split c [] = [] ∷ []
split c (d ∷ s) = let rest = split c s in if eqb d c then [] ∷ rest else push_head d rest

-- strings.Join
unfoldable pub join : Text → List Text → Text
join sep [] = []
join sep (w ∷ []) = w
join sep (w ∷ (v ∷ vs)) = w ++ (sep ++ join sep (v ∷ vs))

-- strings.Trim with the bytes that pass the test as cutset.
unfoldable pub trim_left : (ℕ → Bool) → Text → Text
trim_left p [] = []
trim_left p (c ∷ s) = let rest = trim_left p s in if p c then rest else c ∷ s

unfoldable pub trim_right : (ℕ → Bool) → Text → Text
unfolding trim_left
trim_right p s = reverse (trim_left p (reverse s))

unfoldable pub trim : (ℕ → Bool) → Text → Text
unfolding trim_right
trim p s = trim_right p (trim_left p s)

-- strings.Replace(s, old, new, -1) for an old that is not empty; the number counts the bytes of a
-- match that are still to be passed over.
unfoldable pub replace_from : Text → Text → ℕ → Text → Text
unfolding starts_with
replace_from old new skip [] = []
replace_from old new (suc skip) (c ∷ s) = replace_from old new skip s
replace_from old new zero (c ∷ s) =
    let found = starts_with old (c ∷ s) in
    (if found then new else c ∷ []) ++ replace_from old new (if found then length old - 1 else 0) s

unfoldable pub replace : Text → Text → Text → Text
unfolding replace_from
replace old new s = replace_from old new 0 s

-- %d of a number that is not negative; the fuel is the number itself, which has fewer digits.
unfoldable pub show_from : ℕ → ℕ → Text → Text
show_from zero n acc = ((n % 10) + b'0') ∷ acc
show_from (suc fuel) n acc =
    let more = show_from fuel (n / 10) (((n % 10) + b'0') ∷ acc) in
    if ltb n 10 then ((n % 10) + b'0') ∷ acc else more

unfoldable pub show : ℕ → Text
unfolding show_from
show n = show_from n n []

show_tests : (show 0 ≡ text "0") × (show 1480170000 ≡ text "1480170000")
unfolding show
show_tests = (refl, refl)

text_tests :
    (cut b'@' (text "a@b@c") ≡ some (text "a", text "b@c"))
    × (split b',' (text "a,,b") ≡ text "a" ∷ [] ∷ text "b" ∷ [])
    × (trim (λ c. eqb c b'<' || eqb c b'>') (text "<a@b>") ≡ text "a@b")
    × (replace (text "%{x}") (text "YES") (text "a%{x}%{x}b%{") ≡ text "aYESYESb%{")
    × (contains (text "spam") (text "a spam b") ≡ true)
    × (equal_fold (text "Message-ID") (text "message-id") ≡ true)
unfolding cut split trim replace contains equal_fold
text_tests = (refl, refl, refl, refl, refl, refl)
