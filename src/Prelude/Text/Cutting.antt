-- ===== src/Prelude/Text/Cutting.antt =====
-- Cutting a text at the first place of a byte, and putting it together again.
use clue_getter.Prelude.{
  ℕ, zero, suc, ◌+◌, ◌/◌, ◌%◌, ◌<◌, ltb, ◌≡◌, ◌≢◌, refl, ap, inl, inr, Option, none, some, [], ◌∷◌,
  ◌++◌, arith, eqb, All, any, false, Option-cases, Bool-cases, eqb_iff,
}
use clue_getter.Prelude.Text.{Text, cut, show, show_from}

-- The byte does not stand in the text.
abbrev pub Lacks : ℕ → Text → Type 0
Lacks c = All (λ d. d ≢ c)

pub free_of : (c : ℕ) (s : Text) → any (λ d. eqb d c) s ≡ false → Lacks c s
free_of c [] h = tt
free_of c (d ∷ s) h = (ground (arith, h), free_of c s (ground (arith, h)))

pub cut-append : (c : ℕ) (a b : Text) → Lacks c a → cut c (a ++ c ∷ b) ≡ some (a, b)
unfolding cut
cut-append c [] b h = ground arith
cut-append c (d ∷ a) b (ne, h) = rw (cut-append c a b h, cut) (ground arith)

pub cut-none : (c : ℕ) (s : Text) → Lacks c s → cut c s ≡ none
unfolding cut
cut-none c [] h = refl
cut-none c (d ∷ s) (ne, h) = rw (cut-none c s h, cut) (ground arith)

pub pair_of_some :
    {A B : Type 0} {a a' : A} {b b' : B}
    → ◌≡◌ {A = Option (A × B)} (some (a, b)) (some (a', b'))
    → (a ≡ a') × (b ≡ b')
pair_of_some e = (cc, cc)

pub cut-some : (c : ℕ) (s a b : Text) → cut c s ≡ some (a, b) → (s ≡ a ++ c ∷ b) × Lacks c a
unfolding cut
cut-some c [] a b e = cc
cut-some c (d ∷ s) a b e = elim (Bool-cases (eqb d c)) [
  | inl here ↦
      let (empty, rest) = pair_of_some {a = []} {b = s} (rw here at e) in
      rw (← empty, ← rest, (eqb_iff d c).0 here) (refl, tt)
  | inr later ↦ elim (Option-cases (cut c s)) [
    | inl missing ↦ cc (rw (later, missing) at e)
    | inr (p, found) ↦
        let (first, rest) = pair_of_some {a = d ∷ p.0} {b = p.1} (rw (later, found) at e) in
        let (whole, lacks) = cut-some c s p.0 p.1 found in
        rw (← first, ← rest) (ap (λ (t : Text). d ∷ t) whole, (ground arith, lacks))
  ]
]

Lacks-show_from :
    (c fuel n : ℕ) (acc : Text) → c < b'0' → Lacks c acc → Lacks c (show_from fuel n acc)
unfolding show_from
Lacks-show_from c zero n acc k h = (omega (arith, k), h)
Lacks-show_from c (suc fuel) n acc k h =
    let more = Lacks-show_from c fuel (n / 10) (((n % 10) + b'0') ∷ acc) k (omega (arith, k), h) in
    elim (Bool-cases (ltb n 10)) [
      | inl last ↦ rw last (omega (arith, k), h)
      | inr further ↦ rw further more
    ]

-- No byte before the digits stands in a decimal number.
pub Lacks-show : (c n : ℕ) → c < b'0' → Lacks c (show n)
unfolding show
Lacks-show c n k = Lacks-show_from c n n [] k tt
