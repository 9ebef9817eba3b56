-- ===== src/Web/Numbers.antt =====
-- What can stand in the text of a query.
use clue_getter.Prelude.{
  ℕ, zero, suc, ◌+◌, ◌/◌, ◌%◌, ◌≤◌, ◌≡◌, refl, sym, ap, ◌∙◌, ◌⊎◌, inl, inr, Bool, Option, none,
  some, List, [], ◌∷◌, All, All-append, arith, ltb, Bool-cases, Option-cases,
}
use mathlib.Core.Path.{subst}
use clue_getter.Prelude.Text.{Text, text, ◌==◌, join, show, show_from}
use clue_getter.Prelude.Go.{Go, ok, Go-cases}
use clue_getter.Prelude.Int.{ℤ, pos, negsuc, atoi, is_int, show_int}
use clue_getter.Web.{
  Form, Instance, AbusersQuery, Response, shown, cut_first, asked_ids, parse_ids,
  parse_filter_instance, get_selectors, abusers_query, form_value,
}

abbrev pub IsNumeric : ℕ → Type 0
IsNumeric c = ((b'0' ≤ c) × (c ≤ b'9')) ⊎ ((c ≡ b'-') ⊎ (c ≡ b','))

show_from-IsNumeric :
    (fuel n : ℕ) (acc : Text) → All IsNumeric acc → All IsNumeric (show_from fuel n acc)
unfolding show_from
show_from-IsNumeric zero n acc h = (inl (omega arith, omega arith), h)
show_from-IsNumeric (suc fuel) n acc h = elim (Bool-cases (ltb n 10)) [
  | inl last ↦ rw last (inl (omega arith, omega arith), h)
  | inr more ↦ rw more (
      show_from-IsNumeric fuel (n / 10) (((n % 10) + b'0') ∷ acc)
        (inl (omega arith, omega arith), h))
]

show_int-IsNumeric : (z : ℤ) → All IsNumeric (show_int z)
unfolding show_int show
show_int-IsNumeric (pos n) = show_from-IsNumeric n n [] tt
show_int-IsNumeric (negsuc n) = (inr (inl refl), show_from-IsNumeric (suc n) (suc n) [] tt)

join-IsNumeric :
    (words : List Text) → All (All IsNumeric) words → All IsNumeric (join (text ",") words)
unfolding join
join-IsNumeric [] h = tt
join-IsNumeric (w ∷ []) (h, hs) = h
join-IsNumeric (w ∷ (v ∷ words)) (h, hs) =
    All-append IsNumeric w (b',' ∷ join (text ",") (v ∷ words)) h
      (inr (inr refl), join-IsNumeric (v ∷ words) hs)

some_inj : {A : Type 0} {a b : A} → ◌≡◌ {A = Option A} (some a) (some b) → a ≡ b
some_inj e = cc e

parse_ids-IsNumeric : (ids out : List Text) → parse_ids ids ≡ some out → All (All IsNumeric) out
unfolding parse_ids
parse_ids-IsNumeric [] out e = subst (All (All IsNumeric)) (some_inj e) tt
parse_ids-IsNumeric (id ∷ ids) out e = elim (Bool-cases (is_int id)) [
  | inl number ↦ elim (Option-cases (parse_ids ids)) [
    | inl invalid ↦ cc (rw (number, invalid) at e)
    | inr (rest, parsed) ↦
        subst (All (All IsNumeric)) (some_inj (rw (number, parsed) at e))
          (show_int-IsNumeric (atoi id), parse_ids-IsNumeric ids rest parsed)
  ]
  | inr other ↦ cc (rw other at e)
]

ok_inj : {A : Type 0} {a b : A} → ◌≡◌ {A = Go A} (ok a) (ok b) → a ≡ b
ok_inj e = cc e

shown_inj : {A : Type 0} {a b : A} → ◌≡◌ {A = Go (Response A)} (ok (shown a)) (ok (shown b)) → a ≡ b
shown_inj e = cc e

parse_filter_instance-IsNumeric :
    (form : Form) (instances : List Instance) (out : List Text)
    → parse_filter_instance form instances ≡ ok (some out)
    → All (All IsNumeric) out
unfolding parse_filter_instance
parse_filter_instance-IsNumeric form instances out e =
    elim (Go-cases (cut_first (asked_ids form instances))) [
      | inl nothing ↦ cc (rw (nothing, parse_filter_instance) at e)
      | inr (ids, cut) ↦ parse_ids-IsNumeric ids out (ok_inj (rw (cut, parse_filter_instance) at e))
    ]

-- Whatever the form has: the list of instances that stands in the text of the query of abusers has
-- only digits, signs and commas, and its column is one of two.
pub abusers_query-IsNumeric :
    (is_float : Text → Bool) (form : Form) (instances : List Instance) (query : AbusersQuery)
    → abusers_query is_float form instances ≡ ok (shown query)
    → All IsNumeric query.instances
      × ((query.column ≡ text "s.sasl_username") ⊎ (query.column ≡ text "m.sender_domain"))
unfolding abusers_query
abusers_query-IsNumeric is_float form instances query e = elim (Option-cases (get_selectors form)) [
  | inl invalid ↦ cc (rw (abusers_query, invalid) at e)
  | inr (selectors, valid) ↦ elim (Go-cases (parse_filter_instance form instances)) [
    | inl nothing ↦ cc (rw (abusers_query, valid, nothing) at e)
    | inr (none, refused) ↦ cc (rw (abusers_query, valid, refused) at e)
    | inr (some ids, parsed) ↦
        let made = shown_inj (rw (abusers_query, valid, parsed) at e) in
        let numeric = parse_filter_instance-IsNumeric form instances ids parsed in
        (
          subst (All IsNumeric) (ap (λ (q : AbusersQuery). q.instances) made)
              (join-IsNumeric ids numeric),
          elim (Bool-cases (form_value form (text "selector") == text "sasl_username")) [
            | inl user ↦ inl (sym (ap (λ (q : AbusersQuery). q.column) made) ∙ rw user refl)
            | inr domain ↦ inr (sym (ap (λ (q : AbusersQuery). q.column) made) ∙ rw domain refl)
          ],
        )
  ]
]
