-- ===== src/MailQueue/Deletion.antt =====
-- What postsuper is told to delete.
use clue_getter.Prelude.{
  ℕ, ◌≤◌, ◌≡◌, ◌≢◌, refl, sym, ◌∙◌, inl, inr, true, false, List, [], ◌∷◌, ◌++◌, arith, length, ltb,
  keep, All, Bool-cases,
}
use mathlib.Core.List.{append_assoc, append-nil}
use clue_getter.Prelude.Text.{Text, text, ◌==◌, eq_iff}
use clue_getter.MailQueue.{is_deletable, delete_args}

abbrev pub delete_flags : List Text → List Text
delete_flags [] = []
delete_flags (id ∷ ids) = text "-d" ∷ (id ∷ delete_flags ids)

delete_args_from :
    (args ids : List Text) → delete_args args ids ≡ args ++ delete_flags (keep is_deletable ids)
unfolding delete_args
delete_args_from args [] = sym (append-nil args)
delete_args_from args (id ∷ ids) = elim (Bool-cases (is_deletable id)) [
  | inl goes ↦
      rw (goes, delete_args_from (args ++ text "-d" ∷ (id ∷ [])) ids)
        (append_assoc args (text "-d" ∷ (id ∷ [])) (delete_flags (keep is_deletable ids)))
  | inr stays ↦ rw (stays, delete_args_from args ids) refl
]

false_ne : false ≡ true → ⊥
false_ne e = cc e

cons_ne : {c : ℕ} {s : Text} → ◌≡◌ {A = Text} (c ∷ s) [] → ⊥
cons_ne e = cc e

is_deletable_sound :
    (id : Text) → is_deletable id ≡ true → (id ≢ []) × (id ≢ text "ALL") × (length id ≤ 20)
unfolding is_deletable
is_deletable_sound [] h = absurd (false_ne h)
is_deletable_sound (c ∷ s) h = elim (Bool-cases ((c ∷ s) == text "ALL")) [
  | inl all_mail ↦ absurd (false_ne (rw all_mail at h))
  | inr some_mail ↦ elim (Bool-cases (ltb 20 (length (c ∷ s)))) [
    | inl long ↦ absurd (false_ne (rw (some_mail, long) at h))
    | inr short ↦ (
      (λ e. cons_ne e),
      (λ e. false_ne (sym some_mail ∙ (eq_iff (c ∷ s) (text "ALL")).1 e)),
      ground (arith, short),
    )
  ]
]

keep-deletable :
    (ids : List Text)
    → All (λ id. (id ≢ []) × (id ≢ text "ALL") × (length id ≤ 20)) (keep is_deletable ids)
keep-deletable [] = tt
keep-deletable (id ∷ ids) = elim (Bool-cases (is_deletable id)) [
  | inl goes ↦ rw goes (is_deletable_sound id goes, keep-deletable ids)
  | inr stays ↦ rw stays (keep-deletable ids)
]

-- Postsuper's arguments are a "-d" before each id that passes the tests, in the order of the request,
-- and no id among these is empty, longer than 20 bytes, or "ALL", which would delete all mail.
pub delete_args_lem :
    (ids : List Text)
    → (delete_args [] ids ≡ delete_flags (keep is_deletable ids))
      × All (λ id. (id ≢ []) × (id ≢ text "ALL") × (length id ≤ 20)) (keep is_deletable ids)
delete_args_lem ids = (delete_args_from [] ids, keep-deletable ids)
