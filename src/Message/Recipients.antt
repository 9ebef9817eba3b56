-- ===== src/Message/Recipients.antt =====
-- core/message.go: whether a recipient is accepted, by the answers of the modules in their order.
use clue_getter.Prelude.{
  ◌≤◌, ◌≡◌, ◌⊎◌, refl, sym, ap, ◌∙◌, inl, inr, Bool, true, false, List, [], ◌∷◌, arith,
  if◌then◌else◌, ltb, any, All, Bool-cases,
}
use mathlib.Core.Path.{subst}
use clue_getter.Prelude.Text.{Text}
use clue_getter.Message.{Action, permit, error, action_code, same_action}

-- The loop, with the verdict so far; the answers of the modules that are enabled.
pub accept_from : Action × Text → List (Action × Text) → Action × Text
accept_from final [] = final
accept_from final (answer ∷ answers) =
    let rest =
      accept_from (if ltb (action_code final.0) (action_code answer.0) then answer else final)
        answers in
    if same_action answer.0 error then answer else rest

-- `messageAcceptRecipient`
unfoldable pub message_accept_recipient : List (Action × Text) → Action × Text
unfolding accept_from
message_accept_recipient answers = accept_from (permit, []) answers

abbrev pub has_error : List (Action × Text) → Bool
has_error = any (λ (answer : Action × Text). same_action answer.0 error)

-- An answer stands in the list.
abbrev pub Among : Action × Text → List (Action × Text) → Type 0
Among a [] = ⊥
Among a (answer ∷ answers) = (a ≡ answer) ⊎ Among a answers

-- With no error among the answers the verdict is the gravest of them, or a permit with no text.
abbrev IsGravest : Action × Text → List (Action × Text) → Action × Text → Type 0
IsGravest final answers result =
    (action_code final.0 ≤ action_code result.0)
    × All (λ (a : Action × Text). action_code a.0 ≤ action_code result.0) answers
    × ((result ≡ final) ⊎ Among result answers)

accept_from_stop :
    (final answer : Action × Text) (answers : List (Action × Text))
    → same_action answer.0 error ≡ true
    → accept_from final (answer ∷ answers) ≡ answer
unfolding accept_from
accept_from_stop final answer answers h = rw h

accept_from_next :
    (final answer : Action × Text) (answers : List (Action × Text))
    → same_action answer.0 error ≡ false
    → accept_from final (answer ∷ answers)
      ≡ accept_from
          (if ltb (action_code final.0) (action_code answer.0) then answer else final)
          answers
unfolding accept_from
accept_from_next final answer answers h = rw h

accept_from-IsGravest :
    (final : Action × Text) (answers : List (Action × Text))
    → has_error answers ≡ false
    → IsGravest final answers (accept_from final answers)
accept_from-IsGravest final [] h = unfold accept_from in (omega arith, tt, inl refl)
accept_from-IsGravest final (answer ∷ answers) h = elim (Bool-cases (same_action answer.0 error)) [
  | inl bad ↦ absurd (ground arith)
  | inr good ↦ elim (Bool-cases (ltb (action_code final.0) (action_code answer.0))) [
    | inl graver ↦
        let (lower, all_lower, source) = accept_from-IsGravest answer answers (ground arith) in
        subst (IsGravest final (answer ∷ answers))
          (sym (
            accept_from_next final answer answers good
            ∙ ap (λ b. accept_from (if b then answer else final) answers) graver))
          (
            ground (arith, lower),
            (lower, all_lower),
            elim source [ inl e ↦ inr (inl e) | inr m ↦ inr (inr m) ],
          )
    | inr lighter ↦
        let (lower, all_lower, source) = accept_from-IsGravest final answers (ground arith) in
        subst (IsGravest final (answer ∷ answers))
          (sym (
            accept_from_next final answer answers good
            ∙ ap (λ b. accept_from (if b then answer else final) answers) lighter))
          (
            lower,
            (ground (arith, lower), all_lower),
            elim source [ inl e ↦ inl e | inr m ↦ inr (inr m) ],
          )
  ]
]

accept_from_error :
    (final : Action × Text) (answers : List (Action × Text))
    → has_error answers ≡ true
    → ((accept_from final answers).0 ≡ error) × Among (accept_from final answers) answers
accept_from_error final [] h = absurd (cc)
accept_from_error final (answer ∷ answers) h = elim (Bool-cases (same_action answer.0 error)) [
  | inl bad ↦ rw (accept_from_stop final answer answers bad) (ground arith, inl refl)
  | inr good ↦
      let (failed, source) =
        accept_from_error
          (if ltb (action_code final.0) (action_code answer.0) then answer else final) answers
          (ground arith) in
      subst (λ r. (r.0 ≡ error) × Among r (answer ∷ answers))
        (sym (accept_from_next final answer answers good)) (failed, inr source)
]

-- A recipient gets an error exactly if a module answers with one, and then the answer of such a
-- module; else the gravest of the answers, which is one of them or a permit with no text.
pub message_accept_recipient_lem :
    (answers : List (Action × Text))
    → (has_error answers ≡ true
        → ((message_accept_recipient answers).0 ≡ error)
          × Among (message_accept_recipient answers) answers)
      × (has_error answers ≡ false
          → All
              (λ (a : Action × Text).
                action_code a.0 ≤ action_code (message_accept_recipient answers).0)
              answers
            × ((message_accept_recipient answers ≡ (permit, []))
                ⊎ Among (message_accept_recipient answers) answers))
unfolding message_accept_recipient
message_accept_recipient_lem answers = (
  accept_from_error (permit, []) answers,
  λ h.
      let (lower, all_lower, source) = accept_from-IsGravest (permit, []) answers h in
      (all_lower, source),
)
