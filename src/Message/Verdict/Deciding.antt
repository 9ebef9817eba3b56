-- ===== src/Message/Verdict/Deciding.antt =====
-- How the weighed scores and the errors make a verdict.
use clue_getter.Prelude.{
  ℕ, ◌≡◌, ◌≢◌, refl, sym, ap, inl, inr, Bool, true, false, not, ◌&&◌, List, [], ◌∷◌, if◌then◌else◌,
  ltb, Bool-cases, All,
}
use clue_getter.Prelude.Text.{Text, text}
use clue_getter.Prelude.Go.{Go, ok, panic, ◌>>=◌, Go-cases}
use clue_getter.Prelude.Float.{Float}
use clue_getter.Message.{
  Action, permit, tempfail, reject, error, discard, same_action, CheckResult, SessionConfig,
}
use clue_getter.Message.Verdict.{
  bucket, deciding_message, total_scores, choose_verdict, or_unspecified, decide,
}

-- The verdict that a decision comes to, where a panic is recovered from.
abbrev pub verdict_of : Go (Action × Text) → Action
verdict_of (ok (a, msg)) = a
verdict_of panic = tempfail

module _ {F : Type 0} (fl : Float F) (config : SessionConfig F) where
  -- The scores and the number of errors let a message pass.
  abbrev pub lets_pass : (Action → F) → ℕ → Bool
  lets_pass totals error_count =
      not (fl.le config.breaker_score (totals discard))
      && (not (fl.le config.message_reject_score (totals reject))
          && (not (ltb 0 error_count)
              && not
                  (fl.le config.message_tempfail_score (fl.add (totals tempfail) (totals reject)))))

  chosen_permits :
      (a : Action) (m : Go Text)
      → same_action a permit ≡ false
      → same_action
          (verdict_of (m >>= (λ msg. ok (a, msg)) >>= λ chosen. ok (or_unspecified fl chosen)))
          permit
        ≡ false
  chosen_permits a (ok msg) h = h
  chosen_permits a panic h = refl

  decide_permits_rest :
      (flat : List (CheckResult F)) (error_count : ℕ)
      → same_action
          (verdict_of (
            (if ltb 0 error_count
              then ok (tempfail, text "An internal server error ocurred")
              else if fl.le config.message_tempfail_score (
                  fl.add
                    (total_scores fl (λ a. fl.zero) flat tempfail)
                    (total_scores fl (λ a. fl.zero) flat reject))
              then deciding_message fl (bucket fl tempfail flat) >>= (λ msg. ok (tempfail, msg))
              else ok (permit, []))
            >>= λ chosen. ok (or_unspecified fl chosen)))
          permit
        ≡ (not (ltb 0 error_count)
            && not (
                fl.le config.message_tempfail_score (
                  fl.add
                    (total_scores fl (λ a. fl.zero) flat tempfail)
                    (total_scores fl (λ a. fl.zero) flat reject))))
  decide_permits_rest flat error_count = elim (Bool-cases (ltb 0 error_count)) [
    | inl t ↦ rw t
    | inr t ↦
        rw t
          (elim (Bool-cases (
            fl.le config.message_tempfail_score (
              fl.add (total_scores fl (λ a. fl.zero) flat tempfail)
                (total_scores fl (λ a. fl.zero) flat reject)))) [
                  | inl t' ↦ rw t' (chosen_permits tempfail _ refl)
                  | inr t' ↦ rw t'
                ])
  ]

  ok_eq : {A : Type 0} {x y : A} → ok x ≡ ok y → x ≡ y
  ok_eq e = cc

  or_unspecified-ne-empty :
      (chosen : Action × Text) (a : Action) (msg : Text)
      → or_unspecified fl chosen ≡ (a, msg)
      → a ≢ permit
      → msg ≢ []
  or_unspecified-ne-empty (permit, text') a msg e ne = absurd (ne (sym (ap (λ p. p.0) e)))
  or_unspecified-ne-empty (tempfail, []) a msg e ne = rw (← ap (λ p. p.1) e) (λ h. cc h)
  or_unspecified-ne-empty (tempfail, c ∷ s) a msg e ne = rw (← ap (λ p. p.1) e) (λ h. cc h)
  or_unspecified-ne-empty (reject, []) a msg e ne = rw (← ap (λ p. p.1) e) (λ h. cc h)
  or_unspecified-ne-empty (reject, c ∷ s) a msg e ne = rw (← ap (λ p. p.1) e) (λ h. cc h)
  or_unspecified-ne-empty (error, []) a msg e ne = rw (← ap (λ p. p.1) e) (λ h. cc h)
  or_unspecified-ne-empty (error, c ∷ s) a msg e ne = rw (← ap (λ p. p.1) e) (λ h. cc h)
  or_unspecified-ne-empty (discard, []) a msg e ne = rw (← ap (λ p. p.1) e) (λ h. cc h)
  or_unspecified-ne-empty (discard, c ∷ s) a msg e ne = rw (← ap (λ p. p.1) e) (λ h. cc h)

  bucket_none :
      (flat : List (CheckResult F))
      → All (λ r. same_action r.suggested_action tempfail ≡ false) flat
      → bucket fl tempfail flat ≡ []
  bucket_none [] h = refl
  bucket_none (r ∷ rs) (e, h) = rw e (bucket_none rs h)

  pub decide_permits :
      (flat : List (CheckResult F)) (error_count : ℕ)
      → same_action (verdict_of (decide fl config flat error_count)) permit
        ≡ lets_pass (total_scores fl (λ a. fl.zero) flat) error_count
  unfolding decide choose_verdict
  decide_permits flat error_count =
      let totals : Action → F = total_scores fl (λ a. fl.zero) flat in
      elim (Bool-cases (fl.le config.breaker_score (totals discard))) [
        | inl t ↦ rw t (chosen_permits discard _ refl)
        | inr t ↦ rw t (elim (Bool-cases (fl.le config.message_reject_score (totals reject))) [
          | inl t' ↦ rw t' (chosen_permits reject _ refl)
          | inr t' ↦ rw t' (decide_permits_rest flat error_count)
        ])
      ]

  -- Whatever a decision other than a permit is, it comes with a text.
  pub decide-ne-empty :
      (flat : List (CheckResult F)) (error_count : ℕ) (a : Action) (msg : Text)
      → decide fl config flat error_count ≡ ok (a, msg)
      → a ≢ permit
      → msg ≢ []
  unfolding decide
  decide-ne-empty flat error_count a msg e ne =
      elim (Go-cases
        (choose_verdict fl config (total_scores fl (λ b. fl.zero) flat) flat error_count)) [
          | inl broken ↦ absurd (cc (rw (broken, decide) at e))
          | inr (chosen, found) ↦
              or_unspecified-ne-empty chosen a msg (ok_eq (rw (found, decide) at e)) ne
        ]

  -- The scores of the rejecting and the deferring results together reach the tempfail score, those of
  -- the rejecting ones do not reach the reject score, no error counts, and no result defers: then the
  -- decision panics, as it asks for the message of a deferring result.
  pub decide_panics :
      (flat : List (CheckResult F))
      → fl.le config.breaker_score (total_scores fl (λ a. fl.zero) flat discard) ≡ false
      → fl.le config.message_reject_score (total_scores fl (λ a. fl.zero) flat reject) ≡ false
      → fl.le config.message_tempfail_score (
          fl.add
            (total_scores fl (λ a. fl.zero) flat tempfail)
            (total_scores fl (λ a. fl.zero) flat reject))
        ≡ true
      → All (λ r. same_action r.suggested_action tempfail ≡ false) flat
      → decide fl config flat 0 ≡ panic
  unfolding decide choose_verdict deciding_message
  decide_panics flat low low' high no_deferral =
      rw (low, low', high, bucket_none flat no_deferral) refl
