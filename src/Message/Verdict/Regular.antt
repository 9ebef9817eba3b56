-- ===== src/Message/Verdict/Regular.antt =====
-- core/message.go: what a verdict never is, and what it leaves of the message.
use clue_getter.Prelude.{
  ℕ, ◌-◌, ◌≡◌, refl, ◌∙◌, inl, inr, false, List, ltb, Bool-cases, Option-cases,
}
use clue_getter.Prelude.Text.{Text, is_empty}
use clue_getter.Prelude.Go.{Go, ok, panic, ◌>>=◌}
use clue_getter.Prelude.Float.{Float}
use clue_getter.Message.{
  Action, tempfail, reject, error, discard, same_action, CheckResult, SessionConfig, SessionInfo,
  Message,
}
use clue_getter.Message.Headers.{
  find_message_id, message_get_message_id, message_ensure_has_message_id,
}
use clue_getter.Message.Groups.{ModuleGroup, message_weigh_results}
use clue_getter.Message.Verdict.{
  deciding_message, bucket, total_scores, choose_verdict, or_unspecified, decide, gather, conclude,
  recover_verdict, message_get_verdict,
}

abbrev pub IsRegular : Go (Action × Text) → Type 0
IsRegular panic = Unit
IsRegular (ok (a, msg)) = same_action a error ≡ false

chosen-IsRegular :
    (a : Action) (msg : Go Text) → same_action a error ≡ false → IsRegular (msg >>= λ t. ok (a, t))
chosen-IsRegular a panic e = tt
chosen-IsRegular a (ok t) e = e

or_unspecified-IsRegular :
    {F : Type 0} (fl : Float F) (g : Go (Action × Text))
    → IsRegular g
    → IsRegular (g >>= λ p. ok (or_unspecified fl p))
or_unspecified-IsRegular fl panic h = tt
or_unspecified-IsRegular fl (ok (a, msg)) h = h

module _ {F : Type 0} (fl : Float F) where
  choose_verdict-IsRegular :
      (config : SessionConfig F) (totals : Action → F) (flat : List (CheckResult F))
      (error_count : ℕ)
      → IsRegular (choose_verdict fl config totals flat error_count)
  unfolding choose_verdict
  choose_verdict-IsRegular config totals flat error_count =
      elim (Bool-cases (fl.le config.breaker_score (totals discard))) [
        | inl t ↦
            rw t (chosen-IsRegular discard (deciding_message fl (bucket fl discard flat)) refl)
        | inr t ↦ elim (Bool-cases (fl.le config.message_reject_score (totals reject))) [
          | inl t' ↦
              rw (t, t')
                (chosen-IsRegular reject (deciding_message fl (bucket fl reject flat)) refl)
          | inr t' ↦ elim (Bool-cases (ltb 0 error_count)) [
            | inl t'' ↦ rw (t, t', t'') refl
            | inr t'' ↦
                elim (Bool-cases (
                  fl.le config.message_tempfail_score (fl.add (totals tempfail) (totals reject)))) [
                    | inl high ↦
                        rw (t, t', t'', high)
                          (chosen-IsRegular tempfail (deciding_message fl (bucket fl tempfail flat))
                            refl)
                    | inr low ↦ rw (t, t', t'', low) refl
                  ]
          ]
        ]
      ]

  decide-IsRegular :
      (config : SessionConfig F) (flat : List (CheckResult F)) (error_count : ℕ)
      → IsRegular (decide fl config flat error_count)
  unfolding decide
  decide-IsRegular config flat error_count =
      or_unspecified-IsRegular fl
        (choose_verdict fl config (total_scores fl (λ a. fl.zero) flat) flat error_count)
        (choose_verdict-IsRegular config (total_scores fl (λ a. fl.zero) flat) flat error_count)

  recovered :
      (config : SessionConfig F) (info : SessionInfo) (msg : Message F)
      (flat : List (CheckResult F)) (decision : Go (Action × Text))
      → IsRegular decision
      → same_action (recover_verdict fl config info msg flat decision).verdict error ≡ false
  unfolding recover_verdict
  recovered config info msg flat panic h = refl
  recovered config info msg flat (ok (a, t)) h = h

  pub message_get_verdict-ne-error :
      (config : SessionConfig F) (info : SessionInfo) (groups : List (ModuleGroup F))
      (hostname : Text) (now : ℕ) (msg : Message F) (results : List (CheckResult F))
      → same_action
          (message_get_verdict fl config info groups hostname now msg results).verdict
          error
        ≡ false
  unfolding message_get_verdict
  message_get_verdict-ne-error config info groups hostname now msg results =
      let gathered = gather fl config.breaker_score (λ a. fl.zero) results in
      let weighed = message_weigh_results fl groups gathered.flat in
      recovered config info (message_ensure_has_message_id hostname now info msg) weighed.0
        (decide fl config weighed.0 (gathered.error_count - weighed.1))
        (decide-IsRegular config weighed.0 (gathered.error_count - weighed.1))

  recovered-rcpt :
      (config : SessionConfig F) (info : SessionInfo) (msg : Message F)
      (flat : List (CheckResult F)) (decision : Go (Action × Text))
      → (recover_verdict fl config info msg flat decision).message.rcpt ≡ msg.rcpt
  unfolding recover_verdict conclude
  recovered-rcpt config info msg flat panic = refl
  recovered-rcpt config info msg flat (ok (a, t)) = refl

  ensured-rcpt :
      (hostname : Text) (now : ℕ) (info : SessionInfo) (msg : Message F)
      → (message_ensure_has_message_id hostname now info msg).rcpt ≡ msg.rcpt
  unfolding message_ensure_has_message_id
  ensured-rcpt hostname now info msg = elim (Option-cases (find_message_id msg.headers)) [
    | inr (id, found) ↦ rw (message_ensure_has_message_id, found) refl
    | inl missing ↦ elim (Bool-cases (is_empty msg.inject_message_id)) [
      | inl made_up ↦
          rw (message_ensure_has_message_id, missing, message_get_message_id, missing, made_up) refl
      | inr known ↦
          rw (message_ensure_has_message_id, missing, message_get_message_id, missing, known) refl
    ]
  ]

  pub message_get_verdict-rcpt :
      (config : SessionConfig F) (info : SessionInfo) (groups : List (ModuleGroup F))
      (hostname : Text) (now : ℕ) (msg : Message F) (results : List (CheckResult F))
      → (message_get_verdict fl config info groups hostname now msg results).message.rcpt ≡ msg.rcpt
  unfolding message_get_verdict
  message_get_verdict-rcpt config info groups hostname now msg results =
      let gathered = gather fl config.breaker_score (λ a. fl.zero) results in
      let weighed = message_weigh_results fl groups gathered.flat in
      recovered-rcpt config info (message_ensure_has_message_id hostname now info msg) weighed.0
        (decide fl config weighed.0 (gathered.error_count - weighed.1))
      ∙ ensured-rcpt hostname now info msg
