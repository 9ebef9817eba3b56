-- ===== src/Message/Verdict/Outcomes.antt =====
-- What comes out of the check of a message.
use clue_getter.Prelude.{ℕ, ◌-◌, ◌≡◌, refl, ap, ◌∙◌, false, List, [], arith, if◌then◌else◌}
use clue_getter.Prelude.Text.{Text, text, replace}
use clue_getter.Prelude.Go.{Go, ok, panic}
use clue_getter.Prelude.Float.{Float}
use clue_getter.Message.{
  Action, permit, tempfail, same_action, CheckResult, SessionConfig, SessionInfo, Message,
}
use clue_getter.Message.Headers.{message_ensure_has_message_id}
use clue_getter.Message.Groups.{ModuleGroup, message_weigh_results}
use clue_getter.Message.Groups.Start.{IsExclusive}
use clue_getter.Message.Groups.Weights.{
  sum_errors, has_failed, is_excused, message_weigh_results_errors,
}
use clue_getter.Message.Verdict.{
  gather, total_scores, decide, Outcome, recover_verdict, message_get_verdict,
}
use clue_getter.Message.Verdict.Gathering.{gather-IsGathered}
use clue_getter.Message.Verdict.Deciding.{verdict_of, lets_pass, decide_permits}

module _ {F : Type 0} where
  -- What a check leaves that panicked.
  abbrev pub IsBroken : Message F → Outcome F → Type 0
  IsBroken msg o =
      (o.saved ≡ false) × (o.callbacks ≡ []) × (o.message ≡ msg) × (o.verdict ≡ tempfail)

module _ {F : Type 0} (fl : Float F) (config : SessionConfig F) where
  -- The results that the loop took in, and the same after weighing.
  abbrev pub taken : List (CheckResult F) → List (CheckResult F)
  taken results = (gather fl config.breaker_score (λ a. fl.zero) results).flat

  abbrev pub weighed : List (ModuleGroup F) → List (CheckResult F) → List (CheckResult F)
  weighed groups results = (message_weigh_results fl groups (taken results)).0

  -- The errors that no group excuses.
  abbrev pub unexcused : List (ModuleGroup F) → List (CheckResult F) → ℕ
  unexcused groups results =
      sum_errors (λ r. if is_excused (has_failed (taken results)) groups r then 0 else 1)
        (taken results)

  error_count_lem :
      (groups : List (ModuleGroup F)) (results : List (CheckResult F))
      → IsExclusive groups
      → (gather fl config.breaker_score (λ a. fl.zero) results).error_count
          - (message_weigh_results fl groups (taken results)).1
        ≡ unexcused groups results
  error_count_lem groups results h =
      let (prefix, errors, end) = gather-IsGathered fl config.breaker_score results in
      omega (arith, errors, message_weigh_results_errors fl groups (taken results) h)

module _ {F : Type 0} (fl : Float F) (config : SessionConfig F) (info : SessionInfo) where
  recover_verdict_lem :
      (msg : Message F) (flat : List (CheckResult F)) (d : Go (Action × Text))
      → (recover_verdict fl config info msg flat d).verdict ≡ verdict_of d
  unfolding recover_verdict
  recover_verdict_lem msg flat (ok decision) = refl
  recover_verdict_lem msg flat panic = refl

  recover_verdict_fresh :
      (msg : Message F) (flat : List (CheckResult F)) (a : Action) (s : Text)
      → msg.check_results ≡ []
      → (recover_verdict fl config info msg flat (ok (a, s))).verdict_msg
        ≡ replace
            (text "%{spamFlag}")
            (if fl.le config.message_spamflag_score fl.zero then text "YES" else text "NO")
            (replace (text "%{rejectScore}") (fl.show_2 fl.zero) (
              replace
                (text "%{hostname}")
                info.mta_host_name
                (replace (text "%{clientIp}") info.ip s)))
  unfolding recover_verdict
  recover_verdict_fresh msg flat a s fresh = rw fresh

  ensure_check_results :
      (hostname : Text) (now : ℕ) (msg : Message F)
      → (message_ensure_has_message_id hostname now info msg).check_results ≡ msg.check_results
  unfolding message_ensure_has_message_id
  ensure_check_results hostname now msg = ground arith

  module _ (groups : List (ModuleGroup F)) (hostname : Text) (now : ℕ) (msg : Message F) where
    -- With groups that the program starts with, a message is permitted exactly when, of the results
    -- that were taken in, the weighed scores of the discarding ones stay below the breaker score,
    -- those of the rejecting ones below the reject score, those of the deferring and the rejecting
    -- ones together below the tempfail score, and every error is excused by a group.
    pub message_get_verdict_permits :
        (results : List (CheckResult F))
        → IsExclusive groups
        → same_action
            (message_get_verdict fl config info groups hostname now msg results).verdict
            permit
          ≡ lets_pass fl config
              (total_scores fl (λ a. fl.zero) (weighed fl config groups results))
              (unexcused fl config groups results)
    unfolding message_get_verdict
    message_get_verdict_permits results h =
        rw
          (recover_verdict_lem (message_ensure_has_message_id hostname now info msg)
            (weighed fl config groups results))
          (rw (decide_permits fl config (weighed fl config groups results)) (
            ap
              (lets_pass fl config
                (total_scores fl (λ a. fl.zero) (weighed fl config groups results)))
              (error_count_lem fl config groups results h)))

    -- The text of the verdict on a message that was not checked before reports no score of this
    -- check: its variables are filled in as for a score of zero.
    pub message_get_verdict_wording :
        (results : List (CheckResult F)) (a : Action) (s : Text)
        → IsExclusive groups
        → msg.check_results ≡ []
        → decide fl config (weighed fl config groups results) (unexcused fl config groups results)
          ≡ ok (a, s)
        → (message_get_verdict fl config info groups hostname now msg results).verdict_msg
          ≡ replace
              (text "%{spamFlag}")
              (if fl.le config.message_spamflag_score fl.zero then text "YES" else text "NO")
              (replace (text "%{rejectScore}") (fl.show_2 fl.zero) (
                replace
                  (text "%{hostname}")
                  info.mta_host_name
                  (replace (text "%{clientIp}") info.ip s)))
    unfolding message_get_verdict
    message_get_verdict_wording results a s h fresh decided =
        rw (error_count_lem fl config groups results h, decided)
          (recover_verdict_fresh (message_ensure_has_message_id hostname now info msg)
            (weighed fl config groups results) a s (ensure_check_results hostname now msg ∙ fresh))
