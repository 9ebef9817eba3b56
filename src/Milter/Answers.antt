-- ===== src/Milter/Answers.antt =====
-- core/milter.go: what `Eom` answers.
use clue_getter.Prelude.{ℕ, ◌≡◌, refl, ◌∙◌, inl, inr, false, List, ◌∷◌, Bool-cases, if◌then◌else◌}
use clue_getter.Prelude.Text.{Text}
use clue_getter.Prelude.Go.{Go, ok, panic, ◌>>=◌}
use clue_getter.Prelude.Float.{Float}
use clue_getter.Address.{Address}
use clue_getter.Message.{
  Action, permit, tempfail, reject, error, discard, same_action, Header, CheckResult, Message,
}
use clue_getter.Message.Headers.{message_get_mutable_headers}
use clue_getter.Message.Headers.Filter.{message_get_mutable_headers_lem}
use clue_getter.Message.Groups.{ModuleGroup}
use clue_getter.Message.Verdict.{Outcome, message_get_verdict}
use clue_getter.Message.Verdict.Regular.{message_get_verdict-ne-error, message_get_verdict-rcpt}
use clue_getter.Milter.{
  Session, Status, continue, accept, reject_it, discard_it, tempfail_it, Milter, MilterConfig,
  is_whitelisted,
}
use clue_getter.Milter.Mail.{session_info, answer_verdict, finish_mail, end_mail, eom_with}

-- The answer to a verdict.
abbrev pub status_of : Action → Status
status_of permit = accept
status_of tempfail = tempfail_it
status_of reject = reject_it
status_of error = tempfail_it
status_of discard = discard_it

finish_mail-answer :
    {F : Type 0} (config : MilterConfig) (m : Milter F) (s : Session F) (msg : Message F)
    (deletes : List Header) (verdict : Action) (verdict_msg : Text)
    → same_action verdict error ≡ false
    → (finish_mail config m s msg deletes (verdict, verdict_msg)).1
      ≡ ok (
          if config.noop
          then continue
          else if is_whitelisted config s
          then accept
          else status_of verdict)
unfolding finish_mail answer_verdict
finish_mail-answer config m s msg deletes verdict verdict_msg h =
    elim (Bool-cases (is_whitelisted config s)) [
      | inl listed ↦ rw listed refl
      | inr other ↦ rw other (answered verdict h)
    ]
  where
    answered :
        (a : Action)
        → same_action a error ≡ false
        → ((answer_verdict msg.queue_id a verdict_msg).1 >>= λ answer.
            ok (if config.noop then continue else answer))
          ≡ ok (if config.noop then continue else status_of a)
    answered permit e = refl
    answered tempfail e = refl
    answered reject e = refl
    answered discard e = refl
    answered error e = absurd (cc e)

end_mail-answer :
    {F : Type 0} (config : MilterConfig) (m : Milter F) (s : Session F) (outcome : Outcome F)
    (headers : Go (Message F × List Header)) (p : Message F × List Header)
    → headers ≡ ok p
    → same_action outcome.verdict error ≡ false
    → (end_mail config m s outcome headers).1
      ≡ ok (
          if config.noop
          then continue
          else if is_whitelisted config s
          then accept
          else status_of outcome.verdict)
unfolding end_mail
end_mail-answer config m s outcome panic p e h = absurd (cc e)
end_mail-answer config m s outcome (ok (msg, deletes)) p e h =
    finish_mail-answer config m s msg deletes outcome.verdict outcome.verdict_msg h

-- For a message with a recipient, the end of the mail is answered and never panics: by `continue` in
-- the test mode, else by an acceptance for a session from a whitelisted address, and by what fits
-- the verdict for the others.
pub eom_answers :
    {F : Type 0} (fl : Float F) (config : MilterConfig) (groups : List (ModuleGroup F))
    (hostname : Text) (now : ℕ) (results : List (CheckResult F)) (m : Milter F) (s : Session F)
    (msg : Message F) (first : Address) (rest : List Address)
    → msg.rcpt ≡ first ∷ rest
    → (eom_with fl config groups hostname now results m s msg).1
      ≡ ok (
          if config.noop
          then continue
          else if is_whitelisted config s
          then accept
          else status_of
              (message_get_verdict fl s.config
                (session_info s)
                groups
                hostname
                now
                msg
                results).verdict)
unfolding eom_with end_mail
eom_answers fl config groups hostname now results m s msg first rest e =
    let outcome =
      message_get_verdict fl s.config (session_info s) groups hostname now msg results in
    let rcpt =
      message_get_verdict-rcpt fl s.config (session_info s) groups hostname now msg results ∙ e in
    end_mail-answer config m s outcome
      (message_get_mutable_headers fl s.config (session_info s) outcome.message) _
      (message_get_mutable_headers_lem fl s.config (session_info s) outcome.message first rest rcpt)
      (message_get_verdict-ne-error fl s.config (session_info s) groups hostname now msg results)
