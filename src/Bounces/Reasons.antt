-- ===== src/Bounces/Reasons.antt =====
-- bounceHandler/bounceHandler.go: what a report makes the program do.
use clue_getter.Prelude.{
  ◌≡◌, refl, ap, ◌∙◌, inl, inr, Bool, true, false, not, ◌&&◌, none, some, List, [], ◌∷◌, any, keep,
  map, if◌then◌else◌, Bool-cases,
}
use clue_getter.Prelude.Text.{Text, contains, is_empty}
use clue_getter.Bounces.{RcptReport, Bounce, told, should_report_bayes, bayes_reason, finish_report}

-- Some recipient's host calls the mail spam, or its content unsafe.
abbrev pub blames_content : List RcptReport → Bool
unfolding should_report_bayes
blames_content = any (λ (r : RcptReport). should_report_bayes r.diag_code)

no_code : (code : Text) → is_empty code ≡ true → should_report_bayes code ≡ false
unfolding should_report_bayes contains
no_code [] e = refl
no_code (c ∷ code) e = absurd cc

has_code : (code : Text) → should_report_bayes code ≡ true → is_empty code ≡ false
has_code code h = elim (Bool-cases (is_empty code)) [
  | inl none_given ↦ absurd (cc (h, no_code code none_given))
  | inr given ↦ given
]

and_true : (b : Bool) → b ≡ (b && true)
and_true true = refl
and_true false = refl

and_false : (b : Bool) → false ≡ (b && false)
and_false true = refl
and_false false = refl

not-not : (b : Bool) → not (not b) ≡ b
not-not true = refl
not-not false = refl

is_empty-bayes_reason :
    (reason : Text) (rs : List RcptReport)
    → is_empty (bayes_reason reason rs) ≡ (is_empty reason && not (blames_content rs))
unfolding bayes_reason blames_content
is_empty-bayes_reason reason [] = and_true (is_empty reason)
is_empty-bayes_reason reason (r ∷ rs) = elim (Bool-cases (should_report_bayes r.diag_code)) [
  | inl blamed ↦
      rw (blamed, is_empty-bayes_reason r.diag_code rs, has_code r.diag_code blamed)
        (and_false (is_empty reason))
  | inr other ↦ rw other (is_empty-bayes_reason reason rs)
]

-- The last of some texts, the given one where there is none.
abbrev pub last_or : Text → List Text → Text
last_or default [] = default
last_or default (s ∷ ss) = last_or s ss

-- What the hosts of the recipients say that blame the content.
abbrev pub blames : List RcptReport → List Text
unfolding should_report_bayes
blames rs = keep should_report_bayes (map (λ (r : RcptReport). r.diag_code) rs)

bayes_reason_lem :
    (reason : Text) (rs : List RcptReport) → bayes_reason reason rs ≡ last_or reason (blames rs)
unfolding bayes_reason
bayes_reason_lem reason [] = refl
bayes_reason_lem reason (r ∷ rs) = elim (Bool-cases (should_report_bayes r.diag_code)) [
  | inl blamed ↦ rw blamed (bayes_reason_lem r.diag_code rs)
  | inr other ↦ rw other (bayes_reason_lem reason rs)
]

told_lem :
    {H : Type 0} (bayes_enabled : Bool) (bounce : Bounce H) (reason queue_id : Text)
    → ((told bayes_enabled bounce reason queue_id).saved ≡ some bounce)
      × ((told bayes_enabled bounce reason queue_id).learned ≡ (
          if not (is_empty reason) && bayes_enabled
          then some (bounce.message_id, (bounce.mta, reason))
          else none))
      × ((told bayes_enabled bounce reason queue_id).deleted
          ≡ (if not (is_empty reason) && bayes_enabled then some queue_id else none))
      × ((told bayes_enabled bounce reason queue_id).panicked
          ≡ (not (is_empty reason) && not bayes_enabled))
told_lem bayes_enabled bounce [] queue_id = (refl, refl, refl, refl)
told_lem true bounce (c ∷ reason) queue_id = (refl, refl, refl, refl)
told_lem false bounce (c ∷ reason) queue_id = (refl, refl, refl, refl)

-- A bounce that the database saves, where the host of some recipient blames the content: with the bayes
-- module enabled, it is told the message id, the reporting host and the last text that blames the
-- content, and the deletion of the report's queue id, which may be empty, is asked for; otherwise the
-- program panics after saving, and neither happens. Where no host blames the content, neither happens,
-- and nothing panics.
pub finish_report_lem :
    {H : Type 0} (bayes_enabled : Bool) (bounce : Bounce H) (queue_id : Text)
    → ((finish_report true bayes_enabled bounce queue_id).saved ≡ some bounce)
      × ((finish_report true bayes_enabled bounce queue_id).learned ≡ (
          if blames_content bounce.rcpt_reports && bayes_enabled
          then some (bounce.message_id, (bounce.mta, last_or [] (blames bounce.rcpt_reports)))
          else none))
      × ((finish_report true bayes_enabled bounce queue_id).deleted
          ≡ (if blames_content bounce.rcpt_reports && bayes_enabled then some queue_id else none))
      × ((finish_report true bayes_enabled bounce queue_id).panicked
          ≡ (blames_content bounce.rcpt_reports && not bayes_enabled))
unfolding finish_report
finish_report_lem bayes_enabled bounce queue_id =
    let reason = bayes_reason [] bounce.rcpt_reports in
    let blamed : not (is_empty reason) ≡ blames_content bounce.rcpt_reports =
      ap not (is_empty-bayes_reason [] bounce.rcpt_reports) ∙ not-not _ in
    let (saved, learned, deleted, panicked) = told_lem bayes_enabled bounce reason queue_id in
    (
      saved,
      learned
          ∙ ap
              (λ b.
                if b && bayes_enabled then some (bounce.message_id, (bounce.mta, reason)) else none)
              blamed
          ∙ ap
              (λ r.
                if blames_content bounce.rcpt_reports && bayes_enabled
                then some (bounce.message_id, (bounce.mta, r))
                else none)
              (bayes_reason_lem [] bounce.rcpt_reports),
      deleted ∙ ap (λ b. if b && bayes_enabled then some queue_id else none) blamed,
      panicked ∙ ap (λ b. b && not bayes_enabled) blamed,
    )
