-- ===== src/Bounces/Tests.antt =====
-- Tests of the bounces, and the theorem at a concrete input.
use clue_getter.Prelude.{
  ◌≡◌, refl, Bool, true, false, not, ◌&&◌, Option, none, some, if◌then◌else◌, [], ◌∷◌,
}
use clue_getter.Prelude.Text.{Text, text, contains, starts_with, trim_left, ◌==◌}
use clue_getter.Bounces.{
  MailReader, Bounce, Effects, take_part, take_parts, paragraphs, should_report_bayes, bayes_reason,
  parse_report_mime, read_all, get_bounce_reasons, get_header_from_bytes, get_message_id,
  rcpt_report, finish_report, parse_report,
}
use clue_getter.Bounces.Reasons.{blames_content, blames, last_or, finish_report_lem}

-- A header is the text of its mail, whose fields are all the text itself; the mail has two parts.
reader : MailReader Text
unfolding take_part take_parts paragraphs should_report_bayes bayes_reason parse_report_mime
    read_all get_bounce_reasons get_header_from_bytes get_message_id rcpt_report finish_report
    parse_report contains starts_with trim_left ◌==◌
reader = record {
  read_message = λ s. some (s, text "it is spam");
  get = λ hdrs field. hdrs;
  parse_media_type = λ s. some (text "multipart/report", text "b");
  parts = λ body boundary.
      (record { description = text "Delivery report"; content = some (text "d") } ∷ [], true);
}

abbrev pub is_some : {A : Type 0} → Option A → Bool
is_some none = false
is_some (some a) = true

abbrev out : Bool → Effects Text
unfolding reader
out bayes_enabled =
    parse_report reader (λ bounce. true) bayes_enabled (text "mx") 1000 1 (text "spam")

paragraphs_test :
    (paragraphs (10 ∷ (10 ∷ (10 ∷ []))) ≡ [] ∷ ((10 ∷ []) ∷ []))
    × (paragraphs (1 ∷ (10 ∷ (10 ∷ (2 ∷ [])))) ≡ (1 ∷ []) ∷ ((2 ∷ []) ∷ []))
unfolding paragraphs
paragraphs_test = (refl, refl)

parse_report_test :
    (is_some (out true).saved ≡ true)
    × (is_some (out true).deleted ≡ true)
    × ((out false).panicked ≡ true)
    × (is_some (out false).deleted ≡ false)
unfolding reader
parse_report_test = (refl, refl, refl, refl)

abbrev bounce : Bounce Text
bounce = record {
  instance_id = 1;
  date_of = [];
  mta = text "mx";
  queue_id = text "4F1";
  message_id = text "<1@a>";
  sender = text "ann@a.org";
  rcpt_reports =
      record {
        status = text "5.7.1";
        orig_recipient = [];
        final_recipient = text "bob@b.org";
        remote_mta = [];
        diag_code = text "554 unsolicited mail";
      }
      ∷ [];
}

finish_report_lem_example :
    ((finish_report true true bounce (text "4F1")).saved ≡ some bounce)
    × ((finish_report true true bounce (text "4F1")).learned ≡ (
        if blames_content bounce.rcpt_reports && true
        then some (text "<1@a>", (text "mx", last_or [] (blames bounce.rcpt_reports)))
        else none))
    × ((finish_report true true bounce (text "4F1")).deleted
        ≡ (if blames_content bounce.rcpt_reports && true then some (text "4F1") else none))
    × ((finish_report true true bounce (text "4F1")).panicked
        ≡ (blames_content bounce.rcpt_reports && not true))
finish_report_lem_example = finish_report_lem true bounce (text "4F1")

blames_test : last_or [] (blames bounce.rcpt_reports) ≡ text "554 unsolicited mail"
unfolding reader
blames_test = refl
