-- ===== src/Spamassassin/Tests.antt =====
-- Tests of the SpamAssassin module, and its theorem at a concrete input.
use clue_getter.Prelude.{ℕ, ◌≡◌, refl, true, false, none, some, List, [], ◌∷◌, arith, ltb}
use clue_getter.Prelude.Go.{ok, panic}
use clue_getter.Prelude.Text.{Text, text, cut, trim, to_upper, ◌==◌}
use clue_getter.Prelude.Float.{whole}
use clue_getter.Dict.{Dict, lookup, insert}
use clue_getter.Address.{from_string, to_string}
use clue_getter.Message.{reject}
use clue_getter.Spamassassin.{
  ReportFact, Field, number, string, field, table, Reply, answered, init_from, add_verdict_msg,
  trim_abundant_space, is_space, verdict_from, verdict_message, scan, set_vars, set_var, set_fields,
  set_field, request, message_check, sa_parse_reply_report_var, parse_facts,
}

lt_asym_whole : (a b : ℕ) → ltb a b ≡ true → ltb b a ≡ false
lt_asym_whole a b h = ground (arith, h)

lt_connects_whole : (a b c : ℕ) → ltb a b ≡ false → ltb b c ≡ false → ltb a c ≡ false
lt_connects_whole a b c h k = ground (arith, h, k)

msgs : Dict Text
unfolding init_from add_verdict_msg trim_abundant_space is_space verdict_message verdict_from scan
    set_vars set_var set_fields set_field request message_check sa_parse_reply_report_var
    parse_facts to_upper cut trim ◌==◌ lookup insert to_string from_string
msgs = (text "URIBL", text "bad link") ∷ ((text "BAYES", text "looks bad") ∷ [])

-- Keys are stored in upper case: a second text for a key in lower case replaces the first.
init_test :
    (init_from
        (text "uribl: a   link " ∷ (text "uribl: bad link" ∷ (text "BAYES:looks bad" ∷ [])))
        []
      ≡ some msgs)
    × (init_from (text "URIBL: a" ∷ (text "URIBL: b" ∷ [])) [] ≡ none)
    × (init_from (text "URIBL a" ∷ []) [] ≡ none)
unfolding msgs
init_test = (refl, refl, refl)

abbrev raw : ℕ → Text → Dict (Field ℕ)
raw score symbol = (text "symbol", string symbol) ∷ ((text "score", number score) ∷ [])

abbrev service : Text × Text → Reply ℕ
service asked = answered 0 (
    (text "spamScore", field (number 7))
    ∷ ((
      text "report",
      table (raw 1 (text "BAYES") ∷ (raw 4 (text "URIBL") ∷ (raw 9 (text "OTHER") ∷ []))),
    )
        ∷ []))

abbrev fact : ℕ → Text → ReportFact ℕ
fact score symbol = record { score = score; symbol = symbol; description = [] }

abbrev facts : List (ReportFact ℕ)
facts = fact 1 (text "BAYES") ∷ (fact 4 (text "URIBL") ∷ (fact 9 (text "OTHER") ∷ []))

message_check_test :
    (message_check whole msgs 25
        (λ fs. fs)
        0
        service
        true
        false
        100
        (text "body")
        (from_string (text "a@b") ∷ [])
      ≡ ok (
          some (record {
            module_name = text "spamassassin";
            suggested_action = reject;
            message = text "bad link";
            score = 7;
            weighted_score = 0;
            callbacks = [];
          })))
    × (message_check whole msgs 25 (λ fs. fs) 0 service true true 100 (text "body") [] ≡ ok none)
    × (message_check whole msgs 25 (λ fs. fs) 0 service true false 100 (text "body") [] ≡ panic)
unfolding msgs
message_check_test = (refl, refl, refl)
