-- ===== src/Message/Tests.antt =====
-- Tests of the message handler with whole scores, and its theorems at concrete inputs.
use clue_getter.Prelude.{
  ℕ, ◌+◌, ◌≤◌, ◌≡◌, ◌⊎◌, refl, true, false, some, List, [], ◌∷◌, keep, map, All, if◌then◌else◌,
}
use clue_getter.Prelude.Text.{Text, text}
use clue_getter.Prelude.Go.{ok}
use clue_getter.Prelude.Float.{whole, parse_digits}
use clue_getter.Address.{from_string}
use clue_getter.Message.{
  Action, permit, tempfail, reject, error, action_code, same_action, new_header, tally, CheckResult,
  SessionConfig, SessionInfo, Message, new_message,
}
use clue_getter.Message.Headers.{
  find_message_id, message_get_message_id, message_ensure_has_message_id, substituted,
  replaced_headers, message_get_mutable_headers,
}
use clue_getter.Message.Headers.Filter.{has_value, planned_headers, message_get_mutable_headers_lem}
use clue_getter.Message.Headers.Ids.{message_ensure_has_message_id_lem}
use clue_getter.Message.Groups.{ModuleGroup, message_start_module_groups, message_weigh_results}
use clue_getter.Message.Groups.Start.{IsExclusive, message_start_module_groups-IsExclusive}
use clue_getter.Message.Groups.Weights.{
  count_errors, sum_errors, has_failed, is_excused, message_weigh_results_errors,
}
use clue_getter.Message.Verdict.{total_scores, decide, message_get_verdict}
use clue_getter.Message.Verdict.Deciding.{lets_pass}
use clue_getter.Message.Verdict.Outcomes.{weighed, unexcused, message_get_verdict_permits}
use clue_getter.Message.Recipients.{
  message_accept_recipient, has_error, Among, message_accept_recipient_lem,
}

config : SessionConfig ℕ
unfolding message_get_verdict message_start_module_groups parse_digits message_get_mutable_headers
    new_message from_string
config = record {
  message_reject_score = 8;
  message_tempfail_score = 5;
  message_spamflag_score = 4;
  breaker_score = 100;
  insert_missing_message_id = true;
}

info : SessionInfo
info = record { ip = text "192.0.2.1"; mta_host_name = text "mx" }

abbrev result : Text → Action → ℕ → CheckResult ℕ
result name action score = record {
  module_name = name;
  suggested_action = action;
  message = text "spam";
  score = score;
  weighted_score = 0;
  callbacks = tally name 1 ∷ [];
}

abbrev groups_config : List (Text × List Text)
groups_config = (text "filters", text "2 rspamd" ∷ text "1 spamassassin" ∷ []) ∷ []

groups : List (ModuleGroup ℕ)
groups =
    (record {
      members =
          (record { module_name = text "rspamd"; weight = 2 })
          ∷ (record { module_name = text "spamassassin"; weight = 1 })
          ∷ [];
      name = text "filters";
      total_weight = 3;
    })
    ∷ []

starts : message_start_module_groups whole [] groups_config ≡ some groups
unfolding config groups
starts = refl

groups-IsExclusive : IsExclusive groups
groups-IsExclusive = message_start_module_groups-IsExclusive whole groups_config groups starts

mail : Message ℕ
unfolding config info groups
mail =
    record (new_message 0 (
      record (new_header (text "X-To") (text "%{recipient}")) { flag_unique = true }
      ∷ new_header (text "X-Empty") []
      ∷ [])) {
        queue_id = text "Q1";
        sender = from_string (text "alice@example.net");
        rcpt = from_string (text "bob@example.com") ∷ from_string (text "carol@example.com") ∷ [];
        headers = new_header (text "x-to") (text "someone") ∷ [];
      }

-- In the gray zone: 6 points of rejecting results, and none that defers.
abbrev gray : List (CheckResult ℕ)
gray = result (text "clamav") reject 6 ∷ []

-- A group of which one member fails, and a rejecting result.
abbrev partly : List (CheckResult ℕ)
partly = result (text "rspamd") error 25 ∷ result (text "spamassassin") reject 1 ∷ []

verdict_tests :
    ((message_get_verdict whole config info groups (text "mx") 0 mail gray).verdict ≡ tempfail)
    × ((message_get_verdict whole config info groups (text "mx") 0 mail gray).saved ≡ false)
    × ((message_get_verdict whole config info groups (text "mx") 0 mail partly).verdict ≡ permit)
    × ((message_get_verdict whole config info groups (text "mx") 0 mail partly).message.reject_score
        ≡ 3)
unfolding mail
verdict_tests = (refl, refl, refl, refl)

message_get_verdict_permits_example :
    same_action
      (message_get_verdict whole config info groups (text "mx") 0 mail partly).verdict
      permit
    ≡ lets_pass whole config
        (total_scores whole (λ a. 0) (weighed whole config groups partly))
        (unexcused whole config groups partly)
message_get_verdict_permits_example =
    message_get_verdict_permits whole config info groups (text "mx") 0 mail partly
      groups-IsExclusive

decided :
    decide whole config
      (weighed whole config groups (result (text "clamav") reject 9 ∷ []))
      (unexcused whole config groups (result (text "clamav") reject 9 ∷ []))
    ≡ ok (reject, text "spam")
unfolding mail
decided = refl

message_weigh_results_errors_example :
    (message_weigh_results whole groups partly).1
      + sum_errors (λ r. if is_excused (has_failed partly) groups r then 0 else 1) partly
    ≡ count_errors partly
message_weigh_results_errors_example =
    message_weigh_results_errors whole groups partly groups-IsExclusive

message_start_module_groups-IsExclusive_example : IsExclusive groups
message_start_module_groups-IsExclusive_example =
    message_start_module_groups-IsExclusive whole groups_config groups starts

message_get_mutable_headers_lem_example :
    message_get_mutable_headers whole config info mail
    ≡ ok (
      record mail {
        add_headers = keep has_value (
            map (substituted whole config info mail) (
              planned_headers config mail
                (from_string (text "bob@example.com"))
                (from_string (text "carol@example.com") ∷ [])));
      },
      replaced_headers mail.headers (
          planned_headers config mail
            (from_string (text "bob@example.com"))
            (from_string (text "carol@example.com") ∷ [])),
    )
unfolding mail
message_get_mutable_headers_lem_example =
    message_get_mutable_headers_lem whole config info mail (from_string (text "bob@example.com"))
      (from_string (text "carol@example.com") ∷ []) refl

message_ensure_has_message_id_lem_example :
    (find_message_id (message_ensure_has_message_id (text "mx") 7 info mail).headers
      ≡ some (message_get_message_id (text "mx") 7 info mail).1)
    × ((message_get_message_id
          (text "mx")
          9
          info
          (message_ensure_has_message_id (text "mx") 7 info mail)).1
        ≡ (message_get_message_id (text "mx") 7 info mail).1)
    × (message_ensure_has_message_id
          (text "mx")
          9
          info
          (message_ensure_has_message_id (text "mx") 7 info mail)
        ≡ message_ensure_has_message_id (text "mx") 7 info mail)
message_ensure_has_message_id_lem_example =
    message_ensure_has_message_id_lem (text "mx") 7 info mail 9

abbrev answers : List (Action × Text)
answers = (permit, []) ∷ (reject, text "unknown") ∷ (tempfail, text "later") ∷ []

message_accept_recipient_lem_example :
    (has_error answers ≡ true
      → ((message_accept_recipient answers).0 ≡ error)
        × Among (message_accept_recipient answers) answers)
    × (has_error answers ≡ false
        → All
            (λ (a : Action × Text).
              action_code a.0 ≤ action_code (message_accept_recipient answers).0)
            answers
          × ((message_accept_recipient answers ≡ (permit, []))
              ⊎ Among (message_accept_recipient answers) answers))
message_accept_recipient_lem_example = message_accept_recipient_lem answers
