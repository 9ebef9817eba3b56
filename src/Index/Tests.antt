-- ===== src/Index/Tests.antt =====
-- Tests of the index, and its theorems at concrete inputs.
use clue_getter.Prelude.{ℕ, ◌≤◌, ◌≡◌, refl, Option, none, some, List, [], ◌∷◌, All, length, arith}
use clue_getter.Prelude.Text.{text, ◌==◌}
use clue_getter.Prelude.Go.{ok}
use clue_getter.Dict.{Dict, lookup}
use clue_getter.Message.{permit, reject, Message, new_message}
use clue_getter.Index.{StoredSession, read_rows, index_sessions}
use clue_getter.Index.Pages.{concat, page_of}
use clue_getter.Index.Complete.{index_sessions_complete}
use clue_getter.Index.Period.{newest_out_ends}
use clue_getter.Index.Hydration.{RecipientRow, HeaderRow, ResultRow, named_action, hydrate}
use clue_getter.Index.Fields.{recipients_of, headers_of, results_of}
use clue_getter.Index.Edits.{IsKnown}
use clue_getter.Index.Restored.{hydrate_lem}

abbrev session : ℕ → ℕ → StoredSession
session id date = record {
  id = id;
  instance_id = 1;
  date_connect = date;
  date_disconnect = none;
  ip = text "192.0.2.1";
  reverse_dns = [];
  helo = [];
  sasl_username = [];
  sasl_method = [];
  cert_issuer = [];
  cert_subject = [];
  cipher_bits = 0;
  cipher = [];
  tls_version = [];
  mta_host_name = [];
  mta_daemon_name = [];
}

abbrev table : List StoredSession
table = session 9 30 ∷ session 7 20 ∷ session 4 10 ∷ []

read_rows_test :
    read_rows 15 25 [] [] 0 0 (some (session 9 30) ∷ none ∷ some (session 7 20) ∷ [])
    ≡ ok (record { batches = (session 7 20 ∷ []) ∷ []; last_id = 7; count = 1 })
unfolding read_rows
read_rows_test = refl

-- The database spells a verdict in small letters.
verdict_test : (named_action (text "reject") ≡ permit) × (named_action (text "REJECT") ≡ reject)
unfolding named_action
verdict_test = (refl, refl)

index_sessions_complete_example :
    (batches : List (List StoredSession)) × (index_sessions 0 100 (page_of table) 5 9
      ≡ ok (some batches))
    × (concat batches ≡ table)
    × All (λ b. length b ≤ 65) batches
index_sessions_complete_example =
    index_sessions_complete 0 100 table
      ((refl, omega arith), ((refl, omega arith), ((refl, omega arith), tt))) (omega arith) 5 9
      (omega arith) (omega arith)

newest_out_ends_example : index_sessions 40 50 (page_of table) 1 9 ≡ ok (some ([] ∷ []))
newest_out_ends_example =
    newest_out_ends 40 50 table 0 9 (omega arith)
      ((refl, omega arith), ((refl, omega arith), ((refl, omega arith), tt)))

abbrev messages : Dict (Message ℕ)
messages = (text "Q1", new_message 0 []) ∷ []

abbrev recipients : List (Option RecipientRow)
recipients =
    some (record { message = text "Q1"; count = 2; local = text "ann"; domain = text "a.org" })
    ∷ none
    ∷ []

abbrev headers : List (Option HeaderRow)
headers = some (record { message = text "Q1"; name = text "Subject"; body = text "hi" }) ∷ []

abbrev results : List (Option (ResultRow ℕ))
results =
    some (record {
      message = text "Q1";
      module_name = text "demo";
      verdict = text "reject";
      score = 3;
      weighted_score = 3;
    })
    ∷ []

q1-found : lookup (text "Q1") messages ≡ some (new_message 0 [])
unfolding lookup ◌==◌
q1-found = refl

q1-IsKnown : IsKnown messages (text "Q1")
q1-IsKnown = (new_message 0 [], q1-found)

hydrate_lem_example :
    (next : Dict (Message ℕ)) × (hydrate messages recipients headers results ≡ ok next)
    × (lookup (text "Q1") next
        ≡ some (record (new_message 0 []) {
          rcpt = recipients_of (text "Q1") recipients;
          headers = headers_of (text "Q1") headers;
          check_results = results_of (text "Q1") results;
        }))
unfolding new_message
hydrate_lem_example =
    hydrate_lem messages recipients headers results (text "Q1") (new_message 0 []) q1-found
      (q1-IsKnown, tt) (q1-IsKnown, tt) (q1-IsKnown, tt)
