-- ===== src/Index/Hydration.antt =====
-- elasticsearch/index.go: the messages of a batch of sessions, and what is read of each message.
use clue_getter.Prelude.{
  ℕ, zero, suc, Bool, true, false, Option, none, some, List, [], ◌∷◌, ◌++◌, if◌then◌else◌, eqb,
}
use clue_getter.Prelude.Text.{Text, ◌==◌, text}
use clue_getter.Prelude.Go.{Go, ok, panic, ◌>>=◌}
use clue_getter.Dict.{Dict, lookup, insert}
use clue_getter.Address.{Address, from_string}
use clue_getter.Message.{
  Action, permit, tempfail, reject, error, discard, Header, new_header, CheckResult, Message,
}

-- Proto_Message_Verdict_value, zero for a name that it does not have.
unfoldable pub named_action : Text → Action
unfolding ◌==◌
named_action name =
    if name == text "TEMPFAIL"
    then tempfail
    else if name == text "REJECT"
    then reject
    else if name == text "ERROR"
    then error
    else if name == text "DISCARD"
    then discard
    else permit

-- The columns that are read of a message, of a recipient, a header and the result of a module. Date,
-- size and hash of a message and the determinants and the duration of a result are left out.
pub record MessageRow (F : Type 0) : Type 0 where
  pub queue_id : Text
  pub session : ℕ
  pub sender_local : Text
  pub sender_domain : Text
  pub verdict : Text
  pub verdict_msg : Text
  pub reject_score : F
  pub reject_score_threshold : F
  pub tempfail_score : F
  pub tempfail_score_threshold : F

pub record RecipientRow : Type 0 where
  pub message : Text
  pub count : ℕ
  pub local : Text
  pub domain : Text

pub record HeaderRow : Type 0 where
  pub message : Text
  pub name : Text
  pub body : Text

pub record ResultRow (F : Type 0) : Type 0 where
  pub message : Text
  pub module_name : Text
  pub verdict : Text
  pub score : F
  pub weighted_score : F

abbrev pub has_session : ℕ → List ℕ → Bool
has_session id [] = false
has_session id (other ∷ ids) = if eqb other id then true else has_session id ids

abbrev pub address_of : Text → Text → Address
address_of local domain = from_string (local ++ b'@' ∷ domain)

module _ {F : Type 0} where
  unfoldable pub message_of : MessageRow F → Message F
  unfolding from_string named_action
  message_of row = record {
    queue_id = row.queue_id;
    sender = address_of row.sender_local row.sender_domain;
    rcpt = [];
    headers = [];
    body = [];
    verdict = named_action row.verdict;
    verdict_msg = row.verdict_msg;
    reject_score = row.reject_score;
    reject_score_threshold = row.reject_score_threshold;
    tempfail_score = row.tempfail_score;
    tempfail_score_threshold = row.tempfail_score_threshold;
    check_results = [];
    add_headers = [];
    inject_message_id = [];
  }

  -- The loop of `indexHydrateMessagesFromDb`: the messages by their queue ids, and for each of them
  -- its session, in the order in which they are appended to the sessions' messages. A session that is
  -- not in the map is a nil pointer. A row is none where Scan fails.
  unfoldable pub hydrate_messages :
      List ℕ
      → List (ℕ × Text)
      → Dict (Message F)
      → List (Option (MessageRow F))
      → Go (List (ℕ × Text) × Dict (Message F))
  unfolding message_of insert
  hydrate_messages ids links messages [] = ok (links, messages)
  hydrate_messages ids links messages (none ∷ rows) = hydrate_messages ids links messages rows
  hydrate_messages ids links messages (some row ∷ rows) =
      let rest =
        hydrate_messages ids (links ++ (row.session, row.queue_id) ∷ [])
          (insert row.queue_id (message_of row) messages) rows in
      if has_session row.session ids then rest else panic

  -- messages[id], through its pointer: a panic where it is nil.
  unfoldable pub update : Text → (Message F → Message F) → Dict (Message F) → Go (Dict (Message F))
  unfolding lookup insert
  update id change messages = elim (lookup id messages) [
    | none ↦ panic
    | some m ↦ ok (insert id (change m) messages)
  ]

  abbrev pub add_recipient : Address → Message F → Message F
  add_recipient rcpt m = record m { rcpt = m.rcpt ++ rcpt ∷ [] }

  abbrev pub append_header : Header → Message F → Message F
  append_header h m = record m { headers = m.headers ++ h ∷ [] }

  abbrev pub add_result : CheckResult F → Message F → Message F
  add_result r m = record m { check_results = m.check_results ++ r ∷ [] }

  -- The loop over a recipient's count.
  unfoldable pub append_recipients : ℕ → Text → Address → Dict (Message F) → Go (Dict (Message F))
  unfolding update
  append_recipients zero id rcpt messages = ok messages
  append_recipients (suc count) id rcpt messages =
      update id (add_recipient rcpt) messages >>= append_recipients count id rcpt

  -- `indexHydrateRecipientsFromDb`
  unfoldable pub hydrate_recipients :
      Dict (Message F) → List (Option RecipientRow) → Go (Dict (Message F))
  unfolding append_recipients from_string
  hydrate_recipients messages [] = ok messages
  hydrate_recipients messages (none ∷ rows) = hydrate_recipients messages rows
  hydrate_recipients messages (some row ∷ rows) =
      append_recipients row.count row.message (address_of row.local row.domain) messages >>= λ next.
      hydrate_recipients next rows

  -- `indexHydrateHeadersFromDb`
  unfoldable pub hydrate_headers :
      Dict (Message F) → List (Option HeaderRow) → Go (Dict (Message F))
  unfolding update
  hydrate_headers messages [] = ok messages
  hydrate_headers messages (none ∷ rows) = hydrate_headers messages rows
  hydrate_headers messages (some row ∷ rows) =
      update row.message (append_header (new_header row.name row.body)) messages >>= λ next.
      hydrate_headers next rows

  unfoldable pub check_result_of : ResultRow F → CheckResult F
  unfolding named_action
  check_result_of row = record {
    module_name = row.module_name;
    suggested_action = named_action row.verdict;
    message = [];
    score = row.score;
    weighted_score = row.weighted_score;
    callbacks = [];
  }

  -- `indexHydrateCheckResultsFromDb`
  unfoldable pub hydrate_results :
      Dict (Message F) → List (Option (ResultRow F)) → Go (Dict (Message F))
  unfolding update check_result_of
  hydrate_results messages [] = ok messages
  hydrate_results messages (none ∷ rows) = hydrate_results messages rows
  hydrate_results messages (some row ∷ rows) =
      update row.message (add_result (check_result_of row)) messages >>= λ next.
      hydrate_results next rows

  -- What `index` reads of a batch of messages, the three goroutines one after the other: each changes
  -- a field of its own.
  unfoldable pub hydrate :
      Dict (Message F)
      → List (Option RecipientRow)
      → List (Option HeaderRow)
      → List (Option (ResultRow F))
      → Go (Dict (Message F))
  unfolding hydrate_recipients hydrate_headers hydrate_results
  hydrate messages recipients headers results =
      hydrate_recipients messages recipients >>= λ with_recipients.
      hydrate_headers with_recipients headers >>= λ with_headers.
      hydrate_results with_headers results
