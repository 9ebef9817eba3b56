-- ===== src/Message.antt =====
-- core/message.go: the data that the message handler works on. JSON determinants and durations,
-- which are only reported, are left out of a check result.
pub mod Headers
pub mod Groups
pub mod Verdict
pub mod Recipients
pub mod Inserted
mod Tests
use clue_getter.Prelude.{ℕ, Bool, true, false, List, [], ◌∷◌}
use clue_getter.Prelude.Text.{Text}
use clue_getter.Address.{Address}

-- MessagePermit to MessageDiscard
pub data Action : Type 0 where
  permit tempfail reject error discard : Action

abbrev pub action_code : Action → ℕ
action_code permit = 0
action_code tempfail = 1
action_code reject = 2
action_code error = 3
action_code discard = 4

abbrev pub same_action : Action → Action → Bool
same_action permit permit = true
same_action tempfail tempfail = true
same_action reject reject = true
same_action error error = true
same_action discard discard = true
same_action _ _ = false

pub record Header : Type 0 where
  pub key : Text
  pub value : Text
  pub milter_idx : ℕ
  pub flag_unique : Bool
  pub deleted : Bool

-- A header of which only the key and the value are given.
abbrev pub new_header : Text → Text → Header
new_header key value = record {
  key = key;
  value = value;
  milter_idx = 0;
  flag_unique = false;
  deleted = false;
}

-- The callbacks that the modules hand out: the quotas module's tally of a message on a quota.
pub data Callback : Type 0 where
  tally : Text → ℕ → Callback

pub record CheckResult (F : Type 0) : Type 0 where
  pub module_name : Text
  pub suggested_action : Action
  pub message : Text
  pub score : F
  pub weighted_score : F
  pub callbacks : List Callback

-- What the message handler reads of the session's copy of the configuration.
pub record SessionConfig (F : Type 0) : Type 0 where
  pub message_reject_score : F
  pub message_tempfail_score : F
  pub message_spamflag_score : F
  pub breaker_score : F
  pub insert_missing_message_id : Bool

-- What the message handler reads of the session.
pub record SessionInfo : Type 0 where
  pub ip : Text
  pub mta_host_name : Text

pub record Message (F : Type 0) : Type 0 where
  pub queue_id : Text
  pub sender : Address
  pub rcpt : List Address
  pub headers : List Header
  pub body : Text
  pub verdict : Action
  pub verdict_msg : Text
  pub reject_score : F
  pub reject_score_threshold : F
  pub tempfail_score : F
  pub tempfail_score_threshold : F
  pub check_results : List (CheckResult F)
  pub add_headers : List Header
  pub inject_message_id : Text

-- `NewMessage`, with the headers that the configuration adds to each message.
unfoldable pub new_message : {F : Type 0} → F → List Header → Message F
new_message zero message_insert_headers = record {
  queue_id = [];
  sender = record { local = []; domain = []; sld = [] };
  rcpt = [];
  headers = [];
  body = [];
  verdict = permit;
  verdict_msg = [];
  reject_score = zero;
  reject_score_threshold = zero;
  tempfail_score = zero;
  tempfail_score_threshold = zero;
  check_results = [];
  add_headers = message_insert_headers;
  inject_message_id = [];
}
