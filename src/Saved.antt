-- ===== src/Saved.antt =====
-- core/message.go, core/milterSession.go and core/messagePersist.go: a message that was checked is
-- written to a protocol buffer and kept in the cache, and read back. The encoding of protocol buffers
-- is a parameter. The determinants and durations of results are left out, as in a check result;
-- messageGetVerdict leaves no map of determinants nil, so that what is read back of them is a map.
pub mod RoundTrip
pub mod Checked
mod Tests
use clue_getter.Prelude.{
  ℕ, ◌-◌, ◌*◌, ◌/◌, ◌^◌, Option, none, some, List, [], ◌∷◌, if◌then◌else◌, eqb, map,
}
use clue_getter.Prelude.Go.{Go, ok, panic}
use clue_getter.Prelude.Text.{Text}
use clue_getter.Prelude.Float.{Float}
use clue_getter.Address.{from_string, to_string}
use clue_getter.Message.{Action, Header, new_header, CheckResult, SessionInfo, Message, new_message}
use clue_getter.Message.Headers.{message_get_message_id}
use clue_getter.Milter.{Session}
use clue_getter.Cache.{MessageCache, SetError, set}

pub record ProtoSession : Type 0 where
  pub instance_id : ℕ
  pub id : Text
  pub time_start : ℕ
  pub time_end : ℕ
  pub sasl_username : Text
  pub sasl_sender : Text
  pub sasl_method : Text
  pub cert_issuer : Text
  pub cert_subject : Text
  pub cipher_bits : ℕ
  pub cipher : Text
  pub tls_version : Text
  pub ip : Text
  pub reverse_dns : Text
  pub hostname : Text
  pub helo : Text
  pub mta_host_name : Text
  pub mta_daemon_name : Text

pub record ProtoResult (F : Type 0) : Type 0 where
  pub message_id : Text
  pub module_name : Text
  pub verdict : Action
  pub score : F
  pub weighted_score : F

pub record ProtoHeader : Type 0 where
  pub key : Text
  pub value : Text

pub record ProtoMessage (F : Type 0) : Type 0 where
  pub id : Text
  pub sender : Text
  pub rcpt : List Text
  pub headers : List ProtoHeader
  pub body : Text
  pub verdict : Action
  pub verdict_msg : Text
  pub reject_score : F
  pub reject_score_threshold : F
  pub tempfail_score : F
  pub tempfail_score_threshold : F
  pub check_results : List (ProtoResult F)
  pub session : ProtoSession

-- uint64(t.Unix()) of a time in nanoseconds since 1970, where 0 is Go's zero time, of the year 1.
unfoldable pub unix_of : ℕ → ℕ
unix_of t = if eqb t 0 then 2 ^ 64 - 62135596800 else t / 10 ^ 9

unfoldable pub proto_header : Header → ProtoHeader
proto_header hdr = record { key = hdr.key; value = hdr.value }

-- `messagePersistInCache`: a refusal is only reported.
unfoldable pub message_persist_in_cache : MessageCache → ℕ → Text → Text → Text → MessageCache
message_persist_in_cache c now queue_id msg_id bytes = (set c now queue_id msg_id bytes).0

unfoldable pub read_header : ProtoHeader → Header
read_header hdr = new_header hdr.key hdr.value

module _ {F : Type 0} where
  -- `getProtoBufStruct`, for the program's instance
  unfoldable pub get_proto_buf_struct : ℕ → Session F → ProtoSession
  unfolding unix_of
  get_proto_buf_struct inst s = record {
    instance_id = inst;
    id = s.id;
    time_start = unix_of s.date_connect;
    time_end = unix_of s.date_disconnect;
    sasl_username = s.sasl_username;
    sasl_sender = s.sasl_sender;
    sasl_method = s.sasl_method;
    cert_issuer = s.cert_issuer;
    cert_subject = s.cert_subject;
    cipher_bits = s.cipher_bits;
    cipher = s.cipher;
    tls_version = s.tls_version;
    ip = s.ip;
    reverse_dns = s.reverse_dns;
    hostname = s.hostname;
    helo = s.helo_name;
    mta_host_name = s.mta_host_name;
    mta_daemon_name = s.mta_daemon_name;
  }

  unfoldable pub proto_result : Text → CheckResult F → ProtoResult F
  proto_result queue_id r = record {
    message_id = queue_id;
    module_name = r.module_name;
    verdict = r.suggested_action;
    score = r.score;
    weighted_score = r.weighted_score;
  }

  -- The protocol buffer that `messageSave` fills.
  unfoldable pub proto_message : ProtoSession → Message F → ProtoMessage F
  unfolding to_string proto_header proto_result
  proto_message session msg = record {
    id = msg.queue_id;
    sender = to_string msg.sender;
    rcpt = map to_string msg.rcpt;
    headers = map proto_header msg.headers;
    body = msg.body;
    verdict = msg.verdict;
    verdict_msg = msg.verdict_msg;
    reject_score = msg.reject_score;
    reject_score_threshold = msg.reject_score_threshold;
    tempfail_score = msg.tempfail_score;
    tempfail_score_threshold = msg.tempfail_score_threshold;
    check_results = map (proto_result msg.queue_id) msg.check_results;
    session = session;
  }

  abbrev persist_marshalled :
      Text → ℕ → SessionInfo → Message F → MessageCache → Option Text → Go MessageCache
  persist_marshalled host now info msg c none = panic
  persist_marshalled host now info msg c (some bytes) = ok (
      message_persist_in_cache c now msg.queue_id (message_get_message_id host now info msg).1
        bytes)

  -- `messageSave`, where an error of the encoding ends in a panic.
  unfoldable pub message_save :
      (ProtoMessage F → Option Text)
      → Text
      → ℕ
      → ℕ
      → Session F
      → SessionInfo
      → Message F
      → MessageCache
      → Go MessageCache
  unfolding proto_message get_proto_buf_struct message_persist_in_cache
  message_save marshal host inst now session info msg c =
      persist_marshalled host now info msg c
        (marshal (proto_message (get_proto_buf_struct inst session) msg))

  unfoldable pub read_result : F → ProtoResult F → CheckResult F
  read_result zero r = record {
    module_name = r.module_name;
    suggested_action = r.verdict;
    message = [];
    score = r.score;
    weighted_score = r.weighted_score;
    callbacks = [];
  }

  -- `GetAsMessage`, with the headers that the configuration adds to a new message.
  unfoldable pub get_as_message : F → List Header → ProtoMessage F → Message F
  unfolding new_message from_string read_header read_result
  get_as_message zero message_insert_headers p = record (new_message zero message_insert_headers) {
    queue_id = p.id;
    sender = from_string p.sender;
    body = p.body;
    verdict = p.verdict;
    verdict_msg = p.verdict_msg;
    reject_score = p.reject_score;
    reject_score_threshold = p.reject_score_threshold;
    tempfail_score = p.tempfail_score;
    tempfail_score_threshold = p.tempfail_score_threshold;
    rcpt = map from_string p.rcpt;
    headers = map read_header p.headers;
    check_results = map (read_result zero) p.check_results;
  }
