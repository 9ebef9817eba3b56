-- ===== src/Saved/Tests.antt =====
-- A test of saving a message, and its theorem at a concrete input.
use clue_getter.Prelude.{ℕ, ◌≡◌, refl, false, Option, none, some, [], ◌∷◌}
use clue_getter.Prelude.Go.{ok}
use clue_getter.Prelude.Text.{Text, text, cut, equal_fold, ◌==◌}
use clue_getter.Dict.{lookup, insert}
use clue_getter.Prelude.Text.Cutting.{free_of}
use clue_getter.Address.{from_string, to_string}
use clue_getter.Prelude.Float.{whole}
use clue_getter.Saved.Checked.{check_and_save}
use clue_getter.Message.{
  Action, permit, tempfail, reject, discard, error, CheckResult, new_header, SessionInfo, Message,
  new_message,
}
use clue_getter.Message.Headers.{message_get_message_id}
use clue_getter.Message.Verdict.{message_get_verdict}
use clue_getter.Milter.{Session}
use clue_getter.Cache.{MessageCache, set, add_uint64, get_by_queue_id, get_by_message_id}
use clue_getter.Saved.{
  ProtoMessage, proto_message, proto_header, proto_result, get_proto_buf_struct, unix_of,
  message_save, get_as_message,
}
use clue_getter.Saved.RoundTrip.{AgreesWith, message_save_lem}

session : Session ℕ
unfolding cut set add_uint64 lookup unix_of get_proto_buf_struct proto_message proto_header
    proto_result to_string from_string ◌==◌ new_message
session = record {
  id = text "s1";
  date_connect = 1480000000000000000;
  date_disconnect = 0;
  messages = [];
  sasl_username = [];
  sasl_sender = [];
  sasl_method = [];
  cert_issuer = [];
  cert_subject = [];
  cipher_bits = 0;
  cipher = [];
  tls_version = [];
  ip = text "192.0.2.1";
  reverse_dns = [];
  hostname = [];
  helo_name = text "mail";
  mta_host_name = text "mx";
  mta_daemon_name = [];
  config = record {
    message_reject_score = 5;
    message_tempfail_score = 3;
    message_spamflag_score = 2;
    breaker_score = 9;
    insert_missing_message_id = false;
  };
  milter_ctx = 1;
}

abbrev info : SessionInfo
info = record { ip = text "192.0.2.1"; mta_host_name = text "mx" }

abbrev msg : Message ℕ
unfolding session
msg = record (new_message 0 []) {
  queue_id = text "4F1";
  sender = from_string (text "ann@a.org");
  rcpt = from_string (text "bob@b.org") ∷ [];
  headers = new_header (text "Message-Id") (text "<1@a.org>") ∷ [];
  body = text "hi";
}

abbrev buffer : ProtoMessage ℕ
unfolding session
buffer = proto_message (get_proto_buf_struct 1 session) msg

time_test :
    (buffer.session.time_start ≡ 1480000000) × (buffer.session.time_end ≡ 18446744011573954816)
unfolding session
time_test = (refl, refl)

abbrev marshal : ProtoMessage ℕ → Option Text
marshal p = some (text "bytes")

abbrev unmarshal : Text → Option (ProtoMessage ℕ)
unfolding session
unmarshal bytes = some buffer

abbrev cache : MessageCache
cache = record {
  cache = [];
  age = [];
  msg_id_idx = [];
  msg_id_rev_idx = [];
  size = 0;
  max_size = 1000;
  max_entry_size = 100;
}

message_save_lem_example :
    (c' : MessageCache) × (p : ProtoMessage ℕ) × (message_save marshal
        (text "mx")
        1
        1480000100
        session
        info
        msg
        cache
      ≡ ok c')
    × (unmarshal (get_by_queue_id c' (text "4F1")) ≡ some p)
    × (unmarshal (get_by_message_id c' (message_get_message_id (text "mx") 1480000100 info msg).1)
        ≡ some p)
    × AgreesWith msg (get_as_message 0 [] p)
unfolding session
message_save_lem_example =
    message_save_lem marshal unmarshal (text "mx") 1 1480000100 session info msg cache
      (text "bytes") 0 [] refl refl refl (free_of b'@' (text "ann") refl)
      (free_of b'@' (text "bob") refl, tt)

-- A module's result of nine points, with no message.
abbrev heavy : CheckResult ℕ
heavy = record {
  module_name = text "clamav";
  suggested_action = reject;
  message = text "virus";
  score = 9;
  weighted_score = 0;
  callbacks = [];
}

abbrev encoded_for : Action → Text
encoded_for permit = 1 ∷ []
encoded_for tempfail = 2 ∷ []
encoded_for reject = 3 ∷ []
encoded_for discard = 4 ∷ []
encoded_for error = 5 ∷ []

check_and_save_test :
    ((check_and_save whole
        (λ p. some (encoded_for p.verdict))
        (text "mx")
        1
        1480000100
        session
        info
        []
        msg
        (heavy ∷ [])
        cache).1.cache
      ≡ (text "4F1", 3 ∷ []) ∷ [])
    × ((check_and_save whole
          (λ p. none)
          (text "mx")
          1
          1480000100
          session
          info
          []
          msg
          []
          cache).0.verdict
        ≡ tempfail)
unfolding check_and_save session insert equal_fold
check_and_save_test = (refl, refl)

abbrev checked : ProtoMessage ℕ
unfolding session
checked =
    proto_message (get_proto_buf_struct 1 session)
      (message_get_verdict whole session.config info [] (text "mx") 1480000100 msg
        (heavy ∷ [])).message
