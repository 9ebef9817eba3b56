-- ===== src/Bayes/Tests.antt =====
-- Tests of the learning from reports, and the theorem at a concrete input.
use clue_getter.Prelude.{arith, ℕ, zero, suc, ◌≡◌, refl, true, Option, none, some, List, [], ◌∷◌}
use clue_getter.Prelude.Int.{is_int, atoi, equals}
use clue_getter.Prelude.Text.{Text, text, show, ◌==◌}
use clue_getter.Dict.{Dict, lookup}
use clue_getter.Message.{permit}
use clue_getter.Cache.{MessageCache, get_by_message_id}
use clue_getter.Saved.{ProtoMessage, get_as_message}
use clue_getter.Daemon.Rpc.{Service, is_addressed}
use clue_getter.Bayes.{
  LearnMessageId, Rpc, Codec, Published, report_message_id, handle_report_message_id_queue_item,
  lesson, learners,
}
use clue_getter.Bayes.Learning.{ReachesAll, reported_is_learned}

self : Service
unfolding is_addressed is_int atoi equals show lookup ◌==◌ get_by_message_id report_message_id
    handle_report_message_id_queue_item lesson learners
self = record { hostname = text "mx1"; instance_id = 3 }

abbrev report : LearnMessageId
report = record {
  is_spam = true;
  message_id = text "<1@a>";
  host = text "mx1";
  reporter = text "__MTA";
  reason = text "spam";
}

abbrev buffer : ProtoMessage ℕ
buffer = record {
  id = text "4F1";
  sender = text "ann@a.org";
  rcpt = [];
  headers = [];
  body = text "hi";
  verdict = permit;
  verdict_msg = [];
  reject_score = 0;
  reject_score_threshold = 5;
  tempfail_score = 0;
  tempfail_score_threshold = 3;
  check_results = [];
  session = record {
    instance_id = 3;
    id = text "s1";
    time_start = 0;
    time_end = 0;
    sasl_username = [];
    sasl_sender = [];
    sasl_method = [];
    cert_issuer = [];
    cert_subject = [];
    cipher_bits = 0;
    cipher = [];
    tls_version = [];
    ip = [];
    reverse_dns = [];
    hostname = [];
    helo = [];
    mta_host_name = [];
    mta_daemon_name = [];
  };
}

-- Reports are encoded as 1, lessons as 2.
abbrev code_for : Option LearnMessageId → Text
code_for none = 2 ∷ []
code_for (some r) = 1 ∷ []

abbrev meaning : Text → Option (Rpc ℕ)
meaning [] = none
meaning (zero ∷ s) = none
meaning (suc zero ∷ s) = some (record {
  name = text "Bayes_Learn_Message_Id";
  learn_message = none;
  learn_message_id = some report;
})
meaning (suc (suc n) ∷ s) = some (record {
  name = text "Bayes_Learn_Message";
  learn_message = some (record {
    is_spam = true;
    message = buffer;
    host = text "mx1";
    reporter = text "__MTA";
    reason = text "spam";
  });
  learn_message_id = none;
})

abbrev codec : Codec ℕ
codec = record {
  marshal = λ rpc. some (code_for rpc.learn_message_id);
  unmarshal = meaning;
  unmarshal_message = λ bytes. some buffer;
}

abbrev cache : MessageCache
cache = record {
  cache = (text "4F1", text "bytes") ∷ [];
  age = (text "4F1", 1000) ∷ [];
  msg_id_idx = (text "<1@a>", text "4F1") ∷ [];
  msg_id_rev_idx = (text "4F1", text "<1@a>") ∷ [];
  size = 5;
  max_size = 100;
  max_entry_size = 10;
}

abbrev modules : List (Dict ℕ)
modules = ((text "bayes!reportMessageId", 1) ∷ ((text "bayes!learn", 2) ∷ [])) ∷ []

-- Where the goroutines run after the loop, each calls the last module.
learners_test :
    (learners {M = ℕ} (λ i. i) (7 ∷ (8 ∷ [])) 0 (7 ∷ (8 ∷ [])) ≡ some 7 ∷ (some 8 ∷ []))
    × (learners {M = ℕ} (λ i. 1) (7 ∷ (8 ∷ [])) 0 (7 ∷ (8 ∷ [])) ≡ some 8 ∷ (some 8 ∷ []))
unfolding learners
learners_test = (refl, refl)

reported_is_learned_example :
    (sent : Published) × (taught : Published) × (report_message_id codec true 3 report ≡ some sent)
    × ReachesAll self modules sent (text "bayes!reportMessageId")
    × (handle_report_message_id_queue_item codec cache sent.payload ≡ some taught)
    × ((other : Service) (theirs : List (Dict ℕ))
        → ReachesAll other theirs taught (text "bayes!learn"))
    × (lesson codec 0 [] taught.payload ≡ some (get_as_message 0 [] buffer, true))
unfolding self
reported_is_learned_example =
    reported_is_learned codec self modules cache report buffer (1 ∷ []) (2 ∷ []) 0 [] (omega arith)
      refl refl refl refl refl refl
