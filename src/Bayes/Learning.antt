-- ===== src/Bayes/Learning.antt =====
-- bayes/bayes.go: a report of a message id on one host becomes a lesson for all.
use clue_getter.Prelude.{
  ◌^◌, ◌<◌, arith, ◌≡◌, refl, ◌∙◌, Bool, true, false, some, List, [], ◌∷◌, ◌++◌, if◌then◌else◌,
}
use clue_getter.Prelude.Text.{Text, text, show, is_empty}
use clue_getter.Dict.{Dict}
use clue_getter.Message.{Header}
use clue_getter.Cache.{MessageCache, get_by_message_id}
use clue_getter.Saved.{ProtoMessage, get_as_message}
use clue_getter.Daemon.Rpc.{Service, all_listeners, channels_for, redis_rpc}
use clue_getter.Daemon.Targets.{all_services, instance_number, redis_rpc_reaches}
use clue_getter.Bayes.{
  LearnMessageId, Codec, Published, report_rpc, report_message_id, lesson_rpc, lesson_of,
  handle_report_message_id_queue_item, lesson, lesson_from,
}

lesson_found :
    {F : Type 0} (codec : Codec F) (report : LearnMessageId) (bytes : Text) (p : ProtoMessage F)
    → is_empty bytes ≡ false
    → codec.unmarshal_message bytes ≡ some p
    → lesson_of codec report bytes ≡ lesson_from codec report (some p)
unfolding lesson_of
lesson_found codec report [] p e f = absurd cc
lesson_found codec report (b ∷ bytes) p e f = rw f refl

-- What is published reaches the channels for a pattern, and no others.
abbrev pub ReachesAll : {C : Type 0} → Service → List (Dict C) → Published → Text → Type 0
unfolding redis_rpc all_listeners
ReachesAll self modules out pattern =
    redis_rpc self (all_listeners modules []) out.channel ≡ channels_for pattern modules

if_true : {A : Type 0} {b : Bool} {x : A} (y : A) → b ≡ true → (if b then x else y) ≡ x
if_true y e = rw e refl

module _ {F C : Type 0} (codec : Codec F) where
  -- The message id of a cached message is reported on its instance, whose number is below 2 ^ 63, and
  -- the encodings that are made can be read back. Then the report reaches the channels for reports of the instance; what it makes the
  -- instance publish reaches the channels for lessons of each service, whatever its instance and host;
  -- and the lesson is the cached message, spam or not as was reported.
  pub reported_is_learned :
      (self : Service) (modules : List (Dict C)) (c : MessageCache) (report : LearnMessageId)
      (p : ProtoMessage F) (report_bytes lesson_bytes : Text) (zero : F) (inserted : List Header)
      → self.instance_id < 2 ^ 63
      → codec.marshal (report_rpc codec report) ≡ some report_bytes
      → codec.unmarshal report_bytes ≡ some (report_rpc codec report)
      → codec.marshal (lesson_rpc codec report p) ≡ some lesson_bytes
      → codec.unmarshal lesson_bytes ≡ some (lesson_rpc codec report p)
      → is_empty (get_by_message_id c report.message_id) ≡ false
      → codec.unmarshal_message (get_by_message_id c report.message_id) ≡ some p
      → (sent : Published) × (taught : Published) × (report_message_id codec true self.instance_id
            report
          ≡ some sent)
        × ReachesAll self modules sent (text "bayes!reportMessageId")
        × (handle_report_message_id_queue_item codec c sent.payload ≡ some taught)
        × ((other : Service) (theirs : List (Dict C))
            → ReachesAll other theirs taught (text "bayes!learn"))
        × (lesson codec zero inserted taught.payload
            ≡ some (get_as_message zero inserted p, report.is_spam))
  unfolding report_message_id handle_report_message_id_queue_item lesson report_rpc lesson_rpc
      ReachesAll
  reported_is_learned self modules c report p report_bytes lesson_bytes zero inserted small made
        read made' read' cached decoded =
      let sent : Published = record {
        channel = text "cluegetter!" ++ (show self.instance_id ++ text "!bayes!reportMessageId");
        payload = report_bytes;
      } in
      let taught : Published = record {
        channel = text "cluegetter!!bayes!learn";
        payload = lesson_bytes;
      } in
      (
        sent,
        taught,
        rw made refl,
        redis_rpc_reaches self modules (instance_number self.instance_id)
              (text "bayes!reportMessageId") small
            ∙ if_true [] (ground arith),
        rw read (
            lesson_found codec report (get_by_message_id c report.message_id) p cached decoded
            ∙ rw made' refl),
        (λ other theirs. redis_rpc_reaches other theirs all_services (text "bayes!learn") tt),
        rw read' refl,
      )
