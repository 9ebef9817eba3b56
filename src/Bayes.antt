-- ===== src/Bayes.antt =====
-- bayes/bayes.go: mail to learn from. A report of a message id goes to the instance that checked the
-- message, which takes it from its cache and sends it to all hosts, whose modules learn from it. The
-- encoding of protocol buffers is a parameter.
pub mod Learning
mod Tests
use clue_getter.Prelude.{
  ℕ, suc, Bool, true, false, not, ◌||◌, Option, none, some, List, [], ◌∷◌, ◌++◌, get_elem?,
  if◌then◌else◌,
}
use clue_getter.Prelude.Text.{Text, text, show, is_empty, ◌==◌}
use clue_getter.Message.{Header, Message}
use clue_getter.Cache.{MessageCache, get_by_message_id}
use clue_getter.Saved.{ProtoMessage, get_as_message}

pub record LearnMessageId : Type 0 where
  pub is_spam : Bool
  pub message_id : Text
  pub host : Text
  pub reporter : Text
  pub reason : Text

pub record LearnMessage (F : Type 0) : Type 0 where
  pub is_spam : Bool
  pub message : ProtoMessage F
  pub host : Text
  pub reporter : Text
  pub reason : Text

-- A message for other hosts; what it does not hold is none.
pub record Rpc (F : Type 0) : Type 0 where
  pub name : Text
  pub learn_message : Option (LearnMessage F)
  pub learn_message_id : Option LearnMessageId

-- Protocol buffers as bytes; none stands for an error.
pub record Codec (F : Type 0) : Type 0 where
  pub marshal : Rpc F → Option Text
  pub unmarshal : Text → Option (Rpc F)
  pub unmarshal_message : Text → Option (ProtoMessage F)

-- What is published: the channel and the payload.
pub record Published : Type 0 where
  pub channel : Text
  pub payload : Text

module _ {F : Type 0} (codec : Codec F) where
  abbrev or_empty : Option Text → Text
  or_empty none = []
  or_empty (some bytes) = bytes

  unfoldable pub report_rpc : LearnMessageId → Rpc F
  report_rpc report = record {
    name = text "Bayes_Learn_Message_Id";
    learn_message = none;
    learn_message_id = some report;
  }

  -- `ReportMessageId`, for the program's instance; an error of the encoding is ignored.
  unfoldable pub report_message_id : Bool → ℕ → LearnMessageId → Option Published
  unfolding report_rpc
  report_message_id enabled inst report =
      if not enabled
      then none
      else some (record {
        channel = text "cluegetter!" ++ (show inst ++ text "!bayes!reportMessageId");
        payload = or_empty (codec.marshal (report_rpc report));
      })

  unfoldable pub lesson_rpc : LearnMessageId → ProtoMessage F → Rpc F
  lesson_rpc report msg = record {
    name = text "Bayes_Learn_Message";
    learn_message = some (record {
      is_spam = report.is_spam;
      message = msg;
      host = report.host;
      reporter = report.reporter;
      reason = report.reason;
    });
    learn_message_id = none;
  }

  abbrev publish_lesson : Option Text → Option Published
  publish_lesson none = none
  publish_lesson (some bytes) =
      some (record { channel = text "cluegetter!!bayes!learn"; payload = bytes })

  abbrev pub lesson_from : LearnMessageId → Option (ProtoMessage F) → Option Published
  unfolding lesson_rpc
  lesson_from report none = none
  lesson_from report (some msg) = publish_lesson (codec.marshal (lesson_rpc report msg))

  abbrev pub lesson_of : LearnMessageId → Text → Option Published
  unfolding lesson_from
  lesson_of report [] = none
  lesson_of report (b ∷ bytes) = lesson_from report (codec.unmarshal_message (b ∷ bytes))

  abbrev pub handle_named : MessageCache → Text → Option LearnMessageId → Option Published
  unfolding lesson_of ◌==◌
  handle_named c name none = none
  handle_named c name (some report) =
      if not (name == text "Bayes_Learn_Message_Id")
      then none
      else lesson_of report (get_by_message_id c report.message_id)

  abbrev handle_rpc : MessageCache → Option (Rpc F) → Option Published
  unfolding handle_named
  handle_rpc c none = none
  handle_rpc c (some rpc) = handle_named c rpc.name rpc.learn_message_id

  -- `handleReportMessageIdQueueItem`: what is published; nothing where it returns early.
  unfoldable pub handle_report_message_id_queue_item : MessageCache → Text → Option Published
  unfolding handle_rpc
  handle_report_message_id_queue_item c item = handle_rpc c (codec.unmarshal item)

  abbrev learn_named : F → List Header → Text → Option (LearnMessage F) → Option (Message F × Bool)
  unfolding get_as_message ◌==◌
  learn_named zero inserted name none = none
  learn_named zero inserted name (some lesson) =
      if not (name == text "Bayes_Learn_Message")
      then none
      else some (get_as_message zero inserted lesson.message, lesson.is_spam)

  abbrev learn_rpc : F → List Header → Option (Rpc F) → Option (Message F × Bool)
  unfolding learn_named
  learn_rpc zero inserted none = none
  learn_rpc zero inserted (some rpc) = learn_named zero inserted rpc.name rpc.learn_message

  -- What `learn` hands to the modules: a message, and whether it is spam.
  unfoldable pub lesson : F → List Header → Text → Option (Message F × Bool)
  unfolding learn_rpc
  lesson zero inserted item = learn_rpc zero inserted (codec.unmarshal item)

-- The modules that the goroutines of `learn` call, from the number of a round on: the goroutine of a
-- round calls the module that the loop's variable holds when it runs, whose number is `seen` of the
-- round.
unfoldable pub learners : {M : Type 0} → (ℕ → ℕ) → List M → ℕ → List M → List (Option M)
learners seen all i [] = []
learners seen all i (m ∷ modules) = get_elem? all (seen i) ∷ learners seen all (suc i) modules
