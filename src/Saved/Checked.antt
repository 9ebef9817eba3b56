-- ===== src/Saved/Checked.antt =====
-- core/message.go: messageGetVerdict with the save at its end, which ends the check by a panic where the
-- message cannot be encoded.
use clue_getter.Prelude.{ℕ, ◌≡◌, ◌⊎◌, true, false, Option, some, List, if◌then◌else◌}
use clue_getter.Prelude.Go.{Go, ok, panic}
use clue_getter.Prelude.Text.{Text, text}
use clue_getter.Prelude.Float.{Float}
use clue_getter.Message.{tempfail, CheckResult, SessionInfo, Message}
use clue_getter.Message.Groups.{ModuleGroup}
use clue_getter.Message.Verdict.{Outcome, run_callbacks, message_get_verdict}
use clue_getter.Milter.{Session}
use clue_getter.Cache.{MessageCache, SetError, set, get_by_queue_id}
use clue_getter.Saved.{ProtoMessage, proto_message, get_proto_buf_struct, message_save}

module _ {F : Type 0} where
  -- The end of the check by what `messageSave` comes to: its panic is recovered from, when the callbacks
  -- have been started.
  abbrev pub after_save : Outcome F → MessageCache → Go MessageCache → Outcome F × MessageCache
  after_save o c (ok c') = (o, c')
  after_save o c panic = (
    record o {
      verdict = tempfail;
      verdict_msg = text "An internal error occurred.";
      saved = false;
    },
    c,
  )

  -- `messageGetVerdict`, with the cache that messageSave writes to.
  unfoldable pub check_and_save :
      Float F
      → (ProtoMessage F → Option Text)
      → Text
      → ℕ
      → ℕ
      → Session F
      → SessionInfo
      → List (ModuleGroup F)
      → Message F
      → List (CheckResult F)
      → MessageCache
      → Outcome F × MessageCache
  unfolding message_get_verdict message_save
  check_and_save fl marshal host inst now session info groups msg results c =
      let o : Outcome F = message_get_verdict fl session.config info groups host now msg results in
      if o.saved
      then after_save o c (message_save marshal host inst now session info o.message c)
      else (o, c)

  -- Where the check reached the save, the message has its verdict; where it did not, it is deferred.
  abbrev IsDecided : Text → Outcome F → Type 0
  IsDecided queue_id o =
      ((o.saved ≡ true)
        × (o.message.verdict ≡ o.verdict)
        × (o.message.verdict_msg ≡ o.verdict_msg)
        × (o.callbacks ≡ run_callbacks o.verdict o.message.check_results)
        × (o.message.queue_id ≡ queue_id))
      ⊎ ((o.saved ≡ false) × (o.verdict ≡ tempfail))

module _ {F : Type 0} (fl : Float F) (marshal : ProtoMessage F → Option Text)
    (unmarshal : Text → Option (ProtoMessage F)) where
  -- The cache has, by the queue id, the message with the verdict and the text that are returned, and
  -- the callbacks of its results were started with that verdict.
  abbrev pub IsSaved : Text → Outcome F × MessageCache → Type 0
  IsSaved queue_id out =
      (p : ProtoMessage F) × (unmarshal (get_by_queue_id out.1 queue_id) ≡ some p)
      × (p.verdict ≡ out.0.verdict)
      × (p.verdict_msg ≡ out.0.verdict_msg)
      × (out.0.callbacks ≡ run_callbacks out.0.verdict out.0.message.check_results)

  -- The cache refused the bytes of the message.
  abbrev pub IsRefused : Text → ℕ → MessageCache → MessageCache → Type 0
  IsRefused queue_id now c c' =
      (bytes : Text) × (msg_id : Text) × (error : SetError) × (set c now queue_id msg_id bytes
        ≡ (c, some error))
      × (c' ≡ c)

  -- The end of a check, from a cache: saved, refused by the cache, or deferred after a panic.
  abbrev pub IsEnd : Text → ℕ → MessageCache → Outcome F × MessageCache → Type 0
  IsEnd queue_id now c out =
      IsSaved queue_id out
      ⊎ (IsRefused queue_id now c out.1 ⊎ ((out.0.verdict ≡ tempfail) × (out.1 ≡ c)))

  module _ (host : Text) (inst now : ℕ) (session : Session F) (info : SessionInfo)
      (c : MessageCache) where
    -- What the message of an outcome is encoded to can be read back.
    abbrev pub IsReadable : Outcome F → Type 0
    unfolding proto_message get_proto_buf_struct
    IsReadable o =
        (bytes : Text)
        → marshal (proto_message (get_proto_buf_struct inst session) o.message) ≡ some bytes
        → unmarshal bytes ≡ some (proto_message (get_proto_buf_struct inst session) o.message)
