-- ===== src/Milter/Mail.antt =====
-- core/milter.go: the callbacks that receive a message and answer it.
use clue_getter.Prelude.{
  ℕ, ◌+◌, false, ◌||◌, Option, none, some, List, [], ◌∷◌, ◌++◌, if◌then◌else◌, length, eqb, map,
}
use clue_getter.Prelude.Text.{Text, text, to_lower, trim}
use clue_getter.Prelude.Go.{Go, ok, panic, ◌>>=◌}
use clue_getter.Prelude.Float.{Float}
use clue_getter.Address.{Address, from_string}
use clue_getter.Message.{
  Action, permit, tempfail, reject, error, discard, Header, CheckResult, SessionInfo, Message,
  new_message,
}
use clue_getter.Message.Headers.{get_header, message_get_mutable_headers}
use clue_getter.Message.Groups.{ModuleGroup}
use clue_getter.Message.Verdict.{Outcome, message_get_verdict}
use clue_getter.Message.Recipients.{message_accept_recipient}
use clue_getter.Milter.{
  Session, Call, set_reply, chg_header, add_header, Status, continue, reject_it, discard_it, accept,
  tempfail_it, Milter, MilterConfig, Ctx, is_whitelisted, put_session, with_session,
}

-- Brackets cut off, letters in lower case.
unfoldable pub envelope_address : Text → Address
unfolding from_string to_lower trim
envelope_address s = from_string (to_lower (trim (λ c. eqb c b'<' || eqb c b'>') s))

-- The switch on the verdict: the reply and the answer.
unfoldable pub answer_verdict : Text → Action → Text → List Call × Go Status
answer_verdict queue_id permit msg = ([], ok accept)
answer_verdict queue_id tempfail msg = (
  set_reply (text "421") (text "4.7.0") (msg ++ (text " (" ++ (queue_id ++ text ")"))) ∷ [],
  ok tempfail_it,
)
answer_verdict queue_id discard msg = ([], ok discard_it)
answer_verdict queue_id reject msg = (
  set_reply (text "550") (text "5.7.1") (msg ++ (text " (" ++ (queue_id ++ text ")"))) ∷ [],
  ok reject_it,
)
answer_verdict queue_id error msg = ([], panic)

-- The calls that delete and add headers. An index is the one from before all deletions: the code
-- counts down the indexes of copies.
abbrev pub header_calls : List Header → List Header → List Call
header_calls deletes adds =
    map (λ (hdr : Header). chg_header hdr.key hdr.milter_idx []) deletes
    ++ map (λ (hdr : Header). add_header hdr.key hdr.value) adds

module _ {F : Type 0} where
  -- `getLastMessage`
  abbrev pub last_message : List (Message F) → Option (Message F)
  last_message [] = none
  last_message (msg ∷ []) = some msg
  last_message (msg ∷ (msg' ∷ msgs)) = last_message (msg' ∷ msgs)

  -- A store through the last message's pointer.
  abbrev pub set_last : Message F → List (Message F) → List (Message F)
  set_last new [] = []
  set_last new (msg ∷ []) = new ∷ []
  set_last new (msg ∷ (msg' ∷ msgs)) = msg ∷ set_last new (msg' ∷ msgs)

  abbrev pub with_last_message : Message F → Session F → Session F
  with_last_message msg s = record s { messages = set_last msg s.messages }

  -- A callback that panics without a message.
  unfoldable pub with_message :
      Milter F
      → Ctx
      → (Milter F → Session F → Message F → Milter F × Go Status)
      → Milter F × Go Status
  unfolding with_session
  with_message m ctx body =
      with_session m ctx
        λ m' s. elim (last_message s.messages) [ none ↦ (m', panic) | some msg ↦ body m' s msg ]

  -- `EnvFrom`: the new message stays where there is no address.
  unfoldable pub env_from_with :
      F → List Header → List Text → Milter F → Session F → Milter F × Go Status
  unfolding put_session new_message envelope_address
  env_from_with zero insert_headers [] m s = (
    put_session m (record s { messages = s.messages ++ new_message zero insert_headers ∷ [] }),
    panic,
  )
  env_from_with zero insert_headers (sender ∷ rest) m s = (
    put_session m (record s {
      messages =
          s.messages
          ++ record (new_message zero insert_headers) { sender = envelope_address sender } ∷ [];
    }),
    ok continue,
  )

  unfoldable pub env_from_body : F → List Header → Milter F → Ctx → List Text → Milter F × Go Status
  unfolding with_session env_from_with
  env_from_body zero insert_headers m ctx senders =
      with_session m ctx (env_from_with zero insert_headers senders)

  -- The switch on the answer to a recipient.
  unfoldable pub answer_rcpt : Milter F → Milter F → Action → Milter F × Go Status
  answer_rcpt m accepted tempfail = (m, ok tempfail_it)
  answer_rcpt m accepted reject = (m, ok reject_it)
  answer_rcpt m accepted error = (m, ok tempfail_it)
  answer_rcpt m accepted permit = (accepted, ok continue)
  answer_rcpt m accepted discard = (accepted, ok continue)

  -- `EnvRcpt`, with the answers of the modules on an address.
  unfoldable pub env_rcpt_with :
      (Address → List (Action × Text))
      → List Text
      → Milter F
      → Session F
      → Message F
      → Milter F × Go Status
  unfolding put_session envelope_address message_accept_recipient answer_rcpt
  env_rcpt_with answers [] m s msg = (m, panic)
  env_rcpt_with answers (rcpt ∷ rest) m s msg =
      let a = envelope_address rcpt in
      answer_rcpt m (put_session m (with_last_message (record msg { rcpt = msg.rcpt ++ a ∷ [] }) s))
        (message_accept_recipient (answers a)).0

  unfoldable pub env_rcpt_body :
      (Address → List (Action × Text)) → Milter F → Ctx → List Text → Milter F × Go Status
  unfolding with_message env_rcpt_with
  env_rcpt_body answers m ctx rcpts = with_message m ctx (env_rcpt_with answers rcpts)

  -- The header as it is stored: its index is among the headers of its name, from 1.
  unfoldable pub add_message_header : Text → Text → Message F → Message F
  unfolding get_header
  add_message_header key value msg = record msg {
    headers =
        msg.headers
        ++ (record {
          key = key;
          value = value;
          milter_idx = length (get_header msg.headers key false) + 1;
          flag_unique = false;
          deleted = false;
        })
          ∷ [];
  }

  -- A store to the last message, and to continue.
  unfoldable pub change_message :
      (Message F → Message F) → Milter F → Session F → Message F → Milter F × Go Status
  unfolding put_session
  change_message change m s msg = (put_session m (with_last_message (change msg) s), ok continue)

  unfoldable pub header_body : Milter F → Ctx → Text → Text → Milter F × Go Status
  unfolding with_message change_message add_message_header
  header_body m ctx key value = with_message m ctx (change_message (add_message_header key value))

  -- `Eoh`; the modules change the session's configuration by `configure`. What was written to the
  -- session stays where there is no message.
  unfoldable pub with_sasl : Ctx → Session F → Session F
  with_sasl ctx s = record s {
    sasl_sender = ctx.symbol (text "{auth_author}");
    sasl_method = ctx.symbol (text "{auth_type}");
    sasl_username = ctx.symbol (text "{auth_authen}");
  }

  unfoldable pub eoh_with :
      (Session F → Session F) → Ctx → Milter F → Session F → Milter F × Go Status
  unfolding put_session with_sasl
  eoh_with configure ctx m s = elim (last_message s.messages) [
    | none ↦ (put_session m (with_sasl ctx s), panic)
    | some msg ↦
        let queued =
          with_last_message (record msg { queue_id = ctx.symbol (text "i") }) (with_sasl ctx s) in
        (put_session m (record (configure queued) { id = s.id }), ok continue)
  ]

  unfoldable pub eoh_body : (Session F → Session F) → Milter F → Ctx → Milter F × Go Status
  unfolding with_session eoh_with
  eoh_body configure m ctx = with_session m ctx (eoh_with configure ctx)

  unfoldable pub add_body : Text → Message F → Message F
  add_body part msg = record msg { body = msg.body ++ part }

  unfoldable pub body_body : Milter F → Ctx → Text → Milter F × Go Status
  unfolding with_message change_message add_body
  body_body m ctx part = with_message m ctx (change_message (add_body part))

  -- `Eom` from the verdict on.
  unfoldable pub finish_mail :
      MilterConfig
      → Milter F
      → Session F
      → Message F
      → List Header
      → Action × Text
      → Milter F × Go Status
  unfolding is_whitelisted answer_verdict put_session
  finish_mail config m s msg deletes (verdict, verdict_msg) =
      let chosen : Action × Text =
        if is_whitelisted config s then (permit, text "Whitelisted") else (verdict, verdict_msg) in
      let (replies, status) = answer_verdict msg.queue_id chosen.0 chosen.1 in
      let m' = put_session m (with_last_message msg s) in
      (
        record m' { calls = m'.calls ++ (header_calls deletes msg.add_headers ++ replies) },
        status >>= λ answer. ok (if config.noop then continue else answer),
      )

  abbrev pub session_info : Session F → SessionInfo
  session_info s = record { ip = s.ip; mta_host_name = s.mta_host_name }

  -- `Eom` after the verdict: what `messageGetMutableHeaders` gives decides.
  unfoldable pub end_mail :
      MilterConfig
      → Milter F
      → Session F
      → Outcome F
      → Go (Message F × List Header)
      → Milter F × Go Status
  unfolding finish_mail put_session
  end_mail config m s outcome panic = (put_session m (with_last_message outcome.message s), panic)
  end_mail config m s outcome (ok (msg, deletes)) =
      finish_mail config m s msg deletes (outcome.verdict, outcome.verdict_msg)

module _ {F : Type 0} (fl : Float F) (config : MilterConfig) where
  -- `Eom` without the date, the size and the hash of the body.
  unfoldable pub eom_with :
      List (ModuleGroup F)
      → Text
      → ℕ
      → List (CheckResult F)
      → Milter F
      → Session F
      → Message F
      → Milter F × Go Status
  unfolding end_mail message_get_verdict message_get_mutable_headers
  eom_with groups hostname now results m s msg =
      let outcome : Outcome F =
        message_get_verdict fl s.config (session_info s) groups hostname now msg results in
      end_mail config m s outcome
        (message_get_mutable_headers fl s.config (session_info s) outcome.message)

  unfoldable pub eom_body :
      List (ModuleGroup F) → Text → ℕ → List (CheckResult F) → Milter F → Ctx → Milter F × Go Status
  unfolding with_message eom_with
  eom_body groups hostname now results m ctx =
      with_message m ctx (eom_with groups hostname now results)
