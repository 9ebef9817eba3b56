-- ===== src/Milter/Isolation.antt =====
-- core/milter.go: no callback touches the session of another connection.
use clue_getter.Prelude.{
  ℕ, ◌≡◌, ◌≢◌, refl, sym, ◌∙◌, inl, inr, Bool, true, false, List, [], ◌∷◌, Bool-cases, All,
  Option-cases,
}
use mathlib.Core.Path.{subst}
use clue_getter.Prelude.Text.{Text}
use clue_getter.Prelude.Go.{Go, ok, panic}
use clue_getter.Prelude.Float.{Float}
use clue_getter.Dict.{lookup}
use clue_getter.Address.{Address}
use clue_getter.Message.{
  Action, permit, tempfail, reject, error, discard, Header, CheckResult, Message,
}
use clue_getter.Message.Headers.{message_get_mutable_headers}
use clue_getter.Message.Groups.{ModuleGroup}
use clue_getter.Message.Recipients.{message_accept_recipient}
use clue_getter.Message.Verdict.{Outcome, message_get_verdict}
use clue_getter.Milter.{
  Session, Status, Milter, MilterConfig, Ctx, put_session, get_session, milter_handle_error,
}
use clue_getter.Milter.Lifecycle.{new_session, store_connected, helo_with}
use clue_getter.Milter.Mail.{
  last_message, with_last_message, with_sasl, env_from_with, answer_rcpt, env_rcpt_with,
  change_message, add_message_header, eoh_with, add_body, eom_with, session_info, finish_mail,
  end_mail, envelope_address,
}
use clue_getter.Milter.Events.{
  Event, connect, helo, env_from, env_rcpt, header, eoh, body, eom, abort, close, target, run,
  run_all,
}
use clue_getter.Milter.Index.{
  IsIndexed, IsLocal, IsLocal-refl, IsLocal-trans, put_at, with_session-IsLocal,
  with_message-IsLocal, milter_handle_error-IsLocal, close_body-IsLocal, abort_body-IsLocal,
}

module _ {F : Type 0} where
  -- A handler of a message is local if it is so wherever the session is found.
  abbrev pub IsHandler : (Milter F → Session F → Message F → Milter F × Go Status) → Type 0
  IsHandler handler =
      (u : Text) (m : Milter F) (s : Session F) (msg : Message F)
      → IsIndexed m
      → s.id ≡ u
      → IsLocal u m (handler m s msg).0

  change_message-IsHandler : (change : Message F → Message F) → IsHandler (change_message change)
  unfolding change_message
  change_message-IsHandler change u m s msg h id =
      put_at u m (with_last_message (change msg) s) h id

  answer_rcpt-IsLocal :
      (u : Text) (m accepted : Milter F) (verdict : Action)
      → IsIndexed m
      → IsLocal u m accepted
      → IsLocal u m (answer_rcpt m accepted verdict).0
  unfolding answer_rcpt
  answer_rcpt-IsLocal u m accepted permit h local = local
  answer_rcpt-IsLocal u m accepted tempfail h local = IsLocal-refl u m h
  answer_rcpt-IsLocal u m accepted reject h local = IsLocal-refl u m h
  answer_rcpt-IsLocal u m accepted error h local = IsLocal-refl u m h
  answer_rcpt-IsLocal u m accepted discard h local = local

  env_rcpt_with-IsHandler :
      (answers : Address → List (Action × Text)) (rcpts : List Text)
      → IsHandler (env_rcpt_with answers rcpts)
  unfolding env_rcpt_with
  env_rcpt_with-IsHandler answers [] u m s msg h id = IsLocal-refl u m h
  env_rcpt_with-IsHandler answers (rcpt ∷ rest) u m s msg h id =
      answer_rcpt-IsLocal u m _ (message_accept_recipient (answers (envelope_address rcpt))).0 h
        (put_at u m _ h id)

  env_from_with-IsLocal :
      (zero' : F) (insert_headers : List Header) (senders : List Text) (u : Text) (m : Milter F)
      (s : Session F)
      → IsIndexed m
      → s.id ≡ u
      → IsLocal u m (env_from_with zero' insert_headers senders m s).0
  unfolding env_from_with
  env_from_with-IsLocal zero' insert_headers [] u m s h id = put_at u m _ h id
  env_from_with-IsLocal zero' insert_headers (sender ∷ rest) u m s h id = put_at u m _ h id

  helo_with-IsLocal :
      (atoi : Text → ℕ) (ctx : Ctx) (name u : Text) (m : Milter F) (s : Session F)
      → IsIndexed m
      → s.id ≡ u
      → IsLocal u m (helo_with atoi ctx name m s).0
  unfolding helo_with
  helo_with-IsLocal atoi ctx name u m s h id = put_at u m _ h id

  eoh_with-IsLocal :
      (configure : Session F → Session F) (ctx : Ctx) (u : Text) (m : Milter F) (s : Session F)
      → IsIndexed m
      → s.id ≡ u
      → IsLocal u m (eoh_with configure ctx m s).0
  unfolding eoh_with with_sasl
  eoh_with-IsLocal configure ctx u m s h id = elim (Option-cases (last_message s.messages)) [
    | inl missing ↦ rw (eoh_with, missing) (put_at u m (with_sasl ctx s) h id)
    | inr (msg, found) ↦ rw (eoh_with, found) (put_at u m _ h id)
  ]

  finish_mail-IsLocal :
      (config : MilterConfig) (u : Text) (m : Milter F) (s : Session F) (msg : Message F)
      (deletes : List Header) (chosen : Action × Text)
      → IsIndexed m
      → s.id ≡ u
      → IsLocal u m (finish_mail config m s msg deletes chosen).0
  unfolding finish_mail
  finish_mail-IsLocal config u m s msg deletes chosen h id =
      put_at u m (with_last_message msg s) h id

  end_mail-IsLocal :
      (config : MilterConfig) (u : Text) (m : Milter F) (s : Session F) (outcome : Outcome F)
      (headers : Go (Message F × List Header))
      → IsIndexed m
      → s.id ≡ u
      → IsLocal u m (end_mail config m s outcome headers).0
  unfolding end_mail
  end_mail-IsLocal config u m s outcome panic h id = put_at u m _ h id
  end_mail-IsLocal config u m s outcome (ok (msg, deletes)) h id =
      finish_mail-IsLocal config u m s msg deletes (outcome.verdict, outcome.verdict_msg) h id

module _ {F : Type 0} (fl : Float F) (config : MilterConfig) where
  eom_with-IsHandler :
      (groups : List (ModuleGroup F)) (hostname : Text) (now : ℕ) (results : List (CheckResult F))
      → IsHandler (eom_with fl config groups hostname now results)
  unfolding eom_with
  eom_with-IsHandler groups hostname now results u m s msg h id =
      let outcome =
        message_get_verdict fl s.config (session_info s) groups hostname now msg results in
      end_mail-IsLocal config u m s outcome
        (message_get_mutable_headers fl s.config (session_info s) outcome.message) h id

  -- The callbacks with a session of their own.
  at_session :
      (m m' : Milter F) (ctx : Ctx) (result : Go Status)
      → IsLocal ctx.priv m m'
      → IsLocal ctx.priv m (milter_handle_error config ctx (m', result)).0
  at_session m m' ctx result local =
      IsLocal-trans ctx.priv m m' (milter_handle_error config ctx (m', result)).0 local
        (milter_handle_error-IsLocal config m' ctx ctx.priv result local.0 refl)

  -- Where the private data cannot be kept, the deferred function changes nothing.
  handle_lost :
      (m : Milter F) (ctx : Ctx)
      → ctx.is_kept ≡ false
      → (milter_handle_error config ctx (m, panic)).0 ≡ m
  unfolding milter_handle_error get_session
  handle_lost m ctx lost = elim (Bool-cases config.noop) [
    | inl noop ↦ rw (milter_handle_error, noop) refl
    | inr live ↦ rw (milter_handle_error, live, get_session, lost) refl
  ]

  connected-IsLocal :
      (on_connect : Session F → Session F) (m : Milter F) (ctx : Ctx) (s : Session F) (kept : Bool)
      → IsIndexed m
      → ctx.is_kept ≡ kept
      → IsLocal s.id m (milter_handle_error config ctx (store_connected on_connect m s.id s kept)).0
  unfolding store_connected milter_handle_error
  connected-IsLocal on_connect m ctx s true h e =
      put_at s.id m (record (on_connect s) { id = s.id }) h refl
  connected-IsLocal on_connect m ctx s false h e =
      subst (λ x. IsLocal s.id m x) (sym (handle_lost (put_session m s) ctx e))
        (put_at s.id m s h refl)

  -- A callback only changes, makes or ends the session of its own connection, also where it panics;
  -- each session stays under its own id.
  pub run-IsLocal :
      (m : Milter F) (ctx : Ctx) (event : Event F)
      → IsIndexed m
      → IsLocal (target ctx event) m (run fl config m ctx event).0
  unfolding run
  run-IsLocal m ctx (connect sconf on_connect id now hostname ip reverse) h =
      connected-IsLocal on_connect m ctx (new_session sconf ctx id now hostname ip reverse)
        ctx.is_kept h refl
  run-IsLocal m ctx (helo atoi name) h = at_session m _ ctx _ (
      with_session-IsLocal m ctx (helo_with atoi ctx name) h
        (λ m' s. helo_with-IsLocal atoi ctx name ctx.priv m' s))
  run-IsLocal m ctx (env_from zero' insert_headers senders) h = at_session m _ ctx _ (
      with_session-IsLocal m ctx (env_from_with zero' insert_headers senders) h
        (λ m' s. env_from_with-IsLocal zero' insert_headers senders ctx.priv m' s))
  run-IsLocal m ctx (env_rcpt answers rcpts) h = at_session m _ ctx _ (
      with_message-IsLocal m ctx (env_rcpt_with answers rcpts) h
        (env_rcpt_with-IsHandler answers rcpts ctx.priv))
  run-IsLocal m ctx (header key value) h = at_session m _ ctx _ (
      with_message-IsLocal m ctx (change_message (add_message_header key value)) h
        (change_message-IsHandler (add_message_header key value) ctx.priv))
  run-IsLocal m ctx (eoh configure) h = at_session m _ ctx _ (
      with_session-IsLocal m ctx (eoh_with configure ctx) h
        (λ m' s. eoh_with-IsLocal configure ctx ctx.priv m' s))
  run-IsLocal m ctx (body part) h = at_session m _ ctx _ (
      with_message-IsLocal m ctx (change_message (add_body part)) h
        (change_message-IsHandler (add_body part) ctx.priv))
  run-IsLocal m ctx (eom groups hostname now results) h = at_session m _ ctx _ (
      with_message-IsLocal m ctx (eom_with fl config groups hostname now results) h
        (eom_with-IsHandler groups hostname now results ctx.priv))
  run-IsLocal m ctx abort h = at_session m _ ctx _ (abort_body-IsLocal m ctx h)
  run-IsLocal m ctx (close now) h = at_session m _ ctx _ (close_body-IsLocal m ctx now h)

  -- However the callbacks of other connections are ordered, and whichever of them panic, they leave
  -- a session as it is.
  pub run_all-IsLocal :
      (v : Text) (m : Milter F) (events : List (Ctx × Event F))
      → IsIndexed m
      → All (λ (e : Ctx × Event F). v ≢ target e.0 e.1) events
      → IsIndexed (run_all fl config m events)
        × (lookup v (run_all fl config m events).sessions ≡ lookup v m.sessions)
  unfolding run_all
  run_all-IsLocal v m [] h others = (h, refl)
  run_all-IsLocal v m ((ctx, event) ∷ events) h (ne, others) =
      let (h', same) = run-IsLocal m ctx event h in
      let (h'', later) = run_all-IsLocal v (run fl config m ctx event).0 events h' others in
      (h'', later ∙ same v ne)
