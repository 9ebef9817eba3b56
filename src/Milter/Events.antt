-- ===== src/Milter/Events.antt =====
-- core/milter.go: the callbacks of libmilter as events on the state.
use clue_getter.Prelude.{ℕ, List, [], ◌∷◌}
use clue_getter.Prelude.Text.{Text}
use clue_getter.Prelude.Go.{Go}
use clue_getter.Prelude.Float.{Float}
use clue_getter.Address.{Address}
use clue_getter.Message.{Action, Header, CheckResult, SessionConfig}
use clue_getter.Message.Groups.{ModuleGroup}
use clue_getter.Milter.{Session, Status, Milter, MilterConfig, Ctx, milter_handle_error}
use clue_getter.Milter.Lifecycle.{connect_body, helo_body, abort_body, close_body}
use clue_getter.Milter.Mail.{
  env_from_body, env_rcpt_body, header_body, eoh_body, body_body, eom_body,
}

-- A callback with its arguments and what the code around it answers meanwhile.
pub data Event (F : Type 0) : Type 0 where
  connect : SessionConfig F → (Session F → Session F) → Text → ℕ → Text → Text → List Text → Event F
  helo : (Text → ℕ) → Text → Event F
  env_from : F → List Header → List Text → Event F
  env_rcpt : (Address → List (Action × Text)) → List Text → Event F
  header : Text → Text → Event F
  eoh : (Session F → Session F) → Event F
  body : Text → Event F
  eom : List (ModuleGroup F) → Text → ℕ → List (CheckResult F) → Event F
  abort : Event F
  close : ℕ → Event F

-- The session that the event is about.
abbrev pub target : {F : Type 0} → Ctx → Event F → Text
target ctx (connect config on_connect id now hostname ip reverse) = id
target ctx _ = ctx.priv

module _ {F : Type 0} (fl : Float F) (config : MilterConfig) where
  -- The callback without the deferred function.
  unfoldable pub run_body : Milter F → Ctx → Event F → Milter F × Go Status
  unfolding connect_body helo_body env_from_body env_rcpt_body header_body eoh_body body_body
      eom_body abort_body close_body
  run_body m ctx (connect sconf on_connect id now hostname ip reverse) =
      connect_body sconf on_connect m ctx id now hostname ip reverse
  run_body m ctx (helo atoi name) = helo_body atoi m ctx name
  run_body m ctx (env_from zero insert_headers senders) =
      env_from_body zero insert_headers m ctx senders
  run_body m ctx (env_rcpt answers rcpts) = env_rcpt_body answers m ctx rcpts
  run_body m ctx (header key value) = header_body m ctx key value
  run_body m ctx (eoh configure) = eoh_body configure m ctx
  run_body m ctx (body part) = body_body m ctx part
  run_body m ctx (eom groups hostname now results) =
      eom_body fl config groups hostname now results m ctx
  run_body m ctx abort = abort_body m ctx
  run_body m ctx (close now) = close_body m ctx now

  unfoldable pub run : Milter F → Ctx → Event F → Milter F × Go Status
  unfolding run_body milter_handle_error
  run m ctx event = milter_handle_error config ctx (run_body m ctx event)

  -- A sequence of callbacks, of any connections.
  unfoldable pub run_all : Milter F → List (Ctx × Event F) → Milter F
  unfolding run
  run_all m [] = m
  run_all m ((ctx, event) ∷ events) = run_all (run m ctx event).0 events
