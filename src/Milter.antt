-- ===== src/Milter.antt =====
-- core/milter.go, core/milterSession.go: the sessions and the callbacks of libmilter. A callback gives
-- the new state, and either its answer or a panic; what was changed before a panic stays changed.
pub mod Lifecycle
pub mod Mail
pub mod Events
pub mod Index
pub mod Isolation
pub mod Answers
pub mod Numbers
pub mod Whitelist
pub mod Networks
pub mod Ranges
pub mod Clients
mod Tests
use clue_getter.Prelude.{
  ℕ, ◌+◌, ◌-◌, ◌*◌, Bool, true, false, not, ◌&&◌, ◌||◌, Option, none, some, List, [], ◌∷◌, ◌++◌,
  if◌then◌else◌, any, ltb, eqb,
}
use clue_getter.Prelude.Text.{Text, text, equal_fold}
use clue_getter.Prelude.Go.{Go, ok, panic}
use clue_getter.Dict.{Dict, lookup, insert, delete}
use clue_getter.Message.{SessionConfig, Message}

pub record Session (F : Type 0) : Type 0 where
  pub id : Text
  -- in nanoseconds
  pub date_connect : ℕ
  pub date_disconnect : ℕ
  pub messages : List (Message F)
  pub sasl_username : Text
  pub sasl_sender : Text
  pub sasl_method : Text
  pub cert_issuer : Text
  pub cert_subject : Text
  pub cipher_bits : ℕ
  pub cipher : Text
  pub tls_version : Text
  pub ip : Text
  pub reverse_dns : Text
  pub hostname : Text
  pub helo_name : Text
  pub mta_host_name : Text
  pub mta_daemon_name : Text
  pub config : SessionConfig F
  pub milter_ctx : ℕ

-- What libmilter is asked to do.
pub data Call : Type 0 where
  set_reply : Text → Text → Text → Call
  chg_header : Text → ℕ → Text → Call
  add_header : Text → Text → Call

-- The answers; the zero value of an answer is `continue`.
pub data Status : Type 0 where
  continue reject_it discard_it accept tempfail_it : Status

pub record Milter (F : Type 0) : Type 0 where
  pub sessions : Dict (Session F)
  -- the sessions that were handed to the modules at their end
  pub persisted : List (Session F)
  pub calls : List Call

-- One address range, as its first and its last address in 16 bytes.
pub record WhitelistRange : Type 0 where
  pub ip_start : List ℕ
  pub ip_end : List ℕ

pub record MilterConfig : Type 0 where
  pub noop : Bool
  pub whitelist : List WhitelistRange
  -- net.ParseIP(s).To16(), empty where it is nil
  pub parse_ip : Text → List ℕ

-- The callback's argument, with what GetPriv, SetPriv (whether it works) and GetSymVal answer for it.
pub record Ctx : Type 0 where
  pub number : ℕ
  pub priv : Text
  pub is_kept : Bool
  pub symbol : Text → Text

-- bytes.Compare(a, b) <= 0
unfoldable pub bytes_le : List ℕ → List ℕ → Bool
bytes_le [] b = true
bytes_le (x ∷ a) [] = false
bytes_le (x ∷ a) (y ∷ b) = ltb x y || (eqb x y && bytes_le a b)

unfoldable pub is_whitelisted : {F : Type 0} → MilterConfig → Session F → Bool
unfolding bytes_le
is_whitelisted config s =
    any
      (λ (r : WhitelistRange).
        bytes_le r.ip_start (config.parse_ip s.ip) && bytes_le (config.parse_ip s.ip) r.ip_end)
      config.whitelist

unfoldable pub client_is_monitor_host : {F : Type 0} → List Text → Session F → Bool
unfolding equal_fold
client_is_monitor_host monitor_hosts s = any (equal_fold s.ip) monitor_hosts

module _ {F : Type 0} where
  -- `addNewSession`, and the store through a session's pointer.
  unfoldable pub put_session : Milter F → Session F → Milter F
  unfolding insert
  put_session m s = record m { sessions = insert s.id s m.sessions }

  -- `milterDataIndex.delete`
  unfoldable pub delete_session : Milter F → ℕ → Session F → Milter F
  unfolding delete
  delete_session m now s = record m {
    persisted = m.persisted ++ record s { date_disconnect = now } ∷ [];
    sessions = delete s.id m.sessions;
  }

  unfoldable pub is_old : ℕ → Session F → Bool
  is_old now s = ltb (15 * 60 * 1000000000) (now - s.date_connect)

  -- `prune`, over what the map holds at its start.
  unfoldable pub prune_from : ℕ → Dict (Session F) → Milter F → Milter F
  unfolding is_old delete_session
  prune_from now [] m = m
  prune_from now ((id, s) ∷ rest) m =
      prune_from now rest (if is_old now s then delete_session m now s else m)

  unfoldable pub prune_sessions : Milter F → ℕ → Milter F
  unfolding prune_from
  prune_sessions m now = prune_from now m.sessions m

  -- `milterGetSession`: a panic where the session is needed and not there, or cannot be kept.
  unfoldable pub get_session : Milter F → Ctx → Bool → Bool → Go (Option (Session F))
  unfolding lookup
  get_session m ctx keep return_nil =
      if keep && not ctx.is_kept then panic else elim (lookup ctx.priv m.sessions) [
        | none ↦ if return_nil then ok none else panic
        | some s ↦ ok (some (record s { milter_ctx = ctx.number }))
      ]

  -- A callback that panics without its session, and stores through the session's pointer.
  unfoldable pub with_session :
      Milter F → Ctx → (Milter F → Session F → Milter F × Go Status) → Milter F × Go Status
  unfolding get_session put_session
  with_session m ctx body = elim (get_session m ctx true false) [
    | panic ↦ (m, panic)
    | ok none ↦ (m, panic)
    | ok (some s) ↦ body (put_session m s) s
  ]

  abbrev pub add_reply : Milter F → Milter F
  add_reply m = record m {
    calls =
        m.calls ++ set_reply (text "421") (text "4.7.0") (text "An internal error ocurred") ∷ [];
  }

  -- The deferred `milterHandleError`, where the program does not exit on a panic. It is left as
  -- `panic` where the deferred function itself panics.
  unfoldable pub milter_handle_error :
      MilterConfig → Ctx → Milter F × Go Status → Milter F × Go Status
  unfolding get_session is_whitelisted put_session
  milter_handle_error config ctx (m, ok status) = (m, ok status)
  milter_handle_error config ctx (m, panic) =
      if config.noop then (m, ok continue) else elim (get_session m ctx true true) [
        | panic ↦ (m, panic)
        | ok none ↦ (add_reply m, ok tempfail_it)
        | ok (some s) ↦
            if is_whitelisted config s
            then (put_session m s, ok continue)
            else (add_reply (put_session m s), ok tempfail_it)
      ]
