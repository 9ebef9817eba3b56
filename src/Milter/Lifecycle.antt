-- ===== src/Milter/Lifecycle.antt =====
-- core/milter.go: the callbacks that open, describe and close a session.
use clue_getter.Prelude.{ℕ, Bool, true, false, none, some, List, [], ◌∷◌, ◌%◌, ◌^◌}
use clue_getter.Prelude.Text.{Text, text}
use clue_getter.Prelude.Go.{Go, ok, panic}
use clue_getter.Message.{SessionConfig}
use clue_getter.Milter.{
  Session, Status, continue, Milter, Ctx, put_session, delete_session, get_session, with_session,
}

module _ {F : Type 0} where
  -- The session that `Connect` makes.
  unfoldable pub new_session :
      SessionConfig F → Ctx → Text → ℕ → Text → Text → List Text → Session F
  new_session config ctx id now hostname ip reverse = record {
    id = id;
    date_connect = now;
    date_disconnect = 0;
    messages = [];
    sasl_username = [];
    sasl_sender = [];
    sasl_method = [];
    cert_issuer = [];
    cert_subject = [];
    cipher_bits = 0;
    cipher = [];
    tls_version = [];
    ip = ip;
    reverse_dns = elim reverse [ [] ↦ [] | name ∷ names ↦ name ];
    hostname = hostname;
    helo_name = [];
    mta_host_name = ctx.symbol (text "j");
    mta_daemon_name = ctx.symbol (text "{daemon_name}");
    config = config;
    milter_ctx = 0;
  }

  -- `Connect`: the new session stays in the index where SetPriv fails. The modules see it last, and
  -- change it by `on_connect`, but for its id.
  unfoldable pub store_connected :
      (Session F → Session F) → Milter F → Text → Session F → Bool → Milter F × Go Status
  unfolding put_session
  store_connected on_connect m id s true =
      (put_session m (record (on_connect s) { id = id }), ok continue)
  store_connected on_connect m id s false = (put_session m s, panic)

  unfoldable pub connect_body :
      SessionConfig F
      → (Session F → Session F)
      → Milter F
      → Ctx
      → Text
      → ℕ
      → Text
      → Text
      → List Text
      → Milter F × Go Status
  unfolding new_session store_connected
  connect_body config on_connect m ctx id now hostname ip reverse =
      store_connected on_connect m id (new_session config ctx id now hostname ip reverse)
        ctx.is_kept

  unfoldable pub helo_with : (Text → ℕ) → Ctx → Text → Milter F → Session F → Milter F × Go Status
  unfolding put_session
  helo_with atoi ctx name m s = (
    put_session m (record s {
      helo_name = name;
      cert_issuer = ctx.symbol (text "{cert_issuer}");
      cert_subject = ctx.symbol (text "{cert_subject}");
      tls_version = ctx.symbol (text "{tls_version}");
      cipher_bits = atoi (ctx.symbol (text "{cipher_bits}")) % 2 ^ 32;
      cipher = ctx.symbol (text "{cipher}");
    }),
    ok continue,
  )

  unfoldable pub helo_body : (Text → ℕ) → Milter F → Ctx → Text → Milter F × Go Status
  unfolding with_session helo_with
  helo_body atoi m ctx name = with_session m ctx (helo_with atoi ctx name)

  -- `Abort` only keeps the private data.
  unfoldable pub abort_body : Milter F → Ctx → Milter F × Go Status
  unfolding get_session put_session
  abort_body m ctx = elim (get_session m ctx true true) [
    | panic ↦ (m, panic)
    | ok none ↦ (m, ok continue)
    | ok (some s) ↦ (put_session m s, ok continue)
  ]

  unfoldable pub close_body : Milter F → Ctx → ℕ → Milter F × Go Status
  unfolding get_session delete_session
  close_body m ctx now = elim (get_session m ctx false true) [
    | panic ↦ (m, panic)
    | ok none ↦ (m, ok continue)
    | ok (some s) ↦ (delete_session m now s, ok continue)
  ]
