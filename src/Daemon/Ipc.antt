-- ===== src/Daemon/Ipc.antt =====
-- core/daemon.go: the socket for messages of other processes. Its bytes come in pieces: each piece is
-- what one read of the connection returns.
use clue_getter.Prelude.{
  ℕ, ◌≡◌, ◌≢◌, refl, sym, ap, ◌∙◌, Bool, true, false, Option, none, some, List, [], ◌∷◌, ◌++◌,
  arith, eqb, inl, inr, All-append, Option-cases, Bool-cases, if◌then◌else◌,
}
use clue_getter.Prelude.Text.{Text, cut, trim_left, trim_right}
use clue_getter.Prelude.Text.Cutting.{Lacks, cut-append, cut-none, cut-some, pair_of_some}
use clue_getter.Dict.{Dict, lookup}
use mathlib.Core.List.{
  append_assoc, append-nil, reverse, reverse-cons, reverse-append, reverse-reverse,
}

-- `DaemonIpcSend`: what is written to the socket.
unfoldable pub ipc_send : Text → Text → Text
ipc_send handle message = handle ++ b' ' ∷ (message ++ 0 ∷ [])

abbrev trim_nul : Text → Text
unfolding trim_right
trim_nul = trim_right (λ c. eqb c 0)

-- The handle and the value of a message.
unfoldable pub ipc_parse : Text → Text × Text
unfolding cut trim_right
ipc_parse message = elim (cut b' ' message) [
  | none ↦ (trim_nul message, [])
  | some (handle, value) ↦ (trim_nul handle, trim_nul value)
]

module _ {H : Type 0} (handlers : Dict H) (panics : H → Text → Bool) where
  -- The call of a handler, and what further messages come to. Without a handler the connection is
  -- closed, as it is when a handler panics.
  abbrev call : Option H → Text → List (H × Text) → List (H × Text)
  call none value more = []
  call (some handler) value more = (handler, value) ∷ (if panics handler value then [] else more)

  abbrev dispatch : Text × Text → List (H × Text) → List (H × Text)
  dispatch (handle, value) more = call (lookup handle handlers) value more

  -- `daemonIpcHandleConn`: the calls of handlers, with the bytes read so far of the next message. Each
  -- message is read by a new buffered reader: what follows its end in the same piece is lost.
  unfoldable pub ipc_handle_conn : Text → List Text → List (H × Text)
  unfolding cut ipc_parse lookup
  ipc_handle_conn read [] = []
  ipc_handle_conn read (piece ∷ pieces) =
      let more = ipc_handle_conn [] pieces in
      let longer = ipc_handle_conn (read ++ piece) pieces in
      elim (cut 0 piece) [
        | none ↦ longer
        | some (end, lost) ↦ dispatch (ipc_parse (read ++ (end ++ 0 ∷ []))) more
      ]

abbrev pub concat : List Text → Text
concat [] = []
concat (s ∷ ss) = s ++ concat ss

free_of_none : (c : ℕ) (s : Text) → cut c s ≡ none → Lacks c s
unfolding cut
free_of_none c [] e = tt
free_of_none c (d ∷ s) e = elim (Bool-cases (eqb d c)) [
  | inl here ↦ absurd (cc (rw here at e))
  | inr later ↦ elim (Option-cases (cut c s)) [
    | inl missing ↦ (ground (arith, later), free_of_none c s missing)
    | inr (p, found) ↦ absurd (cc (rw (later, found) at e))
  ]
]

trim_left_free : (s : Text) → Lacks 0 s → trim_left (λ c. eqb c 0) s ≡ s
unfolding trim_left
trim_left_free [] h = refl
trim_left_free (c ∷ s) (ne, h) = ground (arith, ne)

Lacks-reverse : (s : Text) → Lacks 0 s → Lacks 0 (reverse s)
Lacks-reverse [] h = tt
Lacks-reverse (c ∷ s) (ne, h) =
    rw (reverse-cons c s)
      (All-append (λ d. d ≢ 0) (reverse s) (c ∷ []) (Lacks-reverse s h) (ne, tt))

trim_nul_free : (s : Text) → Lacks 0 s → trim_nul s ≡ s
unfolding trim_right
trim_nul_free s h = rw (trim_left_free (reverse s) (Lacks-reverse s h)) (reverse-reverse s)

trim_nul_last : (s : Text) → Lacks 0 s → trim_nul (s ++ 0 ∷ []) ≡ s
unfolding trim_right trim_left
trim_nul_last s h = rw (reverse-append s (0 ∷ [])) (trim_nul_free s h)

ipc_parse-ipc_send :
    (handle message : Text)
    → Lacks b' ' handle
    → Lacks 0 handle
    → Lacks 0 message
    → ipc_parse (ipc_send handle message) ≡ (handle, message)
unfolding ipc_parse ipc_send
ipc_parse-ipc_send handle message one_word h k =
    rw
      (
        ipc_parse,
        ipc_send,
        cut-append b' ' handle (message ++ 0 ∷ []) one_word,
        trim_nul_free handle h,
        trim_nul_last message k,
      )
      refl

-- The first place of a NUL is the end of a message.
message_end :
    (read end lost rest body : Text)
    → Lacks 0 (read ++ end)
    → Lacks 0 body
    → (read ++ (end ++ 0 ∷ lost)) ++ rest ≡ body ++ 0 ∷ []
    → (read ++ end ≡ body) × (lost ++ rest ≡ [])
message_end read end lost rest body h k e =
    let regrouped : (read ++ (end ++ 0 ∷ lost)) ++ rest ≡ (read ++ end) ++ 0 ∷ (lost ++ rest) =
      rw (← append_assoc read end (0 ∷ lost)) (append_assoc (read ++ end) (0 ∷ lost) rest) in
    pair_of_some (
      sym (cut-append 0 (read ++ end) (lost ++ rest) h)
      ∙ (ap (cut 0) (sym regrouped ∙ e) ∙ cut-append 0 body [] k))

empty_right : (s t : Text) → s ++ t ≡ [] → t ≡ []
empty_right [] t e = e
empty_right (c ∷ s) t e = absurd cc

space_ne : ◌≢◌ {A = ℕ} b' ' 0
space_ne e = omega (arith, e)

if_empty : {A : Type 0} {a : A} (b : Bool) → a ∷ (if b then [] else []) ≡ a ∷ []
if_empty true = refl
if_empty false = refl

none_is_some : {p : Text × Text} → none ≢ some p
none_is_some e = cc

no_end : (read body : Text) → Lacks 0 read → Lacks 0 body → read ≢ body ++ 0 ∷ []
no_end read body h k e =
    none_is_some (sym (cut-none 0 read h) ∙ (ap (cut 0) e ∙ cut-append 0 body [] k))

module _ {H : Type 0} (handlers : Dict H) (panics : H → Text → Bool) where
  nothing_more :
      (pieces : List Text) → concat pieces ≡ [] → ipc_handle_conn handlers panics [] pieces ≡ []
  unfolding ipc_handle_conn cut
  nothing_more [] e = refl
  nothing_more ([] ∷ pieces) e = nothing_more pieces e
  nothing_more ((c ∷ s) ∷ pieces) e = absurd cc

  arrives :
      (read body : Text) (pieces : List Text)
      → Lacks 0 read
      → Lacks 0 body
      → read ++ concat pieces ≡ body ++ 0 ∷ []
      → ipc_handle_conn handlers panics read pieces
        ≡ dispatch handlers panics (ipc_parse (body ++ 0 ∷ [])) []
  unfolding ipc_handle_conn
  arrives read body [] h k e = absurd (no_end read body h k (sym (append-nil read) ∙ e))
  arrives read body (piece ∷ pieces) h k e = elim (Option-cases (cut 0 piece)) [
    | inl missing ↦
        rw (ipc_handle_conn, missing)
          (arrives (read ++ piece) body pieces
            (All-append (λ d. d ≢ 0) read piece h (free_of_none 0 piece missing)) k
            (append_assoc read piece (concat pieces) ∙ e))
    | inr (p, found) ↦
        let (whole, lacks) = cut-some 0 piece p.0 p.1 found in
        let (same, none_left) =
          message_end read p.0 p.1 (concat pieces) body (All-append (λ d. d ≢ 0) read p.0 h lacks) k
            (rw (← whole) (append_assoc read piece (concat pieces) ∙ e)) in
        rw
          (
            ipc_handle_conn,
            found,
            ← append_assoc read p.0 (0 ∷ []),
            same,
            nothing_more pieces (empty_right p.1 (concat pieces) none_left),
          )
          refl
  ]

  -- A message that `DaemonIpcSend` writes for a handle with a handler, without a space in the handle
  -- and a NUL in either, calls the handler with the message, and nothing else, however the socket
  -- cuts its bytes into pieces.
  pub ipc_send_arrives :
      (handle message : Text) (handler : H) (pieces : List Text)
      → Lacks b' ' handle
      → Lacks 0 handle
      → Lacks 0 message
      → lookup handle handlers ≡ some handler
      → concat pieces ≡ ipc_send handle message
      → ipc_handle_conn handlers panics [] pieces ≡ (handler, message) ∷ []
  unfolding ipc_send
  ipc_send_arrives handle message handler pieces one_word h k known e =
      let whole = append_assoc handle (b' ' ∷ message) (0 ∷ []) in
      let body_lacks = All-append (λ d. d ≢ 0) handle (b' ' ∷ message) h (space_ne, k) in
      arrives [] (handle ++ b' ' ∷ message) pieces tt body_lacks (e ∙ sym whole)
      ∙ rw (whole, ipc_parse-ipc_send handle message one_word h k, known)
          (if_empty (panics handler message))
