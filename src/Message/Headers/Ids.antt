-- ===== src/Message/Headers/Ids.antt =====
-- The message id that a message has, or gets.
use clue_getter.Prelude.{
  ℕ, ◌≡◌, ◌≢◌, refl, ap, inl, inr, none, some, List, [], ◌∷◌, ◌++◌, arith, Option-cases,
}
use clue_getter.Prelude.Text.{Text, text, equal_fold, show}
use clue_getter.Message.{Header, new_header, SessionInfo, Message}
use clue_getter.Message.Headers.{
  message_generate_message_id, message_id_key, find_message_id, message_get_message_id,
  message_ensure_has_message_id,
}

find_message_id-append :
    (hdrs : List Header) (id : Text)
    → find_message_id hdrs ≡ none
    → find_message_id (hdrs ++ new_header message_id_key id ∷ []) ≡ some id
unfolding find_message_id equal_fold
find_message_id-append [] id e = refl
find_message_id-append (hdr ∷ hdrs) id e = ground (arith, find_message_id-append hdrs id)

module _ {F : Type 0} (hostname : Text) (now : ℕ) (info : SessionInfo) where
  message_get_message_id_headers :
      (msg : Message F) → (message_get_message_id hostname now info msg).0.headers ≡ msg.headers
  unfolding message_get_message_id
  message_get_message_id_headers msg = ground arith

  ensured_id :
      (msg : Message F)
      → find_message_id (message_ensure_has_message_id hostname now info msg).headers
        ≡ some (message_get_message_id hostname now info msg).1
  unfolding message_ensure_has_message_id
  ensured_id msg = elim (Option-cases (find_message_id msg.headers)) [
    | inl missing ↦
        rw (missing, message_ensure_has_message_id)
          (rw (message_get_message_id_headers msg) (
            find_message_id-append msg.headers (message_get_message_id hostname now info msg).1
              missing))
    | inr (id, found) ↦
        rw (found, message_ensure_has_message_id)
          (unfold message_get_message_id in rw (found, message_get_message_id))
  ]

  get_of_found :
      (msg : Message F) (id : Text)
      → find_message_id msg.headers ≡ some id
      → message_get_message_id hostname now info msg ≡ (msg, id)
  unfolding message_get_message_id
  get_of_found msg id found = rw (found, message_get_message_id)

  ensure_of_found :
      (msg : Message F) (id : Text)
      → find_message_id msg.headers ≡ some id
      → message_ensure_has_message_id hostname now info msg ≡ msg
  unfolding message_ensure_has_message_id
  ensure_of_found msg id found = rw (found, message_ensure_has_message_id)

module _ {F : Type 0} (hostname : Text) (now : ℕ) (info : SessionInfo) where
  -- Whatever the message, afterwards it has a Message-Id header, whose value is the id that was its
  -- message id before and that stays its message id, at any later time; to do it again changes
  -- nothing.
  pub message_ensure_has_message_id_lem :
      (msg : Message F) (later : ℕ)
      → (find_message_id (message_ensure_has_message_id hostname now info msg).headers
          ≡ some (message_get_message_id hostname now info msg).1)
        × ((message_get_message_id hostname later info
              (message_ensure_has_message_id hostname now info msg)).1
            ≡ (message_get_message_id hostname now info msg).1)
        × (message_ensure_has_message_id hostname later info
              (message_ensure_has_message_id hostname now info msg)
            ≡ message_ensure_has_message_id hostname now info msg)
  message_ensure_has_message_id_lem msg later =
      let ensured : Message F = message_ensure_has_message_id hostname now info msg in
      let id = (message_get_message_id hostname now info msg).1 in
      (
        ensured_id hostname now info msg,
        ap (λ r. r.1)
            (get_of_found hostname later info ensured id (ensured_id hostname now info msg)),
        ensure_of_found hostname later info ensured id (ensured_id hostname now info msg),
      )

-- The host of a new message id is never the one that the caller gives: for every host with a name it
-- is the program's own host, and without one the id ends in nothing behind its "@".
pub message_generate_message_id_ignores_host :
    (hostname : Text) (now : ℕ) (queue_id host : Text)
    → ((host ≢ [])
        → message_generate_message_id hostname now queue_id host
          ≡ b'<'
            ∷ (show now ++ (b'.' ∷ (queue_id ++ (text ".cluegetter@" ++ (hostname ++ b'>' ∷ []))))))
      × (message_generate_message_id hostname now queue_id []
          ≡ b'<' ∷ (show now ++ (b'.' ∷ (queue_id ++ (text ".cluegetter@" ++ b'>' ∷ [])))))
unfolding message_generate_message_id
message_generate_message_id_ignores_host hostname now queue_id [] = (λ h. absurd (h refl), refl)
message_generate_message_id_ignores_host hostname now queue_id (c ∷ host) = (λ h. refl, refl)
