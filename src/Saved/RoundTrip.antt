-- ===== src/Saved/RoundTrip.antt =====
-- A message that was saved is read back.
use clue_getter.Prelude.{false, ℕ, ◌≡◌, refl, Option, none, some, List, [], ◌∷◌, All, map}
use clue_getter.Prelude.Go.{ok}
use clue_getter.Prelude.Text.{Text}
use clue_getter.Prelude.Text.Cutting.{Lacks}
use clue_getter.Address.{Address, from_string, to_string}
use clue_getter.Address.RoundTrip.{from_string-to_string}
use clue_getter.Message.{Header, CheckResult, SessionInfo, Message}
use clue_getter.Message.Headers.{message_get_message_id}
use clue_getter.Milter.{Session}
use clue_getter.Cache.{MessageCache, set, get_by_queue_id, get_by_message_id}
use clue_getter.Cache.Lookup.{get-set}
use clue_getter.Saved.{
  ProtoSession, ProtoMessage, proto_header, proto_result, proto_message, get_proto_buf_struct,
  message_save, message_persist_in_cache, read_header, read_result, get_as_message,
}

abbrev pub IsPlain : Address → Type 0
IsPlain a = Lacks b'@' a.local

-- Two lists of the same length whose items are related one by one.
abbrev Pairwise : {A B : Type 0} → (A → B → Type 0) → List A → List B → Type 0
Pairwise R [] [] = Unit
Pairwise R [] (b ∷ ys) = ⊥
Pairwise R (a ∷ xs) [] = ⊥
Pairwise R (a ∷ xs) (b ∷ ys) = R a b × Pairwise R xs ys

abbrev IsSameAddress : Address → Address → Type 0
IsSameAddress a b = (a.local ≡ b.local) × (a.domain ≡ b.domain)

abbrev IsSameHeader : Header → Header → Type 0
IsSameHeader h k = (h.key ≡ k.key) × (h.value ≡ k.value) × (h.deleted ≡ false)

rcpt_read :
    (rcpt : List Address)
    → All IsPlain rcpt
    → Pairwise IsSameAddress (map from_string (map to_string rcpt)) rcpt
rcpt_read [] h = tt
rcpt_read (a ∷ rcpt) (plain, h) = (from_string-to_string a plain, rcpt_read rcpt h)

headers_read :
    (headers : List Header)
    → Pairwise IsSameHeader (map read_header (map proto_header headers)) headers
unfolding read_header proto_header
headers_read [] = tt
headers_read (h ∷ headers) = ((refl, refl, refl), headers_read headers)

module _ {F : Type 0} where
  abbrev IsSameResult : CheckResult F → CheckResult F → Type 0
  IsSameResult r s =
      (r.module_name ≡ s.module_name)
      × (r.suggested_action ≡ s.suggested_action)
      × (r.score ≡ s.score)
      × (r.weighted_score ≡ s.weighted_score)
      × (r.message ≡ [])
      × (r.callbacks ≡ [])

  results_read :
      (zero : F) (queue_id : Text) (rs : List (CheckResult F))
      → Pairwise IsSameResult (map (read_result zero) (map (proto_result queue_id) rs)) rs
  unfolding read_result proto_result
  results_read zero queue_id [] = tt
  results_read zero queue_id (r ∷ rs) =
      ((refl, refl, refl, refl, refl, refl), results_read zero queue_id rs)

  -- What a message that was read back has in common with the one that was saved. The session, the flags
  -- and the numbers of headers, and what is only used while the message is received, are not in it; the
  -- texts and the callbacks of the results are empty, and no header is deleted.
  pub record AgreesWith (msg copy : Message F) : Type 0 where
    queue_id : copy.queue_id ≡ msg.queue_id
    sender : IsSameAddress copy.sender msg.sender
    rcpt : Pairwise IsSameAddress copy.rcpt msg.rcpt
    headers : Pairwise IsSameHeader copy.headers msg.headers
    body : copy.body ≡ msg.body
    verdict : (copy.verdict ≡ msg.verdict) × (copy.verdict_msg ≡ msg.verdict_msg)
    reject_scores :
        (copy.reject_score ≡ msg.reject_score)
        × (copy.reject_score_threshold ≡ msg.reject_score_threshold)
    tempfail_scores :
        (copy.tempfail_score ≡ msg.tempfail_score)
        × (copy.tempfail_score_threshold ≡ msg.tempfail_score_threshold)
    check_results : Pairwise IsSameResult copy.check_results msg.check_results

  get_as_message-AgreesWith :
      (zero : F) (inserted : List Header) (session : ProtoSession) (msg : Message F)
      → IsPlain msg.sender
      → All IsPlain msg.rcpt
      → AgreesWith msg (get_as_message zero inserted (proto_message session msg))
  unfolding get_as_message proto_message
  get_as_message-AgreesWith zero inserted session msg plain plains = record {
    queue_id = refl;
    sender = from_string-to_string msg.sender plain;
    rcpt = rcpt_read msg.rcpt plains;
    headers = headers_read msg.headers;
    body = refl;
    verdict = (refl, refl);
    reject_scores = (refl, refl);
    tempfail_scores = (refl, refl);
    check_results = results_read zero msg.queue_id msg.check_results;
  }

  module _ (marshal : ProtoMessage F → Option Text)
      (unmarshal : Text → Option (ProtoMessage F)) where
    -- Saving a message that can be encoded, so that what it is encoded to can be read back, returns. If
    -- the cache accepts it, the cache has it by its queue id and by its message id. Where no local part
    -- of an address has an "@", what is read back has the queue id, the sender, the recipients, the
    -- names and values of the headers, the body, the verdict with its text, the scores and their
    -- thresholds, and of each result the module, the action and the scores. It has not the texts and the
    -- callbacks of the results, and headers that were deleted are there again as ones that are not.
    pub message_save_lem :
        (host : Text) (inst now : ℕ) (session : Session F) (info : SessionInfo) (msg : Message F)
        (c : MessageCache) (bytes : Text) (zero : F) (inserted : List Header)
        → marshal (proto_message (get_proto_buf_struct inst session) msg) ≡ some bytes
        → unmarshal bytes ≡ some (proto_message (get_proto_buf_struct inst session) msg)
        → (set c now msg.queue_id (message_get_message_id host now info msg).1 bytes).1 ≡ none
        → IsPlain msg.sender
        → All IsPlain msg.rcpt
        → (c' : MessageCache) × (p : ProtoMessage F) × (message_save marshal host inst now session
              info msg c
            ≡ ok c')
          × (unmarshal (get_by_queue_id c' msg.queue_id) ≡ some p)
          × (unmarshal (get_by_message_id c' (message_get_message_id host now info msg).1) ≡ some p)
          × AgreesWith msg (get_as_message zero inserted p)
    unfolding message_save message_persist_in_cache
    message_save_lem host inst now session info msg c bytes zero inserted encoded read accepted
          plain plains =
        let msg_id = (message_get_message_id host now info msg).1 in
        let (by_queue_id, by_message_id, _) = get-set c now msg.queue_id msg_id bytes accepted in
        let p = proto_message (get_proto_buf_struct inst session) msg in
        (
          (set c now msg.queue_id msg_id bytes).0,
          p,
          rw encoded refl,
          rw by_queue_id read,
          rw by_message_id read,
          get_as_message-AgreesWith zero inserted (get_proto_buf_struct inst session) msg plain
              plains,
        )
