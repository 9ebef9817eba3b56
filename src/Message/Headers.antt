-- ===== src/Message/Headers.antt =====
-- core/message.go: the headers of a message, its message id, and the headers that are added to it.
pub mod Filter
pub mod Ids
use clue_getter.Prelude.{
  ℕ, zero, suc, ◌+◌, ◌-◌, Bool, true, false, not, ◌&&◌, ◌||◌, Option, none, some, List, [], ◌∷◌,
  ◌++◌, map, if◌then◌else◌, length, get_elem?, take, drop, keep, ltb,
}
use clue_getter.Prelude.Text.{Text, text, is_empty, equal_fold, replace, contains, show}
use clue_getter.Prelude.Go.{Go, ok, panic, ◌>>=◌}
use clue_getter.Prelude.Float.{Float}
use clue_getter.Address.{Address, to_string}
use clue_getter.Message.{
  Action, reject, same_action, Header, new_header, CheckResult, SessionConfig, SessionInfo, Message,
}

-- The test of `GetHeader`.
unfoldable pub is_header : Text → Bool → Header → Bool
is_header key include_deleted hdr = equal_fold hdr.key key && (include_deleted || not hdr.deleted)

-- `GetHeader`
unfoldable pub get_header : List Header → Text → Bool → List Header
unfolding is_header
get_header headers key include_deleted = keep (is_header key include_deleted) headers

-- `MessageGenerateMessageId`, at a time in Unix seconds and on a host by the name `hostname`.
pub message_generate_message_id : Text → ℕ → Text → Text → Text
message_generate_message_id hostname now queue_id host =
    let host' : Text = if is_empty host then host else hostname in
    b'<' ∷ (show now ++ (b'.' ∷ (queue_id ++ (text ".cluegetter@" ++ (host' ++ b'>' ∷ [])))))

abbrev pub message_id_key : Text
message_id_key = text "Message-Id"

-- The value of the first Message-Id header.
pub find_message_id : List Header → Option Text
find_message_id [] = none
find_message_id (hdr ∷ hdrs) =
    let rest = find_message_id hdrs in
    if equal_fold hdr.key message_id_key then some hdr.value else rest

module _ {F : Type 0} (hostname : Text) (now : ℕ) (info : SessionInfo) where
  -- `messageGetMessageId`, which remembers an id that it makes up
  pub message_get_message_id : Message F → Message F × Text
  unfolding find_message_id message_generate_message_id
  message_get_message_id msg = elim (find_message_id msg.headers) [
    | some id ↦ (msg, id)
    | none ↦
        if is_empty msg.inject_message_id
        then (let id = message_generate_message_id hostname now msg.queue_id info.mta_host_name in
            (record msg { inject_message_id = id }, id))
        else (msg, msg.inject_message_id)
  ]

  -- `messageEnsureHasMessageId`
  unfoldable pub message_ensure_has_message_id : Message F → Message F
  unfolding find_message_id message_get_message_id
  message_ensure_has_message_id msg = elim (find_message_id msg.headers) [
    | some id ↦ msg
    | none ↦
        let (msg', id) = message_get_message_id msg in
        record msg' { headers = msg'.headers ++ new_header message_id_key id ∷ [] }
  ]

module _ {F : Type 0} (fl : Float F) (config : SessionConfig F) (info : SessionInfo) where
  -- The sum of the weighted scores of the results that suggest to reject.
  pub reject_sum : F → List (CheckResult F) → F
  reject_sum sum [] = sum
  reject_sum sum (r ∷ rs) =
      reject_sum
        (if same_action r.suggested_action reject then fl.add sum r.weighted_score else sum) rs

  -- `substituteStringVars`
  unfoldable pub substitute_string_vars : List (CheckResult F) → Text → Text
  unfolding reject_sum replace
  substitute_string_vars check_results str =
      let score = reject_sum fl.zero check_results in
      let flag : Text =
        if fl.le config.message_spamflag_score score then text "YES" else text "NO" in
      replace (text "%{spamFlag}") flag (
        replace (text "%{rejectScore}") (fl.show_2 score) (
          replace (text "%{hostname}") info.mta_host_name
            (replace (text "%{clientIp}") info.ip str)))

abbrev pub recipient_var : Text
recipient_var = text "%{recipient}"

abbrev pub with_value : Text → Header → Header
with_value value hdr = record hdr { value = value }

-- hdrs[k] = f(hdrs[k])
pub update_at : ℕ → (Header → Header) → List Header → List Header
update_at k f [] = []
update_at zero f (hdr ∷ hdrs) = f hdr ∷ hdrs
update_at (suc k) f (hdr ∷ hdrs) = hdr ∷ update_at k f hdrs

-- One more header for each further recipient.
abbrev pub for_recipients : Header → List Address → List Header
for_recipients v [] = []
for_recipients v (rcpt ∷ rcpts) =
    new_header v.key (replace recipient_var (to_string rcpt) v.value) ∷ for_recipients v rcpts

-- A round of the first loop: `v` stands at place `k` of the headers `cur`.
pub expand_header : List Address → Header → ℕ → List Header → Go (List Header)
unfolding update_at contains
expand_header rcpts v k cur =
    if contains recipient_var v.value
    then elim rcpts [
      | [] ↦ panic
      | first ∷ rest ↦ ok (
          update_at k (λ hdr. with_value (replace recipient_var (to_string first) hdr.value) hdr)
            (cur ++ for_recipients v rest))
    ]
    else ok cur

-- The first loop: its range is the slice as it was before.
pub expand_headers : List Address → List Header → ℕ → List Header → Go (List Header)
unfolding expand_header
expand_headers rcpts [] k cur = ok cur
expand_headers rcpts (v ∷ vs) k cur =
    expand_header rcpts v k cur >>= λ cur'. expand_headers rcpts vs (k + 1) cur'

-- The headers of the message that a unique header replaces.
pub replaced_headers : List Header → List Header → List Header
unfolding get_header
replaced_headers headers [] = []
replaced_headers headers (v ∷ vs) =
    (if v.flag_unique then get_header headers v.key false else []) ++ replaced_headers headers vs

-- The loop that cuts out, in place, each header with no value: `todo` rounds are left.
pub remove_empty : ℕ → ℕ → ℕ → List Header → Go (List Header)
remove_empty zero i deleted cur = ok cur
remove_empty (suc todo) i deleted cur =
    let k = i - deleted in
    elim (get_elem? cur k) [
      | none ↦ panic
      | some hdr ↦
          let stays = remove_empty todo (i + 1) deleted cur in
          let cut_out =
            remove_empty todo (i + 1) (deleted + 1)
              (if ltb k (length cur) then take k cur ++ drop (k + 1) cur else take k cur) in
          if is_empty hdr.value then cut_out else stays
    ]

-- The headers after the first loop, and the message id that was made up.
pub with_message_id : {F : Type 0} → SessionConfig F → Message F → List Header → List Header
with_message_id config msg expanded =
    if config.insert_missing_message_id && not (is_empty msg.inject_message_id)
    then expanded ++ new_header message_id_key msg.inject_message_id ∷ []
    else expanded

module _ {F : Type 0} (fl : Float F) (config : SessionConfig F) (info : SessionInfo) where
  abbrev pub substituted : Message F → Header → Header
  substituted msg hdr =
      with_value (substitute_string_vars fl config info msg.check_results hdr.value) hdr

  -- The second and the third loop.
  pub finish_headers : Message F → List Header → Go (Message F × List Header)
  unfolding replaced_headers remove_empty substitute_string_vars
  finish_headers msg all_headers =
      remove_empty (length all_headers) 0 0 (map (substituted msg) all_headers) >>= λ left.
      ok (record msg { add_headers = left }, replaced_headers msg.headers all_headers)

  -- `messageGetMutableHeaders`: the message with its new headers, which are to be added, and the
  -- headers that are to be deleted.
  unfoldable pub message_get_mutable_headers : Message F → Go (Message F × List Header)
  unfolding expand_headers finish_headers with_message_id
  message_get_mutable_headers msg =
      expand_headers msg.rcpt msg.add_headers 0 msg.add_headers >>= λ expanded.
      finish_headers msg (with_message_id config msg expanded)
