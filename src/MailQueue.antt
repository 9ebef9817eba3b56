-- ===== src/MailQueue.antt =====
-- core/mailQueue.go: the requests to delete mail from Postfix's queues, the search in them, and the
-- batches in which queue files are read.
pub mod Deletion
pub mod Batches
pub mod Envelopes
pub mod Store
pub mod Requests
pub mod Updates
mod Tests
use clue_getter.Prelude.{
  ℕ, ◌-◌, Bool, true, false, not, ◌&&◌, ◌||◌, Option, none, some, List, [], ◌∷◌, ◌++◌,
  if◌then◌else◌, length, ltb, leb, any, take,
}
use clue_getter.Prelude.Text.{Text, text, ◌==◌, is_empty, cut, equal_fold, join, split, show, trim}
use clue_getter.Dict.{Dict, lookup}

-- The tests on a queue id.
unfoldable pub is_deletable : Text → Bool
unfolding ◌==◌
is_deletable id =
    if is_empty id then false else if id == text "ALL" || ltb 20 (length id) then false else true

-- The loop that makes postsuper's arguments.
unfoldable pub delete_args : List Text → List Text → List Text
unfolding is_deletable
delete_args args [] = args
delete_args args (id ∷ ids) =
    delete_args (if is_deletable id then args ++ text "-d" ∷ (id ∷ []) else args) ids

abbrev pub postsuper_executable : Text
postsuper_executable = text "/usr/sbin/postsuper"

-- `MailQueueDeleteItems`: the command that is run, and its arguments.
unfoldable pub mail_queue_delete_items : Bool → Text → List Text → Option (Text × List Text)
unfolding delete_args
mail_queue_delete_items enabled exec_path ids =
    if not enabled
    then none
    else some ((if is_empty exec_path then postsuper_executable else exec_path), delete_args [] ids)

pub record GetOptions : Type 0 where
  pub sender : Text
  pub recipient : Text
  pub instances : List Text

abbrev pub value_of : Text → Dict Text → Text
value_of key kv = elim (lookup key kv) [ none ↦ [] | some value ↦ value ]

-- `messageParseAddress` of core/message.go: the local part and the domain.
unfoldable pub core_parse_address : Text → Bool → Text × Text
unfolding cut
core_parse_address address single_is_user = elim (cut b'@' address) [
  | some parts ↦ parts
  | none ↦ if single_is_user then (address, []) else ([], address)
]

-- One side of the search: the address that was asked for, and the one of the item.
unfoldable pub is_match : Text → Text → Bool
unfolding core_parse_address equal_fold
is_match wanted found =
    let (local, domain) = core_parse_address wanted false in
    let (item_local, item_domain) = core_parse_address found false in
    ((is_empty local || equal_fold item_local local) && equal_fold item_domain domain)
    || is_empty wanted

unfoldable pub is_wanted : GetOptions → Dict Text → Bool
unfolding is_match lookup
is_wanted options kv =
    if is_empty options.sender && is_empty options.recipient
    then true
    else if is_match options.sender (value_of (text "sender") kv)
    then is_match options.recipient (value_of (text "recipient") kv)
    else false

-- `mailQueueProcessFileList`: the batches of files, the last of which may be empty.
unfoldable pub batches_from : ℕ → List Text → List Text → List (List Text)
batches_from size batch [] = batch ∷ []
batches_from size batch (file ∷ files) =
    let full = batches_from size [] files in
    let more = batches_from size (batch ++ file ∷ []) files in
    if leb size (length (batch ++ file ∷ [])) then (batch ++ file ∷ []) ∷ full else more

unfoldable pub process_file_list : List Text → List (List Text)
unfolding batches_from
process_file_list files = batches_from 256 [] files
