-- ===== src/MailQueue/Requests.antt =====
-- From a request of the web pages to the arguments of postsuper.
use clue_getter.Prelude.{
  ℕ, ◌≤◌, ◌≡◌, ◌≢◌, refl, ◌∙◌, ap, true, some, List, [], ◌∷◌, ◌++◌, arith, length, keep, All,
  if◌then◌else◌,
}
use clue_getter.Prelude.Text.{Text, text, ◌==◌, is_empty, join, split}
use clue_getter.Prelude.Text.Cutting.{Lacks}
use clue_getter.MailQueue.{is_deletable, delete_args, mail_queue_delete_items, postsuper_executable}
use clue_getter.MailQueue.Deletion.{delete_flags, delete_args_lem}
use clue_getter.MailQueue.Store.{published, handle_delete_channel}

split-Lacks : (c : ℕ) (s : Text) → Lacks c s → split c s ≡ s ∷ []
unfolding split
split-Lacks c [] h = refl
split-Lacks c (d ∷ s) (ne, h) = rw (split-Lacks c s h) (ground arith)

split-append : (c : ℕ) (a b : Text) → Lacks c a → split c (a ++ c ∷ b) ≡ a ∷ split c b
unfolding split
split-append c [] b h = ground arith
split-append c (d ∷ a) b (ne, h) = rw (split-append c a b h) (ground arith)

split-join :
    (id : Text) (ids : List Text)
    → All (Lacks b' ') (id ∷ ids)
    → split b' ' (join (text " ") (id ∷ ids)) ≡ id ∷ ids
unfolding join
split-join id [] (h, hs) = split-Lacks b' ' id h
split-join id (next ∷ ids) (h, hs) =
    split-append b' ' id (join (text " ") (next ∷ ids)) h
    ∙ ap (λ (l : List Text). id ∷ l) (split-join next ids hs)

-- No ids are published as the empty message, which is read as one empty id.
delete_args-split :
    (ids : List Text)
    → All (Lacks b' ') ids
    → delete_args [] (split b' ' (join (text " ") ids)) ≡ delete_args [] ids
unfolding join split delete_args is_deletable
delete_args-split [] h = refl
delete_args-split (id ∷ ids) h = ap (λ l. delete_args [] l) (split-join id ids h)

abbrev pub Safe : Text → Type 0
Safe id = (id ≢ []) × (id ≢ text "ALL") × (length id ≤ 20)

abbrev pub command_of : Text → Text
command_of exec_path = if is_empty exec_path then postsuper_executable else exec_path

-- With the mail queue enabled, a request to delete queue ids without a space, which is published as
-- one message and split again, runs postsuper with a "-d" before each id that passes the tests, in
-- the order of the request; no id among these is empty, longer than 20 bytes, or "ALL".
pub request_runs_postsuper :
    (exec_path : Text) (ids : List Text)
    → All (Lacks b' ') ids
    → (handle_delete_channel true exec_path (published ((text "queueId[]", ids) ∷ []))
        ≡ some (command_of exec_path, delete_flags (keep is_deletable ids)) ∷ [])
      × All Safe (keep is_deletable ids)
unfolding handle_delete_channel published mail_queue_delete_items ◌==◌
request_runs_postsuper exec_path ids h =
    let (args, safe) = delete_args_lem ids in
    (
      ap (λ (l : List Text). some (command_of exec_path, l) ∷ []) (delete_args-split ids h ∙ args),
      safe,
    )
