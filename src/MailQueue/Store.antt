-- ===== src/MailQueue/Store.antt =====
-- core/mailQueue.go: the search in the queues that each instance keeps in redis, and the requests to
-- delete that the web pages publish.
use clue_getter.Prelude.{Bool, Option, none, some, List, [], ◌∷◌, ◌++◌, any, if◌then◌else◌}
use clue_getter.Prelude.Text.{Text, text, ◌==◌, join, split, show}
use clue_getter.Daemon.Rpc.{Service}
use clue_getter.MailQueue.{GetOptions, is_wanted, mail_queue_delete_items}
use clue_getter.MailQueue.Envelopes.{Item}

abbrev pub queue_names : List Text
queue_names = text "incoming" ∷ text "active" ∷ text "deferred" ∷ text "corrupt" ∷ text "hold" ∷ []

unfoldable pub in_one_of_instances : Service → List Text → Bool
unfolding ◌==◌ show
in_one_of_instances service instances = any (λ inst. show service.instance_id == inst) instances

unfoldable pub queue_key : Service → Text → Text
unfolding show
queue_key service queue =
    text "cluegetter-"
    ++ (show service.instance_id
        ++ (text "-mailqueue-" ++ (service.hostname ++ (text "-" ++ queue))))

-- `l_range` is what redis has in a list, `unmarshal` reads an item as JSON, none for an error.
module _ {T : Type 0} (l_range : Text → List Text) (unmarshal : Text → Option (Item T)) where
  unfoldable pub wanted_items : GetOptions → List Text → List (Item T)
  unfolding is_wanted
  wanted_items options [] = []
  wanted_items options (value ∷ values) =
      let rest = wanted_items options values in
      elim (unmarshal value) [
        | none ↦ rest
        | some item ↦ if is_wanted options item.kv then item ∷ rest else rest
      ]

  unfoldable pub queue_items : GetOptions → Text → List Service → List (Item T)
  unfolding wanted_items in_one_of_instances queue_key
  queue_items options queue [] = []
  queue_items options queue (service ∷ services) =
      let rest = queue_items options queue services in
      if in_one_of_instances service options.instances
      then wanted_items options (l_range (queue_key service queue)) ++ rest
      else rest

  unfoldable pub get_queues : GetOptions → List Service → List Text → List (Text × List (Item T))
  unfolding queue_items
  get_queues options services [] = []
  get_queues options services (queue ∷ queues) =
      (queue, queue_items options queue services) ∷ get_queues options services queues

  -- `mailQueueGetFromDataStore`
  unfoldable pub get_from_data_store : GetOptions → List Service → List (Text × List (Item T))
  unfolding get_queues
  get_from_data_store options services = get_queues options services queue_names

-- `mailQueueHttpDelete`: the message for each value of the form, as key and values, where redis
-- publishes each; the source panics where it does not.
unfoldable pub published : List (Text × List Text) → List Text
unfolding ◌==◌ join
published [] = []
published ((key, ids) ∷ form) =
    let rest = published form in
    if key == text "queueId[]" then join (text " ") ids ∷ rest else rest

-- `mailQueueHandleDeleteChannel`: the command of each message.
unfoldable pub handle_delete_channel : Bool → Text → List Text → List (Option (Text × List Text))
unfolding mail_queue_delete_items split
handle_delete_channel enabled exec_path [] = []
handle_delete_channel enabled exec_path (message ∷ messages) =
    mail_queue_delete_items enabled exec_path (split b' ' message)
    ∷ handle_delete_channel enabled exec_path messages
