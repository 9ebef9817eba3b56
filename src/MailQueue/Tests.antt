-- ===== src/MailQueue/Tests.antt =====
-- Tests of the mail queue, and its theorems at concrete inputs.
use clue_getter.Prelude.{
  ℕ, Among, inl, ◌≡◌, refl, true, Option, none, some, List, [], ◌∷◌, ◌++◌, length, keep, All, arith,
  if◌then◌else◌, ◌+◌, ◌<◌, ◌≤◌, ltb, ltb_iff,
}
use mathlib.Core.List.{reverse}
use clue_getter.Prelude.Text.{Text, text, ◌==◌, eq_refl, cut, equal_fold}
use clue_getter.Dict.{lookup, mem}
use clue_getter.Prelude.Text.Cutting.{Lacks}
use clue_getter.Daemon.Rpc.{Service}
use clue_getter.MailQueue.{is_deletable, delete_args, is_wanted, value_of, GetOptions}
use clue_getter.MailQueue.Deletion.{delete_flags}
use clue_getter.MailQueue.Envelopes.{Item, read_postcat}
use clue_getter.MailQueue.Store.{
  queue_names, queue_items, get_from_data_store, published, handle_delete_channel,
}
use clue_getter.MailQueue.Updates.{Redis, add_to_redis, suits, search_finds_update}
use clue_getter.MailQueue.Requests.{Safe, command_of, request_runs_postsuper}

abbrev ids : List Text
ids = text "3A" ∷ text "ALL" ∷ text "" ∷ text "012345678901234567890" ∷ text "4B" ∷ []

delete_args_test : delete_args [] ids ≡ text "-d" ∷ text "3A" ∷ text "-d" ∷ text "4B" ∷ []
unfolding delete_args ◌==◌
delete_args_test = refl

is_wanted_test :
    is_wanted
      (record { sender = text "A.org"; recipient = []; instances = [] })
      ((text "sender", text "ann@a.org") ∷ [])
    ≡ true
unfolding is_wanted ◌==◌ cut equal_fold lookup
is_wanted_test = refl

abbrev printed : Text
printed =
    text "*** ENVELOPE RECORDS deferred/3AB012 ***"
    ++ (10
        ∷ (text "sender: ann@a.org"
            ++ (10
                ∷ (text "named_attribute: log_ident=3AB012"
                    ++ (10 ∷ text "*** MESSAGE CONTENTS ***")))))

read_postcat_test :
    read_postcat (λ created. some (length created)) (text "UTC") printed
    ≡ record {
      time = none;
      kv = (text "sender", text "ann@a.org") ∷ (text "log_ident", text "3AB012") ∷ [];
    }
      ∷ []
unfolding read_postcat
read_postcat_test = refl

abbrev here : Service
here = record { hostname = text "mx"; instance_id = 2 }

abbrev stored : Text → List Text
stored key =
    if key == text "cluegetter-2-mailqueue-hold-mx"
    then []
    else if key == text "cluegetter-2-mailqueue-mx-hold"
    then text "x" ∷ text "item" ∷ []
    else []

abbrev unmarshalled : Text → Option (Item ℕ)
unmarshalled value =
    if value == text "item"
    then some (record { time = none; kv = (text "sender", text "ann@a.org") ∷ [] })
    else none

get_from_data_store_test :
    get_from_data_store stored unmarshalled
      (record { sender = text "a.org"; recipient = []; instances = text "2" ∷ [] })
      (here ∷ [])
    ≡ (text "incoming", [])
      ∷ (text "active", [])
      ∷ (text "deferred", [])
      ∷ (text "corrupt", [])
      ∷ (text "hold", record { time = none; kv = (text "sender", text "ann@a.org") ∷ [] } ∷ [])
      ∷ []
unfolding get_from_data_store ◌==◌
get_from_data_store_test = refl

abbrev wanted_ids : List Text
wanted_ids = text "3A" ∷ text "ALL" ∷ text "" ∷ text "4B" ∷ []

wanted_ids-Lacks : All (Lacks b' ') wanted_ids
wanted_ids-Lacks = omega arith

request_runs_postsuper_example :
    (handle_delete_channel true [] (published ((text "queueId[]", wanted_ids) ∷ []))
      ≡ some (command_of [], delete_flags (keep is_deletable wanted_ids)) ∷ [])
    × All Safe (keep is_deletable wanted_ids)
request_runs_postsuper_example = request_runs_postsuper [] wanted_ids wanted_ids-Lacks

-- A redis whose lists are given by their key and the time, and its three laws.
abbrev Lists : Type 0
Lists = Text → ℕ → List Text

abbrev lists : Redis Lists
lists = record {
  del = λ store now key. λ k t. if key == k then [] else store k t;
  l_push = λ store now key value. λ k t. if key == k then value ∷ store k now else store k t;
  expire = λ store now key ttl.
      λ k t. if key == k then (if ltb t (now + ttl) then store k now else []) else store k t;
  l_range = λ store now key. store key now;
}

range-del :
    (store : Lists) (now : ℕ) (key : Text) → lists.l_range (lists.del store now key) now key ≡ []
range-del store now key = rw (eq_refl key) refl

range-push :
    (store : Lists) (now : ℕ) (key value : Text)
    → lists.l_range (lists.l_push store now key value) now key ≡ value ∷ lists.l_range store now key
range-push store now key value = rw (eq_refl key) refl

range-expire :
    (store : Lists) (now later ttl : ℕ) (key : Text)
    → now ≤ later
    → later < now + ttl
    → lists.l_range (lists.expire store now key ttl) later key ≡ lists.l_range store now key
range-expire store now later ttl key h k = rw (eq_refl key, (ltb_iff later (now + ttl)).1 k) refl

abbrev from_sender : Text → Item ℕ
from_sender sender = record { time = none; kv = (text "sender", sender) ∷ [] }

abbrev sender_of : Item ℕ → Text
sender_of item = value_of (text "sender") item.kv

abbrev both : List (Item ℕ)
both = from_sender (text "ann@a.org") ∷ from_sender (text "bob@b.org") ∷ []

abbrev from_a : GetOptions
from_a = record { sender = text "a.org"; recipient = []; instances = text "2" ∷ [] }

from_a-Among : Among (text "2") from_a.instances
from_a-Among = inl refl

-- Another service of the instance, on another host.
abbrev there : Service
there = record { hostname = text "mx2"; instance_id = 2 }

both_read : All (λ item. some (from_sender (sender_of item)) ≡ some item) both
unfolding ◌==◌ lookup
both_read = (refl, (refl, tt))

hold-known : mem (text "hold") queue_names ≡ true
unfolding ◌==◌
hold-known = refl

search_finds_update_example :
    (lookup (text "hold") (
        get_from_data_store
          (lists.l_range
            (add_to_redis lists sender_of (λ key t. []) 1000 here (text "hold") both).0
            1200)
          (λ value. some (from_sender value))
          from_a
          (there ∷ here ∷ []))
      ≡ some (
          queue_items
            (lists.l_range
              (add_to_redis lists sender_of (λ key t. []) 1000 here (text "hold") both).0
              1200)
            (λ value. some (from_sender value))
            from_a
            (text "hold")
            (there ∷ [])
          ++ (keep (suits from_a) (reverse both) ++ [])))
    × ((add_to_redis lists sender_of (λ key t. []) 1000 here (text "hold") both).1 ≡ length both)
unfolding queue_items
search_finds_update_example =
    search_finds_update lists sender_of (λ value. some (from_sender value)) range-del range-push
      range-expire (λ key t. []) 1000 1200 here (text "hold") both from_a (there ∷ []) [] both_read
      (omega arith) (omega arith) hold-known from_a-Among
