-- ===== src/MailQueue/Updates.antt =====
-- core/mailQueue.go: the list of the items of a queue that an instance keeps in redis, and what the
-- search finds in it.
use clue_getter.Prelude.{
  ℕ, ◌+◌, ◌<◌, ◌≤◌, ◌≡◌, refl, ◌∙◌, ap, sym, Among, Bool, true, false, ◌&&◌, ◌||◌, if◌then◌else◌,
  Option, none, some, List, [], ◌∷◌, ◌++◌, inl, inr, length, arith, All, All-append, keep,
  Bool-cases,
}
use mathlib.Core.List.{map, reverse, append_assoc, append-nil, reverse-cons, map-append}
use clue_getter.Prelude.Text.{Text, text, show, cut, is_empty, equal_fold, ◌==◌, eq_iff}
use clue_getter.Dict.{mem, lookup}
use clue_getter.Daemon.Rpc.{Service}
use clue_getter.MailQueue.{GetOptions, core_parse_address, is_match, is_wanted}
use clue_getter.MailQueue.Envelopes.{Item}
use clue_getter.MailQueue.Store.{
  in_one_of_instances, queue_key, queue_names, wanted_items, queue_items, get_queues,
  get_from_data_store,
}

-- What the mail queue uses of redis, at a time in seconds.
pub record Redis (S : Type 0) : Type 0 where
  pub del : S → ℕ → Text → S
  pub l_push : S → ℕ → Text → Text → S
  pub expire : S → ℕ → Text → ℕ → S
  pub l_range : S → ℕ → Text → List Text

module _ {S : Type 0} {T : Type 0} (redis : Redis S) (marshal : Item T → Text) where
  -- The loop over the envelopes, with the count of those before.
  unfoldable pub push_items : S → ℕ → Text → ℕ → List (Item T) → S × ℕ
  push_items store now key count [] = (store, count)
  push_items store now key count (item ∷ items) =
      push_items (redis.l_push store now key (marshal item)) now key (1 + count) items

  -- `mailQueueAddToRedis`, where redis runs the transaction.
  unfoldable pub add_to_redis : S → ℕ → Service → Text → List (Item T) → S × ℕ
  unfolding push_items queue_key
  add_to_redis store now self queue items =
      let key = queue_key self queue in
      let (pushed, count) = push_items (redis.del store now key) now key 0 items in
      (redis.expire pushed now key 300, count)

lookup-get_queues :
    {T : Type 0} (l_range : Text → List Text) (unmarshal : Text → Option (Item T))
    (options : GetOptions) (services : List Service) (queue : Text) (queues : List Text)
    → mem queue queues ≡ true
    → lookup queue (get_queues l_range unmarshal options services queues)
      ≡ some (queue_items l_range unmarshal options queue services)
unfolding get_queues lookup
lookup-get_queues l_range unmarshal options services queue [] h = cc h
lookup-get_queues l_range unmarshal options services queue (name ∷ queues) h =
    elim (Bool-cases (name == queue)) [
      | inl this ↦ rw (this, (eq_iff name queue).0 this) refl
      | inr other ↦
          rw other
            (lookup-get_queues l_range unmarshal options services queue queues (rw other at h))
    ]

All-reverse : {A : Type 0} (P : A → Type 0) (xs : List A) → All P xs → All P (reverse xs)
All-reverse P [] h = tt
All-reverse P (x ∷ xs) (p, h) =
    rw (reverse-cons x xs) (All-append P (reverse xs) (x ∷ []) (All-reverse P xs h) (p, tt))

-- The local part and the domain of a text: what stands before and after its first "@". Without one it
-- is all domain.
abbrev pub parts_of : Text → Text × Text
parts_of s = elim (cut b'@' s) [ none ↦ ([], s) | some parts ↦ parts ]

-- Whether an address that is asked for fits one that is found: any does where none is asked for; else
-- the domains are equal, in whatever case, and the local parts where one is asked for.
abbrev pub fits : Text → Text → Bool
unfolding equal_fold
fits asked found =
    is_empty asked
    || (equal_fold (parts_of found).1 (parts_of asked).1
        && (is_empty (parts_of asked).0 || equal_fold (parts_of found).0 (parts_of asked).0))

abbrev pub item_field : {T : Type 0} → Text → Item T → Text
item_field field item = elim (lookup field item.kv) [ none ↦ [] | some value ↦ value ]

-- Whether an item suits a search, by its sender and its recipient.
abbrev pub suits : {T : Type 0} → GetOptions → Item T → Bool
suits options item =
    fits options.sender (item_field (text "sender") item)
    && fits options.recipient (item_field (text "recipient") item)

swap_tests : (a b c : Bool) → ((a && b) || c) ≡ (c || (b && a))
swap_tests true true true = refl
swap_tests true true false = refl
swap_tests true false true = refl
swap_tests true false false = refl
swap_tests false true true = refl
swap_tests false true false = refl
swap_tests false false true = refl
swap_tests false false false = refl

is_match-fits : (asked found : Text) → is_match asked found ≡ fits asked found
unfolding is_match core_parse_address
is_match-fits asked found =
    swap_tests (is_empty (parts_of asked).0 || equal_fold (parts_of found).0 (parts_of asked).0)
      (equal_fold (parts_of found).1 (parts_of asked).1) (is_empty asked)

if_and :
    (a b c d : Bool)
    → (if a && b then true else if a || c then b || d else false) ≡ ((a || c) && (b || d))
if_and true true c d = refl
if_and true false c d = refl
if_and false b true d = refl
if_and false b false d = refl

is_wanted-suits :
    {T : Type 0} (options : GetOptions) (item : Item T)
    → is_wanted options item.kv ≡ suits options item
unfolding is_wanted
is_wanted-suits options item =
    rw
      (
        is_match-fits options.sender (item_field (text "sender") item),
        is_match-fits options.recipient (item_field (text "recipient") item),
      )
      (if_and (is_empty options.sender) (is_empty options.recipient) _ _)

queue_items-append :
    {T : Type 0} (l_range : Text → List Text) (unmarshal : Text → Option (Item T))
    (options : GetOptions) (queue : Text) (before after : List Service)
    → queue_items l_range unmarshal options queue (before ++ after)
      ≡ queue_items l_range unmarshal options queue before
        ++ queue_items l_range unmarshal options queue after
unfolding queue_items
queue_items-append l_range unmarshal options queue [] after = refl
queue_items-append l_range unmarshal options queue (service ∷ before) after =
    let rest = queue_items-append l_range unmarshal options queue before after in
    elim (Bool-cases (in_one_of_instances service options.instances)) [
      | inl selected ↦
          rw (selected, rest)
            (sym (
              append_assoc
                (wanted_items l_range unmarshal options (l_range (queue_key service queue)))
                (queue_items l_range unmarshal options queue before)
                (queue_items l_range unmarshal options queue after)))
      | inr other ↦ rw other rest
    ]

-- The section's hypotheses: a deleted list is empty, a value is pushed to the front of a list, and a
-- list stays until it expires.
module _ {S : Type 0} {T : Type 0} (redis : Redis S) (marshal : Item T → Text)
    (unmarshal : Text → Option (Item T))
    (range-del : (store : S) (now : ℕ) (key : Text)
      → redis.l_range (redis.del store now key) now key ≡ [])
    (range-push : (store : S) (now : ℕ) (key value : Text)
      → redis.l_range (redis.l_push store now key value) now key
        ≡ value ∷ redis.l_range store now key)
    (range-expire : (store : S) (now later ttl : ℕ) (key : Text)
      → now ≤ later
      → later < now + ttl
      → redis.l_range (redis.expire store now key ttl) later key
        ≡ redis.l_range store now key) where
  range-push_items :
      (store : S) (now : ℕ) (key : Text) (count : ℕ) (items : List (Item T))
      → redis.l_range (push_items redis marshal store now key count items).0 now key
        ≡ map marshal (reverse items) ++ redis.l_range store now key
  unfolding push_items
  range-push_items store now key count [] = refl
  range-push_items store now key count (item ∷ items) =
      rw
        (
          range-push_items (redis.l_push store now key (marshal item)) now key (1 + count) items,
          range-push store now key (marshal item),
          reverse-cons item items,
          map-append marshal (reverse items) (item ∷ []),
          append_assoc (map marshal (reverse items)) (marshal item ∷ [])
              (redis.l_range store now key),
        )
        refl

  count-push_items :
      (store : S) (now : ℕ) (key : Text) (count : ℕ) (items : List (Item T))
      → (push_items redis marshal store now key count items).1 ≡ length items + count
  unfolding push_items
  count-push_items store now key count [] = omega arith
  count-push_items store now key count (item ∷ items) =
      let rest =
        count-push_items (redis.l_push store now key (marshal item)) now key (1 + count) items in
      omega (arith, rest)

  range-add_to_redis :
      (store : S) (now later : ℕ) (self : Service) (queue : Text) (items : List (Item T))
      → now ≤ later
      → later < now + 300
      → redis.l_range
          (add_to_redis redis marshal store now self queue items).0
          later
          (queue_key self queue)
        ≡ map marshal (reverse items)
  unfolding add_to_redis
  range-add_to_redis store now later self queue items h k =
      let key = queue_key self queue in
      range-expire (push_items redis marshal (redis.del store now key) now key 0 items).0 now later
        300 key h k
      ∙ range-push_items (redis.del store now key) now key 0 items
      ∙ ap (λ rest. map marshal (reverse items) ++ rest) (range-del store now key)
      ∙ append-nil (map marshal (reverse items))

  wanted_items-map :
      (l_range : Text → List Text) (options : GetOptions) (items : List (Item T))
      → All (λ item. unmarshal (marshal item) ≡ some item) items
      → wanted_items l_range unmarshal options (map marshal items) ≡ keep (suits options) items
  unfolding wanted_items
  wanted_items-map l_range options [] read = refl
  wanted_items-map l_range options (item ∷ items) (one, read) =
      rw (one, is_wanted-suits options item, wanted_items-map l_range options items read) refl

  queue_items-add_to_redis :
      (store : S) (now later : ℕ) (self : Service) (queue : Text) (items : List (Item T))
      (options : GetOptions) (after : List Service)
      → All (λ item. unmarshal (marshal item) ≡ some item) items
      → now ≤ later
      → later < now + 300
      → in_one_of_instances self options.instances ≡ true
      → queue_items
          (redis.l_range (add_to_redis redis marshal store now self queue items).0 later)
          unmarshal
          options
          queue
          (self ∷ after)
        ≡ keep (suits options) (reverse items)
          ++ queue_items
              (redis.l_range (add_to_redis redis marshal store now self queue items).0 later)
              unmarshal
              options
              queue
              after
  unfolding queue_items
  queue_items-add_to_redis store now later self queue items options after read h k selected =
      let l_range = redis.l_range (add_to_redis redis marshal store now self queue items).0 later in
      rw selected (
        ap (λ found. found ++ queue_items l_range unmarshal options queue after)
          (ap (wanted_items l_range unmarshal options)
              (range-add_to_redis store now later self queue items h k)
            ∙ wanted_items-map l_range options (reverse items) (All-reverse _ items read)))

  selected_lem :
      (self : Service) (instances : List Text)
      → Among (show self.instance_id) instances
      → in_one_of_instances self instances ≡ true
  unfolding in_one_of_instances
  selected_lem self [] h = elim h [ ]
  selected_lem self (inst ∷ instances) (inl e) = rw ((eq_iff (show self.instance_id) inst).1 e) refl
  selected_lem self (inst ∷ instances) (inr h) = elim (Bool-cases (show self.instance_id == inst)) [
    | inl same ↦ rw same refl
    | inr other ↦ rw other (selected_lem self instances h)
  ]

  -- Where redis keeps a list until it expires, and the JSON of each item can be read back: for five
  -- minutes after a service has written the items of a queue to redis, a search that names its instance,
  -- whatever other services run before and after it in the list, finds in the queue all items of the
  -- service that suit the search by their sender and recipient, the last one first, between what it
  -- finds of the services before and after. The count that is logged is the number of the items.
  pub search_finds_update :
      (store : S) (now later : ℕ) (self : Service) (queue : Text) (items : List (Item T))
      (options : GetOptions) (before after : List Service)
      → All (λ item. unmarshal (marshal item) ≡ some item) items
      → now ≤ later
      → later < now + 300
      → mem queue queue_names ≡ true
      → Among (show self.instance_id) options.instances
      → (lookup queue (
            get_from_data_store
              (redis.l_range (add_to_redis redis marshal store now self queue items).0 later)
              unmarshal
              options
              (before ++ self ∷ after))
          ≡ some (
              queue_items
                (redis.l_range (add_to_redis redis marshal store now self queue items).0 later)
                unmarshal
                options
                queue
                before
              ++ (keep (suits options) (reverse items)
                  ++ queue_items
                      (redis.l_range
                        (add_to_redis redis marshal store now self queue items).0
                        later)
                      unmarshal
                      options
                      queue
                      after)))
        × ((add_to_redis redis marshal store now self queue items).1 ≡ length items)
  unfolding get_from_data_store add_to_redis
  search_finds_update store now later self queue items options before after read h k known named =
      let l_range = redis.l_range (add_to_redis redis marshal store now self queue items).0 later in
      let key = queue_key self queue in
      let selected = selected_lem self options.instances named in
      (
        lookup-get_queues l_range unmarshal options (before ++ self ∷ after) queue queue_names known
            ∙ ap some (
                queue_items-append l_range unmarshal options queue before (self ∷ after)
                ∙ ap (λ found. queue_items l_range unmarshal options queue before ++ found)
                    (queue_items-add_to_redis store now later self queue items options after read h
                      k selected)),
        omega (arith, count-push_items (redis.del store now key) now key 0 items),
      )
