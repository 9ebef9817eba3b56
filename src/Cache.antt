-- ===== src/Cache.antt =====
-- core/messagePersist.go: the cache of recent messages, by queue id and by message id. The
-- operations run under the cache's lock, one at a time; the time is in Unix seconds.
pub mod Invariant
pub mod Lookup
pub mod Reach
mod Tests
use clue_getter.Prelude.{
  ℕ, ◌+◌, ◌-◌, ◌*◌, ◌/◌, ◌%◌, ◌^◌, Bool, Option, none, some, List, [], ◌∷◌, ltb, if◌then◌else◌,
  length,
}
use clue_getter.Prelude.Text.{Text}
use clue_getter.Dict.{Dict, lookup, insert, delete, keys_where}

pub record MessageCache : Type 0 where
  pub cache : Dict Text
  pub age : Dict ℕ
  pub msg_id_idx : Dict Text
  pub msg_id_rev_idx : Dict Text
  pub size : ℕ
  pub max_size : ℕ
  pub max_entry_size : ℕ

pub message_cache_new : ℕ → ℕ → MessageCache
message_cache_new max_entry_size max_size = record {
  cache = [];
  age = [];
  msg_id_idx = [];
  msg_id_rev_idx = [];
  size = 0;
  max_size = max_size;
  max_entry_size = max_entry_size;
}

-- The cache of the program: entries of up to 5 MB, 512 MB in all.
pub message_persist_cache : MessageCache
unfolding message_cache_new
message_persist_cache = message_cache_new (5 * 1024 * 1024) (512 * 1024 * 1024)

abbrev pub u64 : ℕ
u64 = 2 ^ 64

-- atomic.AddUint64(&x, n)
unfoldable pub add_uint64 : ℕ → ℕ → ℕ
add_uint64 x n = (x + n) % u64

-- ^uint64(n - 1) of an int n that is not negative
complement_pred : ℕ → ℕ
complement_pred n = u64 - 1 - ((n + u64 - 1) % u64)

-- The value of a missing key is the zero value, here the empty string.
abbrev pub or_empty : Option Text → Text
or_empty none = []
or_empty (some v) = v

pub get_by_queue_id : MessageCache → Text → Text
get_by_queue_id c queue_id = or_empty (lookup queue_id c.cache)

unfoldable pub get_by_message_id : MessageCache → Text → Text
get_by_message_id c msg_id =
    let queue_id = or_empty (lookup msg_id c.msg_id_idx) in or_empty (lookup queue_id c.cache)

-- What `_del` does to an entry that is there.
remove_entry : MessageCache → Text → Text → MessageCache
unfolding add_uint64 complement_pred
remove_entry c id item = record c {
  cache = delete id c.cache;
  age = delete id c.age;
  size = add_uint64 c.size (complement_pred (length item));
  msg_id_idx = delete (or_empty (lookup id c.msg_id_rev_idx)) c.msg_id_idx;
  msg_id_rev_idx = delete id c.msg_id_rev_idx;
}

pub del : MessageCache → Text → MessageCache
unfolding remove_entry
del c id = elim (lookup id c.cache) [ none ↦ c | some item ↦ remove_entry c id item ]

pub data SetError : Type 0 where
  entry_too_big cache_full : SetError

-- What `Set` writes once the tests have passed.
pub store_entry : MessageCache → ℕ → Text → Text → Text → MessageCache
unfolding add_uint64
store_entry c now queue_id msg_id msg = record c {
  msg_id_idx = insert msg_id queue_id c.msg_id_idx;
  msg_id_rev_idx = insert queue_id msg_id c.msg_id_rev_idx;
  cache = insert queue_id msg c.cache;
  age = insert queue_id now c.age;
  size = add_uint64 c.size (length msg);
}

-- The result `none` stands for `true, nil`. `_del` does nothing to an entry that is not there, as
-- the test before its call here.
unfoldable pub set : MessageCache → ℕ → Text → Text → Text → MessageCache × Option SetError
unfolding store_entry add_uint64
set c now queue_id msg_id msg =
    if ltb c.max_entry_size (length msg)
    then (c, some entry_too_big)
    else if ltb c.max_size (add_uint64 c.size (length msg))
    then (c, some cache_full)
    else (
      store_entry (elim (lookup queue_id c.cache) [ none ↦ c | some _ ↦ del c queue_id ]) now
          queue_id msg_id msg,
      none,
    )

pub del_all : MessageCache → List Text → MessageCache
del_all c [] = c
del_all c (key ∷ keys) = del_all (del c key) keys

pub prune : MessageCache → ℕ → MessageCache
unfolding del_all
prune c now =
    if ltb c.size (c.max_size / 2)
    then c
    else del_all c (keys_where (λ age. ltb (age + 300) now) c.age)
