-- ===== src/Cache/Reach.antt =====
-- core/messagePersist.go: the caches that the program can have, by any operations in any order.
use clue_getter.Prelude.{ℕ, ◌+◌, ◌<◌}
use clue_getter.Prelude.Text.{Text}
use clue_getter.Cache.{MessageCache, message_cache_new, u64, set, del, prune}
use clue_getter.Cache.Invariant.{
  IsConsistent, message_cache_new-IsConsistent, set-IsConsistent, del-IsConsistent,
  prune-IsConsistent,
}

-- One operation on a cache, under its lock.
pub data Step : MessageCache → MessageCache → Type 0 where
  setting :
      (c : MessageCache) (now : ℕ) (queue_id msg_id msg : Text)
      → Step c (set c now queue_id msg_id msg).0
  deleting : (c : MessageCache) (id : Text) → Step c (del c id)
  pruning : (c : MessageCache) (now : ℕ) → Step c (prune c now)

-- The caches that come of a new one.
pub data Reach (max_entry_size max_size : ℕ) : MessageCache → Type 0 where
  start : Reach max_entry_size max_size (message_cache_new max_entry_size max_size)
  later :
      {c d : MessageCache}
      → Reach max_entry_size max_size c
      → Step c d
      → Reach max_entry_size max_size d

Step-IsConsistent : {c d : MessageCache} → Step c d → IsConsistent c → IsConsistent d
Step-IsConsistent (setting c now queue_id msg_id msg) h =
    set-IsConsistent c now queue_id msg_id msg h
Step-IsConsistent (deleting c id) h = del-IsConsistent c id h
Step-IsConsistent (pruning c now) h = prune-IsConsistent c now h

-- Whatever is set, deleted and pruned, and in whatever order: the cache's bookkeeping is consistent, so
-- its size is the sum of the lengths of its entries and within its limit, if the limits fit in 64 bits.
pub Reach-IsConsistent :
    (max_entry_size max_size : ℕ) (c : MessageCache)
    → max_size + max_entry_size < u64
    → Reach max_entry_size max_size c
    → IsConsistent c
Reach-IsConsistent e m c fits start = message_cache_new-IsConsistent e m fits
Reach-IsConsistent e m c fits (later {c = before} reached step) =
    Step-IsConsistent step (Reach-IsConsistent e m before fits reached)
