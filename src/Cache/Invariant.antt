-- ===== src/Cache/Invariant.antt =====
-- The cache's bookkeeping: the byte count and the four maps agree after every operation.
use clue_getter.Prelude.{
  ℕ, ◌+◌, ◌/◌, ◌≤◌, ◌<◌, ◌≡◌, refl, Bool, true, false, inl, inr, Option, none, some, List, [], ◌∷◌,
  arith, ltb, length, Bool-cases, Option-cases, if◌then◌else◌,
}
use clue_getter.Prelude.Text.{Text, ◌==◌, eq_iff, eq_refl}
use clue_getter.Dict.{
  lookup, delete, lookup-insert, lookup-delete, IsDistinct, insert-IsDistinct, delete-IsDistinct,
  total, total-delete, total-insert, keys_where,
}
use clue_getter.Cache.{
  MessageCache, message_cache_new, u64, add_uint64, complement_pred, remove_entry, del,
  entry_too_big, cache_full, store_entry, set, del_all, prune,
}

abbrev pub is_bound {ℓ} : {V : Type ℓ} → Option V → Bool
is_bound none = false
is_bound (some v) = true

-- The byte count is the sum of the entries' lengths and within the limit, no key is bound twice, and
-- the maps by queue id have the same keys.
pub record IsConsistent (c : MessageCache) : Type 0 where
  pub counted : c.size ≡ total length c.cache
  pub bounded : c.size ≤ c.max_size
  pub fits : c.max_size + c.max_entry_size < u64
  pub distinct : IsDistinct c.cache
  pub distinct_age : IsDistinct c.age
  pub same_age : (q : Text) → is_bound (lookup q c.age) ≡ is_bound (lookup q c.cache)
  pub same_rev : (q : Text) → is_bound (lookup q c.msg_id_rev_idx) ≡ is_bound (lookup q c.cache)

pub message_cache_new-IsConsistent :
    (max_entry_size max_size : ℕ)
    → max_size + max_entry_size < u64
    → IsConsistent (message_cache_new max_entry_size max_size)
unfolding message_cache_new total lookup
message_cache_new-IsConsistent e m h = record {
  counted = refl;
  bounded = omega arith;
  fits = h;
  distinct = tt;
  distinct_age = tt;
  same_age = λ q. refl;
  same_rev = λ q. refl;
}

is_bound-unless :
    {V W : Type 0} (b : Bool) (o : Option V) (p : Option W)
    → is_bound o ≡ is_bound p
    → is_bound (if b then none else o) ≡ is_bound (if b then none else p)
is_bound-unless true o p e = refl
is_bound-unless false o p e = e

is_bound-or :
    {V W : Type 0} (b : Bool) (v : V) (w : W) (o : Option V) (p : Option W)
    → is_bound o ≡ is_bound p
    → is_bound (if b then some v else o) ≡ is_bound (if b then some w else p)
is_bound-or true v w o p e = refl
is_bound-or false v w o p e = e

add-complement_pred : (x n : ℕ) → n ≤ x → x < u64 → add_uint64 x (complement_pred n) + n ≡ x
unfolding add_uint64 complement_pred
add-complement_pred x n h k = omega arith

remove_entry-IsConsistent :
    (c : MessageCache) (id item : Text)
    → IsConsistent c
    → lookup id c.cache ≡ some item
    → IsConsistent (remove_entry c id item)
unfolding remove_entry
remove_entry-IsConsistent c id item h found =
    let removed : total length (delete id c.cache) + length item ≡ total length c.cache =
      rw found at (total-delete length id c.cache h.distinct) in
    let counted : add_uint64 c.size (complement_pred (length item)) + length item ≡ c.size =
      add-complement_pred c.size (length item) (omega (arith, h.counted))
        (omega (arith, h.bounded, h.fits)) in
    record {
      counted = omega (arith, h.counted);
      bounded = omega (arith, h.bounded);
      fits = h.fits;
      distinct = delete-IsDistinct id c.cache h.distinct;
      distinct_age = delete-IsDistinct id c.age h.distinct_age;
      same_age =
          λ q. rw (lookup-delete, lookup-delete) (is_bound-unless (id == q) _ _ (h.same_age q));
      same_rev =
          λ q. rw (lookup-delete, lookup-delete) (is_bound-unless (id == q) _ _ (h.same_rev q));
    }

pub del-IsConsistent : (c : MessageCache) (id : Text) → IsConsistent c → IsConsistent (del c id)
unfolding del
del-IsConsistent c id h = elim (Option-cases (lookup id c.cache)) [
  | inl missing ↦ rw (missing, del) h
  | inr (item, found) ↦ rw (found, del) (remove_entry-IsConsistent c id item h found)
]

pub lookup-del :
    (c : MessageCache) (id q : Text)
    → lookup q (del c id).cache ≡ (if id == q then none else lookup q c.cache)
unfolding del remove_entry
lookup-del c id q = ground (arith, lookup-delete id q c.cache, eq_iff id q)

pub del-none : (c : MessageCache) (id : Text) → lookup id c.cache ≡ none → del c id ≡ c
unfolding del
del-none c id h = rw (h, del)

pub del_limits :
    (c : MessageCache) (id : Text)
    → ((del c id).max_size ≡ c.max_size) × ((del c id).max_entry_size ≡ c.max_entry_size)
unfolding del remove_entry
del_limits c id = ground arith

size-del-le : (c : MessageCache) (id : Text) → IsConsistent c → (del c id).size ≤ c.size
unfolding del remove_entry
size-del-le c id h = elim (Option-cases (lookup id c.cache)) [
  | inl missing ↦ rw (missing, del) (omega arith)
  | inr (item, found) ↦
      let removed : total length (delete id c.cache) + length item ≡ total length c.cache =
        rw found at (total-delete length id c.cache h.distinct) in
      rw (found, del)
        (omega (
          arith,
          h.counted,
          add-complement_pred c.size (length item) (omega (arith, h.counted))
              (omega (arith, h.bounded, h.fits)),
        ))
]

-- An entry that is new fits, so that neither sum wraps around.
store_entry-IsConsistent :
    (c : MessageCache) (now : ℕ) (queue_id msg_id msg : Text)
    → IsConsistent c
    → lookup queue_id c.cache ≡ none
    → c.size + length msg ≤ c.max_size
    → IsConsistent (store_entry c now queue_id msg_id msg)
unfolding store_entry add_uint64
store_entry-IsConsistent c now queue_id msg_id msg h fresh room = record {
  counted = omega (arith, h.counted, h.fits, room, total-insert length queue_id msg c.cache fresh);
  bounded = omega (arith, h.fits, room);
  fits = h.fits;
  distinct = insert-IsDistinct queue_id msg c.cache h.distinct;
  distinct_age = insert-IsDistinct queue_id now c.age h.distinct_age;
  same_age = λ q.
      rw (lookup-insert, lookup-insert) (is_bound-or (queue_id == q) now msg _ _ (h.same_age q));
  same_rev = λ q.
      rw (lookup-insert, lookup-insert) (is_bound-or (queue_id == q) msg_id msg _ _ (h.same_rev q));
}

-- `Set` calls `_del` for an entry that is there; for another the call would change nothing.
pub set_lem :
    (c : MessageCache) (now : ℕ) (queue_id msg_id msg : Text)
    → set c now queue_id msg_id msg ≡ (
        if ltb c.max_entry_size (length msg)
        then (c, some entry_too_big)
        else if ltb c.max_size (add_uint64 c.size (length msg))
        then (c, some cache_full)
        else (store_entry (del c queue_id) now queue_id msg_id msg, none))
unfolding set
set_lem c now queue_id msg_id msg = elim (Option-cases (lookup queue_id c.cache)) [
  | inl missing ↦ rw (missing, set) (rw (del-none c queue_id missing))
  | inr (item, found) ↦ rw (found, set)
]

-- A message that is accepted is stored after what stood under its queue id is deleted.
pub set_accepted :
    (c : MessageCache) (now : ℕ) (queue_id msg_id msg : Text)
    → (set c now queue_id msg_id msg).1 ≡ none
    → (set c now queue_id msg_id msg).0 ≡ store_entry (del c queue_id) now queue_id msg_id msg
set_accepted c now queue_id msg_id msg = rw (set_lem c now queue_id msg_id msg) (ground arith)

pub add_uint64-fits :
    (c : MessageCache) (msg : Text)
    → IsConsistent c
    → length msg ≤ c.max_entry_size
    → add_uint64 c.size (length msg) ≡ c.size + length msg
unfolding add_uint64
add_uint64-fits c msg h small = omega (arith, h.bounded, h.fits)

-- Set, whether it stores or refuses, keeps consistent bookkeeping consistent.
pub set-IsConsistent :
    (c : MessageCache) (now : ℕ) (queue_id msg_id msg : Text)
    → IsConsistent c
    → IsConsistent (set c now queue_id msg_id msg).0
set-IsConsistent c now queue_id msg_id msg h =
    rw (set_lem c now queue_id msg_id msg) (elim (Bool-cases (ltb c.max_entry_size (length msg))) [
      | inl big ↦ rw big h
      | inr small ↦ rw small (elim (Bool-cases (ltb c.max_size (add_uint64 c.size (length msg)))) [
        | inl full ↦ rw full h
        | inr room ↦ rw room (
            store_entry-IsConsistent (del c queue_id) now queue_id msg_id msg
              (del-IsConsistent c queue_id h)
              (rw (lookup-del c queue_id queue_id, eq_refl queue_id))
              (ground (
                arith,
                size-del-le c queue_id h,
                del_limits c queue_id,
                add_uint64-fits c msg h (ground arith),
              )))
      ])
    ])

pub del_all-IsConsistent :
    (c : MessageCache) (keys : List Text) → IsConsistent c → IsConsistent (del_all c keys)
unfolding del_all
del_all-IsConsistent c [] h = h
del_all-IsConsistent c (key ∷ keys) h =
    del_all-IsConsistent (del c key) keys (del-IsConsistent c key h)

-- Pruning, at whatever time, keeps consistent bookkeeping consistent.
pub prune-IsConsistent : (c : MessageCache) (now : ℕ) → IsConsistent c → IsConsistent (prune c now)
unfolding prune
prune-IsConsistent c now h = elim (Bool-cases (ltb c.size (c.max_size / 2))) [
  | inl low ↦ rw low h
  | inr high ↦ rw high (del_all-IsConsistent c (keys_where (λ age. ltb (age + 300) now) c.age) h)
]
