-- ===== src/Cache/Lookup.antt =====
-- What is found in the cache after each operation.
use clue_getter.Prelude.{
  ℕ, ◌+◌, ◌/◌, ◌≤◌, ◌≡◌, ◌≢◌, ◌↔◌, refl, Bool, not, ◌&&◌, inl, inr, none, some, List, [], ◌∷◌,
  arith, ltb, length, Bool-cases, Option-cases, if◌then◌else◌,
}
use clue_getter.Prelude.Text.{Text, eq_iff, eq_refl}
use clue_getter.Dict.{lookup, lookup-insert, lookup-delete, mem, passes, keys_where, mem-keys_where}
use clue_getter.Cache.{
  MessageCache, get_by_queue_id, get_by_message_id, remove_entry, del, store_entry, set, del_all,
  prune,
}
use clue_getter.Cache.Invariant.{IsConsistent, set_lem, set_accepted, lookup-del, add_uint64-fits}

-- An accepted message is found by its queue id and by its message id; what other queue ids give is
-- unchanged.
pub get-set :
    (c : MessageCache) (now : ℕ) (queue_id msg_id msg : Text)
    → (set c now queue_id msg_id msg).1 ≡ none
    → (get_by_queue_id (set c now queue_id msg_id msg).0 queue_id ≡ msg)
      × (get_by_message_id (set c now queue_id msg_id msg).0 msg_id ≡ msg)
      × ((other : Text)
          → other ≢ queue_id
          → get_by_queue_id (set c now queue_id msg_id msg).0 other ≡ get_by_queue_id c other)
unfolding get_by_queue_id get_by_message_id store_entry
get-set c now queue_id msg_id msg e = rw (set_accepted c now queue_id msg_id msg e) (
  simp (lookup-insert, eq_refl),
  simp (lookup-insert, eq_refl),
  λ other ne. simp (lookup-insert, lookup-del) (ground (arith, eq_iff queue_id other)),
)

-- Set refuses a message exactly when it is longer than an entry may be, or does not fit beside all
-- that is cached, an entry that it would replace included; a refusal changes nothing.
pub set_refuses_iff :
    (c : MessageCache) (now : ℕ) (queue_id msg_id msg : Text)
    → IsConsistent c
    → (((set c now queue_id msg_id msg).1 ≡ none)
        ↔ ((length msg ≤ c.max_entry_size) × (c.size + length msg ≤ c.max_size)))
      × ((set c now queue_id msg_id msg).1 ≢ none → (set c now queue_id msg_id msg).0 ≡ c)
set_refuses_iff c now queue_id msg_id msg h =
    rw (set_lem c now queue_id msg_id msg) (elim (Bool-cases (ltb c.max_entry_size (length msg))) [
      | inl big ↦ rw big (ground arith)
      | inr small ↦ rw (small, add_uint64-fits c msg h (ground arith)) (ground arith)
    ])

lookup-del_all :
    (c : MessageCache) (keys : List Text) (q : Text)
    → lookup q (del_all c keys).cache ≡ (if mem q keys then none else lookup q c.cache)
unfolding del_all
lookup-del_all c [] q = refl
lookup-del_all c (key ∷ keys) q =
    ground (arith, lookup-del_all (del c key) keys q, lookup-del c key q)

-- Whether an entry of this age is older than five minutes.
abbrev pub is_old : ℕ → ℕ → Bool
is_old now age = ltb (age + 300) now

-- From half of the limit on, prune drops the entries that are older than five minutes, and no
-- others; below that it changes nothing.
pub get-prune :
    (c : MessageCache) (now : ℕ) (q : Text)
    → IsConsistent c
    → lookup q (prune c now).cache ≡ (
        if not (ltb c.size (c.max_size / 2)) && passes (is_old now) (lookup q c.age)
        then none
        else lookup q c.cache)
unfolding prune
get-prune c now q h = ground (
  arith,
  lookup-del_all c (keys_where (is_old now) c.age) q,
  mem-keys_where (is_old now) q c.age h.distinct_age,
)

-- Where two cached messages share a message id and the first is stored again under another message
-- id, the second is still cached, and is not found by its message id unless a message is cached
-- under the empty queue id.
pub shared_id_is_lost :
    (c : MessageCache) (now : ℕ) (first second shared other msg : Text)
    → lookup first c.cache ≢ none
    → lookup shared c.msg_id_idx ≡ some second
    → lookup first c.msg_id_rev_idx ≡ some shared
    → first ≢ second
    → other ≢ shared
    → (set c now first other msg).1 ≡ none
    → (get_by_queue_id (set c now first other msg).0 second ≡ get_by_queue_id c second)
      × (get_by_message_id (set c now first other msg).0 shared
          ≡ get_by_queue_id (set c now first other msg).0 [])
unfolding get_by_queue_id get_by_message_id store_entry del remove_entry
shared_id_is_lost c now first second shared other msg cached idx rev ne fresh e =
    rw (set_accepted c now first other msg e) (elim (Option-cases (lookup first c.cache)) [
      | inl missing ↦ absurd (cached missing)
      | inr (old, found) ↦
          rw (found, del)
            (simp (rev, lookup-insert, lookup-delete)
              (ground (arith, eq_iff first second, eq_iff other shared, eq_refl shared)))
    ])
