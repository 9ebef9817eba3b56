-- ===== src/Cache/Tests.antt =====
-- Tests of the message cache, and its theorems at concrete inputs.
use clue_getter.Prelude.{◌≡◌, ◌≢◌, refl, none, some, [], arith}
use clue_getter.Prelude.Text.{text, ◌==◌}
use clue_getter.Dict.{lookup, insert, delete, keys_where}
use clue_getter.Cache.{
  MessageCache, message_cache_new, get_by_queue_id, get_by_message_id, del, set, prune,
  entry_too_big,
}
use clue_getter.Cache.Invariant.{IsConsistent, message_cache_new-IsConsistent, set-IsConsistent}
use clue_getter.Cache.Reach.{start, later, setting, pruning, Reach-IsConsistent}

empty_cache : MessageCache
unfolding message_cache_new set prune del get_by_message_id get_by_queue_id lookup insert delete
    keys_where ◌==◌
empty_cache = message_cache_new 10 20

one_message : MessageCache
unfolding empty_cache
one_message = (set empty_cache 1000 (text "Q1") (text "<m@x>") (text "hello")).0

two_messages : MessageCache
unfolding one_message
two_messages = (set one_message 1400 (text "Q2") (text "<m@x>") (text "world")).0

replaced_and_lost :
    (get_by_message_id
        (set two_messages 1500 (text "Q1") (text "<n@x>") (text "again")).0
        (text "<m@x>")
      ≡ [])
    × (get_by_queue_id two_messages (text "Q2") ≡ text "world")
    × ((set two_messages 1500 (text "Q1") (text "<n@x>") (text "much too long")).1
        ≡ some entry_too_big)
    × ((set two_messages 1500 (text "Q1") (text "<n@x>") (text "not at all")).1 ≡ none)
    × ((prune two_messages 1301).size ≡ 5)
unfolding two_messages
replaced_and_lost = (refl, refl, refl, refl, refl)

empty_cache-IsConsistent : IsConsistent empty_cache
unfolding empty_cache
empty_cache-IsConsistent = message_cache_new-IsConsistent 10 20 (omega arith)

one_message-IsConsistent : IsConsistent one_message
unfolding one_message
one_message-IsConsistent =
    set-IsConsistent empty_cache 1000 (text "Q1") (text "<m@x>") (text "hello")
      empty_cache-IsConsistent

two_messages-IsConsistent : IsConsistent two_messages
unfolding two_messages
two_messages-IsConsistent =
    set-IsConsistent one_message 1400 (text "Q2") (text "<m@x>") (text "world")
      one_message-IsConsistent

Q1_ne_Q2 : text "Q1" ≢ text "Q2"
Q1_ne_Q2 e = ground arith

Reach-IsConsistent_example :
    IsConsistent (prune (set empty_cache 7 (text "Q1") (text "<m@x>") (text "hello")).0 9)
unfolding empty_cache
Reach-IsConsistent_example =
    Reach-IsConsistent 10 20
      (prune (set empty_cache 7 (text "Q1") (text "<m@x>") (text "hello")).0 9) (omega arith)
      (later (later start (setting empty_cache 7 (text "Q1") (text "<m@x>") (text "hello")))
        (pruning (set empty_cache 7 (text "Q1") (text "<m@x>") (text "hello")).0 9))
