-- ===== src/Daemon/Tests.antt =====
-- Tests of the messages to the program, and its theorems at a concrete input.
use clue_getter.Prelude.{
  ℕ, ◌+◌, ◌<◌, ◌≤◌, ◌≡◌, refl, Among, Bool, true, false, none, some, List, [], ◌∷◌, ◌++◌, arith,
  ◌^◌, ◌&&◌, ltb, ltb_iff, if◌then◌else◌,
}
use clue_getter.Prelude.Int.{is_int, atoi, equals}
use clue_getter.Prelude.Text.{Text, text, ◌==◌, eq_refl, cut, show, trim_left, trim_right}
use clue_getter.Prelude.Text.Cutting.{free_of}
use clue_getter.Dict.{Dict, lookup, insert, mem}
use clue_getter.Daemon.Ipc.{ipc_send, ipc_parse, ipc_handle_conn, ipc_send_arrives}
use clue_getter.Daemon.Rpc.{Service, all_listeners, is_addressed, redis_rpc, channels_for}
use clue_getter.Daemon.Targets.{instance_number, written, names, redis_rpc_reaches}
use clue_getter.Daemon.Lists.{Popped, nil, failed, item, push_all, poll, poll-push_all}
use clue_getter.Daemon.Lists as Lists
use clue_getter.Daemon.Services.{
  Json, own_key, service_key, list_at, redis_update_running_list, parse_services,
  redis_get_services, running_service_listed,
}
use clue_getter.Daemon.Services as Services
use clue_getter.Daemon.Start.{standalone, redis_start, dump_keys, compile_all, redis_new_client}

here : Service
unfolding ipc_send ipc_parse ipc_handle_conn cut trim_left trim_right lookup insert ◌==◌ show is_int
    atoi equals all_listeners redis_rpc is_addressed push_all poll own_key service_key list_at
    redis_update_running_list parse_services redis_get_services redis_start dump_keys compile_all
    redis_new_client
here = record { hostname = text "mx1"; instance_id = 3 }

abbrev calm : ℕ → Text → Bool
calm handler value = false

abbrev handlers : Dict ℕ
handlers = (text "learn", 7) ∷ ((text "stop", 8) ∷ [])

ipc_send_arrives_example :
    ipc_handle_conn handlers calm [] (text "lea" ∷ (text "rn a b" ∷ ((0 ∷ []) ∷ [])))
    ≡ (7, text "a b") ∷ []
unfolding here
ipc_send_arrives_example =
    ipc_send_arrives handlers calm (text "learn") (text "a b") 7
      (text "lea" ∷ (text "rn a b" ∷ ((0 ∷ []) ∷ []))) (free_of b' ' (text "learn") refl)
      (free_of 0 (text "learn") refl) (free_of 0 (text "a b") refl) refl refl

-- Of two messages in one piece the second is lost.
ipc_lost_test :
    ipc_handle_conn handlers calm []
      ((ipc_send (text "learn") [] ++ ipc_send (text "stop") []) ∷ [])
    ≡ (7, []) ∷ []
unfolding here
ipc_lost_test = refl

abbrev modules : List (Dict ℕ)
modules = ((text "bounce", 1) ∷ []) ∷ (((text "learn", 2) ∷ ((text "bounce", 3) ∷ [])) ∷ [])

redis_rpc_reaches_example :
    redis_rpc here
      (all_listeners modules [])
      (text "cluegetter" ++ b'!' ∷ (written (instance_number 3) ++ b'!' ∷ text "bounce"))
    ≡ (if names (instance_number 3) here then channels_for (text "bounce") modules else [])
redis_rpc_reaches_example =
    redis_rpc_reaches here modules (instance_number 3) (text "bounce") (omega arith)

redis_rpc_test :
    (redis_rpc here (all_listeners modules []) (text "cluegetter!4!bounce") ≡ [])
    × (redis_rpc here (all_listeners modules []) (text "cluegetter!mx1!learn") ≡ 2 ∷ [])
    × (redis_rpc here (all_listeners modules []) (text "cluegetter!learn") ≡ [])
unfolding here
redis_rpc_test = (refl, refl, refl)

-- A list of redis, with the oldest item first.
abbrev pop_first : List Text → List Text × Popped
pop_first [] = ([], nil)
pop_first (s ∷ ss) = (ss, item s)

abbrev queued : Lists.Redis (List Text)
queued = record {
  l_push = λ store list value. store ++ value ∷ [];
  r_pop = λ store list. pop_first store;
}

poll-push_all_example :
    ((poll queued
        (text "queue")
        4
        (push_all queued (text "queue") (text "b" ∷ (text "c" ∷ [])) (text "a" ∷ []))).1
      ≡ text "a" ∷ (text "b" ∷ (text "c" ∷ [])))
    × ((poll queued
          (text "queue")
          4
          (push_all queued (text "queue") (text "b" ∷ (text "c" ∷ [])) (text "a" ∷ []))).0
        ≡ [])
unfolding here
poll-push_all_example =
    poll-push_all queued (text "queue") (λ store. store) answers takes (λ store value. refl) 4
      (text "b" ∷ (text "c" ∷ [])) (text "a" ∷ []) (omega arith)
  where
    answers : (store : List Text) → (pop_first store).1 ≡ Lists.answer_for store
    answers [] = refl
    answers (s ∷ ss) = refl

    takes : (store : List Text) → (pop_first store).0 ≡ Lists.others store
    takes [] = refl
    takes (s ∷ ss) = refl

-- The members of the sets, each with its set and the time of its end.
abbrev Members : Type 0
Members = List (Text × (Text × ℕ))

abbrev members_of : Members → ℕ → Text → List Text
members_of [] now key = []
members_of ((k, (member, end)) ∷ store) now key =
    if (k == key) && ltb now end
    then member ∷ members_of store now key
    else members_of store now key

abbrev end_at : Members → Text → ℕ → Members
end_at [] key end = []
end_at ((k, (member, old)) ∷ store) key end =
    (k, (member, if k == key then end else old)) ∷ end_at store key end

abbrev sets : Services.Redis Members
sets = record {
  h_set = λ store now key field value. store;
  s_add = λ store now key member. (key, (member, now + 2 ^ 64)) ∷ store;
  expire = λ store now key ttl. end_at store key (now + ttl);
  s_members = members_of;
}

expire_keeps_sets :
    (store : Members) (now later ttl : ℕ) (key member other : Text)
    → now ≤ later
    → later < now + ttl
    → mem member (sets.s_members store later key) ≡ true
    → mem member (sets.s_members (sets.expire store now other ttl) later key) ≡ true
expire_keeps_sets [] now later ttl key member other h k l = l
expire_keeps_sets ((j, (m, end)) ∷ store) now later ttl key member other h k l =
    let rest = expire_keeps_sets store now later ttl key member other h k in
    ground (arith, h, k, l, rest)

s_add_expire_sets :
    (store : Members) (now later ttl : ℕ) (key member : Text)
    → now ≤ later
    → later < now + ttl
    → mem member
        (sets.s_members (sets.expire (sets.s_add store now key member) now key ttl) later key)
      ≡ true
s_add_expire_sets store now later ttl key member h k =
    rw (eq_refl key, (ltb_iff later (now + ttl)).1 k, eq_refl member) refl

s_add_keeps_sets :
    (store : Members) (now later : ℕ) (key member other added : Text)
    → now ≤ later
    → mem member (sets.s_members store later key) ≡ true
    → mem member (sets.s_members (sets.s_add store now other added) later key) ≡ true
s_add_keeps_sets store now later key member other added h k = ground (arith, k)

abbrev plain : Json
plain = record {
  marshal = λ self. self.hostname;
  unmarshal = λ value. some (record { hostname = value; instance_id = 3 });
}

running_service_listed_example :
    Among here
      (redis_get_services sets plain (redis_update_running_list sets plain [] 1000 here) 1025)
unfolding here
running_service_listed_example =
    running_service_listed sets plain s_add_expire_sets s_add_keeps_sets
      (λ store now later key member other field value h. h) expire_keeps_sets [] 1000 1025 here refl
      (omega arith) (omega arith)

redis_start_test :
    (redis_start
        (λ r. none)
        (record {
          enabled = true;
          host = text "r1" ∷ [];
          dump_dir = [];
          dump_key = [];
          method = text "standalone";
        })
      ≡ some (some (standalone (text "r1"), [])))
    × (redis_start
          (λ r. none)
          (record { enabled = true; host = []; dump_dir = []; dump_key = []; method = [] })
        ≡ none)
unfolding here
redis_start_test = (refl, refl)
