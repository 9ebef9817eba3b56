-- ===== src/Greylisting/Tests.antt =====
-- Tests of the greylisting, with a map with times for redis, and its theorem at a concrete input.
use clue_getter.Prelude.{
  ℕ, ◌+◌, ◌*◌, ◌<◌, ◌≤◌, ◌≡◌, ◌≢◌, refl, inl, inr, Bool, true, false, Option, none, some, [], ◌∷◌,
  arith, ltb, ltb_iff, Bool-cases, if◌then◌else◌,
}
use clue_getter.Prelude.Text.{Text, text, ◌==◌, eq_iff, eq_refl, cut, show, join}
use clue_getter.Prelude.Float.{whole}
use clue_getter.Dict.{Dict, lookup, insert, lookup-insert}
use clue_getter.Address.{from_string, to_string}
use clue_getter.Greylisting.{
  Redis, GreylistingConfig, Delivery, ip_is_spf_whitelisted, ip_key, message_key, permitted,
  deferred, update_whitelist, message_check,
}
use clue_getter.Greylisting.Retry.{retry_decided, update_whitelist_lem}

-- Each key with the time of its end and its value.
abbrev value_at : ℕ → Option (ℕ × ℕ) → Option ℕ
value_at now none = none
value_at now (some (end, value)) = if ltb now end then some value else none

abbrev is_there : Option ℕ → Bool
is_there none = false
is_there (some value) = true

abbrev timed : Redis (Dict (ℕ × ℕ))
timed = record {
  get = λ store now key. value_at now (lookup key store);
  holds = λ store now key. is_there (value_at now (lookup key store));
  put = λ store now key value ttl. insert key (now + ttl, value) store;
}

get-put_timed :
    (store : Dict (ℕ × ℕ)) (now later : ℕ) (key : Text) (value ttl : ℕ)
    → now ≤ later
    → later < now + ttl
    → timed.get (timed.put store now key value ttl) later key ≡ some value
get-put_timed store now later key value ttl after before =
    rw
      (
        lookup-insert key key (now + ttl, value) store,
        eq_refl key,
        (ltb_iff later (now + ttl)).1 before,
      )
      refl

holds-put_timed :
    (store : Dict (ℕ × ℕ)) (now later : ℕ) (key : Text) (value ttl : ℕ)
    → now ≤ later
    → later < now + ttl
    → timed.holds (timed.put store now key value ttl) later key ≡ true
holds-put_timed store now later key value ttl after before =
    rw
      (
        lookup-insert key key (now + ttl, value) store,
        eq_refl key,
        (ltb_iff later (now + ttl)).1 before,
      )
      refl

holds-put_other_timed :
    (store : Dict (ℕ × ℕ)) (now later : ℕ) (key other : Text) (value ttl : ℕ)
    → key ≢ other
    → timed.holds (timed.put store now key value ttl) later other ≡ timed.holds store later other
holds-put_other_timed store now later key other value ttl ne = elim (Bool-cases (key == other)) [
  | inl same ↦ absurd (ne ((eq_iff key other).0 same))
  | inr apart ↦ rw (lookup-insert key other (now + ttl, value) store, apart) refl
]

config : GreylistingConfig ℕ
unfolding message_check message_key ip_key ip_is_spf_whitelisted lookup insert ◌==◌ from_string
    to_string cut show join
config = record { enabled = true; initial_period = 5; initial_score = 6; whitelist_spf = [] }

abbrev delivery : Delivery
delivery = record {
  instance_id = 1;
  ip = text "192.0.2.1";
  sender = from_string (text "ann@a.org");
  rcpt = from_string (text "bob@b.org") ∷ [];
}

abbrev no_spf : Text → Option Bool
no_spf domain = none

abbrev tried : Dict (ℕ × ℕ)
tried = (message_check whole timed config no_spf [] 1000 delivery).0

message_key_test :
    message_key delivery ≡ text "cluegetter-1-greylisting-msg-192.0.2.1_ann@a.org_[bob@b.org]"
unfolding config
message_key_test = refl

retry_decided_example :
    ((message_check whole timed config no_spf [] 1000 delivery).1 ≡ some (deferred whole config))
    × (message_check whole timed config no_spf tried 2000 delivery ≡ (
        if ltb (1000 + config.initial_period * 60) 2000
        then (update_whitelist whole timed config tried 2000 delivery, some (permitted whole))
        else (tried, some (deferred whole config))))
unfolding config
retry_decided_example =
    retry_decided whole timed config get-put_timed holds-put_timed holds-put_other_timed no_spf []
      delivery 1000 2000 refl refl refl refl refl (omega arith) (omega arith)

update_whitelist_lem_example :
    (message_check whole timed config no_spf
      (update_whitelist whole timed config tried 2000 delivery)
      90000
      (record delivery { sender = from_string (text "eve@e.org"); rcpt = [] })).1
    ≡ some (permitted whole)
unfolding config
update_whitelist_lem_example =
    update_whitelist_lem whole timed config get-put_timed holds-put_timed holds-put_other_timed
      no_spf tried delivery (record delivery { sender = from_string (text "eve@e.org"); rcpt = [] })
      2000 90000 refl refl refl refl (omega arith) (omega arith)
