-- ===== src/Greylisting.antt =====
-- greylisting/greylisting.go: a sender, recipients and address that are new are deferred, and let pass
-- when they come back later. Redis and the SPF records are parameters.
pub mod Retry
mod Tests
use clue_getter.Prelude.{
  ℕ, ◌+◌, ◌*◌, Bool, true, false, not, Option, none, some, List, [], ◌∷◌, ◌++◌, if◌then◌else◌, ltb,
  map,
}
use clue_getter.Prelude.Text.{Text, text, show, join}
use clue_getter.Prelude.Float.{Float}
use clue_getter.Address.{Address, to_string}
use clue_getter.Message.{Action, permit, tempfail, same_action, CheckResult}

-- What the module uses of redis, at a time in seconds: GET of a number, none for an error; EXISTS;
-- and SET of a key to a number for a number of seconds.
pub record Redis (S : Type 0) : Type 0 where
  pub get : S → ℕ → Text → Option ℕ
  pub holds : S → ℕ → Text → Bool
  pub put : S → ℕ → Text → ℕ → ℕ → S

pub record GreylistingConfig (F : Type 0) : Type 0 where
  pub enabled : Bool
  -- in minutes
  pub initial_period : ℕ
  pub initial_score : F
  pub whitelist_spf : List Text

-- What the check reads of a message and its session.
pub record Delivery : Type 0 where
  pub instance_id : ℕ
  pub ip : Text
  pub sender : Address
  pub rcpt : List Address

abbrev pub key_prefix : Delivery → Text
key_prefix d = text "cluegetter-" ++ (show d.instance_id ++ text "-greylisting-")

unfoldable pub ip_key : Delivery → Text
ip_key d = key_prefix d ++ (text "ip-" ++ d.ip)

unfoldable pub message_key : Delivery → Text
unfolding join to_string
message_key d =
    key_prefix d
    ++ (text "msg-"
        ++ (d.ip
            ++ b'_'
              ∷ (to_string d.sender
                  ++ b'_' ∷ (b'[' ∷ (join (text " ") (map to_string d.rcpt) ++ text "]")))))

-- `ipIsSpfWhitelisted`, without the error that is only reported: what each domain answers about the
-- address is none for an error.
unfoldable pub ip_is_spf_whitelisted : (Text → Option Bool) → List Text → Bool
ip_is_spf_whitelisted query [] = false
ip_is_spf_whitelisted query (domain ∷ domains) =
    let rest = ip_is_spf_whitelisted query domains in
    elim (query domain) [ none ↦ rest | some passes ↦ if passes then true else rest ]

module _ {F : Type 0} (fl : Float F) where
  abbrev pub permitted : CheckResult F
  permitted = record {
    module_name = text "greylisting";
    suggested_action = permit;
    message = [];
    score = fl.one;
    weighted_score = fl.zero;
    callbacks = [];
  }

  abbrev pub deferred : GreylistingConfig F → CheckResult F
  deferred config = record {
    module_name = text "greylisting";
    suggested_action = tempfail;
    message = text "Greylisting in effect, please come back later";
    score = config.initial_score;
    weighted_score = fl.zero;
    callbacks = [];
  }

module _ {F S : Type 0} (fl : Float F) (redis : Redis S) (config : GreylistingConfig F) where
  -- `getVerdict`, by what redis has for the message's key.
  unfoldable pub verdict_for : S → ℕ → Text → Option ℕ → S × CheckResult F
  verdict_for store now key none = (redis.put store now key now (90 * 60), deferred fl config)
  verdict_for store now key (some since) = (
    store,
    if ltb (since + config.initial_period * 60) now then permitted fl else deferred fl config,
  )

  unfoldable pub get_verdict : S → ℕ → Delivery → S × CheckResult F
  unfolding verdict_for message_key
  get_verdict store now d =
      verdict_for store now (message_key d) (redis.get store now (message_key d))

  -- `updateWhitelist`
  unfoldable pub update_whitelist : S → ℕ → Delivery → S
  unfolding ip_key
  update_whitelist store now d = redis.put store now (ip_key d) now (40 * 24 * 3600)

  abbrev pub update_if_permitted : ℕ → Delivery → S × CheckResult F → S × Option (CheckResult F)
  update_if_permitted now d (store, out) = (
    if same_action out.suggested_action permit then update_whitelist store now d else store,
    some out,
  )

  -- `MessageCheck`
  unfoldable pub message_check :
      (Text → Option Bool) → S → ℕ → Delivery → S × Option (CheckResult F)
  unfolding get_verdict update_whitelist ip_is_spf_whitelisted ip_key
  message_check query store now d =
      if not config.enabled
      then (store, none)
      else if ip_is_spf_whitelisted query config.whitelist_spf
      then (update_whitelist store now d, some (permitted fl))
      else if redis.holds store now (ip_key d)
      then (update_whitelist store now d, some (permitted fl))
      else update_if_permitted now d (get_verdict store now d)
