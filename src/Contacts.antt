-- ===== src/Contacts.antt =====
-- core/contacts.go: the lists of senders that a recipient lets pass or blocks.
pub mod Decision
mod Tests
use clue_getter.Prelude.{
  ℕ, Bool, true, false, not, ◌||◌, Option, none, some, List, [], ◌∷◌, ◌++◌, map, if◌then◌else◌,
}
use clue_getter.Prelude.Go.{Go, ok, panic, ◌>>=◌}
use clue_getter.Prelude.Text.{Text, text, show, to_lower, is_empty, ◌==◌}
use clue_getter.Prelude.Float.{Float}
use clue_getter.Dict.{mem}
use clue_getter.Address.{Address, to_string}
use clue_getter.Message.{Action, permit, reject, CheckResult}

-- What the module uses of redis: LRANGE of a whole list, whether EVALSHA of the script answers, and
-- SCRIPT LOAD of it.
pub record Redis (S : Type 0) : Type 0 where
  pub l_range : S → Text → List Text
  pub answers : S → Bool
  pub load : S → S

pub record ContactsConfig (F : Type 0) : Type 0 where
  pub whitelist_address_score : F
  pub whitelist_domain_score : F
  pub blacklist_address_score : F
  pub blacklist_domain_score : F

module _ {S : Type 0} (redis : Redis S) where
  -- The script: whether one of the lists has the entry.
  unfoldable pub script : S → List Text → Text → Bool
  unfolding ◌==◌
  script store [] entry = false
  script store (key ∷ keys) entry =
      let rest = script store keys entry in
      if mem entry (redis.l_range store key) then true else rest

  abbrev once : S → List Text → Text → S × Bool
  once store keys entry = (store, if redis.answers store then script store keys entry else false)

  -- `contactsAppearsOnList`, called with true for `retry`: where the script does not answer, it is
  -- loaded and called once more.
  unfoldable pub contacts_appears_on_list : S → List Text → Text → S × Bool
  unfolding script to_lower
  contacts_appears_on_list store keys entry =
      if redis.answers store
      then once store keys (to_lower entry)
      else once (redis.load store) keys (to_lower entry)

-- The names of the lists of a recipient, as formats, and with the kind of list and of entry put in.
-- fmt.Sprintf is a parameter, since the recipient in the format may bring a "%" of its own.
unfoldable pub templates : ℕ → Address → List Text
unfolding to_string
templates inst rcpt =
    (text "cluegetter-" ++ (show inst ++ (text "-contacts-%s-%s-rcpt-domain-" ++ rcpt.domain)))
    ∷ ((text "cluegetter-"
          ++ (show inst ++ (text "-contacts-%s-%s-rcpt-address-" ++ to_string rcpt)))
        ∷ [])

unfoldable pub list_keys : (Text → Text → Text → Text) → List Text → Text → Text → List Text
unfolding to_lower
list_keys sprintf tpls list scope = map (λ tpl. sprintf tpl (to_lower list) (to_lower scope)) tpls

module _ {F : Type 0} (fl : Float F) where
  abbrev pub unlisted : CheckResult F
  unlisted = record {
    module_name = text "contacts";
    suggested_action = permit;
    message = [];
    score = fl.zero;
    weighted_score = fl.zero;
    callbacks = [];
  }

  abbrev pub listed : F → CheckResult F
  listed score = record {
    module_name = text "contacts";
    suggested_action = reject;
    message =
        text "This message was sent from an address that was put on a local blacklist "
        ++ text "by one of the recipients. Therefore, the message has been blocked.";
    score = score;
    weighted_score = fl.zero;
    callbacks = [];
  }

module _ {F S : Type 0} (fl : Float F) (redis : Redis S) (sprintf : Text → Text → Text → Text)
    (config : ContactsConfig F) (inst : ℕ) where
  -- A check of a list; where the entry is not on it, the next one.
  abbrev pub or_next : F → (S → S × CheckResult F) → S × Bool → S × CheckResult F
  or_next score next (store, true) = (store, listed fl score)
  or_next score next (store, false) = next store

  abbrev pub check_list :
      Address → Text → Text → Text → F → (S → S × CheckResult F) → S → S × CheckResult F
  unfolding contacts_appears_on_list list_keys templates
  check_list rcpt list scope entry score next store = or_next score next (
      contacts_appears_on_list redis store (list_keys sprintf (templates inst rcpt) list scope)
        entry)

  -- The four checks of `contactsGetResult`.
  unfoldable pub check_lists : Address → Address → S → S × CheckResult F
  unfolding check_list to_string
  check_lists sender rcpt =
      check_list rcpt (text "whitelist") (text "address") (to_string sender)
        config.whitelist_address_score
        (check_list rcpt (text "blacklist") (text "address") (to_string sender)
          config.blacklist_address_score
          (check_list rcpt (text "whitelist") (text "domain") sender.domain
            config.whitelist_domain_score
            (check_list rcpt (text "blacklist") (text "domain") sender.domain
              config.blacklist_domain_score (λ store. (store, unlisted fl)))))

  abbrev some_result : S × CheckResult F → Go (S × Option (CheckResult F))
  some_result (store, out) = ok (store, some out)

  abbrev pub with_rcpt : Address → S → Address → Go (S × Option (CheckResult F))
  unfolding check_lists ◌==◌
  with_rcpt sender store first =
      if is_empty first.domain
      then ok (store, some (unlisted fl))
      else if to_string sender == to_string first
      then ok (store, some (unlisted fl))
      else some_result (check_lists sender first store)

  -- msg.Rcpt[0]
  abbrev pub first_of : List Address → Go Address
  first_of [] = panic
  first_of (first ∷ rcpt) = ok first

  -- `contactsGetResult`, for a session with the module or not.
  unfoldable pub contacts_get_result :
      Bool → Address → List Address → S → Go (S × Option (CheckResult F))
  unfolding with_rcpt
  contacts_get_result enabled sender rcpt store =
      if not enabled
      then ok (store, none)
      else if is_empty sender.domain
      then ok (store, some (unlisted fl))
      else first_of rcpt >>= with_rcpt sender store
