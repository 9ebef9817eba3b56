-- ===== src/Quotas.antt =====
-- quotas/quotas.go: how many messages a sender, a recipient, an address or a user may send in a
-- period. The redis operations, the rows of the database and the regular expressions are parameters.
pub mod Definitions
pub mod Polling
pub mod Verdict
pub mod Windows
pub mod Tallies
pub mod Order
pub mod Limits
mod Tests
use clue_getter.Prelude.{
  ℕ, ◌+◌, Bool, true, false, not, ◌&&◌, ◌||◌, Option, none, some, List, [], ◌∷◌, ◌++◌,
  if◌then◌else◌, map,
}
use clue_getter.Prelude.Int.{ℤ}
use clue_getter.Prelude.Text.{Text, text, to_upper, is_empty, ◌==◌}
use clue_getter.Address.{Address, to_string, get_sld}

-- What the module uses of redis: lists, sorted sets, and SET with NX, none for an error. LPush takes
-- the values in the order of the call.
pub record Redis (S : Type 0) : Type 0 where
  pub l_range : S → Text → List Text
  pub l_push : S → Text → List Text → S
  pub del : S → Text → S
  pub expire : S → Text → ℕ → S
  pub set_nx : S → Text → Text → ℕ → S × Option Bool
  -- how many members have a score from one number to another, both included
  pub z_count : S → Text → ℤ → ℕ → ℕ
  -- ZREMRANGEBYSCORE from -inf to a number, included
  pub z_rem_range_by_score : S → Text → ℤ → S
  pub z_add : S → Text → ℕ → Text → S

pub record QuotasConfig : Type 0 where
  pub account_sender : Bool
  pub account_sender_domain : Bool
  pub account_sender_sld : Bool
  pub account_recipient : Bool
  pub account_recipient_domain : Bool
  pub account_recipient_sld : Bool
  pub account_client_address : Bool
  pub account_sasl_username : Bool
  pub tally_status : List Text

-- A regular expression by the values that it matches.
pub record Regex : Type 0 where
  pub selector : Text
  pub matches : Text → Bool
  pub period : ℤ
  pub curb : ℤ

-- The module's state and what it reads of the core.
pub record QuotasModule : Type 0 where
  pub config : QuotasConfig
  pub instance_id : ℕ
  pub regexes : List Regex
  pub tally_statuses : List ℕ

-- What the check reads of a message and its session.
pub record Delivery : Type 0 where
  pub queue_id : Text
  pub sender : Address
  pub rcpt : List Address
  pub ip : Text
  pub sasl_username : Text

-- `Proto_Message_Verdict_value`
unfoldable pub verdict_value : Text → Option ℕ
unfolding ◌==◌
verdict_value name =
    if name == text "PERMIT"
    then some 0
    else if name == text "TEMPFAIL"
    then some 1
    else if name == text "REJECT"
    then some 2
    else if name == text "ERROR"
    then some 3
    else if name == text "DISCARD"
    then some 4
    else none

-- The loop of `Init`, none for its error.
unfoldable pub tally_codes : List Text → Option (List ℕ)
unfolding verdict_value to_upper
tally_codes [] = some []
tally_codes (name ∷ names) =
    let rest = tally_codes names in
    elim (verdict_value (to_upper name)) [
      | none ↦ none
      | some code ↦ elim rest [ none ↦ none | some codes ↦ some (code ∷ codes) ]
    ]

abbrev or_permit : List ℕ → List ℕ
or_permit [] = 0 ∷ []
or_permit (code ∷ codes) = code ∷ codes

-- `Init`
unfoldable pub init : QuotasModule → Option QuotasModule
unfolding tally_codes
init m = elim (tally_codes m.config.tally_status) [
  | none ↦ none
  | some codes ↦ some (record m { tally_statuses = or_permit codes })
]

abbrev factor : Bool → Text → List Text → List (Text × List Text)
factor on selector values = if on then (selector, values) ∷ [] else []

-- `quotasGetMsgFactors`, in the order of the source; a range over the map has any order.
unfoldable pub get_msg_factors : (Text → Text) → QuotasConfig → Delivery → List (Text × List Text)
unfolding to_string get_sld
get_msg_factors public_suffix conf d =
    let sent : Bool = not (is_empty (to_string d.sender)) in
    factor (conf.account_sender && sent) (text "sender") (to_string d.sender ∷ [])
    ++ (factor (conf.account_sender_domain && sent) (text "sender_domain") (d.sender.domain ∷ [])
        ++ (factor (conf.account_sender_sld && sent) (text "sender_sld")
              ((get_sld public_suffix d.sender).1 ∷ [])
            ++ (factor conf.account_recipient (text "recipient") (map to_string d.rcpt)
                ++ (factor conf.account_recipient_domain (text "recipient_domain")
                      (map (λ (a : Address). a.domain) d.rcpt)
                    ++ (factor conf.account_recipient_sld (text "recipient_sld")
                          (map (λ a. (get_sld public_suffix a).1) d.rcpt)
                        ++ (factor conf.account_client_address (text "client_address") (d.ip ∷ [])
                            ++ factor conf.account_sasl_username (text "sasl_username")
                                (d.sasl_username ∷ [])))))))
