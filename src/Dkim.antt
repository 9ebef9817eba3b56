-- ===== src/Dkim.antt =====
-- dkim/dkim.go: signing mail for the domain of its sender. The keys, the DNS and the signature itself
-- are parameters.
pub mod Signed
pub mod Keys
pub mod Preferred
mod Tests
use clue_getter.Prelude.{
  ℕ, Bool, true, false, Option, none, some, List, [], ◌∷◌, ◌++◌, if◌then◌else◌,
}
use clue_getter.Prelude.Text.{Text, text, to_lower, is_empty, ◌==◌}
use clue_getter.Prelude.Float.{Float}
use clue_getter.Message.{Action, permit, tempfail, error, CheckResult, Header, new_header, Message}

pub data Signing : Type 0 where
  required optional unsigned : Signing

-- `signingRequired`, none for its error
unfoldable pub signing_required : Text → Option Signing
unfolding to_lower ◌==◌
signing_required sign =
    let mode = to_lower sign in
    if mode == text "required"
    then some required
    else if mode == text "optional"
    then some optional
    else if mode == text "none"
    then some unsigned
    else none

-- `Init`: whether the backend that the configuration names is one that there is, and can be made.
unfoldable pub init : Text → Bool → Bool
unfolding ◌==◌
init backend makes_file_backend = if backend == text "file" then makes_file_backend else false

-- What the module uses: PubKeyFromDns, GetPreferredKey, and the header that NewSigner and GetDkimHeader
-- make of the message; none stands for an error, and for no key.
pub record Signer (K F : Type 0) : Type 0 where
  pub pub_key_from_dns : Text → Text → Option (List K)
  pub get_preferred_key : List K → Option K
  pub sign : K → Message F → Option Text

-- How `signMessage` ends: with a header, without a key in the DNS, or in another error.
pub data SignResult : Type 0 where
  signed : Text → SignResult
  no_selector_in_dns_found other_error : SignResult

module _ {K F : Type 0} (signer : Signer K F) where
  -- `getDkimKeys`
  unfoldable pub get_dkim_keys : Text → List Text → List K
  get_dkim_keys domain [] = []
  get_dkim_keys domain (selector ∷ selectors) =
      let rest = get_dkim_keys domain selectors in
      elim (signer.pub_key_from_dns selector domain) [ none ↦ rest | some keys ↦ keys ++ rest ]

  abbrev pub add_signature : Message F → Option Text → Message F × SignResult
  add_signature msg none = (msg, other_error)
  add_signature msg (some header) = (
    record msg { add_headers = msg.add_headers ++ new_header (text "DKIM-Signature") header ∷ [] },
    signed header,
  )

  abbrev pub sign_with : Message F → Option K → Message F × SignResult
  sign_with msg none = (msg, no_selector_in_dns_found)
  sign_with msg (some key) = add_signature msg (signer.sign key msg)

  abbrev pub preferred : List K → Option K
  preferred [] = none
  preferred (key ∷ keys) = signer.get_preferred_key (key ∷ keys)

  -- `signMessage`
  unfoldable pub sign_message : List Text → Message F → Message F × SignResult
  unfolding get_dkim_keys
  sign_message selectors msg = sign_with msg (preferred (get_dkim_keys msg.sender.domain selectors))

  module _ (fl : Float F) (failure_score no_key_score : F) where
    abbrev pub answer : Action → Text → F → CheckResult F
    answer action message score = record {
      module_name = text "dkim";
      suggested_action = action;
      message = message;
      score = score;
      weighted_score = fl.zero;
      callbacks = [];
    }

    abbrev pub failure : CheckResult F
    failure = answer error (text "An internal error has occurred") failure_score

    abbrev no_key : Signing → Text → CheckResult F
    no_key required domain =
        answer tempfail
          (text "No valid DKIM records were found in the DNS configuration of your domain '"
            ++ (domain ++ text "'"))
          no_key_score
    no_key optional domain = answer permit [] fl.zero
    no_key unsigned domain = answer permit [] fl.zero

    abbrev pub result_of : Signing → Message F × SignResult → Message F × CheckResult F
    result_of mode (msg, signed header) = (msg, answer permit [] fl.zero)
    result_of mode (msg, no_selector_in_dns_found) = (msg, no_key mode msg.sender.domain)
    result_of mode (msg, other_error) = (msg, failure)

    abbrev pub check_mode : List Text → Message F → Option Signing → Message F × CheckResult F
    unfolding sign_message
    check_mode selectors msg none = (msg, failure)
    check_mode selectors msg (some unsigned) = (msg, answer permit [] fl.zero)
    check_mode selectors msg (some required) = result_of required (sign_message selectors msg)
    check_mode selectors msg (some optional) = result_of optional (sign_message selectors msg)

    -- `MessageCheck`; `failure_score` and `no_key_score` are the 25 and the 100 of the source.
    unfoldable pub message_check : Text → List Text → Message F → Message F × CheckResult F
    unfolding check_mode signing_required
    message_check sign selectors msg = check_mode selectors msg (signing_required sign)
