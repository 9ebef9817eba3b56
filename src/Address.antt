-- ===== src/Address.antt =====
-- address/address.go: mail addresses. What stands behind the first "@" is the domain.
pub mod RoundTrip
mod Tests
use clue_getter.Prelude.{Bool, true, false, none, some, [], ◌∷◌, ◌++◌, if◌then◌else◌}
use clue_getter.Prelude.Text.{Text, cut, is_empty}

pub record Address : Type 0 where
  pub local : Text
  pub domain : Text
  -- the second level domain, empty until it is asked for
  pub sld : Text

-- `messageParseAddress`: the local part and the domain.
unfoldable pub message_parse_address : Text → Bool → Text × Text
message_parse_address address single_is_user = elim (cut b'@' address) [
  | some (local, domain) ↦ (local, domain)
  | none ↦ if single_is_user then (address, []) else ([], address)
]

unfoldable pub from_string : Text → Address
unfolding message_parse_address
from_string address =
    let (local, domain) = message_parse_address address true in
    record { local = local; domain = domain; sld = [] }

unfoldable pub from_address_or_domain : Text → Address
unfolding message_parse_address
from_address_or_domain address =
    let (local, domain) = message_parse_address address false in
    record { local = local; domain = domain; sld = [] }

-- `String`
unfoldable pub to_string : Address → Text
to_string a = if is_empty a.domain then a.local else a.local ++ b'@' ∷ a.domain

-- `Sld`, with the public suffix list as a parameter; the method stores what it finds.
unfoldable pub get_sld : (Text → Text) → Address → Address × Text
get_sld public_suffix a =
    if is_empty a.sld
    then (if is_empty a.domain
        then (a, [])
        else (record a { sld = public_suffix a.domain }, public_suffix a.domain))
    else (a, a.sld)
