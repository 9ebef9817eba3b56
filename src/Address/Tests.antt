-- ===== src/Address/Tests.antt =====
-- Theorems about addresses at concrete inputs.
use clue_getter.Prelude.{◌≡◌, ◌⊎◌, refl, [], ◌∷◌, ◌++◌}
use clue_getter.Prelude.Text.{text, cut}
use clue_getter.Address.{Address, from_string, from_address_or_domain, to_string}
use clue_getter.Address.RoundTrip.{to_string-from_string}

abbrev bob : Address
bob = record { local = text "bob"; domain = text "mail.example.com"; sld = [] }

parse_tests :
    (from_string (text "bob@mail.example.com") ≡ bob)
    × ((from_address_or_domain (text "example.com")).domain ≡ text "example.com")
    × (to_string (from_string (text "bob@")) ≡ text "bob")
unfolding from_string from_address_or_domain to_string cut
parse_tests = (refl, refl, refl)

to_string-from_string_example :
    (text "bob@" ≡ to_string (from_string (text "bob@")))
    ⊎ (text "bob@" ≡ to_string (from_string (text "bob@")) ++ b'@' ∷ [])
to_string-from_string_example = to_string-from_string (text "bob@")
