-- ===== src/Address/RoundTrip.antt =====
-- Parsing and printing addresses.
use clue_getter.Prelude.{◌≡◌, ◌⊎◌, inl, inr, refl, some, [], ◌∷◌, ◌++◌, arith, Option-cases}
use clue_getter.Prelude.Text.{Text, cut}
use clue_getter.Prelude.Text.Cutting.{Lacks, cut-some, cut-append, cut-none}
use clue_getter.Address.{Address, message_parse_address, from_string, to_string, get_sld}

parse_found :
    (s local domain : Text)
    → cut b'@' s ≡ some (local, domain)
    → (s ≡ to_string (from_string s)) ⊎ (s ≡ to_string (from_string s) ++ b'@' ∷ [])
unfolding from_string to_string
parse_found s local [] e = rw (e, message_parse_address) (inr ((cut-some b'@' s local [] e).0))
parse_found s local (c ∷ domain) e =
    rw (e, message_parse_address) (inl ((cut-some b'@' s local (c ∷ domain) e).0))

-- Printing a parsed address gives the text back, or the text without an "@" that it ends with.
pub to_string-from_string :
    (s : Text) → (s ≡ to_string (from_string s)) ⊎ (s ≡ to_string (from_string s) ++ b'@' ∷ [])
unfolding from_string to_string
to_string-from_string s = elim (Option-cases (cut b'@' s)) [
  | inl missing ↦ rw (missing, message_parse_address) (inl refl)
  | inr (p, found) ↦ parse_found s p.0 p.1 found
]

-- Parsing a printed address gives its local part and its domain back, if the local part has no "@".
pub from_string-to_string :
    (a : Address)
    → Lacks b'@' a.local
    → ((from_string (to_string a)).local ≡ a.local)
      × ((from_string (to_string a)).domain ≡ a.domain)
unfolding from_string to_string
from_string-to_string a lacks = go a.local a.domain lacks
  where
    go :
        (l d : Text)
        → Lacks b'@' l
        → ((from_string (to_string (record { local = l; domain = d; sld = [] }))).local ≡ l)
          × ((from_string (to_string (record { local = l; domain = d; sld = [] }))).domain ≡ d)
    go l [] h = rw (cut-none b'@' l h, message_parse_address) (refl, refl)
    go l (c ∷ d) h = rw (cut-append b'@' l (c ∷ d) h, message_parse_address) (refl, refl)

-- The second level domain is empty without a domain, and else what the public suffix list gives for
-- the domain; a later call gives the same, and the address itself stays as it is.
pub get_sld_stable :
    (public_suffix : Text → Text) (s : Text)
    → ((get_sld public_suffix (from_string s)).1
        ≡ (elim (from_string s).domain [ [] ↦ [] | c ∷ d ↦ public_suffix (c ∷ d) ]))
      × ((get_sld public_suffix (get_sld public_suffix (from_string s)).0).1
          ≡ (get_sld public_suffix (from_string s)).1)
      × (to_string (get_sld public_suffix (from_string s)).0 ≡ to_string (from_string s))
unfolding get_sld from_string to_string
get_sld_stable public_suffix s = ground arith
