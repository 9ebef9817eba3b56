-- ===== src/Search/Tests.antt =====
-- Tests of the search, and its theorem at a concrete input.
use clue_getter.Prelude.{
  ◌≡◌, refl, Bool, true, false, ◌&&◌, ◌||◌, Option, none, some, List, [], ◌∷◌, any, map,
}
use clue_getter.Prelude.Text.{Text, text, ◌==◌, show, cut}
use clue_getter.Prelude.Go.{ok}
use clue_getter.Prelude.Int.{pos}
use clue_getter.Dict.{Dict, lookup}
use clue_getter.Address.{from_address_or_domain}
use clue_getter.Web.{Form, Instance, bad_request, shown}
use clue_getter.Search.{
  Finder, new_finder, Query, match_query, term_query, terms_query, nested_query, bool_query, must,
  should, session_query, search_finder,
}

-- A document: its fields, and the fields of its messages.
abbrev Document : Type 0
Document = Dict Text × List (Dict Text)

abbrev parts : Text → Document → List Document
parts path d = map (λ (m : Dict Text). (m, [])) d.1

abbrev has_value : Option Text → Text → Bool
has_value none value = false
has_value (some found) value = found == value

-- Whether a query has Should clauses.
abbrev is_choice : Query → Bool
is_choice (match_query field value) = false
is_choice (term_query field number) = false
is_choice (terms_query field values) = false
is_choice (nested_query path q) = false
is_choice bool_query = false
is_choice (must q r) = false
is_choice (should q r) = true

holds : Query → Document → Bool
unfolding lookup ◌==◌
holds (match_query field value) d = has_value (lookup field d.0) value
holds (term_query field number) d = false
holds (terms_query field values) d = any (has_value (lookup field d.0)) values
holds (nested_query path q) d = any (holds q) (parts path d)
holds bool_query d = true
holds (must q r) d = holds q d && holds r d
holds (should q r) d = (is_choice q && holds q d) || holds r d

abbrev finder : Finder
finder = record new_finder {
  from = record { local = text "ann"; domain = text "a.org"; sld = [] };
  queue_id = text "Q1";
  verdicts = pos 1 ∷ pos 2 ∷ [];
}

-- The two conditions are met, but by two messages.
abbrev document : Document
document = (
  [],
  ((text "Messages.QueueId", text "Q1") ∷ [])
      ∷ ((text "Messages.From.Local", text "ann")
          ∷ (text "Messages.From.Domain", text "a.org")
          ∷ [])
      ∷ [],
)

session_query_test : holds (session_query 3 finder) document ≡ false
unfolding holds session_query
session_query_test = refl

abbrev instances : List Instance
instances = record { id = text "1"; name = text "a"; description = []; selected = false } ∷ []

abbrev form : Form
form = (text "queueId", text "Q1" ∷ []) ∷ (text "verdict", text "2" ∷ []) ∷ []

search_finder_test :
    (search_finder form instances
      ≡ ok (
          shown (record new_finder {
            queue_id = text "Q1";
            instances = text "1" ∷ [];
            verdicts = pos 2 ∷ [];
          })))
    × (search_finder ((text "verdict", text "spam" ∷ []) ∷ []) instances ≡ ok bad_request)
unfolding search_finder ◌==◌ show from_address_or_domain cut
search_finder_test = (refl, refl)
