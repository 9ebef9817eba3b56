-- ===== src/Web/Tests.antt =====
-- Tests of the web pages, and their theorems at concrete inputs.
use clue_getter.Prelude.{◌≡◌, ◌⊎◌, refl, true, false, none, some, List, [], ◌∷◌, map, All}
use clue_getter.Prelude.Text.{text, ◌==◌, show}
use clue_getter.Prelude.Go.{ok, panic}
use clue_getter.Web.{
  Form, Instance, AbusersQuery, shown, parse_filter_instance, set_selected_instances, abusers_query,
}
use clue_getter.Web.Numbers.{IsNumeric, abusers_query-IsNumeric}
use clue_getter.Web.Selected.{selected_if, is_wanted_id, set_selected_instances_lem}

abbrev instances : List Instance
instances =
    record { id = text "1"; name = text "a"; description = []; selected = false }
    ∷ record { id = text "2"; name = text "b"; description = []; selected = false }
    ∷ []

abbrev form : Form
form =
    (text "instance", text "+2,1" ∷ [])
    ∷ (text "selector", text "sasl_username" ∷ [])
    ∷ (text "threshold", text "9" ∷ [])
    ∷ []

parse_filter_instance_test :
    (parse_filter_instance form instances ≡ ok (some (text "2" ∷ text "1" ∷ [])))
    × (parse_filter_instance [] instances ≡ ok (some (text "1" ∷ text "2" ∷ [])))
    × (parse_filter_instance ((text "instance", text "1 OR 1" ∷ []) ∷ []) instances ≡ ok none)
    × (parse_filter_instance [] [] ≡ panic)
unfolding parse_filter_instance ◌==◌ show
parse_filter_instance_test = (refl, refl, refl, refl)

abbrev query : AbusersQuery
query = record {
  instances = text "2,1";
  column = text "s.sasl_username";
  period = text "4";
  threshold = text "9";
}

query_made : abusers_query (λ s. true) form instances ≡ ok (shown query)
unfolding abusers_query show
query_made = refl

abusers_query-IsNumeric_example :
    All IsNumeric query.instances
    × ((query.column ≡ text "s.sasl_username") ⊎ (query.column ≡ text "m.sender_domain"))
abusers_query-IsNumeric_example =
    abusers_query-IsNumeric (λ s. true) form instances query query_made

set_selected_instances_lem_example :
    set_selected_instances instances (text "2" ∷ [])
    ≡ map (selected_if (is_wanted_id (text "2" ∷ []))) instances
set_selected_instances_lem_example = set_selected_instances_lem instances (text "2" ∷ [])
