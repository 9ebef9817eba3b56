-- ===== src/Web.antt =====
-- core/http.go: what the web pages make of a request. A form is a list of keys with their values.
pub mod Numbers
pub mod Selected
mod Tests
use clue_getter.Prelude.{
  ℕ, Bool, true, false, not, ◌&&◌, ◌||◌, Option, none, some, List, [], ◌∷◌, ◌++◌, if◌then◌else◌,
  any, map, eqb,
}
use clue_getter.Prelude.Text.{Text, text, ◌==◌, is_empty, split, join}
use clue_getter.Prelude.Go.{Go, ok, panic}
use clue_getter.Prelude.Int.{ℤ, atoi, is_int, show_int}
use clue_getter.Dict.{Dict, lookup}

-- r.Form
abbrev pub Form : Type 0
Form = Dict (List Text)

abbrev pub values_of : Form → Text → List Text
values_of form key = elim (lookup key form) [ none ↦ [] | some values ↦ values ]

abbrev first_value : List Text → Text
first_value [] = []
first_value (value ∷ values) = value

-- r.FormValue: the first value, empty where there is none.
unfoldable pub form_value : Form → Text → Text
unfolding lookup
form_value form key = first_value (values_of form key)

-- `HttpInstance`
pub record Instance : Type 0 where
  pub id : Text
  pub name : Text
  pub description : Text
  pub selected : Bool

-- The loop of `HttpParseFilterInstance`, none for its error.
unfoldable pub parse_ids : List Text → Option (List Text)
unfolding is_int atoi show_int
parse_ids [] = some []
parse_ids (id ∷ ids) =
    let rest = parse_ids ids in
    if is_int id
    then elim rest [ none ↦ none | some out ↦ some (show_int (atoi id) ∷ out) ]
    else none

abbrev has_comma : Text → Bool
has_comma s = any (λ c. eqb c b',') s

abbrev or_all : List Text → List Instance → List Text
or_all [] instances = map (λ (i : Instance). i.id) instances
or_all (id ∷ ids) instances = id ∷ ids

unfoldable pub asked_ids : Form → List Instance → List Text
unfolding lookup
asked_ids form instances = or_all (values_of form (text "instance")) instances

abbrev pub cut_first : List Text → Go (List Text)
cut_first [] = panic
cut_first (id ∷ ids) = if has_comma id then ok (split b',' id) else ok (id ∷ ids)

-- `HttpParseFilterInstance`, where the database has these instances. It panics where the form names
-- no instance and the database has none.
unfoldable pub parse_filter_instance : Form → List Instance → Go (Option (List Text))
unfolding parse_ids split asked_ids
parse_filter_instance form instances = elim (cut_first (asked_ids form instances)) [
  | panic ↦ panic
  | ok ids ↦ ok (parse_ids ids)
]

abbrev pub select : Instance → Instance
select i = record i { selected = true }

-- The inner loop of `HttpSetSelectedInstances`.
unfoldable pub select_id : Text → List Instance → List Instance
unfolding ◌==◌
select_id id instances = map (λ (i : Instance). if i.id == id then select i else i) instances

unfoldable pub select_ids : List Text → List Instance → List Instance
unfolding select_id
select_ids [] instances = instances
select_ids (id ∷ ids) instances = select_ids ids (select_id id instances)

-- `HttpSetSelectedInstances`
unfoldable pub set_selected_instances : List Instance → List Text → List Instance
unfolding select_ids
set_selected_instances instances [] = map select instances
set_selected_instances instances (id ∷ ids) = select_ids (id ∷ ids) instances

-- `httpAbuserSelector`
pub record Selector : Type 0 where
  pub name : Text
  pub label : Text
  pub is_selected : Bool

-- `httpGetSelectors`, none for its error.
unfoldable pub get_selectors : Form → Option (List Selector)
unfolding form_value ◌==◌
get_selectors form =
    let asked = form_value form (text "selector") in
    let selectors =
      record {
        name = text "sasl_username";
        label = text "Sasl Username";
        is_selected = asked == text "sasl_username";
      }
      ∷ record {
        name = text "sender_domain";
        label = text "Sender domain";
        is_selected = asked == text "sender_domain";
      }
      ∷ [] in
    if not (any (λ (s : Selector). s.is_selected) selectors) && not (is_empty asked)
    then none
    else some selectors

-- What the query of `httpAbusersHandler` is made of: the instances and the column that stand in its
-- text, and its two arguments.
pub record AbusersQuery : Type 0 where
  pub instances : Text
  pub column : Text
  pub period : Text
  pub threshold : Text

pub data Response (A : Type 0) : Type 0 where
  bad_request : Response A
  shown : A → Response A

abbrev given_or : Bool → Text → Text → Text
given_or valid value default = if not valid || is_empty value then default else value

-- `httpAbusersHandler` up to its query. `is_float` tells whether strconv.ParseFloat takes a text.
unfoldable pub abusers_query : (Text → Bool) → Form → List Instance → Go (Response AbusersQuery)
unfolding get_selectors parse_filter_instance form_value is_int join ◌==◌
abusers_query is_float form instances = elim (get_selectors form) [
  | none ↦ ok bad_request
  | some selectors ↦ elim (parse_filter_instance form instances) [
    | panic ↦ panic
    | ok none ↦ ok bad_request
    | ok (some ids) ↦
        let period = form_value form (text "period") in
        let threshold = form_value form (text "threshold") in
        ok (
          shown (record {
            instances = join (text ",") ids;
            column =
                if form_value form (text "selector") == text "sasl_username"
                then text "s.sasl_username"
                else text "m.sender_domain";
            period = given_or (is_float period) period (text "4");
            threshold = given_or (is_int threshold) threshold (text "5");
          }))
  ]
]
