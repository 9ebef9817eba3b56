-- ===== src/Search.antt =====
-- elasticsearch/http.go and elasticsearch/repo.go: the search for messages, from the form to the query.
pub mod Matches
mod Tests
use clue_getter.Prelude.{
  ℕ, Bool, true, false, not, ◌&&◌, Option, none, some, List, [], ◌∷◌, ◌++◌, if◌then◌else◌, length,
  eqb,
}
use clue_getter.Prelude.Text.{Text, text, is_empty}
use clue_getter.Prelude.Go.{Go, ok, panic}
use clue_getter.Prelude.Int.{ℤ, pos, atoi, is_int}
use clue_getter.Address.{Address, from_address_or_domain, to_string}
use clue_getter.Web.{
  Form, Instance, Response, bad_request, shown, values_of, form_value, parse_filter_instance,
}

-- `Finder`, without the dates, which the query does not use.
pub record Finder : Type 0 where
  pub limit : ℕ
  pub queue_id : Text
  pub from : Address
  pub from_sld : Text
  pub to : Address
  pub sasl_user : Text
  pub client_address : Text
  pub instances : List Text
  pub verdicts : List ℤ
  pub asn : Text
  pub ip_range : Text
  pub country : Text

abbrev no_address : Address
no_address = record { local = []; domain = []; sld = [] }

-- `NewFinder`
abbrev pub new_finder : Finder
new_finder = record {
  limit = 250;
  queue_id = [];
  from = no_address;
  from_sld = [];
  to = no_address;
  sasl_user = [];
  client_address = [];
  instances = [];
  verdicts = pos 0 ∷ pos 1 ∷ pos 2 ∷ pos 3 ∷ [];
  asn = [];
  ip_range = [];
  country = [];
}

-- A query: NewMatchQuery, NewTermQuery, NewTermsQuery, NewNestedQuery, NewBoolQuery, and what Must and
-- Should add to it.
pub data Query : Type 0 where
  match_query : Text → Text → Query
  term_query : Text → ℤ → Query
  terms_query : Text → List Text → Query
  nested_query : Text → Query → Query
  bool_query : Query
  must : Query → Query → Query
  should : Query → Query → Query

unfoldable pub address_query : Text → Address → Query
address_query prefix a =
    if is_empty a.local
    then match_query (prefix ++ text ".Domain") a.domain
    else must (must bool_query (match_query (prefix ++ text ".Local") a.local))
        (match_query (prefix ++ text ".Domain") a.domain)

abbrev pub no_condition : Query × Bool
no_condition = (bool_query, false)

-- A condition that is added where its test holds, which then counts as a search.
abbrev pub add_if : Query × Bool → Bool → Query → Query × Bool
add_if (q, searching) test condition = if test then (must q condition, true) else (q, searching)

unfoldable pub any_verdict : Query → List ℤ → Query
any_verdict q [] = q
any_verdict q (verdict ∷ verdicts) =
    any_verdict (should q (term_query (text "Messages.Verdict") verdict)) verdicts

abbrev pub has_address : Address → Bool
has_address a = not (is_empty (to_string a))

abbrev pub has_verdicts : List ℤ → Bool
has_verdicts verdicts = not (eqb (length verdicts) 0) && not (eqb (length verdicts) 4)

-- The conditions on one message.
unfoldable pub message_query : Finder → Query × Bool
unfolding address_query any_verdict to_string
message_query f =
    let q =
      add_if no_condition (has_address f.from) (address_query (text "Messages.From") f.from) in
    let q =
      add_if q (not (is_empty f.from_sld)) (match_query (text "Messages.From.Sld") f.from_sld) in
    let q =
      add_if q (has_address f.to)
        (nested_query (text "Messages.Rcpt") (address_query (text "Messages.Rcpt") f.to)) in
    let q =
      add_if q (not (is_empty f.queue_id)) (match_query (text "Messages.QueueId") f.queue_id) in
    add_if q (has_verdicts f.verdicts) (any_verdict bool_query f.verdicts)

abbrev pub one_term : Text → Text → Query
one_term field value = terms_query field (value ∷ [])

-- `query`, where there are so many instances.
unfoldable pub session_query : ℕ → Finder → Query
unfolding message_query
session_query all_instances f =
    let (of_messages, searching) = message_query f in
    let q =
      add_if no_condition
        (not (eqb (length f.instances) 0) && not (eqb (length f.instances) all_instances))
        (terms_query (text "InstanceId") f.instances) in
    let q = add_if q searching (nested_query (text "Messages") of_messages) in
    let q = add_if q (not (is_empty f.sasl_user)) (one_term (text "SaslUsername") f.sasl_user) in
    let q = add_if q (not (is_empty f.client_address)) (one_term (text "Ip") f.client_address) in
    let q = add_if q (not (is_empty f.asn)) (one_term (text "IpInfo.ASN") f.asn) in
    let q = add_if q (not (is_empty f.ip_range)) (one_term (text "IpInfo.IpRange") f.ip_range) in
    let q = add_if q (not (is_empty f.country)) (one_term (text "IpInfo.Country") f.country) in q.0

-- The loop over the verdicts of a form, none for its error.
unfoldable pub parse_verdicts : List Text → Option (List ℤ)
unfolding is_int atoi
parse_verdicts [] = some []
parse_verdicts (v ∷ vs) =
    let rest = parse_verdicts vs in
    if is_int v then elim rest [ none ↦ none | some verdicts ↦ some (atoi v ∷ verdicts) ] else none

abbrev with_verdicts : Finder → List Text → Response Finder
with_verdicts f [] = shown f
with_verdicts f (v ∷ vs) = elim (parse_verdicts (v ∷ vs)) [
  | none ↦ bad_request
  | some verdicts ↦ shown (record f { verdicts = verdicts })
]

-- `httpHandlerMessageSearch` up to the search, for a request with a query.
unfoldable pub search_finder : Form → List Instance → Go (Response Finder)
unfolding parse_verdicts parse_filter_instance form_value
search_finder form instances = elim (parse_filter_instance form instances) [
  | panic ↦ panic
  | ok none ↦ ok bad_request
  | ok (some ids) ↦ ok (
      with_verdicts
        (record new_finder {
          from = from_address_or_domain (form_value form (text "from"));
          to = from_address_or_domain (form_value form (text "to"));
          sasl_user = form_value form (text "saslUser");
          client_address = form_value form (text "clientAddress");
          queue_id = form_value form (text "queueId");
          instances = ids;
        })
        (values_of form (text "verdict")))
]
