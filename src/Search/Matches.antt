-- ===== src/Search/Matches.antt =====
-- Which sessions a search finds.
use clue_getter.Prelude.{
  ℕ, ◌++◌, ◌≡◌, Bool, true, false, not, ◌&&◌, ◌||◌, List, [], ◌∷◌, any, length, eqb,
}
use clue_getter.Prelude.Text.{Text, text, is_empty}
use clue_getter.Address.{Address, to_string}
use clue_getter.Prelude.Int.{ℤ}
use clue_getter.Search.{
  Finder, Query, match_query, term_query, should, terms_query, nested_query, bool_query, must,
  address_query, add_if, any_verdict, has_address, has_verdicts, one_term,
}

-- A condition, and whether the search has it.
abbrev pub Condition : Type 0
Condition = Bool × Query

-- What the search asks of a message.
abbrev pub message_conditions : Finder → List Condition
message_conditions f =
    (has_address f.from, address_query (text "Messages.From") f.from)
    ∷ (not (is_empty f.from_sld), match_query (text "Messages.From.Sld") f.from_sld)
    ∷ (
      has_address f.to,
      nested_query (text "Messages.Rcpt") (address_query (text "Messages.Rcpt") f.to),
    )
    ∷ (not (is_empty f.queue_id), match_query (text "Messages.QueueId") f.queue_id)
    ∷ (has_verdicts f.verdicts, any_verdict bool_query f.verdicts)
    ∷ []

-- What it asks of a session, but for its messages.
abbrev pub session_conditions : ℕ → Finder → List Condition
session_conditions all_instances f =
    (
      not (eqb (length f.instances) 0) && not (eqb (length f.instances) all_instances),
      terms_query (text "InstanceId") f.instances,
    )
    ∷ (not (is_empty f.sasl_user), one_term (text "SaslUsername") f.sasl_user)
    ∷ (not (is_empty f.client_address), one_term (text "Ip") f.client_address)
    ∷ (not (is_empty f.asn), one_term (text "IpInfo.ASN") f.asn)
    ∷ (not (is_empty f.ip_range), one_term (text "IpInfo.IpRange") f.ip_range)
    ∷ (not (is_empty f.country), one_term (text "IpInfo.Country") f.country)
    ∷ []

abbrev pub any_asked : List Condition → Bool
any_asked [] = false
any_asked ((test, condition) ∷ conditions) = test || any_asked conditions

abbrev pub meets : {D : Type 0} → (Query → D → Bool) → List Condition → D → Bool
meets holds [] d = true
meets holds ((test, condition) ∷ conditions) d =
    (not test || holds condition d) && meets holds conditions d

-- A bool query that has only what Must added to it.
abbrev pub IsConjunction : Query → Type 0
IsConjunction bool_query = Unit
IsConjunction (must q r) = IsConjunction q
IsConjunction (should q r) = ⊥
IsConjunction (match_query field value) = ⊥
IsConjunction (term_query field value) = ⊥
IsConjunction (terms_query field values) = ⊥
IsConjunction (nested_query path q) = ⊥

abbrev pub all_should : Query → List Query → Query
all_should q [] = q
all_should q (r ∷ rs) = all_should (should q r) rs

-- `holds` is what Elasticsearch finds, `parts` the nested documents at a path. The hypotheses are what
-- it documents of bool queries that have only Must clauses, or only Should clauses and one at least,
-- and of nested queries.
module _ {D : Type 0} (holds : Query → D → Bool) (parts : Text → D → List D)
    (holds-bool_query : (d : D) → holds bool_query d ≡ true)
    (holds-must : (q r : Query) (d : D)
      → IsConjunction q
      → holds (must q r) d ≡ (holds q d && holds r d))
    (holds-should : (r : Query) (rs : List Query) (d : D)
      → holds (all_should bool_query (r ∷ rs)) d ≡ any (λ q. holds q d) (r ∷ rs))
    (holds-nested_query : (path : Text) (q : Query) (d : D)
      → holds (nested_query path q) d ≡ any (holds q) (parts path d)) where
  abbrev all_added : Query × Bool → List Condition → Query × Bool
  all_added q [] = q
  all_added q ((test, condition) ∷ conditions) = all_added (add_if q test condition) conditions

  abbrev rest_conditions : Finder → List Condition
  rest_conditions f =
      (not (is_empty f.sasl_user), one_term (text "SaslUsername") f.sasl_user)
      ∷ (not (is_empty f.client_address), one_term (text "Ip") f.client_address)
      ∷ (not (is_empty f.asn), one_term (text "IpInfo.ASN") f.asn)
      ∷ (not (is_empty f.ip_range), one_term (text "IpInfo.IpRange") f.ip_range)
      ∷ (not (is_empty f.country), one_term (text "IpInfo.Country") f.country)
      ∷ []

  -- An address of a document: its domain is the one that is asked for, and its local part is where one is
  -- asked for.
  abbrev pub has_the_address : Text → Address → D → Bool
  has_the_address prefix a d =
      (is_empty a.local || holds (match_query (prefix ++ text ".Local") a.local) d)
      && holds (match_query (prefix ++ text ".Domain") a.domain) d

  -- Some of the four verdicts are asked for, and not all.
  abbrev pub some_verdicts : List ℤ → Bool
  some_verdicts verdicts = not (eqb (length verdicts) 0) && not (eqb (length verdicts) 4)

  -- Something is asked of a message.
  abbrev pub asks_message : Finder → Bool
  asks_message f =
      not (is_empty (to_string f.from))
      || (not (is_empty f.from_sld)
          || (not (is_empty (to_string f.to))
              || (not (is_empty f.queue_id) || some_verdicts f.verdicts)))

  -- A message suits a search: in all that the search asks of its sender, of one of its recipients, of
  -- its queue id and of its verdict.
  abbrev pub suits_message : Finder → D → Bool
  suits_message f d =
      (is_empty (to_string f.from) || has_the_address (text "Messages.From") f.from d)
      && ((is_empty f.from_sld || holds (match_query (text "Messages.From.Sld") f.from_sld) d)
          && ((is_empty (to_string f.to)
                || any (has_the_address (text "Messages.Rcpt") f.to)
                    (parts (text "Messages.Rcpt") d))
              && ((is_empty f.queue_id
                    || holds (match_query (text "Messages.QueueId") f.queue_id) d)
                  && (not (some_verdicts f.verdicts)
                      || any (λ v. holds (term_query (text "Messages.Verdict") v) d) f.verdicts))))

  abbrev pub has_term : Text → Text → D → Bool
  has_term field value d = is_empty value || holds (terms_query field (value ∷ [])) d

  -- A session suits a search, but for its messages. All instances are as good as none.
  abbrev pub suits_session : ℕ → Finder → D → Bool
  suits_session all_instances f d =
      ((eqb (length f.instances) 0 || eqb (length f.instances) all_instances)
        || holds (terms_query (text "InstanceId") f.instances) d)
      && (has_term (text "SaslUsername") f.sasl_user d
          && (has_term (text "Ip") f.client_address d
              && (has_term (text "IpInfo.ASN") f.asn d
                  && (has_term (text "IpInfo.IpRange") f.ip_range d
                      && has_term (text "IpInfo.Country") f.country d))))

  abbrev verdict_query : ℤ → Query
  verdict_query = term_query (text "Messages.Verdict")
