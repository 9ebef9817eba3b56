-- ===== src/Spamassassin.antt =====
-- spamassassin/spamassassin.go and spamassassin/report.go: what SpamAssassin says of a message. The
-- client of the service, the sleep before it and the sort of the facts are parameters.
pub mod Report
mod Tests
use clue_getter.Prelude.{
  ℕ, ◌+◌, Bool, true, false, not, ◌&&◌, ◌||◌, Option, none, some, List, [], ◌∷◌, ◌++◌, eqb, leb,
  ltb, length, take, map, if◌then◌else◌,
}
use clue_getter.Prelude.Go.{Go, ok, panic, ◌>>=◌}
use clue_getter.Prelude.Text.{Text, text, cut, trim, to_upper, show, ◌==◌}
use clue_getter.Prelude.Float.{Float}
use clue_getter.Dict.{Dict, lookup, insert}
use clue_getter.Address.{Address, to_string}
use clue_getter.Message.{Action, permit, reject, error, CheckResult}

-- unicode.IsSpace and strings.TrimSpace, for ASCII
unfoldable pub is_space : ℕ → Bool
is_space c = eqb c b' ' || (leb 9 c && leb c 13)

-- `trimAbundantSpace`, after white space or not
unfoldable pub trim_abundant_space : Bool → Text → Text
unfolding is_space
trim_abundant_space white [] = []
trim_abundant_space white (c ∷ s) =
    let after_space = trim_abundant_space true s in
    let after_other = trim_abundant_space false s in
    if is_space c then (if white then after_space else b' ' ∷ after_space) else c ∷ after_other

abbrev known : Option Text → Bool
known none = false
known (some msg) = true

abbrev pub add_verdict_msg : Option (Text × Text) → Dict Text → Option (Dict Text)
unfolding to_upper trim trim_abundant_space lookup insert
add_verdict_msg none msgs = none
add_verdict_msg (some (key, msg)) msgs =
    if known (lookup key msgs)
    then none
    else some (insert (to_upper key) (trim is_space (trim_abundant_space false msg)) msgs)

abbrev pub init_rest : (Dict Text → Option (Dict Text)) → Option (Dict Text) → Option (Dict Text)
init_rest rest none = none
init_rest rest (some msgs) = rest msgs

-- `Init`: the texts for verdicts, by the symbol of a test; none stands for an error.
unfoldable pub init_from : List Text → Dict Text → Option (Dict Text)
unfolding add_verdict_msg cut
init_from [] msgs = some msgs
init_from (s ∷ ss) msgs = init_rest (init_from ss) (add_verdict_msg (cut b':' s) msgs)

pub record ReportFact (F : Type 0) : Type 0 where
  pub score : F
  pub symbol : Text
  pub description : Text

pub record SaReport (F : Type 0) : Type 0 where
  pub score : F
  pub facts : List (ReportFact F)

-- The values that the client library hands over, each of the type that it names: of a fact, and of
-- a report.
pub data Field (F : Type 0) : Type 0 where
  number : F → Field F
  string : Text → Field F

pub data Value (F : Type 0) : Type 0 where
  field : Field F → Value F
  table : List (Dict (Field F)) → Value F

-- What the client answers: an error, or a code and the variables.
pub data Reply (F : Type 0) : Type 0 where
  failed : Reply F
  answered : ℕ → Dict (Value F) → Reply F

module _ {F : Type 0} where
  -- The assertions v.(float64), v.(string) and v.([]map[string]interface{})
  abbrev as_number : Field F → Go F
  as_number (number x) = ok x
  as_number _ = panic

  abbrev as_string : Field F → Go Text
  as_string (string s) = ok s
  as_string _ = panic

  abbrev field_of : Value F → Go (Field F)
  field_of (field v) = ok v
  field_of (table rows) = panic

  abbrev as_table : Value F → Go (List (Dict (Field F)))
  as_table (table rows) = ok rows
  as_table _ = panic

  -- A round of the loop of `saParseReplyReportVar`.
  unfoldable pub set_field : Text → Field F → ReportFact F → Go (ReportFact F)
  unfolding ◌==◌
  set_field key value fact =
      if key == text "score"
      then as_number value >>= (λ x. ok (record fact { score = x }))
      else if key == text "symbol"
      then as_string value >>= (λ s. ok (record fact { symbol = s }))
      else if key == text "message"
      then as_string value >>= (λ s. ok (record fact { description = s }))
      else ok fact

  unfoldable pub set_fields : Dict (Field F) → ReportFact F → Go (ReportFact F)
  unfolding set_field
  set_fields [] fact = ok fact
  set_fields ((key, value) ∷ raw) fact = set_field key value fact >>= set_fields raw

  module _ (zero : F) where
    -- `saParseReplyReportVar`
    unfoldable pub sa_parse_reply_report_var : Dict (Field F) → Go (ReportFact F)
    unfolding set_fields
    sa_parse_reply_report_var raw =
        set_fields raw (record { score = zero; symbol = []; description = [] })

    abbrev cons_fact : ReportFact F → List (ReportFact F) → Go (List (ReportFact F))
    cons_fact fact facts = ok (fact ∷ facts)

    unfoldable pub parse_facts : List (Dict (Field F)) → Go (List (ReportFact F))
    unfolding sa_parse_reply_report_var
    parse_facts [] = ok []
    parse_facts (raw ∷ raws) =
        sa_parse_reply_report_var raw >>= λ fact. parse_facts raws >>= cons_fact fact

    abbrev with_facts : SaReport F → List (ReportFact F) → Go (SaReport F)
    with_facts report facts = ok (record report { facts = report.facts ++ facts })

    -- A round of the loop of `scan`.
    unfoldable pub set_var : Text → Value F → SaReport F → Go (SaReport F)
    unfolding ◌==◌ parse_facts
    set_var key value report =
        if key == text "spamScore"
        then field_of value >>= as_number >>= (λ x. ok (record report { score = x }))
        else if key == text "report"
        then as_table value >>= (λ rows. parse_facts rows >>= with_facts report)
        else ok report

    unfoldable pub set_vars : Dict (Value F) → SaReport F → Go (SaReport F)
    unfolding set_var
    set_vars [] report = ok report
    set_vars ((key, value) ∷ vars) report = set_var key value report >>= set_vars vars

    abbrev some_report : SaReport F → Go (Option (SaReport F))
    some_report report = ok (some report)

    -- `scan`, for the client's reply and the code that stands for success; none stands for an error.
    unfoldable pub scan : ℕ → Reply F → Go (Option (SaReport F))
    unfolding set_vars
    scan ex_ok failed = ok none
    scan ex_ok (answered code vars) =
        if eqb code ex_ok
        then set_vars vars (record { score = zero; facts = [] }) >>= some_report
        else ok none

abbrev pub default_message : Text
default_message =
    text "Our system has detected that this message is likely unsolicited mail (SPAM). "
    ++ text "To reduce the amount of spam, this message has been blocked."

module _ {F : Type 0} (fl : Float F) (verdict_msgs : Dict Text) where
  -- A fact in the loop of `verdictMessage`, with the text for its symbol.
  abbrev pub take_fact : F → Option Text → F × Text → F × Text
  take_fact score none (max_score, msg) = (max_score, msg)
  take_fact score (some value) (max_score, msg) =
      if fl.lt max_score score then (score, value) else (max_score, msg)

  unfoldable pub verdict_from : List (ReportFact F) → F × Text → F × Text
  unfolding lookup
  verdict_from [] best = best
  verdict_from (fact ∷ facts) best =
      verdict_from facts (take_fact fact.score (lookup fact.symbol verdict_msgs) best)

  -- `verdictMessage`
  unfoldable pub verdict_message : List (ReportFact F) → Text
  unfolding verdict_from
  verdict_message facts = (verdict_from facts (fl.zero, default_message)).1

  -- What the check asks of the service: a part of the message of at most a size, for its first
  -- recipient; without a recipient it panics.
  unfoldable pub request : ℕ → Text → List Address → Go (Text × Text)
  unfolding to_string
  request max_size body [] = panic
  request max_size body (first ∷ rcpt) =
      ok (if ltb max_size (length body) then take max_size body else body, to_string first)

  abbrev scanned :
      F
      → (List (ReportFact F) → List (ReportFact F))
      → Option (SaReport F)
      → Go (Option (CheckResult F))
  scanned failure_score sort none = ok (
      some (record {
        module_name = text "spamassassin";
        suggested_action = error;
        message = text "An internal error occurred";
        score = failure_score;
        weighted_score = fl.zero;
        callbacks = [];
      }))
  scanned failure_score sort (some report) = ok (
      some (record {
        module_name = text "spamassassin";
        suggested_action = reject;
        message = verdict_message (sort report.facts);
        score = report.score;
        weighted_score = fl.zero;
        callbacks = [];
      }))

  -- `MessageCheck`, for a session with the module or not, aborted or not, with the service's answers to
  -- requests; `failure_score` is the 25 of the source.
  unfoldable pub message_check :
      F
      → (List (ReportFact F) → List (ReportFact F))
      → ℕ
      → (Text × Text → Reply F)
      → Bool
      → Bool
      → ℕ
      → Text
      → List Address
      → Go (Option (CheckResult F))
  unfolding request scan verdict_message
  message_check failure_score sort ex_ok service enabled aborted max_size body rcpt =
      if not enabled
      then ok none
      else if aborted
      then ok none
      else request max_size body rcpt >>= λ asked.
          scan fl.zero ex_ok (service asked) >>= scanned failure_score sort
