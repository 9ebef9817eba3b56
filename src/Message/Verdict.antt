-- ===== src/Message/Verdict.antt =====
-- core/message.go: the modules' results are gathered, weighed and made into one verdict. The buckets
-- `results[action]` of the source hold the pointers of `flatResults` in the same order: here a bucket
-- is read off the one list.
pub mod Gathering
pub mod Deciding
pub mod Outcomes
pub mod Regular
use clue_getter.Prelude.{
  ℕ, zero, suc, ◌+◌, ◌-◌, Bool, true, false, not, ◌&&◌, ◌||◌, Option, none, some, List, [], ◌∷◌,
  ◌++◌, if◌then◌else◌, ltb, keep, map,
}
use clue_getter.Prelude.Text.{Text, text, is_empty}
use clue_getter.Prelude.Go.{Go, ok, panic, ◌>>=◌}
use clue_getter.Prelude.Float.{Float}
use clue_getter.Message.{
  Action, permit, tempfail, reject, error, discard, same_action, Callback, CheckResult,
  SessionConfig, SessionInfo, Message,
}
use clue_getter.Message.Headers.{message_ensure_has_message_id, substitute_string_vars}
use clue_getter.Message.Groups.{ModuleGroup, message_weigh_results}

-- How a module's `MessageCheck` ends: with a result, with nil, or in a panic.
pub data ModuleRun (F : Type 0) : Type 0 where
  returns : Option (CheckResult F) → ModuleRun F
  panics : ModuleRun F

-- What `messageGetResults` sends for one module; `failure_score` is the 25 of the source.
pub module_result : {F : Type 0} → Float F → F → Text → ModuleRun F → Option (CheckResult F)
module_result fl failure_score name (returns res) = res
module_result fl failure_score name panics = some (record {
  module_name = name;
  suggested_action = error;
  message = text "An internal error ocurred";
  score = failure_score;
  weighted_score = fl.zero;
  callbacks = [];
})

-- The results in the order in which the modules end, as the channel hands them over.
pub message_get_results :
    {F : Type 0} → Float F → F → List (Text × ModuleRun F) → List (CheckResult F)
unfolding module_result
message_get_results fl failure_score [] = []
message_get_results fl failure_score ((name, run) ∷ runs) =
    let rest = message_get_results fl failure_score runs in
    elim (module_result fl failure_score name run) [ none ↦ rest | some res ↦ res ∷ rest ]

pub record Gathered (F : Type 0) : Type 0 where
  pub flat : List (CheckResult F)
  pub error_count : ℕ

module _ {F : Type 0} (fl : Float F) where
  -- A result as the loop leaves it: one with no score is made a permit.
  abbrev pub arrive : CheckResult F → CheckResult F
  arrive r = record r {
    suggested_action = if fl.eq r.score fl.zero then permit else r.suggested_action;
    weighted_score = r.score;
  }

  abbrev pub add_score : (Action → F) → Action → F → Action → F
  add_score scores a score b = if same_action a b then fl.add (scores b) score else scores b

  -- A round of the loop, for a result that is an error or not and brings its action to the breaker
  -- score or not, and what the further rounds come to.
  pub take_in : Bool → Bool → CheckResult F → Gathered F → Gathered F
  take_in true breaks r rest = record { flat = r ∷ rest.flat; error_count = rest.error_count + 1 }
  take_in false true r rest = record { flat = r ∷ []; error_count = 0 }
  take_in false false r rest = record { flat = r ∷ rest.flat; error_count = rest.error_count }

  -- The loop over the results, with the scores so far; the first action to reach the breaker score
  -- ends it.
  pub gather : F → (Action → F) → List (CheckResult F) → Gathered F
  unfolding take_in
  gather breaker scores [] = record { flat = []; error_count = 0 }
  gather breaker scores (r ∷ rs) =
      let r' : CheckResult F = arrive r in
      let scores' : Action → F = add_score scores r'.suggested_action r'.score in
      take_in (same_action r'.suggested_action error) (fl.le breaker (scores' r'.suggested_action))
        r' (gather breaker scores' rs)

  abbrev pub bucket : Action → List (CheckResult F) → List (CheckResult F)
  bucket a = keep (λ r. same_action r.suggested_action a)

  -- The loop of `getDecidingResultWithMessage`.
  pub deciding_from : CheckResult F → F → List (CheckResult F) → CheckResult F
  deciding_from out max_score [] = out
  deciding_from out max_score (r ∷ rs) =
      let better = fl.lt max_score r.weighted_score && not (is_empty r.message) in
      deciding_from (if better then r else out) (if better then r.weighted_score else max_score) rs

  -- The message of `getDecidingResultWithMessage`, which panics on an empty bucket.
  pub deciding_message : List (CheckResult F) → Go Text
  unfolding deciding_from
  deciding_message [] = panic
  deciding_message (r ∷ rs) = ok (deciding_from r fl.zero (r ∷ rs)).message

  pub total_scores : (Action → F) → List (CheckResult F) → Action → F
  total_scores totals [] = totals
  total_scores totals (r ∷ rs) =
      total_scores (add_score totals r.suggested_action r.weighted_score) rs

  -- The verdict and the text before the default is put in.
  pub choose_verdict :
      SessionConfig F → (Action → F) → List (CheckResult F) → ℕ → Go (Action × Text)
  unfolding deciding_message
  choose_verdict config totals flat error_count =
      if fl.le config.breaker_score (totals discard)
      then deciding_message (bucket discard flat) >>= (λ msg. ok (discard, msg))
      else if fl.le config.message_reject_score (totals reject)
      then deciding_message (bucket reject flat) >>= (λ msg. ok (reject, msg))
      else if ltb 0 error_count
      then ok (tempfail, text "An internal server error ocurred")
      else if fl.le config.message_tempfail_score (fl.add (totals tempfail) (totals reject))
      then deciding_message (bucket tempfail flat) >>= (λ msg. ok (tempfail, msg))
      else ok (permit, [])

  abbrev pub or_unspecified : Action × Text → Action × Text
  or_unspecified (a, msg) =
      (a, if not (same_action a permit) && is_empty msg then text "Reason Unspecified" else msg)

  pub decide : SessionConfig F → List (CheckResult F) → ℕ → Go (Action × Text)
  unfolding choose_verdict total_scores
  decide config flat error_count =
      choose_verdict config (total_scores (λ a. fl.zero) flat) flat error_count >>= λ chosen.
      ok (or_unspecified chosen)

-- The calls of all callbacks with the verdict.
pub run_callbacks : {F : Type 0} → Action → List (CheckResult F) → List (Callback × Action)
run_callbacks verdict [] = []
run_callbacks verdict (r ∷ rs) = map (λ c. (c, verdict)) r.callbacks ++ run_callbacks verdict rs

pub record Outcome (F : Type 0) : Type 0 where
  pub message : Message F
  pub verdict : Action
  pub verdict_msg : Text
  pub callbacks : List (Callback × Action)
  -- whether `messageSave` is called with the message
  pub saved : Bool

module _ {F : Type 0} (fl : Float F) (config : SessionConfig F) (info : SessionInfo) where
  -- The end of `messageGetVerdict`, after the decision, up to the call of `messageSave`. The call, and
  -- what its panic makes of the verdict, are in Saved.Checked. The generated Marshal hands on no error
  -- but those of its parts, which have none, so that panic is not met here.
  pub conclude : Message F → List (CheckResult F) → Action × Text → Outcome F
  unfolding total_scores run_callbacks substitute_string_vars
  conclude msg flat (verdict, status_msg) =
      let totals : Action → F = total_scores fl (λ a. fl.zero) flat in
      let verdict_msg = substitute_string_vars fl config info msg.check_results status_msg in
      record {
        message = record msg {
          verdict = verdict;
          verdict_msg = verdict_msg;
          reject_score = totals reject;
          reject_score_threshold = config.message_reject_score;
          tempfail_score = totals tempfail;
          tempfail_score_threshold = config.message_tempfail_score;
          check_results = flat;
        };
        verdict = verdict;
        verdict_msg = verdict_msg;
        callbacks = run_callbacks verdict flat;
        saved = true;
      }

  -- The deferred function: a panic becomes a tempfail.
  unfoldable pub recover_verdict : Message F → List (CheckResult F) → Go (Action × Text) → Outcome F
  unfolding conclude
  recover_verdict msg flat (ok decision) = conclude msg flat decision
  recover_verdict msg flat panic = record {
    message = msg;
    verdict = tempfail;
    verdict_msg = text "An internal error occurred.";
    callbacks = [];
    saved = false;
  }

  -- `messageGetVerdict` where the program does not exit on a panic, on a host at a time, for the
  -- results in the order in which they arrive.
  unfoldable pub message_get_verdict :
      List (ModuleGroup F) → Text → ℕ → Message F → List (CheckResult F) → Outcome F
  unfolding gather decide recover_verdict message_weigh_results message_ensure_has_message_id
  message_get_verdict groups hostname now msg results =
      let gathered : Gathered F = gather fl config.breaker_score (λ a. fl.zero) results in
      let (weighed, ignored) = message_weigh_results fl groups gathered.flat in
      recover_verdict (message_ensure_has_message_id hostname now info msg) weighed
        (decide fl config weighed (gathered.error_count - ignored))
