-- ===== src/Quotas/Verdict.antt =====
-- quotas/quotas.go: the verdict on a message, the tally of it afterwards, and the statistics of a user.
use clue_getter.Prelude.{
  ℕ, zero, suc, ◌*◌, Bool, not, Option, none, some, List, [], ◌∷◌, ◌++◌, if◌then◌else◌, ltb, eqb,
  any, map,
}
use clue_getter.Prelude.Go.{Go, ok, ◌>>=◌}
use clue_getter.Prelude.Float.{Float}
use clue_getter.Prelude.Int.{parse_uint}
use clue_getter.Prelude.Text.{Text, text, show, is_empty}
use clue_getter.Message.{permit, tempfail, Callback, tally, CheckResult}
use clue_getter.Quotas.{Redis, QuotasModule, Delivery, get_msg_factors}
use clue_getter.Quotas.Polling.{QuotasResult, poll_by_selector, poll_factors}

-- The callbacks for a result, from one number on.
unfoldable pub callbacks_from : ℕ → ℕ → Text → List Callback
callbacks_from i zero key = []
callbacks_from i (suc n) key = tally key i ∷ callbacks_from (suc i) n key

unfoldable pub callbacks_of : List QuotasResult → List Callback
unfolding callbacks_from
callbacks_of [] = []
callbacks_of (r ∷ rs) = callbacks_from 1 r.extra_count r.key ++ callbacks_of rs

unfoldable pub exceeds : QuotasResult → Bool
exceeds r = ltb r.curb r.future_total_count

unfoldable pub reject_text : QuotasResult → Text
reject_text r =
    text "REJECT Policy reject; Exceeding quota, max of "
    ++ (show r.curb
        ++ (text " messages per "
            ++ (show r.period
                ++ (text " seconds for "
                    ++ (r.selector ++ (text " '" ++ (r.factor_value ++ text "'")))))))

-- `rejectMsg`: the last quota that is exceeded gives the text.
unfoldable pub reject_msg : Text → List QuotasResult → Text
unfolding exceeds reject_text
reject_msg msg [] = msg
reject_msg msg (r ∷ rs) = reject_msg (if exceeds r then reject_text r else msg) rs

module _ {F : Type 0} (fl : Float F) (hundred : F) where
  abbrev pub verdict_with : List Callback → Text → CheckResult F
  verdict_with callbacks [] = record {
    module_name = text "quotas";
    suggested_action = permit;
    message = [];
    score = fl.one;
    weighted_score = fl.zero;
    callbacks = callbacks;
  }
  verdict_with callbacks (c ∷ msg) = record {
    module_name = text "quotas";
    suggested_action = tempfail;
    message = c ∷ msg;
    score = hundred;
    weighted_score = fl.zero;
    callbacks = callbacks;
  }

  -- The end of `MessageCheck`, for the results in the order of their arrival.
  unfoldable pub verdict_on : List QuotasResult → CheckResult F
  unfolding callbacks_of reject_msg
  verdict_on results = verdict_with (callbacks_of results) (reject_msg [] results)

  -- `MessageCheck`, for a session with quotas or not.
  unfoldable pub message_check :
      {S : Type 0}
      → Redis S
      → (Text → Text)
      → QuotasModule
      → Bool
      → ℕ
      → Delivery
      → S
      → Go (S × Option (CheckResult F))
  unfolding poll_factors verdict_on get_msg_factors
  message_check redis public_suffix m enabled now d store =
      if not enabled
      then ok (store, none)
      else poll_factors redis m now d (get_msg_factors public_suffix m.config d) store >>= λ sent.
          ok (sent.0, some (verdict_on sent.1))

module _ {S : Type 0} (redis : Redis S) where
  -- The closure of `quotasRedisAddMsg`, called for a message with the number of its verdict.
  unfoldable pub add_msg : List ℕ → ℕ → Text → ℕ → Callback → S → S
  add_msg tally_statuses now queue_id verdict (tally key i) store =
      if any (eqb verdict) tally_statuses
      then redis.expire (redis.z_add store key now (queue_id ++ b'-' ∷ show i)) key (24 * 3600)
      else store

  unfoldable pub add_all : List ℕ → ℕ → Text → ℕ → List Callback → S → S
  unfolding add_msg
  add_all tally_statuses now queue_id verdict [] store = store
  add_all tally_statuses now queue_id verdict (c ∷ cs) store =
      add_all tally_statuses now queue_id verdict cs
        (add_msg tally_statuses now queue_id verdict c store)

-- The answers of `quotasSasluserStats`.
pub data StatsAnswer : Type 0 where
  not_found redirect bad_request : StatsAnswer
  -- the curb, the count and the period of each quota
  stats : List (ℕ × (ℕ × ℕ)) → StatsAnswer

abbrev stats_of : {S : Type 0} → S × List QuotasResult → Go (S × StatsAnswer)
stats_of (store, rs) =
    ok (store, stats (map (λ (r : QuotasResult). (r.curb, (r.future_total_count, r.period))) rs))

abbrev stats_for :
    {S : Type 0} → Redis S → QuotasModule → ℕ → Text → Option ℕ → S → Go (S × StatsAnswer)
stats_for redis m now sasl_user none store = ok (store, bad_request)
stats_for redis m now sasl_user (some inst) store =
    poll_by_selector redis m now inst (text "sasl_username") sasl_user 0 store >>= stats_of

-- `quotasSasluserStats`, for a path behind "/quotas/sasl_username/" and a parameter `instance`.
unfoldable pub sasluser_stats :
    {S : Type 0} → Redis S → QuotasModule → ℕ → Text → Text → S → Go (S × StatsAnswer)
unfolding poll_by_selector parse_uint
sasluser_stats redis m now sasl_user inst store =
    if is_empty sasl_user
    then ok (store, not_found)
    else if is_empty inst
    then ok (store, redirect)
    else stats_for redis m now sasl_user (parse_uint inst) store
