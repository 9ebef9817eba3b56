-- ===== src/Quotas/Polling.antt =====
-- quotas/quotas.go: what the quotas of a message come to. The goroutines are run one
-- after the other; what each sends to the channel is in a list, in the order of arrival.
use clue_getter.Prelude.{
  ℕ, ◌+◌, Bool, true, false, not, ◌&&◌, List, [], ◌∷◌, ◌++◌, if◌then◌else◌, eqb, length,
}
use clue_getter.Prelude.Go.{Go, ok, panic, ◌>>=◌}
use clue_getter.Prelude.Int.{ℤ, to_bits, minus, above, atoi, show_int}
use clue_getter.Prelude.Text.{Text, text, show, split, ◌==◌}
use clue_getter.Dict.{mem}
use clue_getter.Quotas.{Redis, QuotasModule, Delivery}
use clue_getter.Quotas.Definitions.{
  quota_key, definitions_key, insert_quota_definitions, insert_regexes_for_selector,
}

pub record QuotasResult : Type 0 where
  pub curb : ℕ
  pub extra_count : ℕ
  pub factor_value : Text
  pub future_total_count : ℕ
  pub period : ℕ
  pub selector : Text
  pub key : Text

-- The period and the curb of a definition; a definition without "_" ends in a panic.
abbrev period_and_curb_of : List Text → Go (ℤ × ℤ)
period_and_curb_of [] = panic
period_and_curb_of (p ∷ []) = panic
period_and_curb_of (p ∷ (c ∷ rest)) = ok (atoi p, atoi c)

unfoldable pub period_and_curb : Text → Go (ℤ × ℤ)
unfolding split atoi
period_and_curb quota = period_and_curb_of (split b'_' quota)

unfoldable pub counts_key : ℕ → Text → Text → ℤ → Text
unfolding quota_key show_int
counts_key inst selector value period =
    text "{cluegetter-"
    ++ (show inst
        ++ (text "-quotas-" ++ (quota_key selector value ++ (text "}-counts-" ++ show_int period))))

-- The definitions without the repeated ones, after those that were met before.
unfoldable pub distinct_from : List Text → List Text → List Text
unfolding ◌==◌
distinct_from seen [] = []
distinct_from seen (q ∷ qs) =
    let skipped = distinct_from seen qs in
    let taken = distinct_from (q ∷ seen) qs in if mem q seen then skipped else q ∷ taken

unfoldable pub has_duplicates : List Text → List Text → Bool
unfolding ◌==◌
has_duplicates seen [] = false
has_duplicates seen (q ∷ qs) =
    let rest = has_duplicates (q ∷ seen) qs in if mem q seen then true else rest

-- What is sent for a quota.
abbrev pub result_of : ℕ → Text → Text → ℕ → ℤ → ℤ → ℕ → QuotasResult
unfolding counts_key to_bits
result_of inst selector value extra_count period curb count = record {
  curb = to_bits curb;
  extra_count = extra_count;
  factor_value = value;
  future_total_count = count + extra_count;
  period = to_bits period;
  selector = selector;
  key = counts_key inst selector value period;
}

module _ {S : Type 0} (redis : Redis S) where
  -- The count of `quotasRedisPollQuotasBySelectorAndPeriod`: where it is too high, what is older than
  -- the period is dropped and the rest is counted again.
  unfoldable pub count_in_period : S → ℕ → Text → ℤ → ℤ → ℕ → S × ℕ
  unfolding minus
  count_in_period store now key period curb extra_count =
      let start = minus now period in
      let count = redis.z_count store key start now in
      let purged = redis.z_rem_range_by_score store key start in
      if above (count + extra_count) curb
      then (purged, redis.z_count purged key start now)
      else (store, count)

  abbrev poll_parsed : S → ℕ → ℕ → Text → Text → ℕ → ℤ × ℤ → Go (S × QuotasResult)
  poll_parsed store now inst selector value extra_count (period, curb) =
      let key = counts_key inst selector value period in
      let (store', count) = count_in_period store now key period curb extra_count in
      ok (store', result_of inst selector value extra_count period curb count)

  -- `quotasRedisPollQuotasBySelectorAndPeriod`
  unfoldable pub poll_by_selector_and_period :
      S → ℕ → ℕ → Text → Text → ℕ → Text → Go (S × QuotasResult)
  unfolding period_and_curb count_in_period counts_key to_bits
  poll_by_selector_and_period store now inst selector value extra_count quota =
      period_and_curb quota >>= poll_parsed store now inst selector value extra_count

  abbrev and_then : QuotasResult → S × List QuotasResult → Go (S × List QuotasResult)
  and_then r (store, rs) = ok (store, r ∷ rs)

  unfoldable pub poll_each : ℕ → ℕ → Text → Text → ℕ → List Text → S → Go (S × List QuotasResult)
  unfolding poll_by_selector_and_period
  poll_each now inst selector value extra_count [] store = ok (store, [])
  poll_each now inst selector value extra_count (q ∷ qs) store =
      poll_by_selector_and_period store now inst selector value extra_count q >>= λ sent.
      poll_each now inst selector value extra_count qs sent.0 >>= and_then sent.1

  -- `pruneDuplicateDefinitions`, for the definitions in the order of a range over their map.
  unfoldable pub prune_duplicate_definitions : ℕ → Text → Text → List Text → S → S
  unfolding insert_quota_definitions quota_key
  prune_duplicate_definitions inst selector value definitions store =
      insert_quota_definitions redis inst (quota_key selector value) definitions store

  abbrev prune_if : Bool → ℕ → Text → Text → List Text → S → S
  prune_if found inst selector value definitions store =
      if found then prune_duplicate_definitions inst selector value definitions store else store

  abbrev prune_after :
      Bool → ℕ → Text → Text → List Text → S × List QuotasResult → S × List QuotasResult
  prune_after found inst selector value definitions (store, rs) =
      (prune_if found inst selector value definitions store, rs)

  -- The loop over the definitions, with what follows it.
  unfoldable pub poll_definitions :
      ℕ → ℕ → Text → Text → ℕ → List Text → S → Go (S × List QuotasResult)
  unfolding poll_each has_duplicates distinct_from
  poll_definitions now inst selector value extra_count quotas store =
      poll_each now inst selector value extra_count (distinct_from [] quotas) store >>= λ sent.
      ok (prune_after (has_duplicates [] quotas) inst selector value (distinct_from [] quotas) sent)

  abbrev poll_inserted : QuotasModule → ℕ → Text → Text → ℕ → S × Bool → Go (S × List QuotasResult)
  poll_inserted m now selector value extra_count (store, false) = ok (store, [])
  poll_inserted m now selector value extra_count (store, true) =
      poll_definitions now m.instance_id selector value extra_count
        (redis.l_range store (definitions_key m.instance_id (quota_key selector value))) store

  abbrev poll_or_insert :
      QuotasModule → ℕ → ℕ → Text → Text → ℕ → List Text → S → Go (S × List QuotasResult)
  poll_or_insert m now inst selector value extra_count (q ∷ qs) store =
      poll_definitions now inst selector value extra_count (q ∷ qs) store
  poll_or_insert m now inst selector value extra_count [] store =
      if not (eqb inst m.instance_id)
      then ok (store, [])
      else poll_inserted m now selector value extra_count
          (insert_regexes_for_selector redis m selector value store)

  -- `quotasRedisPollQuotasBySelector`
  unfoldable pub poll_by_selector :
      QuotasModule → ℕ → ℕ → Text → Text → ℕ → S → Go (S × List QuotasResult)
  unfolding poll_definitions insert_regexes_for_selector definitions_key quota_key
  poll_by_selector m now inst selector value extra_count store =
      poll_or_insert m now inst selector value extra_count
        (redis.l_range store (definitions_key inst (quota_key selector value))) store

  abbrev and_more : List QuotasResult → S × List QuotasResult → Go (S × List QuotasResult)
  and_more rs (store, more) = ok (store, rs ++ more)

  unfoldable pub poll_values :
      QuotasModule → ℕ → Text → ℕ → List Text → S → Go (S × List QuotasResult)
  unfolding poll_by_selector
  poll_values m now selector extra_count [] store = ok (store, [])
  poll_values m now selector extra_count (v ∷ vs) store =
      poll_by_selector m now m.instance_id selector v extra_count store >>= λ sent.
      poll_values m now selector extra_count vs sent.0 >>= and_more sent.1

  -- How many messages a delivery adds to a quota.
  unfoldable pub extra_count_of : Text → Delivery → ℕ
  unfolding ◌==◌
  extra_count_of selector d =
      if not (selector == text "recipient") && not (selector == text "recipient_domain")
      then length d.rcpt
      else 1

  unfoldable pub poll_factors :
      QuotasModule → ℕ → Delivery → List (Text × List Text) → S → Go (S × List QuotasResult)
  unfolding poll_values extra_count_of
  poll_factors m now d [] store = ok (store, [])
  poll_factors m now d ((selector, values) ∷ factors) store =
      poll_values m now selector (extra_count_of selector d) values store >>= λ sent.
      poll_factors m now d factors sent.0 >>= and_more sent.1
