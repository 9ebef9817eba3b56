-- ===== src/Quotas/Windows.antt =====
-- quotas/quotas.go: the count of a quota against a window that slides over the tallied messages.
use clue_getter.Prelude.{
  ℕ, ◌+◌, ◌<◌, ◌≤◌, ◌^◌, ◌%◌, ◌≡◌, refl, true, false, ◌&&◌, inl, inr, [], ◌∷◌, arith, keep,
  if◌then◌else◌, ltb, leb, Bool-cases,
}
use clue_getter.Prelude.Go.{ok}
use clue_getter.Prelude.Int.{ℤ, pos, minus, above, at_most, to_bits}
use clue_getter.Prelude.Text.{Text}
use clue_getter.Dict.{Dict, total}
use clue_getter.Quotas.{Redis}
use clue_getter.Quotas.Polling.{
  QuotasResult, result_of, period_and_curb, counts_key, count_in_period,
  poll_by_selector_and_period,
}
use clue_getter.Quotas.Verdict.{exceeds}

-- One for a message that was tallied less than a period before a time, and not after it.
unfoldable pub is_recent : ℕ → ℕ → ℕ → ℕ
is_recent period now score = if ltb now (score + period) && leb score now then 1 else 0

-- How many messages a set of tallies holds in the period that ends at a time.
abbrev pub recent : ℕ → ℕ → Dict ℕ → ℕ
recent period now = total (is_recent period now)

abbrev pub in_range : ℤ → ℕ → ℕ → ℕ
in_range start end score = if at_most start score && leb score end then 1 else 0

in_range_kept :
    (period now score : ℕ)
    → above score (minus now (pos period)) ≡ true
    → in_range (minus now (pos period)) now score ≡ is_recent period now score
unfolding minus is_recent
in_range_kept period now score h = ground arith

is_recent_dropped :
    (period now score : ℕ)
    → above score (minus now (pos period)) ≡ false
    → is_recent period now score ≡ 0
unfolding minus is_recent
is_recent_dropped period now score h = ground arith

is_recent-in_range :
    (period now score : ℕ)
    → is_recent period now score ≤ in_range (minus now (pos period)) now score
unfolding minus is_recent
is_recent-in_range period now score = ground arith

recent-total :
    (period now : ℕ) (d : Dict ℕ)
    → recent period now d ≤ total (in_range (minus now (pos period)) now) d
unfolding total
recent-total period now [] = omega arith
recent-total period now ((k, score) ∷ d) =
    omega (arith, recent-total period now d, is_recent-in_range period now score)

-- What a purge leaves of a set of tallies.
abbrev pub purged : ℤ → Dict ℕ → Dict ℕ
purged start = keep (λ entry. above entry.1 start)

total-purged :
    (period now : ℕ) (d : Dict ℕ)
    → total (in_range (minus now (pos period)) now) (purged (minus now (pos period)) d)
      ≡ recent period now d
unfolding total
total-purged period now [] = refl
total-purged period now ((k, score) ∷ d) =
    elim (Bool-cases (above score (minus now (pos period)))) [
      | inl kept ↦
          rw kept (omega (arith, total-purged period now d, in_range_kept period now score kept))
      | inr dropped ↦
          rw dropped
            (omega (arith, total-purged period now d, is_recent_dropped period now score dropped))
    ]

recent-purged :
    (period now : ℕ) (d : Dict ℕ)
    → recent period now (purged (minus now (pos period)) d) ≡ recent period now d
unfolding total
recent-purged period now [] = refl
recent-purged period now ((k, score) ∷ d) =
    elim (Bool-cases (above score (minus now (pos period)))) [
      | inl kept ↦ rw kept (omega (arith, recent-purged period now d))
      | inr dropped ↦
          rw dropped
            (omega (arith, recent-purged period now d, is_recent_dropped period now score dropped))
    ]

mod_small : (n : ℕ) → n < 2 ^ 63 → n % 2 ^ 64 ≡ n
mod_small n h = omega (arith, h)

module _ {S : Type 0} (redis : Redis S) (sorted_set : S → Text → Dict ℕ)
    (z_count_total : (store : S) (key : Text) (start : ℤ) (end : ℕ)
      → redis.z_count store key start end ≡ total (in_range start end) (sorted_set store key))
    (z_rem_purges : (store : S) (key : Text) (start : ℤ)
      → sorted_set (redis.z_rem_range_by_score store key start) key
        ≡ purged start (sorted_set store key)) where
  -- What is counted, against the window, and what is left of the window.
  abbrev IsCounted : ℕ → ℕ → ℕ → ℕ → S → Text → S × ℕ → Type 0
  IsCounted period now curb extra_count store key (store', count) =
      (recent period now (sorted_set store key) ≤ count)
      × (ltb curb (count + extra_count)
          ≡ ltb curb (recent period now (sorted_set store key) + extra_count))
      × (recent period now (sorted_set store' key) ≡ recent period now (sorted_set store key))

  count_in_period-IsCounted :
      (store : S) (now : ℕ) (key : Text) (period curb extra_count : ℕ)
      → IsCounted period now curb extra_count store key
          (count_in_period redis store now key (pos period) (pos curb) extra_count)
  unfolding count_in_period
  count_in_period-IsCounted store now key period curb extra_count =
      let d = sorted_set store key in
      let start = minus now (pos period) in
      let below : recent period now d ≤ redis.z_count store key start now =
        rw (z_count_total store key start now) (recent-total period now d) in
      let purge = redis.z_rem_range_by_score store key start in
      let again : redis.z_count purge key start now ≡ recent period now d =
        rw (z_count_total purge key start now, z_rem_purges store key start)
          (total-purged period now d) in
      elim (Bool-cases (ltb curb (redis.z_count store key start now + extra_count))) [
        | inl over ↦ rw over (
          omega (arith, again),
          rw again refl,
          rw (z_rem_purges store key start) (recent-purged period now d),
        )
        | inr under ↦ rw under (below, ground (arith, below), refl)
      ]

  -- What a poll sends for a quota, against the window, and what it leaves of the window.
  abbrev pub IsJudged : ℕ → ℕ → ℕ → ℕ → S → S → QuotasResult → Type 0
  IsJudged period now curb extra_count store store' r =
      (r.extra_count ≡ extra_count)
      × (recent period now (sorted_set store r.key) + extra_count ≤ r.future_total_count)
      × (exceeds r ≡ ltb curb (recent period now (sorted_set store r.key) + extra_count))
      × (recent period now (sorted_set store' r.key) ≡ recent period now (sorted_set store r.key))

  -- Where redis keeps a score for each member of a sorted set: the poll of a definition whose curb is
  -- not negative returns, and its quota is exceeded exactly if the messages that were tallied less
  -- than the period ago and those to be added are more than the curb, whether the poll finds out by
  -- the first count or drops the older tallies and counts again. No tally in the period is dropped.
  pub poll_refines_window :
      (store : S) (now inst : ℕ) (selector value : Text) (extra_count : ℕ) (quota : Text)
      (period curb : ℕ)
      → period_and_curb quota ≡ ok (pos period, pos curb)
      → curb < 2 ^ 63
      → (store' : S) × (r : QuotasResult) × (poll_by_selector_and_period redis store now inst
            selector value extra_count quota
          ≡ ok (store', r))
        × IsJudged period now curb extra_count store store' r
  unfolding poll_by_selector_and_period exceeds to_bits
  poll_refines_window store now inst selector value extra_count quota period curb e small =
      let key = counts_key inst selector value (pos period) in
      let counted = count_in_period redis store now key (pos period) (pos curb) extra_count in
      let (least, judged, same) = count_in_period-IsCounted store now key period curb extra_count in
      (
        counted.0,
        result_of inst selector value extra_count (pos period) (pos curb) counted.1,
        rw e refl,
        (refl, omega (arith, least), rw (mod_small curb small) judged, same),
      )
