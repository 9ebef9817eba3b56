-- ===== src/Quotas/Limits.antt =====
-- quotas/quotas.go: a message that is permitted keeps its quotas.
use clue_getter.Prelude.{
  ℕ, ◌+◌, ◌≤◌, ◌≡◌, ◌≢◌, refl, sym, ◌∙◌, Among, Bool, true, false, ◌||◌, inl, inr, List, [], ◌∷◌,
  arith, All, any, if◌then◌else◌,
}
use clue_getter.Prelude.Text.{Text}
use clue_getter.Prelude.Float.{Float}
use clue_getter.Dict.{Dict, IsDistinct, total, insert}
use clue_getter.Message.{Action, permit, tempfail}
use clue_getter.Quotas.{Redis}
use clue_getter.Quotas.Polling.{QuotasResult}
use clue_getter.Quotas.Verdict.{exceeds, callbacks_of, add_all, verdict_on}
use clue_getter.Quotas.Windows.{recent, is_recent}
use clue_getter.Quotas.Order.{verdict_on_unordered}
use clue_getter.Quotas.Tallies.{AddsUpTo, recent-add_all}
use mathlib.Core.List.Perm

-- No tally is of a time to come.
abbrev pub ArePast : ℕ → Dict ℕ → Type 0
ArePast now = All (λ entry. entry.1 ≤ now)

is_recent_later :
    (period now later score : ℕ)
    → now ≤ later
    → score ≤ now
    → is_recent period later score ≤ is_recent period now score
unfolding is_recent
is_recent_later period now later score h k = ground (arith, h, k)

recent_later :
    (period now later : ℕ) (d : Dict ℕ)
    → now ≤ later
    → ArePast now d
    → recent period later d ≤ recent period now d
unfolding total
recent_later period now later [] h k = omega arith
recent_later period now later ((member, score) ∷ d) h (past, k) =
    omega
      (arith, recent_later period now later d h k, is_recent_later period now later score h past)

or_none : {b c : Bool} → (b || c) ≡ false → (b ≡ false) × (c ≡ false)
or_none {b = true} h = absurd cc
or_none {b = false} h = (refl, h)

exceeds_none :
    (r : QuotasResult) (rs : List QuotasResult)
    → any exceeds rs ≡ false
    → Among r rs
    → exceeds r ≡ false
exceeds_none r [] h among = absurd among
exceeds_none r (s ∷ rs) h (inl same) = rw same (or_none h).0
exceeds_none r (s ∷ rs) h (inr later) = exceeds_none r rs (or_none h).1 later

permits_none : (b : Bool) → ◌≡◌ {A = Action} (if b then tempfail else permit) permit → b ≡ false
permits_none true e = absurd cc
permits_none false e = refl

within_curb : (r : QuotasResult) → exceeds r ≡ false → r.future_total_count ≤ r.curb
unfolding exceeds
within_curb r h = ground (arith, h)

module _ {S : Type 0} (redis : Redis S) (sorted_set : S → Text → Dict ℕ)
    (z_add_inserts : (store : S) (key : Text) (score : ℕ) (member : Text)
      → sorted_set (redis.z_add store key score member) key
        ≡ insert member score (sorted_set store key))
    (z_add_keeps : (store : S) (key other : Text) (score : ℕ) (member : Text)
      → key ≢ other
      → sorted_set (redis.z_add store key score member) other ≡ sorted_set store other)
    (expire_keeps : (store : S) (key other : Text) (ttl : ℕ)
      → sorted_set (redis.expire store key ttl) other ≡ sorted_set store other) where
  -- Where redis keeps a score for each member of a sorted set: a message is permitted, and no other
  -- message is tallied between its check and its tally. Then for each quota that it was checked
  -- against, with the recent messages and those to be added counted, no more messages than the curb
  -- are tallied within the period that ends at its tally, whenever that is, if no tally was of a
  -- later time than the check and no result on the same quota adds more.
  pub permitted_within_curb :
      {F : Type 0} (fl : Float F) (hundred : F) (statuses : List ℕ) (checked tallied : ℕ)
      (queue_id : Text) (verdict period : ℕ) (rs : List QuotasResult) (r : QuotasResult) (store : S)
      → (verdict_on fl hundred rs).suggested_action ≡ permit
      → Among r rs
      → recent period checked (sorted_set store r.key) + r.extra_count ≤ r.future_total_count
      → AddsUpTo r.key r.extra_count rs
      → IsDistinct (sorted_set store r.key)
      → ArePast checked (sorted_set store r.key)
      → checked ≤ tallied
      → recent period tallied (
          sorted_set
            (add_all redis statuses tallied queue_id verdict (callbacks_of rs) store)
            r.key)
        ≤ r.curb
  permitted_within_curb fl hundred statuses checked tallied queue_id verdict period rs r store
        permitted among counted adds distinct past after =
      let (action, _) = verdict_on_unordered fl hundred rs rs Perm.rfl in
      let none_exceeds = permits_none (any exceeds rs) (sym action ∙ permitted) in
      omega (
        arith,
        within_curb r (exceeds_none r rs none_exceeds among),
        recent_later period checked tallied (sorted_set store r.key) after past,
        recent-add_all redis sorted_set z_add_inserts z_add_keeps expire_keeps statuses tallied
            queue_id verdict r.key r.extra_count period rs store adds distinct,
        counted,
      )
