-- ===== src/Quotas/Tallies.antt =====
-- quotas/quotas.go: what the tally of a message adds to the quotas that it was checked against.
use clue_getter.Prelude.{
  ℕ, zero, suc, ◌+◌, ◌≤◌, ◌≡◌, ◌≢◌, refl, ap, ◌∙◌, Bool, true, false, ◌||◌, inl, inr, List, [], ◌∷◌,
  ◌++◌, arith, Option, none, some, any, eqb, All, All-append, length, Bool-cases, eqb_iff,
}
use clue_getter.Prelude.Text.{Text, show, ◌==◌, eq_iff, eq_refl}
use clue_getter.Dict.{
  Dict, mem, insert, delete, lookup, total, total-delete, size_at, IsDistinct, delete-IsDistinct,
  insert-IsDistinct,
}
use clue_getter.Message.{Callback, tally}
use clue_getter.Quotas.{Redis}
use clue_getter.Quotas.Polling.{QuotasResult}
use clue_getter.Quotas.Verdict.{callbacks_from, callbacks_of, add_msg, add_all}
use clue_getter.Quotas.Windows.{is_recent, recent}

delete-insert : (k : Text) (score : ℕ) (d : Dict ℕ) → delete k (insert k score d) ≡ delete k d
unfolding delete insert
delete-insert k score [] = rw (eq_refl k) refl
delete-insert k score ((j, old) ∷ d) = ground (arith, delete-insert k score d, eq_refl k)

delete-insert_other :
    (j k : Text) (score : ℕ) (d : Dict ℕ)
    → (j == k) ≡ false
    → delete j (insert k score d) ≡ insert k score (delete j d)
unfolding delete insert
delete-insert_other j k score [] apart = ground (arith, apart, eq_iff j k, eq_iff k j)
delete-insert_other j k score ((i, old) ∷ d) apart =
    ground (arith, delete-insert_other j k score d, eq_iff i j, eq_iff i k, eq_iff j k)

-- A set of tallies without some members.
without : List Text → Dict ℕ → Dict ℕ
without [] d = d
without (k ∷ ks) d = without ks (delete k d)

without-insert :
    (ks : List Text) (k : Text) (score : ℕ) (d : Dict ℕ)
    → mem k ks ≡ true
    → without ks (insert k score d) ≡ without ks d
unfolding without
without-insert [] k score d h = absurd cc
without-insert (j ∷ ks) k score d h = elim (Bool-cases (j == k)) [
  | inl same ↦ rw ((eq_iff j k).0 same, delete-insert k score d) refl
  | inr apart ↦
      rw (delete-insert_other j k score d apart)
        (without-insert ks k score (delete j d) (rw apart at h))
]

module _ (size : ℕ → ℕ) where
  total-without :
      (ks : List Text) (d : Dict ℕ) → IsDistinct d → total size (without ks d) ≤ total size d
  unfolding without
  total-without [] d h = omega arith
  total-without (k ∷ ks) d h =
      omega
        (arith, total-without ks (delete k d) (delete-IsDistinct k d h), total-delete size k d h)

  module _ (small : (score : ℕ) → size score ≤ 1) where
    size_at_small : (found : Option ℕ) → size_at size found ≤ 1
    size_at_small none = omega arith
    size_at_small (some score) = small score

    total-le :
        (ks : List Text) (d : Dict ℕ)
        → IsDistinct d
        → total size d ≤ total size (without ks d) + length ks
    unfolding without
    total-le [] d h = omega arith
    total-le (k ∷ ks) d h = omega (
      arith,
      total-le ks (delete k d) (delete-IsDistinct k d h),
      total-delete size k d h,
      size_at_small (lookup k d),
    )

is_recent-le : (period now score : ℕ) → is_recent period now score ≤ 1
unfolding is_recent
is_recent-le period now score = ground arith

-- The members that a message is tallied as on a quota, up to a number.
members : Text → ℕ → List Text
members queue_id zero = []
members queue_id (suc n) = (queue_id ++ b'-' ∷ show (suc n)) ∷ members queue_id n

length-members : (queue_id : Text) (n : ℕ) → length (members queue_id n) ≡ n
unfolding members
length-members queue_id zero = refl
length-members queue_id (suc n) = omega (arith, length-members queue_id n)

or_true : (b : Bool) {c : Bool} → c ≡ true → (b || c) ≡ true
or_true true e = refl
or_true false e = e

mem-members :
    (queue_id : Text) (i n : ℕ)
    → 1 ≤ i
    → i ≤ n
    → mem (queue_id ++ b'-' ∷ show i) (members queue_id n) ≡ true
unfolding members
mem-members queue_id i zero h k = absurd (omega (arith, h, k))
mem-members queue_id i (suc n) h k = elim (Bool-cases (eqb i (suc n))) [
  | inl last ↦ rw ((eqb_iff i (suc n)).0 last, eq_refl (queue_id ++ b'-' ∷ show (suc n))) refl
  | inr earlier ↦
      or_true (queue_id ++ b'-' ∷ show (suc n) == queue_id ++ b'-' ∷ show i)
        (mem-members queue_id i n h (ground (arith, earlier, k)))
]

-- The callback is for another quota, or its number is from 1 to a limit.
abbrev IsUpTo : Text → ℕ → Callback → Type 0
IsUpTo key n (tally k i) = k ≡ key → (1 ≤ i) × (i ≤ n)

callbacks_from-IsUpTo :
    (key : Text) (n : ℕ) (i m : ℕ) (k : Text)
    → 1 ≤ i
    → (k ≡ key → i + m ≤ suc n)
    → All (IsUpTo key n) (callbacks_from i m k)
unfolding callbacks_from
callbacks_from-IsUpTo key n i zero k h bound = tt
callbacks_from-IsUpTo key n i (suc m) k h bound = (
  λ same. (h, omega (arith, bound same)),
  callbacks_from-IsUpTo key n (suc i) m k (omega arith) (λ same. omega (arith, bound same)),
)

-- What the results on a quota add is at most a number.
abbrev pub AddsUpTo : Text → ℕ → List QuotasResult → Type 0
AddsUpTo key n = All (λ (r : QuotasResult). r.key ≡ key → r.extra_count ≤ n)

callbacks_of-IsUpTo :
    (key : Text) (n : ℕ) (rs : List QuotasResult)
    → AddsUpTo key n rs
    → All (IsUpTo key n) (callbacks_of rs)
unfolding callbacks_of
callbacks_of-IsUpTo key n [] h = tt
callbacks_of-IsUpTo key n (r ∷ rs) (first, h) =
    All-append (IsUpTo key n) (callbacks_from 1 r.extra_count r.key) (callbacks_of rs)
      (callbacks_from-IsUpTo key n 1 r.extra_count r.key (omega arith)
        (λ same. omega (arith, first same)))
      (callbacks_of-IsUpTo key n rs h)

module _ {S : Type 0} (redis : Redis S) (sorted_set : S → Text → Dict ℕ)
    (z_add_inserts : (store : S) (key : Text) (score : ℕ) (member : Text)
      → sorted_set (redis.z_add store key score member) key
        ≡ insert member score (sorted_set store key))
    (z_add_keeps : (store : S) (key other : Text) (score : ℕ) (member : Text)
      → key ≢ other
      → sorted_set (redis.z_add store key score member) other ≡ sorted_set store other)
    (expire_keeps : (store : S) (key other : Text) (ttl : ℕ)
      → sorted_set (redis.expire store key ttl) other ≡ sorted_set store other) where
  -- A set that is the same without some members, and has no member twice.
  abbrev Agrees : List Text → Dict ℕ → Dict ℕ → Type 0
  Agrees ks d e = (without ks d ≡ without ks e) × IsDistinct d

  add_msg-Agrees :
      (statuses : List ℕ) (now : ℕ) (queue_id : Text) (verdict : ℕ) (key : Text) (n : ℕ)
      (c : Callback) (store : S)
      → IsUpTo key n c
      → IsDistinct (sorted_set store key)
      → Agrees
          (members queue_id n)
          (sorted_set (add_msg redis statuses now queue_id verdict c store) key)
          (sorted_set store key)
  unfolding add_msg
  add_msg-Agrees statuses now queue_id verdict key n (tally k i) store h d =
      elim (Bool-cases (any (eqb verdict) statuses)) [
        | inr skipped ↦ rw skipped (refl, d)
        | inl tallied ↦ elim (Bool-cases (k == key)) [
          | inl same ↦
              let e = (eq_iff k key).0 same in
              let (low, high) = h e in
              rw
                (
                  tallied,
                  e,
                  expire_keeps (redis.z_add store key now (queue_id ++ b'-' ∷ show i)) key key
                      86400,
                  z_add_inserts store key now (queue_id ++ b'-' ∷ show i),
                )
                (
                  without-insert (members queue_id n) (queue_id ++ b'-' ∷ show i) now
                      (sorted_set store key) (mem-members queue_id i n low high),
                  insert-IsDistinct (queue_id ++ b'-' ∷ show i) now (sorted_set store key) d,
                )
          | inr apart ↦
              rw
                (
                  tallied,
                  expire_keeps (redis.z_add store k now (queue_id ++ b'-' ∷ show i)) k key 86400,
                  z_add_keeps store k key now (queue_id ++ b'-' ∷ show i)
                      (ground (arith, eq_iff k key, apart)),
                )
                (refl, d)
        ]
      ]

  add_all-Agrees :
      (statuses : List ℕ) (now : ℕ) (queue_id : Text) (verdict : ℕ) (key : Text) (n : ℕ)
      (cs : List Callback) (store : S)
      → All (IsUpTo key n) cs
      → IsDistinct (sorted_set store key)
      → Agrees
          (members queue_id n)
          (sorted_set (add_all redis statuses now queue_id verdict cs store) key)
          (sorted_set store key)
  unfolding add_all
  add_all-Agrees statuses now queue_id verdict key n [] store h d = (refl, d)
  add_all-Agrees statuses now queue_id verdict key n (c ∷ cs) store (first, h) d =
      let (e, d') = add_msg-Agrees statuses now queue_id verdict key n c store first d in
      let (e', d'') =
        add_all-Agrees statuses now queue_id verdict key n cs
          (add_msg redis statuses now queue_id verdict c store) h d' in
      (e' ∙ e, d'')

  -- Where redis keeps a score for each member of a sorted set: whatever the verdict, the tally of a
  -- message adds to the recent messages of a quota at most the highest number that a result on the
  -- quota was checked with, at the time of the tally and with tallies of any time before.
  pub recent-add_all :
      (statuses : List ℕ) (now : ℕ) (queue_id : Text) (verdict : ℕ) (key : Text) (n period : ℕ)
      (rs : List QuotasResult) (store : S)
      → AddsUpTo key n rs
      → IsDistinct (sorted_set store key)
      → recent period now
          (sorted_set (add_all redis statuses now queue_id verdict (callbacks_of rs) store) key)
        ≤ recent period now (sorted_set store key) + n
  recent-add_all statuses now queue_id verdict key n period rs store h d =
      let (e, d') =
        add_all-Agrees statuses now queue_id verdict key n (callbacks_of rs) store
          (callbacks_of-IsUpTo key n rs h) d in
      let size = is_recent period now in
      let tallied =
        sorted_set (add_all redis statuses now queue_id verdict (callbacks_of rs) store) key in
      omega (
        arith,
        total-le size (is_recent-le period now) (members queue_id n) tallied d',
        ap (total size) e,
        total-without size (members queue_id n) (sorted_set store key) d,
        length-members queue_id n,
      )
