-- ===== src/Daemon/Lists.antt =====
-- core/redis.go: lists in redis as queues.
use clue_getter.Prelude.{
  ℕ, zero, suc, ◌<◌, ◌≡◌, refl, ◌∙◌, sym, ap, List, [], ◌∷◌, ◌++◌, arith, length,
}
use clue_getter.Prelude.Text.{Text}
use mathlib.Core.List.{append_assoc, append-nil}

-- What RPop answers: redis.Nil, another error, or an item.
pub data Popped : Type 0 where
  nil failed : Popped
  item : Text → Popped

pub record Redis (S : Type 0) : Type 0 where
  pub l_push : S → Text → Text → S
  pub r_pop : S → Text → S × Popped

-- What a pop of a queue answers, and what it leaves.
abbrev pub answer_for : List Text → Popped
answer_for [] = nil
answer_for (value ∷ more) = item value

abbrev pub others : List Text → List Text
others [] = []
others (value ∷ more) = more

module _ {S : Type 0} (redis : Redis S) (list : Text) where
  -- `redisLPush`, for the items of `redisListSubscriptionQueueHandler` in the order in which their
  -- goroutines reach redis.
  unfoldable pub push_all : List Text → S → S
  push_all [] store = store
  push_all (value ∷ more) store = push_all more (redis.l_push store list value)

  -- The inner loop of `redisListSubscriptionPoller` at a tick: what is sent to the output. The
  -- database answers its pings.
  abbrev poll_on : (S → S × List Text) → S × Popped → S × List Text
  poll_on again (store, nil) = (store, [])
  poll_on again (store, failed) = (store, [])
  poll_on again (store, item value) = let (store', more) = again store in (store', value ∷ more)

  -- The rounds of the loop are bounded by a number.
  unfoldable pub poll : ℕ → S → S × List Text
  poll zero store = (store, [])
  poll (suc rounds) store = poll_on (poll rounds) (redis.r_pop store list)

  nothing_popped :
      (again : S → S × List Text) (popped : S × Popped)
      → popped.1 ≡ nil
      → poll_on again popped ≡ (popped.0, [])
  nothing_popped again (store, answer) e = rw e refl

  item_popped :
      (again : S → S × List Text) (popped : S × Popped) (value : Text)
      → popped.1 ≡ item value
      → poll_on again popped ≡ ((again popped.0).0, value ∷ (again popped.0).1)
  item_popped again (store, answer) value e = rw e refl

  module _ (queue : S → List Text)
      (r_pop_answers : (store : S) → (redis.r_pop store list).1 ≡ answer_for (queue store))
      (r_pop_takes : (store : S) → queue (redis.r_pop store list).0 ≡ others (queue store))
      (l_push_adds : (store : S) (value : Text)
        → queue (redis.l_push store list value) ≡ queue store ++ value ∷ []) where
    poll_queue :
        (rounds : ℕ) (store : S) (items : List Text)
        → queue store ≡ items
        → length items < rounds
        → ((poll rounds store).1 ≡ items) × (queue (poll rounds store).0 ≡ [])
    unfolding poll
    poll_queue zero store items e h = absurd (omega (arith, h))
    poll_queue (suc rounds) store [] e h =
        let ended =
          nothing_popped (poll rounds) (redis.r_pop store list)
            (r_pop_answers store ∙ ap answer_for e) in
        rw ended (refl, rw (r_pop_takes store, e) refl)
    poll_queue (suc rounds) store (value ∷ more) e h =
        let next = (redis.r_pop store list).0 in
        let popped =
          item_popped (poll rounds) (redis.r_pop store list) value
            (r_pop_answers store ∙ ap answer_for e) in
        let (sent, left) =
          poll_queue rounds next more (r_pop_takes store ∙ ap others e) (omega (arith, h)) in
        rw (popped, sent) (refl, left)

    queue-push_all :
        (values : List Text) (store : S) → queue (push_all values store) ≡ queue store ++ values
    unfolding push_all
    queue-push_all [] store = sym (append-nil (queue store))
    queue-push_all (value ∷ more) store =
        queue-push_all more (redis.l_push store list value)
        ∙ rw (l_push_adds store value) (append_assoc (queue store) (value ∷ []) more)

    -- Where a list of redis is a queue, and no call fails: the loop of a tick ends. It sends the items
    -- that waited and those that were pushed, each once, in the order in which they came to redis, and
    -- leaves none, once it may run one round more than there are items.
    pub poll-push_all :
        (rounds : ℕ) (values : List Text) (store : S)
        → length (queue store ++ values) < rounds
        → ((poll rounds (push_all values store)).1 ≡ queue store ++ values)
          × (queue (poll rounds (push_all values store)).0 ≡ [])
    poll-push_all rounds values store h =
        poll_queue rounds (push_all values store) (queue store ++ values)
          (queue-push_all values store) h
