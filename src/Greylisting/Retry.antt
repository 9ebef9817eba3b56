-- ===== src/Greylisting/Retry.antt =====
-- A delivery that is tried again.
use clue_getter.Prelude.{
  ℕ, ◌+◌, ◌*◌, ◌<◌, ◌≤◌, ◌≡◌, ◌≢◌, refl, ap, ◌∙◌, Bool, true, false, Option, none, some, [], ◌∷◌,
  ◌++◌, arith, ltb, Bool-cases, inl, inr, if◌then◌else◌,
}
use mathlib.Core.Path.{subst}
use clue_getter.Prelude.Text.{Text}
use clue_getter.Prelude.Float.{Float}
use clue_getter.Greylisting.{
  Redis, GreylistingConfig, Delivery, key_prefix, ip_key, message_key, ip_is_spf_whitelisted,
  permitted, deferred, verdict_for, get_verdict, update_whitelist, update_if_permitted,
  message_check,
}

cancel-prefix : (p s t : Text) → p ++ s ≡ p ++ t → s ≡ t
cancel-prefix [] s t e = e
cancel-prefix (c ∷ p) s t e = cancel-prefix p s t cc

abbrev first_byte : Text → ℕ
first_byte [] = 0
first_byte (c ∷ s) = c

m_ne : ◌≡◌ {A = ℕ} b'm' b'i' → ⊥
m_ne e = omega (arith, e)

keys_differ : (d : Delivery) → message_key d ≢ ip_key d
unfolding message_key ip_key
keys_differ d e = m_ne (ap first_byte (cancel-prefix (key_prefix d) _ _ e))

same_ip_key : (d e : Delivery) → d.ip ≡ e.ip → d.instance_id ≡ e.instance_id → ip_key d ≡ ip_key e
unfolding ip_key
same_ip_key d e same_ip same_instance = rw (same_ip, same_instance) refl

module _ {F S : Type 0} (fl : Float F) (redis : Redis S) (config : GreylistingConfig F)
    (get-put : (store : S) (now later : ℕ) (key : Text) (value ttl : ℕ)
      → now ≤ later
      → later < now + ttl
      → redis.get (redis.put store now key value ttl) later key ≡ some value)
    (holds-put : (store : S) (now later : ℕ) (key : Text) (value ttl : ℕ)
      → now ≤ later
      → later < now + ttl
      → redis.holds (redis.put store now key value ttl) later key ≡ true)
    (holds-put_other : (store : S) (now later : ℕ) (key other : Text) (value ttl : ℕ)
      → key ≢ other
      → redis.holds (redis.put store now key value ttl) later other
        ≡ redis.holds store later other) where
  unlisted :
      (query : Text → Option Bool) (store : S) (now : ℕ) (d : Delivery) (found : Option ℕ)
      → config.enabled ≡ true
      → ip_is_spf_whitelisted query config.whitelist_spf ≡ false
      → redis.holds store now (ip_key d) ≡ false
      → redis.get store now (message_key d) ≡ found
      → message_check fl redis config query store now d
        ≡ update_if_permitted fl redis config now d
            (verdict_for fl redis config store now (message_key d) found)
  unfolding message_check get_verdict
  unlisted query store now d found on spf unknown e = rw (on, spf, unknown, e) refl

  listed :
      (query : Text → Option Bool) (store : S) (now : ℕ) (d : Delivery)
      → config.enabled ≡ true
      → ip_is_spf_whitelisted query config.whitelist_spf ≡ false
      → redis.holds store now (ip_key d) ≡ true
      → (message_check fl redis config query store now d).1 ≡ some (permitted fl)
  unfolding message_check
  listed query store now d on spf known = rw (on, spf, known) refl

  -- Where redis keeps values until they expire and the module is enabled: a delivery that is new, from
  -- an address that is on no list, is deferred. Tried again less than 90 minutes after the first time it is permitted, and its
  -- address is listed, if the initial period has passed by then; else it is deferred again, and
  -- nothing changes, so the time does not start anew.
  pub retry_decided :
      (query : Text → Option Bool) (store : S) (d : Delivery) (first again : ℕ)
      → config.enabled ≡ true
      → ip_is_spf_whitelisted query config.whitelist_spf ≡ false
      → redis.holds store first (ip_key d) ≡ false
      → redis.holds store again (ip_key d) ≡ false
      → redis.get store first (message_key d) ≡ none
      → first ≤ again
      → again < first + 5400
      → ((message_check fl redis config query store first d).1 ≡ some (deferred fl config))
        × (message_check fl redis config query
              (message_check fl redis config query store first d).0
              again
              d
            ≡ (if ltb (first + config.initial_period * 60) again
                then (
                  update_whitelist fl redis config
                      (message_check fl redis config query store first d).0
                      again
                      d,
                  some (permitted fl),
                )
                else (
                  (message_check fl redis config query store first d).0,
                  some (deferred fl config),
                )))
  unfolding verdict_for
  retry_decided query store d first again on spf unknown unknown' new after before =
      let kept = get-put store first again (message_key d) first 5400 after before in
      let same_list =
        holds-put_other store first again (message_key d) (ip_key d) first 5400 (keys_differ d) in
      let tried = unlisted query store first d none on spf unknown new in
      let store' = redis.put store first (message_key d) first 5400 in
      let retried = unlisted query store' again d (some first) on spf (same_list ∙ unknown') kept in
      rw (tried, retried)
        (
          refl,
          elim (Bool-cases (ltb (first + config.initial_period * 60) again)) [
            | inl late ↦ rw late refl
            | inr early ↦ rw early refl
          ],
        )

  -- Where redis keeps values until they expire, the module is enabled and no SPF record lists the
  -- address: for 40 days after the address of a delivery was listed, each delivery to the same instance
  -- from the same address is permitted, whatever its sender and its recipients.
  pub update_whitelist_lem :
      (query : Text → Option Bool) (store : S) (d e : Delivery) (now later : ℕ)
      → config.enabled ≡ true
      → ip_is_spf_whitelisted query config.whitelist_spf ≡ false
      → d.ip ≡ e.ip
      → d.instance_id ≡ e.instance_id
      → now ≤ later
      → later < now + 3456000
      → (message_check fl redis config query
          (update_whitelist fl redis config store now d)
          later
          e).1
        ≡ some (permitted fl)
  unfolding update_whitelist
  update_whitelist_lem query store d e now later on spf same_ip same_instance after before =
      listed query (redis.put store now (ip_key d) now 3456000) later e on spf (
        subst (λ k. redis.holds (redis.put store now (ip_key d) now 3456000) later k ≡ true)
          (same_ip_key d e same_ip same_instance)
          (holds-put store now later (ip_key d) now 3456000 after before))
