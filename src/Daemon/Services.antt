-- ===== src/Daemon/Services.antt =====
-- core/redis.go: the list of the running services, in sets of redis for each minute.
use clue_getter.Prelude.{
  ℕ, ◌+◌, ◌-◌, ◌%◌, ◌<◌, ◌≤◌, ◌≡◌, refl, sym, Among, true, ◌⊎◌, inl, inr, Option, none, some, List,
  [], ◌∷◌, ◌++◌, arith, Bool-cases,
}
use clue_getter.Prelude.Text.{Text, text, show, ◌==◌, eq_iff}
use clue_getter.Dict.{mem}
use clue_getter.Daemon.Rpc.{Service}
use mathlib.Core.Path.{subst}

-- What the list uses of redis, at a time in seconds.
pub record Redis (S : Type 0) : Type 0 where
  pub h_set : S → ℕ → Text → Text → Text → S
  pub s_add : S → ℕ → Text → Text → S
  pub expire : S → ℕ → Text → ℕ → S
  pub s_members : S → ℕ → Text → List Text

-- The start of a minute, from its first second on.
abbrev pub minute_of : ℕ → ℕ
minute_of now = now - now % 60

next_minute :
    (now later : ℕ)
    → now ≤ later
    → later < now + 60
    → (minute_of later ≡ minute_of now) ⊎ (minute_of later ≡ minute_of now + 60)
next_minute now later h k = omega (arith, h, k)

unfoldable pub own_key : ℕ → ℕ → Text
own_key inst minute = text "cluegetter-" ++ (show inst ++ (text "-service-" ++ show minute))

unfoldable pub service_key : ℕ → Text
service_key minute = text "cluegetter-service-" ++ show minute

-- Writing and reading a service as JSON, none for an error.
pub record Json : Type 0 where
  pub marshal : Service → Text
  pub unmarshal : Text → Option Service

module _ {S : Type 0} (redis : Redis S) (json : Json) where
  -- The body of the loop of `redisUpdateRunningList`, for a minute.
  unfoldable pub list_at : S → ℕ → Service → ℕ → S
  unfolding own_key service_key
  list_at store now self minute =
      let value = json.marshal self in
      let own =
        redis.expire (redis.h_set store now (own_key self.instance_id minute) self.hostname value)
          now (own_key self.instance_id minute) 120 in
      redis.expire (redis.s_add own now (service_key minute) value) now (service_key minute) 120

  -- `redisUpdateRunningList`
  unfoldable pub redis_update_running_list : S → ℕ → Service → S
  unfolding list_at
  redis_update_running_list store now self =
      list_at (list_at (list_at store now self (minute_of now - 60)) now self (minute_of now)) now
        self (minute_of now + 60)

  abbrev parsed_before : Option Service → List Service → List Service
  parsed_before none more = more
  parsed_before (some service) more = service ∷ more

  unfoldable pub parse_services : List Text → List Service
  parse_services [] = []
  parse_services (value ∷ values) = parsed_before (json.unmarshal value) (parse_services values)

  -- `redisGetServices`
  unfoldable pub redis_get_services : S → ℕ → List Service
  unfolding service_key parse_services
  redis_get_services store now =
      parse_services (redis.s_members store now (service_key (minute_of now)))

  Among-parsed_before :
      (self : Service) (services : List Service) (parsed : Option Service)
      → Among self services
      → Among self (parsed_before parsed services)
  Among-parsed_before self services none h = h
  Among-parsed_before self services (some service) h = inr h

  parse_services-Among :
      (self : Service) (values : List Text)
      → json.unmarshal (json.marshal self) ≡ some self
      → mem (json.marshal self) values ≡ true
      → Among self (parse_services values)
  unfolding parse_services
  parse_services-Among self [] e h = absurd cc
  parse_services-Among self (value ∷ values) e h = elim (Bool-cases (value == json.marshal self)) [
    | inl same ↦ rw ((eq_iff value (json.marshal self)).0 same, e) (inl refl)
    | inr other ↦
        Among-parsed_before self (parse_services values) (json.unmarshal value)
          (parse_services-Among self values e (rw other at h))
  ]

  module _
      (s_add_expire : (store : S) (now later ttl : ℕ) (key member : Text)
        → now ≤ later
        → later < now + ttl
        → mem member (
            redis.s_members (redis.expire (redis.s_add store now key member) now key ttl) later key)
          ≡ true)
      (s_add_keeps : (store : S) (now later : ℕ) (key member other added : Text)
        → now ≤ later
        → mem member (redis.s_members store later key) ≡ true
        → mem member (redis.s_members (redis.s_add store now other added) later key) ≡ true)
      (h_set_keeps : (store : S) (now later : ℕ) (key member other field value : Text)
        → mem member (redis.s_members store later key) ≡ true
        → mem member (redis.s_members (redis.h_set store now other field value) later key) ≡ true)
      (expire_keeps : (store : S) (now later ttl : ℕ) (key member other : Text)
        → now ≤ later
        → later < now + ttl
        → mem member (redis.s_members store later key) ≡ true
        → mem member (redis.s_members (redis.expire store now other ttl) later key) ≡ true) where
    IsListed : S → ℕ → ℕ → Service → Type 0
    IsListed store later minute self =
        mem (json.marshal self) (redis.s_members store later (service_key minute)) ≡ true

    IsListed-list_at :
        (store : S) (now later minute : ℕ) (self : Service)
        → now ≤ later
        → later < now + 120
        → IsListed (list_at store now self minute) later minute self
    unfolding IsListed list_at
    IsListed-list_at store now later minute self h k = s_add_expire _ now later 120 _ _ h k

    still_there :
        (store : S) (now later minute other : ℕ) (self : Service)
        → now ≤ later
        → later < now + 120
        → IsListed store later minute self
        → IsListed (list_at store now self other) later minute self
    unfolding IsListed list_at
    still_there store now later minute other self h k l = expire_keeps _ now later 120 _ _ _ h k (
        s_add_keeps _ now later _ _ _ _ h
          (expire_keeps _ now later 120 _ _ _ h k (h_set_keeps _ now later _ _ _ _ _ l)))

    -- Where redis keeps a set until it expires, and the JSON of the service can be read back: after the
    -- service has listed itself, it is among the services at each time within the next minute.
    pub running_service_listed :
        (store : S) (now later : ℕ) (self : Service)
        → json.unmarshal (json.marshal self) ≡ some self
        → now ≤ later
        → later < now + 60
        → Among self (redis_get_services (redis_update_running_list store now self) later)
    unfolding redis_get_services redis_update_running_list IsListed
    running_service_listed store now later self e h k =
        parse_services-Among self _ e (elim (next_minute now later h k) [
          | inl same ↦
              subst (λ m. IsListed (redis_update_running_list store now self) later m self)
                (sym same)
                (still_there _ now later (minute_of now) (minute_of now + 60) self h
                  (omega (arith, k))
                  (IsListed-list_at _ now later (minute_of now) self h (omega (arith, k))))
          | inr next ↦
              subst (λ m. IsListed (redis_update_running_list store now self) later m self)
                (sym next)
                (IsListed-list_at _ now later (minute_of now + 60) self h (omega (arith, k)))
        ])
