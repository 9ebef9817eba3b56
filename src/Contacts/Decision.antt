-- ===== src/Contacts/Decision.antt =====
-- core/contacts.go: which list decides.
use clue_getter.Prelude.{
  ℕ, All-append, arith, ◌≢◌, ◌≡◌, refl, sym, ap, ◌∙◌, inl, inr, Bool, true, false, Option, none,
  some, List, [], ◌∷◌, ◌++◌, ◌||◌, Bool-cases, if◌then◌else◌,
}
use mathlib.Core.List.{append_assoc}
use clue_getter.Prelude.Go.{ok}
use clue_getter.Prelude.Text.{Text, text, show, to_lower, is_empty, ◌==◌}
use clue_getter.Prelude.Float.{Float}
use clue_getter.Prelude.Text.Cutting.{Lacks, Lacks-show, free_of}
use clue_getter.Dict.{mem}
use clue_getter.Address.{Address, to_string}
use clue_getter.Message.{CheckResult}
use clue_getter.Contacts.{
  Redis, ContactsConfig, script, contacts_appears_on_list, templates, list_keys, listed, unlisted,
  or_next, check_list, check_lists, with_rcpt, contacts_get_result,
}

else_of : {A : Type 0} {b : Bool} (x : A) {y : A} → b ≡ false → (if b then x else y) ≡ y
else_of x e = rw e refl

if_or : (a b : Bool) → (if a then true else if b then true else false) ≡ (a || b)
if_or true b = refl
if_or false true = refl
if_or false false = refl

-- The score of the first test that passes.
abbrev pub first_passing : {F : Type 0} → List (Bool × F) → Option F
first_passing [] = none
first_passing ((true, score) ∷ tests) = some score
first_passing ((false, score) ∷ tests) = first_passing tests

abbrev pub outcome : {F : Type 0} → Float F → Option F → CheckResult F
outcome fl none = unlisted fl
outcome fl (some score) = listed fl score

module _ {F S : Type 0} (fl : Float F) (redis : Redis S) (sprintf : Text → Text → Text → Text)
    (config : ContactsConfig F) (inst : ℕ)
    (load_answers : (store : S) → redis.answers (redis.load store) ≡ true)
    (load_keeps : (store : S) (key : Text)
      → redis.l_range (redis.load store) key ≡ redis.l_range store key) where
  -- Whether the code finds an entry on the lists of a kind of a recipient.
  abbrev is_found : S → Address → Text → Text → Text → Bool
  unfolding script to_lower list_keys templates
  is_found store rcpt list scope entry =
      script redis store (list_keys sprintf (templates inst rcpt) list scope) (to_lower entry)

  script-load :
      (store : S) (keys : List Text) (entry : Text)
      → script redis (redis.load store) keys entry ≡ script redis store keys entry
  unfolding script
  script-load store [] entry = refl
  script-load store (key ∷ keys) entry =
      rw (load_keeps store key, script-load store keys entry) refl

  -- The states that the script may be in during a check have the same lists.
  abbrev HasLists : S → S → Type 0
  HasLists store other =
      (keys : List Text) (entry : Text)
      → script redis other keys entry ≡ script redis store keys entry

  appears_lem :
      (store other : S) (keys : List Text) (entry : Text)
      → HasLists store other
      → ((contacts_appears_on_list redis other keys entry).1
          ≡ script redis store keys (to_lower entry))
        × HasLists store (contacts_appears_on_list redis other keys entry).0
  unfolding contacts_appears_on_list
  appears_lem store other keys entry h = elim (Bool-cases (redis.answers other)) [
    | inl ready ↦ rw ready (h keys (to_lower entry), h)
    | inr missing ↦
        rw (missing, load_answers other)
          (
            script-load other keys (to_lower entry) ∙ h keys (to_lower entry),
            λ ks e. script-load other ks e ∙ h ks e,
          )
  ]

  or_next_lem :
      (store : S) (score : F) (next : S → S × CheckResult F) (tests : List (Bool × F))
      (asked : S × Bool) (on : Bool)
      → (asked.1 ≡ on) × HasLists store asked.0
      → ((other : S) → HasLists store other → (next other).1 ≡ outcome fl (first_passing tests))
      → (or_next fl redis sprintf config inst score next asked).1
        ≡ outcome fl (first_passing ((on, score) ∷ tests))
  or_next_lem store score next tests (other, true) on (e, h) k = rw (sym e) refl
  or_next_lem store score next tests (other, false) on (e, h) k = rw (sym e) (k other h)

  -- The lists let pass, or give the score of the first test that passes.
  Decides : S → (S → S × CheckResult F) → List (Bool × F) → Type 0
  Decides store checks tests =
      (other : S) → HasLists store other → (checks other).1 ≡ outcome fl (first_passing tests)

  unlisted_lem : (store : S) → Decides store (λ other. (other, unlisted fl)) []
  unfolding Decides
  unlisted_lem store other h = refl

  check_list-Decides :
      (store : S) (rcpt : Address) (list scope entry : Text) (score : F)
      (next : S → S × CheckResult F) (tests : List (Bool × F))
      → Decides store next tests
      → Decides store
          (check_list fl redis sprintf config inst rcpt list scope entry score next)
          ((is_found store rcpt list scope entry, score) ∷ tests)
  unfolding Decides check_list is_found
  check_list-Decides store rcpt list scope entry score next tests k other h =
      let keys = list_keys sprintf (templates inst rcpt) list scope in
      or_next_lem store score next tests (contacts_appears_on_list redis other keys entry)
        (script redis store keys (to_lower entry)) (appears_lem store other keys entry h) k

  abbrev others : List (Bool × F) → List (Bool × F)
  others [] = []
  others (test ∷ tests) = tests

  -- The four tests for a sender and a recipient, by what finds an entry.
  abbrev pub tests_by : (Text → Text → Text → Bool) → Address → List (Bool × F)
  unfolding to_string
  tests_by is_there sender =
      (
        is_there (text "whitelist") (text "address") (to_string sender),
        config.whitelist_address_score,
      )
      ∷ ((
        is_there (text "blacklist") (text "address") (to_string sender),
        config.blacklist_address_score,
      )
          ∷ ((
            is_there (text "whitelist") (text "domain") sender.domain,
            config.whitelist_domain_score,
          )
              ∷ ((
                is_there (text "blacklist") (text "domain") sender.domain,
                config.blacklist_domain_score,
              )
                  ∷ [])))

  tests_cong :
      (p q : Text → Text → Text → Bool) (sender : Address)
      → p (text "whitelist") (text "address") (to_string sender)
        ≡ q (text "whitelist") (text "address") (to_string sender)
      → p (text "blacklist") (text "address") (to_string sender)
        ≡ q (text "blacklist") (text "address") (to_string sender)
      → p (text "whitelist") (text "domain") sender.domain
        ≡ q (text "whitelist") (text "domain") sender.domain
      → p (text "blacklist") (text "domain") sender.domain
        ≡ q (text "blacklist") (text "domain") sender.domain
      → tests_by p sender ≡ tests_by q sender
  unfolding tests_by
  tests_cong p q sender a b c d = rw (a, b, c, d) refl

  check_lists-Decides :
      (store : S) (sender first : Address)
      → Decides store
          (check_lists fl redis sprintf config inst sender first)
          (tests_by (is_found store first) sender)
  unfolding check_lists tests_by
  check_lists-Decides store sender first =
      let check : Text → Text → Text → F → (S → S × CheckResult F) → S → S × CheckResult F =
        check_list fl redis sprintf config inst first in
      let address = to_string sender in
      let last : S → S × CheckResult F = λ other. (other, unlisted fl) in
      let fourth =
        check (text "blacklist") (text "domain") sender.domain config.blacklist_domain_score last in
      let third =
        check (text "whitelist") (text "domain") sender.domain config.whitelist_domain_score
          fourth in
      let second =
        check (text "blacklist") (text "address") address config.blacklist_address_score third in
      let rest = tests_by (is_found store first) sender in
      check_list-Decides store first (text "whitelist") (text "address") address
        config.whitelist_address_score second (others rest)
        (check_list-Decides store first (text "blacklist") (text "address") address
          config.blacklist_address_score third (others (others rest))
          (check_list-Decides store first (text "whitelist") (text "domain") sender.domain
            config.whitelist_domain_score fourth (others (others (others rest)))
            (check_list-Decides store first (text "blacklist") (text "domain") sender.domain
              config.blacklist_domain_score last [] (unlisted_lem store))))

  -- The names of the lists of a kind and a scope, of a recipient's domain and of its address.
  abbrev pub domain_key : Text → Text → Address → Text
  domain_key list scope rcpt =
      text "cluegetter-"
      ++ (show inst
          ++ (text "-contacts-"
              ++ (list ++ (text "-" ++ (scope ++ (text "-rcpt-domain-" ++ rcpt.domain))))))

  abbrev pub address_key : Text → Text → Address → Text
  address_key list scope rcpt =
      text "cluegetter-"
      ++ (show inst
          ++ (text "-contacts-"
              ++ (list ++ (text "-" ++ (scope ++ (text "-rcpt-address-" ++ to_string rcpt))))))

  -- Whether an entry, in lower case, is on one of the two lists that redis has by these names.
  abbrev pub is_on : S → Address → Text → Text → Text → Bool
  unfolding to_lower
  is_on store rcpt list scope entry =
      mem (to_lower entry) (redis.l_range store (domain_key list scope rcpt))
      || mem (to_lower entry) (redis.l_range store (address_key list scope rcpt))

  module _
      (sprintf_lem : (before between after a b : Text)
        → Lacks b'%' before
        → Lacks b'%' between
        → Lacks b'%' after
        → sprintf (before ++ (text "%s" ++ (between ++ (text "%s" ++ after)))) a b
          ≡ before ++ (a ++ (between ++ (b ++ after)))) where
    key_lem :
        (list scope after : Text)
        → Lacks b'%' after
        → sprintf
            (text "cluegetter-" ++ (show inst ++ (text "-contacts-%s-%s" ++ after)))
            list
            scope
          ≡ text "cluegetter-"
            ++ (show inst ++ (text "-contacts-" ++ (list ++ (text "-" ++ (scope ++ after)))))
    key_lem list scope after h =
        let end : Lacks b'%' (show inst ++ text "-contacts-") =
          All-append (λ d. d ≢ b'%') (show inst) (text "-contacts-")
            (Lacks-show b'%' inst (omega arith)) (free_of b'%' (text "-contacts-") refl) in
        let start : Text = text "cluegetter-" ++ (show inst ++ text "-contacts-") in
        let regroup : (rest : Text)
            → start ++ rest ≡ text "cluegetter-" ++ (show inst ++ (text "-contacts-" ++ rest)) =
          λ rest.
            ap (λ s. text "cluegetter-" ++ s) (append_assoc (show inst) (text "-contacts-") rest) in
        ap (λ s. sprintf s list scope) (sym (regroup (text "%s-%s" ++ after)))
        ∙ sprintf_lem start (text "-") after list scope
            (All-append (λ d. d ≢ b'%') (text "cluegetter-") _
              (free_of b'%' (text "cluegetter-") refl) end)
            (free_of b'%' (text "-") refl) h
        ∙ regroup (list ++ (text "-" ++ (scope ++ after)))

    is_found-is_on :
        (store : S) (rcpt : Address) (list scope entry : Text)
        → Lacks b'%' rcpt.domain
        → Lacks b'%' (to_string rcpt)
        → is_found store rcpt list scope entry
          ≡ is_on store rcpt (to_lower list) (to_lower scope) entry
    unfolding is_found is_on
    is_found-is_on store rcpt list scope entry h k =
        let of_domain =
          key_lem (to_lower list) (to_lower scope) (text "-rcpt-domain-" ++ rcpt.domain) (
            All-append (λ d. d ≢ b'%') (text "-rcpt-domain-") rcpt.domain
              (free_of b'%' (text "-rcpt-domain-") refl) h) in
        let of_address =
          key_lem (to_lower list) (to_lower scope) (text "-rcpt-address-" ++ to_string rcpt) (
            All-append (λ d. d ≢ b'%') (text "-rcpt-address-") (to_string rcpt)
              (free_of b'%' (text "-rcpt-address-") refl) k) in
        rw (of_domain, of_address) (if_or _ _)

    -- Where redis answers once the script is loaded, loading it changes no list, and fmt.Sprintf puts two
    -- texts at the two places of a format: whether the script was loaded before or not, a message from a
    -- domain to another address at a domain, an address without a "%", gets the score of the first of
    -- four tests that passes, and is let pass by the module if none does. The tests are, in lower case:
    -- the sender is on a whitelist of addresses, or on a blacklist; its domain is on a whitelist of
    -- domains, or on a blacklist. Each asks two lists by name: the one of the first recipient's domain
    -- and the one of its address.
    pub contacts_get_result_lem :
        (sender first : Address) (rcpt : List Address) (store : S)
        → is_empty sender.domain ≡ false
        → is_empty first.domain ≡ false
        → (to_string sender == to_string first) ≡ false
        → Lacks b'%' first.domain
        → Lacks b'%' (to_string first)
        → (store' : S) × (contacts_get_result fl redis sprintf config inst true sender
              (first ∷ rcpt)
              store
            ≡ ok (store', some (outcome fl (first_passing (tests_by (is_on store first) sender)))))
    unfolding contacts_get_result with_rcpt Decides to_lower
    contacts_get_result_lem sender first rcpt store has_domain has_domain' apart h k =
        let out = check_lists fl redis sprintf config inst sender first store in
        let decided = check_lists-Decides store sender first store (λ keys entry. refl) in
        let at : (list scope entry : Text)
            → is_found store first list scope entry
              ≡ is_on store first (to_lower list) (to_lower scope) entry =
          λ list scope entry. is_found-is_on store first list scope entry h k in
        let named : tests_by (is_found store first) sender ≡ tests_by (is_on store first) sender =
          tests_cong (is_found store first) (is_on store first) sender
            (at (text "whitelist") (text "address") (to_string sender))
            (at (text "blacklist") (text "address") (to_string sender))
            (at (text "whitelist") (text "domain") sender.domain)
            (at (text "blacklist") (text "domain") sender.domain) in
        (
          out.0,
          else_of _ has_domain
              ∙ (else_of _ has_domain'
                  ∙ (else_of _ apart
                      ∙ ap (λ r. ok (out.0, some r))
                          (decided ∙ ap (λ tests. outcome fl (first_passing tests)) named))),
        )
