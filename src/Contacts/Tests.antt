-- ===== src/Contacts/Tests.antt =====
-- Tests of the contacts, with lists in a map for redis, and the theorem at a concrete input.
use clue_getter.Prelude.{
  ℕ, ap, ◌∙◌, ◌≡◌, refl, Bool, true, false, Option, none, some, List, [], ◌∷◌, ◌++◌,
}
use clue_getter.Prelude.Go.{ok, panic}
use clue_getter.Prelude.Text.{Text, text, show, cut, to_lower, ◌==◌}
use clue_getter.Prelude.Float.{whole}
use clue_getter.Prelude.Text.Cutting.{Lacks, cut-append, free_of}
use clue_getter.Dict.{Dict, lookup}
use clue_getter.Address.{Address, from_string, to_string}
use clue_getter.Contacts.{
  Redis, ContactsConfig, script, contacts_appears_on_list, templates, list_keys, check_lists,
  listed, unlisted, contacts_get_result,
}
use clue_getter.Contacts.Decision.{outcome, first_passing, tests_by, is_on, contacts_get_result_lem}

-- The lists, and whether the script is loaded.
record Stored : Type 0 where
  lists : Dict (List Text)
  loaded : Bool

abbrev or_empty : Option (List Text) → List Text
or_empty none = []
or_empty (some entries) = entries

abbrev memory : Redis Stored
memory = record {
  l_range = λ s key. or_empty (lookup key s.lists);
  answers = λ s. s.loaded;
  load = λ s. record s { loaded = true };
}

abbrev after_first : Text → Text
after_first [] = []
after_first (c ∷ s) = s

-- What stands before the next "%s", the value for it, and what follows.
put_in : (Text → Text) → Text → Text → Text
unfolding cut
put_in rest value tpl = elim (cut b'%' tpl) [
  | none ↦ tpl
  | some (before, after) ↦ before ++ (value ++ rest (after_first after))
]

-- A format with two places and no other "%".
sprintf : Text → Text → Text → Text
unfolding put_in
sprintf tpl a b = put_in (put_in (λ s. s) b) a tpl

config : ContactsConfig ℕ
unfolding sprintf put_in script contacts_appears_on_list templates list_keys check_lists
    contacts_get_result lookup cut show to_lower ◌==◌ from_string to_string
config = record {
  whitelist_address_score = 1;
  whitelist_domain_score = 2;
  blacklist_address_score = 7;
  blacklist_domain_score = 9;
}

abbrev store : Stored
store = record {
  lists =
      (text "cluegetter-1-contacts-blacklist-address-rcpt-domain-b.org", text "ann@a.org" ∷ [])
      ∷ ((text "cluegetter-1-contacts-whitelist-domain-rcpt-address-bob@b.org", text "a.org" ∷ [])
          ∷ []);
  loaded = false;
}

abbrev ann : Address
unfolding config
ann = from_string (text "Ann@a.org")

abbrev bob : Address
unfolding config
bob = from_string (text "bob@b.org")

contacts_test :
    (contacts_get_result whole memory sprintf config 1 true ann (bob ∷ []) store
      ≡ ok (record store { loaded = true }, some (listed whole 7)))
    × (contacts_get_result whole memory sprintf config 1 true ann [] store ≡ panic)
    × (contacts_get_result whole memory sprintf config 1 true ann (ann ∷ []) store
        ≡ ok (store, some (unlisted whole)))
unfolding config
contacts_test = (refl, refl, refl)

put_in_lem :
    (rest : Text → Text) (value before after : Text)
    → Lacks b'%' before
    → put_in rest value (before ++ (text "%s" ++ after)) ≡ before ++ (value ++ rest after)
unfolding put_in
put_in_lem rest value before after h = rw (put_in, cut-append b'%' before (b's' ∷ after) h) refl

sprintf_lem :
    (before between after a b : Text)
    → Lacks b'%' before
    → Lacks b'%' between
    → Lacks b'%' after
    → sprintf (before ++ (text "%s" ++ (between ++ (text "%s" ++ after)))) a b
      ≡ before ++ (a ++ (between ++ (b ++ after)))
unfolding sprintf
sprintf_lem before between after a b h k l =
    put_in_lem (put_in (λ s. s) b) a before (between ++ (text "%s" ++ after)) h
    ∙ ap (λ s. before ++ (a ++ s)) (put_in_lem (λ s. s) b between after k)

contacts_get_result_lem_example :
    (store' : Stored) × (contacts_get_result whole memory sprintf config 1 true ann (bob ∷ []) store
      ≡ ok (
        store',
        some (
            outcome whole (
              first_passing (
                tests_by whole memory sprintf config 1
                  (λ s. refl)
                  (λ s key. refl)
                  (is_on whole memory sprintf config 1 (λ s. refl) (λ s key. refl) store bob)
                  ann))),
      ))
unfolding config
contacts_get_result_lem_example =
    contacts_get_result_lem whole memory sprintf config 1 (λ s. refl) (λ s key. refl) sprintf_lem
      ann bob [] store refl refl refl (free_of b'%' (text "b.org") refl)
      (free_of b'%' (text "bob@b.org") refl)
