-- ===== src/Web/Selected.antt =====
-- Which instances a page shows as selected.
use clue_getter.Prelude.{
  ◌≡◌, refl, ap, ◌∙◌, inl, inr, Bool, true, false, ◌||◌, List, [], ◌∷◌, any, map, Bool-cases,
}
use clue_getter.Prelude.Text.{Text, ◌==◌}
use clue_getter.Web.{Instance, select, select_id, select_ids, set_selected_instances}

-- The instances with a test of their ids in place of what was selected.
abbrev pub selected_if : (Text → Bool) → Instance → Instance
selected_if p i = record i { selected = i.selected || p i.id }

abbrev is_asked : List Text → Text → Bool
is_asked ids id = any (λ asked. id == asked) ids

or_assoc : (a b c : Bool) → ((a || b) || c) ≡ (a || (b || c))
or_assoc true b c = refl
or_assoc false b c = refl

or_true : (a : Bool) → true ≡ (a || true)
or_true true = refl
or_true false = refl

or_false : (a : Bool) → a ≡ (a || false)
or_false true = refl
or_false false = refl

selected_as : Instance → Bool → Instance
selected_as i b = record i { selected = b }

selected_twice :
    (p q : Text → Bool) (instances : List Instance)
    → map (selected_if q) (map (selected_if p) instances)
      ≡ map (selected_if (λ id. p id || q id)) instances
unfolding selected_as
selected_twice p q [] = refl
selected_twice p q (i ∷ instances) =
    λ k. selected_as i (or_assoc i.selected (p i.id) (q i.id) k) ∷ selected_twice p q instances k

select_id_lem :
    (id : Text) (instances : List Instance)
    → select_id id instances ≡ map (selected_if (λ other. other == id)) instances
unfolding select_id selected_as
select_id_lem id [] = refl
select_id_lem id (i ∷ instances) = elim (Bool-cases (i.id == id)) [
  | inl hit ↦ rw hit (λ k. selected_as i (or_true i.selected k) ∷ select_id_lem id instances k)
  | inr miss ↦ rw miss (λ k. selected_as i (or_false i.selected k) ∷ select_id_lem id instances k)
]

nothing_asked : (instances : List Instance) → instances ≡ map (selected_if (λ id. false)) instances
unfolding selected_as
nothing_asked [] = refl
nothing_asked (i ∷ instances) =
    λ k. selected_as i (or_false i.selected k) ∷ nothing_asked instances k

select_ids_lem :
    (ids : List Text) (instances : List Instance)
    → select_ids ids instances ≡ map (selected_if (is_asked ids)) instances
unfolding select_ids
select_ids_lem [] instances = nothing_asked instances
select_ids_lem (id ∷ ids) instances =
    select_ids_lem ids (select_id id instances)
    ∙ ap (map (selected_if (is_asked ids))) (select_id_lem id instances)
    ∙ selected_twice (λ other. other == id) (is_asked ids) instances

all_asked :
    (instances : List Instance) → map select instances ≡ map (selected_if (λ id. true)) instances
unfolding selected_as
all_asked [] = refl
all_asked (i ∷ instances) = λ k. selected_as i (or_true i.selected k) ∷ all_asked instances k

-- Whether an id is among those that were asked for, or none were.
abbrev pub is_wanted_id : List Text → Text → Bool
is_wanted_id [] id = true
is_wanted_id (asked ∷ ids) id = is_asked (asked ∷ ids) id

-- The instances that a page shows as selected are those that were before, and those that the request
-- asks for: all of them where it asks for none, in whatever order and however often it names them.
-- Nothing else of an instance changes.
pub set_selected_instances_lem :
    (instances : List Instance) (ids : List Text)
    → set_selected_instances instances ids ≡ map (selected_if (is_wanted_id ids)) instances
unfolding set_selected_instances
set_selected_instances_lem instances [] = all_asked instances
set_selected_instances_lem instances (id ∷ ids) = select_ids_lem (id ∷ ids) instances
