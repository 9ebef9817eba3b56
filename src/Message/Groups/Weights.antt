-- ===== src/Message/Groups/Weights.antt =====
-- Which errors the module groups excuse when a message's results are weighed.
use clue_getter.Prelude.{
  ℕ, ◌+◌, ◌≤◌, ◌<◌, ◌≡◌, refl, sym, ◌∙◌, Bool, true, not, ◌&&◌, inl, inr, List, [], ◌∷◌, arith,
  if◌then◌else◌, length, any, eqb, Bool-cases,
}
use clue_getter.Prelude.Text.{Text}
use clue_getter.Prelude.Float.{Float}
use clue_getter.Message.{error, same_action, CheckResult}
use clue_getter.Message.Groups.{
  ModuleGroupMember, ModuleGroup, is_member, in_group, count_member, count_result, count_results,
  weigh_member, weigh_result, weigh_all, weigh_group, message_weigh_results,
}
use clue_getter.Message.Groups.Start.{occurrences, memberships, occurrences_none, IsExclusive}

abbrev pub is_error : {F : Type 0} → CheckResult F → Bool
is_error r = same_action r.suggested_action error

-- The sum of `f` over the results that are errors.
abbrev pub sum_errors : {F : Type 0} → (CheckResult F → ℕ) → List (CheckResult F) → ℕ
sum_errors f [] = 0
sum_errors f (r ∷ rs) = (if is_error r then f r else 0) + sum_errors f rs

-- How many results are errors, and how many of them are a group's.
abbrev pub count_errors : {F : Type 0} → List (CheckResult F) → ℕ
count_errors = sum_errors (λ r. 1)

abbrev pub group_errors : {F : Type 0} → ModuleGroup F → List (CheckResult F) → ℕ
group_errors group = sum_errors (λ r. occurrences r.module_name group.members)

-- As many errors as members: then no member of the group has done its work.
abbrev pub has_failed : {F : Type 0} → List (CheckResult F) → ModuleGroup F → Bool
has_failed results group = eqb (group_errors group results) (length group.members)

-- The result's module is a member of a group that has not failed.
abbrev pub is_excused :
    {F : Type 0} → (ModuleGroup F → Bool) → List (ModuleGroup F) → CheckResult F → Bool
is_excused failed groups r = any (λ g. in_group r.module_name g && not (failed g)) groups

module _ {F : Type 0} where
  count_result_errors :
      (fl : Float F) (r : CheckResult F) (members : List (ModuleGroupMember F)) (acc : F × ℕ)
      → (count_result fl r members acc).1
        ≡ acc.1 + (if is_error r then occurrences r.module_name members else 0)
  unfolding count_result
  count_result_errors fl r [] acc = ground arith
  count_result_errors fl r (member ∷ members) acc =
      count_result_errors fl r members (count_member fl r member acc) ∙ ground arith

  count_results_errors :
      (fl : Float F) (rs : List (CheckResult F)) (members : List (ModuleGroupMember F))
      (acc : F × ℕ)
      → (count_results fl rs members acc).1
        ≡ acc.1 + sum_errors (λ r. occurrences r.module_name members) rs
  unfolding count_results
  count_results_errors fl [] members acc = omega arith
  count_results_errors fl (r ∷ rs) members acc =
      count_results_errors fl rs members (count_result fl r members acc)
      ∙ omega (arith, count_result_errors fl r members acc)

  -- Weighing leaves a result's module and its action.
  weigh_result_same :
      (fl : Float F) (multiply : F) (members : List (ModuleGroupMember F)) (r : CheckResult F)
      → ((weigh_result fl multiply members r).module_name ≡ r.module_name)
        × ((weigh_result fl multiply members r).suggested_action ≡ r.suggested_action)
  unfolding weigh_result
  weigh_result_same fl multiply [] r = (refl, refl)
  weigh_result_same fl multiply (member ∷ members) r =
      let (same, same') =
        weigh_result_same fl multiply members (weigh_member fl multiply member r) in
      (same ∙ ground arith, same' ∙ ground arith)

  sum_errors-weigh_all :
      (fl : Float F) (multiply : F) (members : List (ModuleGroupMember F)) (f : Text → ℕ)
      (rs : List (CheckResult F))
      → sum_errors (λ r. f r.module_name) (weigh_all fl multiply members rs)
        ≡ sum_errors (λ r. f r.module_name) rs
  sum_errors-weigh_all fl multiply members f [] = refl
  sum_errors-weigh_all fl multiply members f (r ∷ rs) =
      let (same, same') = weigh_result_same fl multiply members r in
      rw (same, same', sum_errors-weigh_all fl multiply members f rs)

  sum_errors-weigh_group :
      (fl : Float F) (group : ModuleGroup F) (f : Text → ℕ) (rs : List (CheckResult F))
      → sum_errors (λ r. f r.module_name) (weigh_group fl group rs).0
        ≡ sum_errors (λ r. f r.module_name) rs
  unfolding weigh_group
  sum_errors-weigh_group fl group f rs =
      elim (Bool-cases
        (eqb (count_results fl rs group.members (fl.zero, 0)).1 (length group.members))) [
          | inl failed ↦ rw failed
          | inr partly ↦ rw partly (sum_errors-weigh_all fl _ group.members f rs)
        ]

  -- The errors that a group ignores.
  abbrev ignored_of : (ModuleGroup F → Bool) → ModuleGroup F → List (CheckResult F) → ℕ
  ignored_of failed group rs = if failed group then 0 else group_errors group rs

  weigh_group_ignored :
      (fl : Float F) (group : ModuleGroup F) (rs : List (CheckResult F))
      → (weigh_group fl group rs).1 ≡ ignored_of (has_failed rs) group rs
  unfolding weigh_group
  weigh_group_ignored fl group rs =
      rw (count_results_errors fl rs group.members (fl.zero, 0)) (ground arith)

  abbrev total_ignored : (ModuleGroup F → Bool) → List (ModuleGroup F) → List (CheckResult F) → ℕ
  total_ignored failed [] rs = 0
  total_ignored failed (group ∷ groups) rs =
      ignored_of failed group rs + total_ignored failed groups rs

  -- The weighing of one group changes no count of errors that a later group makes.
  message_weigh_results_ignored :
      (fl : Float F) (groups : List (ModuleGroup F)) (rs rs' : List (CheckResult F))
      → ((f : Text → ℕ)
          → sum_errors (λ r. f r.module_name) rs' ≡ sum_errors (λ r. f r.module_name) rs)
      → (message_weigh_results fl groups rs').1 ≡ total_ignored (has_failed rs) groups rs
  unfolding message_weigh_results
  message_weigh_results_ignored fl [] rs rs' h = refl
  message_weigh_results_ignored fl (group ∷ groups) rs rs' h =
      rw (weigh_group_ignored fl group rs') (
        rw (h (λ m. occurrences m group.members)) (
          rw (
            message_weigh_results_ignored fl groups rs (weigh_group fl group rs').0
              (λ f. sum_errors-weigh_group fl group f rs' ∙ h f))))

  -- How often the groups that have not failed ignore an error of the result's module.
  abbrev times_excused : (ModuleGroup F → Bool) → List (ModuleGroup F) → CheckResult F → ℕ
  times_excused failed [] r = 0
  times_excused failed (group ∷ groups) r =
      (if failed group then 0 else occurrences r.module_name group.members)
      + times_excused failed groups r

  sum_errors-add :
      (f g : CheckResult F → ℕ) (rs : List (CheckResult F))
      → sum_errors (λ r. f r + g r) rs ≡ sum_errors f rs + sum_errors g rs
  sum_errors-add f g [] = omega arith
  sum_errors-add f g (r ∷ rs) = ground (arith, sum_errors-add f g rs)

  sum_errors-zero : (rs : List (CheckResult F)) → sum_errors (λ r. 0) rs ≡ 0
  sum_errors-zero [] = refl
  sum_errors-zero (r ∷ rs) = ground (arith, sum_errors-zero rs)

  ignored_of_swap :
      (failed : ModuleGroup F → Bool) (group : ModuleGroup F) (rs : List (CheckResult F))
      → ignored_of failed group rs
        ≡ sum_errors (λ r. if failed group then 0 else occurrences r.module_name group.members) rs
  ignored_of_swap failed group rs = elim (Bool-cases (failed group)) [
    | inl bad ↦ rw bad (sym (sum_errors-zero rs))
    | inr good ↦ rw good
  ]

  total_ignored_swap :
      (failed : ModuleGroup F → Bool) (groups : List (ModuleGroup F)) (rs : List (CheckResult F))
      → total_ignored failed groups rs ≡ sum_errors (times_excused failed groups) rs
  total_ignored_swap failed [] rs = sym (sum_errors-zero rs)
  total_ignored_swap failed (group ∷ groups) rs =
      rw (ignored_of_swap failed group rs, total_ignored_swap failed groups rs)
        (sym (
          sum_errors-add (λ r. if failed group then 0 else occurrences r.module_name group.members)
            (times_excused failed groups) rs))

  occurrences_some :
      (m : Text) (members : List (ModuleGroupMember F))
      → any (is_member m) members ≡ true
      → 0 < occurrences m members
  occurrences_some m [] h = absurd (cc)
  occurrences_some m (member ∷ members) h = ground (arith, occurrences_some m members)

  times_excused-le :
      (failed : ModuleGroup F → Bool) (groups : List (ModuleGroup F)) (r : CheckResult F)
      → times_excused failed groups r ≤ memberships r.module_name groups
  times_excused-le failed [] r = omega arith
  times_excused-le failed (group ∷ groups) r = ground (arith, times_excused-le failed groups r)

  times_excused_once :
      (failed : ModuleGroup F → Bool) (groups : List (ModuleGroup F)) (r : CheckResult F)
      → memberships r.module_name groups ≤ 1
      → times_excused failed groups r ≡ (if is_excused failed groups r then 1 else 0)
  times_excused_once failed [] r h = refl
  times_excused_once failed (group ∷ groups) r h = ground (
    arith,
    times_excused_once failed groups r (omega (arith, h)),
    times_excused-le failed groups r,
    occurrences_some r.module_name group.members,
    occurrences_none r.module_name group.members,
  )

  sum_errors_once :
      (failed : ModuleGroup F → Bool) (groups : List (ModuleGroup F)) (rs : List (CheckResult F))
      → ((m : Text) → memberships m groups ≤ 1)
      → sum_errors (times_excused failed groups) rs
          + sum_errors (λ r. if is_excused failed groups r then 0 else 1) rs
        ≡ count_errors rs
  sum_errors_once failed groups [] h = omega arith
  sum_errors_once failed groups (r ∷ rs) h =
      rw (times_excused_once failed groups r (h r.module_name))
        (ground (arith, sum_errors_once failed groups rs h))

  -- Where no module is a member twice, what is left of the error count after weighing is the number
  -- of errors whose module is in no group, or in one of which as many results are errors as it has
  -- members.
  pub message_weigh_results_errors :
      (fl : Float F) (groups : List (ModuleGroup F)) (rs : List (CheckResult F))
      → IsExclusive groups
      → (message_weigh_results fl groups rs).1
          + sum_errors (λ r. if is_excused (has_failed rs) groups r then 0 else 1) rs
        ≡ count_errors rs
  message_weigh_results_errors fl groups rs h =
      rw
        (
          message_weigh_results_ignored fl groups rs rs (λ f. refl),
          total_ignored_swap (has_failed rs) groups rs,
        )
        (sum_errors_once (has_failed rs) groups rs h.once)
