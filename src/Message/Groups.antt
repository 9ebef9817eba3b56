-- ===== src/Message/Groups.antt =====
-- core/message.go: module groups, which share one weight among modules that do the same work.
pub mod Start
pub mod Weights
use clue_getter.Prelude.{
  ℕ, zero, suc, ◌+◌, Bool, true, false, not, ◌&&◌, ◌||◌, Option, none, some, List, [], ◌∷◌, ◌++◌,
  if◌then◌else◌, length, eqb, any,
}
use clue_getter.Prelude.Text.{Text, text, ◌==◌, cut}
use clue_getter.Prelude.Float.{Float}
use clue_getter.Message.{Action, error, same_action, CheckResult}

pub record ModuleGroupMember (F : Type 0) : Type 0 where
  pub module_name : Text
  pub weight : F

pub record ModuleGroup (F : Type 0) : Type 0 where
  pub members : List (ModuleGroupMember F)
  pub name : Text
  pub total_weight : F

-- The modules that may stand in a group.
abbrev pub groupable : List Text
groupable = text "quotas" ∷ text "spamassassin" ∷ text "greylisting" ∷ text "rspamd" ∷ []

unfoldable pub is_groupable : Text → Bool
unfolding ◌==◌
is_groupable m = any (λ g. g == m) groupable

abbrev pub is_member : {F : Type 0} → Text → ModuleGroupMember F → Bool
is_member m member = m == member.module_name

abbrev pub in_group : {F : Type 0} → Text → ModuleGroup F → Bool
in_group m group = any (is_member m) group.members

-- The tests on a member by the name `m`: whether it is known, its weight if that is a number, and
-- whether it is taken.
pub join_group :
    {F : Type 0} → ModuleGroup F → Float F → Text → Bool → Option F → Bool → Option (ModuleGroup F)
join_group group fl m false weight taken = none
join_group group fl m true none taken = none
join_group group fl m true (some weight) true = none
join_group group fl m true (some weight) false = some (record group {
  total_weight = fl.add group.total_weight weight;
  members = group.members ++ (record { module_name = m; weight = weight }) ∷ [];
})

module _ {F : Type 0} (fl : Float F) where
  -- One "<weight> <module>" line of a group's configuration: none where the program ends with a
  -- fatal error. `groups` are the groups before, `group` is the one that is being read.
  pub add_member : List (ModuleGroup F) → ModuleGroup F → Text → Option (ModuleGroup F)
  unfolding cut is_groupable join_group
  add_member groups group line = elim (cut b' ' line) [
    | none ↦ none
    | some (weight, m) ↦
        join_group group fl m (is_groupable m) (fl.parse weight)
          (any (in_group m) groups || in_group m group)
  ]

  pub add_members : List (ModuleGroup F) → ModuleGroup F → List Text → Option (ModuleGroup F)
  unfolding add_member
  add_members groups group [] = some group
  add_members groups group (line ∷ lines) = elim (add_member groups group line) [
    | none ↦ none
    | some group' ↦ add_members groups group' lines
  ]

  -- `messageStartModuleGroups`, over the groups of the configuration with their lines.
  unfoldable pub message_start_module_groups :
      List (ModuleGroup F) → List (Text × List Text) → Option (List (ModuleGroup F))
  unfolding add_members
  message_start_module_groups groups [] = some groups
  message_start_module_groups groups ((name, []) ∷ configs) = none
  message_start_module_groups groups ((name, line ∷ lines) ∷ configs) =
      elim (add_members groups (record { members = []; name = name; total_weight = fl.zero })
        (line ∷ lines)) [
          | none ↦ none
          | some group ↦ message_start_module_groups (groups ++ group ∷ []) configs
        ]

  -- The first pass of `messageWeighResults` at one result and one member: the sum of the weights, and
  -- the number of errors.
  abbrev pub count_member : CheckResult F → ModuleGroupMember F → F × ℕ → F × ℕ
  count_member r member acc =
      if not (is_member r.module_name member)
      then acc
      else if same_action r.suggested_action error
      then (acc.0, acc.1 + 1)
      else (fl.add acc.0 member.weight, acc.1)

  pub count_result : CheckResult F → List (ModuleGroupMember F) → F × ℕ → F × ℕ
  count_result r [] acc = acc
  count_result r (member ∷ members) acc = count_result r members (count_member r member acc)

  pub count_results : List (CheckResult F) → List (ModuleGroupMember F) → F × ℕ → F × ℕ
  unfolding count_result
  count_results [] members acc = acc
  count_results (r ∷ rs) members acc = count_results rs members (count_result r members acc)

  -- The second pass.
  abbrev pub weigh_member : F → ModuleGroupMember F → CheckResult F → CheckResult F
  weigh_member multiply member r =
      if not (is_member r.module_name member) || same_action r.suggested_action error
      then r
      else record r { weighted_score = fl.mul (fl.mul r.weighted_score member.weight) multiply }

  pub weigh_result : F → List (ModuleGroupMember F) → CheckResult F → CheckResult F
  weigh_result multiply [] r = r
  weigh_result multiply (member ∷ members) r =
      weigh_result multiply members (weigh_member multiply member r)

  abbrev pub weigh_all :
      F → List (ModuleGroupMember F) → List (CheckResult F) → List (CheckResult F)
  weigh_all multiply members [] = []
  weigh_all multiply members (r ∷ rs) =
      weigh_result multiply members r ∷ weigh_all multiply members rs

  -- One group: the results weighed and how many of their errors are ignored.
  pub weigh_group : ModuleGroup F → List (CheckResult F) → List (CheckResult F) × ℕ
  unfolding count_results weigh_result
  weigh_group group results =
      let (total, errors) = count_results results group.members (fl.zero, 0) in
      if eqb errors (length group.members) then (results, 0) else (
        weigh_all (fl.mul fl.one (fl.div group.total_weight total)) group.members results,
        errors,
      )

  -- `messageWeighResults`
  unfoldable pub message_weigh_results :
      List (ModuleGroup F) → List (CheckResult F) → List (CheckResult F) × ℕ
  unfolding weigh_group
  message_weigh_results [] results = (results, 0)
  message_weigh_results (group ∷ groups) results =
      let (results', ignored) = weigh_group group results in
      let (results'', ignored') = message_weigh_results groups results' in
      (results'', ignored + ignored')
