-- ===== src/Message/Groups/Start.antt =====
-- Which configurations of module groups the program starts with.
use clue_getter.Prelude.{
  ℕ, ◌+◌, ◌≤◌, ◌<◌, ◌≡◌, refl, sym, ap, Bool, true, false, ◌||◌, inl, inr, Option, none, some, List,
  [], ◌∷◌, ◌++◌, arith, if◌then◌else◌, length, any, Option-cases, Bool-cases, length-append, All,
  All-append,
}
use clue_getter.Prelude.Text.{Text, ◌==◌, eq_iff, cut}
use clue_getter.Prelude.Float.{Float}
use clue_getter.Message.Groups.{
  ModuleGroupMember, ModuleGroup, is_groupable, is_member, in_group, join_group, add_member,
  add_members, message_start_module_groups,
}

some_eq : {A : Type 0} {a b : A} → ◌≡◌ {A = Option A} (some a) (some b) → a ≡ b
some_eq e = cc

module _ {F : Type 0} where
  -- How often a module is a member of one group, and of all.
  abbrev pub occurrences : Text → List (ModuleGroupMember F) → ℕ
  occurrences m [] = 0
  occurrences m (member ∷ members) = (if is_member m member then 1 else 0) + occurrences m members

  abbrev pub memberships : Text → List (ModuleGroup F) → ℕ
  memberships m [] = 0
  memberships m (group ∷ groups) = occurrences m group.members + memberships m groups

  occurrences-append :
      (m : Text) (xs ys : List (ModuleGroupMember F))
      → occurrences m (xs ++ ys) ≡ occurrences m xs + occurrences m ys
  occurrences-append m [] ys = omega arith
  occurrences-append m (x ∷ xs) ys = omega (arith, occurrences-append m xs ys)

  memberships-append :
      (m : Text) (xs ys : List (ModuleGroup F))
      → memberships m (xs ++ ys) ≡ memberships m xs + memberships m ys
  memberships-append m [] ys = omega arith
  memberships-append m (x ∷ xs) ys = omega (arith, memberships-append m xs ys)

  pub occurrences_none :
      (m : Text) (members : List (ModuleGroupMember F))
      → any (is_member m) members ≡ false
      → occurrences m members ≡ 0
  occurrences_none m [] h = refl
  occurrences_none m (member ∷ members) h = ground (arith, occurrences_none m members)

  memberships_none :
      (m : Text) (groups : List (ModuleGroup F))
      → any (in_group m) groups ≡ false
      → memberships m groups ≡ 0
  memberships_none m [] h = refl
  memberships_none m (group ∷ groups) h =
      ground (arith, memberships_none m groups, occurrences_none m group.members)

  -- No module is a member twice, every member may be one, and no group is empty.
  pub record IsExclusive (groups : List (ModuleGroup F)) : Type 0 where
    pub once : (m : Text) → memberships m groups ≤ 1
    pub known : (m : Text) → 0 < memberships m groups → is_groupable m ≡ true
    pub filled : All (λ (g : ModuleGroup F). 0 < length g.members) groups

-- The same while a group is being read.
record IsOpen {F : Type 0} (groups : List (ModuleGroup F)) (group : ModuleGroup F) : Type 0 where
  once : (m : Text) → memberships m groups + occurrences m group.members ≤ 1
  known :
      (m : Text) → 0 < memberships m groups + occurrences m group.members → is_groupable m ≡ true

occurrences_one :
    {F : Type 0} (n m : Text) (w : F)
    → occurrences n ((record { module_name = m; weight = w }) ∷ []) ≡ (if n == m then 1 else 0)
occurrences_one n m w = ground (arith, eq_iff n m)

module _ {F : Type 0} (fl : Float F) where
  join_group-some :
      (group : ModuleGroup F) (m : Text) (known : Bool) (weight : Option F) (taken : Bool)
      (group' : ModuleGroup F)
      → join_group group fl m known weight taken ≡ some group'
      → (known ≡ true)
        × (taken ≡ false)
        × ((w : F) × (group'.members
              ≡ group.members ++ (record { module_name = m; weight = w }) ∷ []))
  unfolding join_group
  join_group-some group m false weight taken group' e = cc
  join_group-some group m true none taken group' e = cc
  join_group-some group m true (some w) true group' e = cc
  join_group-some group m true (some w) false group' e = (
    refl,
    refl,
    (w, ap (λ (o : Option (ModuleGroup F)). elim o [ none ↦ [] | some g ↦ g.members ]) (sym e)),
  )

  joined-IsOpen :
      (groups : List (ModuleGroup F)) (group group' : ModuleGroup F) (m : Text) (w : F)
      → IsOpen groups group
      → is_groupable m ≡ true
      → memberships m groups + occurrences m group.members ≡ 0
      → group'.members ≡ group.members ++ (record { module_name = m; weight = w }) ∷ []
      → IsOpen groups group'
  joined-IsOpen groups group group' m w h known fresh same = record {
    once = λ n. rw same (
        rw (occurrences-append n group.members _, occurrences_one n m w)
          (elim (Bool-cases (n == m)) [
            | inl hit ↦ rw (hit, (eq_iff n m).0 hit) (omega (arith, fresh))
            | inr other ↦ rw other (omega (arith, h.once n))
          ]));
    known = λ n. rw same (
        rw (occurrences-append n group.members _, occurrences_one n m w)
          (elim (Bool-cases (n == m)) [
            | inl hit ↦ rw (hit, (eq_iff n m).0 hit) (λ _. known)
            | inr other ↦ rw other (λ some_times. h.known n (omega (arith, some_times)))
          ]));
  }

  add_member-IsOpen :
      (groups : List (ModuleGroup F)) (group group' : ModuleGroup F) (line : Text)
      → IsOpen groups group
      → add_member fl groups group line ≡ some group'
      → IsOpen groups group' × (length group.members < length group'.members)
  unfolding add_member
  add_member-IsOpen groups group group' line h e = elim (Option-cases (cut b' ' line)) [
    | inl missing ↦ absurd (cc (rw (missing, add_member) at e))
    | inr (p, found) ↦
        let (known, free, (w, same)) =
          join_group-some group p.1 (is_groupable p.1) (fl.parse p.0)
            (any (in_group p.1) groups || in_group p.1 group) group'
            (rw (found, add_member) at e) in
        (
          joined-IsOpen groups group group' p.1 w h known
              (ground (arith, memberships_none p.1 groups, occurrences_none p.1 group.members))
              same,
          rw (same, length-append group.members ((record { module_name = p.1; weight = w }) ∷ []))
              (omega arith),
        )
  ]

  add_members-IsOpen :
      (groups : List (ModuleGroup F)) (group group' : ModuleGroup F) (lines : List Text)
      → IsOpen groups group
      → add_members fl groups group lines ≡ some group'
      → IsOpen groups group' × (length group.members + length lines ≤ length group'.members)
  unfolding add_members
  add_members-IsOpen groups group group' [] h e = rw (← some_eq e) (h, omega arith)
  add_members-IsOpen groups group group' (line ∷ lines) h e =
      elim (Option-cases (add_member fl groups group line)) [
        | inl failed ↦ absurd (cc (rw (failed, add_members) at e))
        | inr (next, added) ↦
            let (open', more) = add_member-IsOpen groups group next line h added in
            let (done, all_lines) =
              add_members-IsOpen groups next group' lines open' (rw (added, add_members) at e) in
            (done, omega arith)
      ]

  start-IsExclusive :
      (groups : List (ModuleGroup F)) (configs : List (Text × List Text))
      (groups' : List (ModuleGroup F))
      → IsExclusive groups
      → message_start_module_groups fl groups configs ≡ some groups'
      → IsExclusive groups'
  unfolding message_start_module_groups
  start-IsExclusive groups [] groups' h e = rw (← some_eq e) h
  start-IsExclusive groups ((name, []) ∷ configs) groups' h e = absurd (cc e)
  start-IsExclusive groups ((name, line ∷ lines) ∷ configs) groups' h e =
      let empty : ModuleGroup F = record { members = []; name = name; total_weight = fl.zero } in
      elim (Option-cases (add_members fl groups empty (line ∷ lines))) [
        | inl failed ↦ absurd (cc (rw (failed, message_start_module_groups) at e))
        | inr (group, added) ↦
            let (done, size) =
              add_members-IsOpen groups empty group (line ∷ lines)
                (record {
                  once = λ m. omega (arith, h.once m);
                  known = λ m p. h.known m (omega (arith, p));
                })
                added in
            start-IsExclusive (groups ++ group ∷ []) configs groups'
              (record {
                once = λ m. rw memberships-append (omega (arith, done.once m));
                known = λ m. rw memberships-append (λ p. done.known m (omega (arith, p)));
                filled =
                    All-append (λ (g : ModuleGroup F). 0 < length g.members) groups (group ∷ [])
                      h.filled (omega arith, tt);
              })
              (rw (added, message_start_module_groups) at e)
      ]

  -- Where the program starts, no module is a member of the groups twice, only the four modules that
  -- may be members are, and no group is empty.
  pub message_start_module_groups-IsExclusive :
      (configs : List (Text × List Text)) (groups : List (ModuleGroup F))
      → message_start_module_groups fl [] configs ≡ some groups
      → IsExclusive groups
  message_start_module_groups-IsExclusive configs groups =
      start-IsExclusive [] configs groups
        (record { once = λ m. omega arith; known = λ m p. absurd (omega arith); filled = tt })
