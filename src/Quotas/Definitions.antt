-- ===== src/Quotas/Definitions.antt =====
-- quotas/quotas.go: the definitions of quotas, as redis has them.
use clue_getter.Prelude.{
  ℕ, ◌*◌, Bool, true, false, ◌&&◌, Option, none, some, List, [], ◌∷◌, ◌++◌, if◌then◌else◌,
}
use clue_getter.Prelude.Go.{Go, ok, panic}
use clue_getter.Prelude.Int.{ℤ, show_int}
use clue_getter.Prelude.Text.{Text, text, show, ◌==◌}
use clue_getter.Dict.{Dict, lookup, insert}
use clue_getter.Quotas.{Redis, Regex, QuotasModule}

-- The selector and the value of a quota in a key.
unfoldable pub quota_key : Text → Text → Text
quota_key selector value = selector ++ b'_' ∷ value

unfoldable pub definitions_key : ℕ → Text → Text
definitions_key inst key =
    text "{cluegetter-" ++ (show inst ++ (text "-quotas-" ++ (key ++ text "}-definitions")))

-- "%d_%d" of a period and a curb
unfoldable pub definition_text : ℤ → ℤ → Text
unfolding show_int
definition_text period curb = show_int period ++ b'_' ∷ show_int curb

-- One more value for a key of `groupedQuotas`.
abbrev append_at : Text → Text → Option (List Text) → Dict (List Text) → Dict (List Text)
append_at key value none grouped = insert key (value ∷ []) grouped
append_at key value (some values) grouped = insert key (values ++ value ∷ []) grouped

unfoldable pub group_quota : Text → Text → Dict (List Text) → Dict (List Text)
unfolding lookup insert
group_quota key value grouped = append_at key value (lookup key grouped) grouped

-- The loop of `quotasRedisInsertRegexesForSelector`.
unfoldable pub group_regexes : Text → Text → List Regex → Dict (List Text) → Dict (List Text) × Bool
unfolding ◌==◌ group_quota definition_text quota_key
group_regexes selector value [] grouped = (grouped, false)
group_regexes selector value (r ∷ rs) grouped =
    let skipped = group_regexes selector value rs grouped in
    let taken =
      group_regexes selector value rs
        (group_quota (quota_key selector value) (definition_text r.period r.curb) grouped) in
    if (r.selector == selector) && r.matches value then (taken.0, true) else skipped

-- A row of the query for quotas: the selector, the value, the period and the curb.
pub record QuotaRow : Type 0 where
  pub selector : Text
  pub factor_value : Text
  pub period : ℤ
  pub curb : ℤ

unfoldable pub group_rows : List QuotaRow → Dict (List Text) → Dict (List Text)
unfolding group_quota definition_text quota_key
group_rows [] grouped = grouped
group_rows (r ∷ rs) grouped =
    group_rows rs
      (group_quota (quota_key r.selector r.factor_value) (definition_text r.period r.curb) grouped)

-- `quotasRegexesLoad`, with the compiler of regular expressions as a parameter, none for its error,
-- and the rows of the query, none for its error.
unfoldable pub regexes_from : (Text → Option (Text → Bool)) → List QuotaRow → List Regex
regexes_from compile [] = []
regexes_from compile (r ∷ rs) =
    let rest = regexes_from compile rs in
    elim (compile r.factor_value) [
      | none ↦ rest
      | some matches ↦
          record { selector = r.selector; matches = matches; period = r.period; curb = r.curb }
          ∷ rest
    ]

unfoldable pub regexes_load :
    (Text → Option (Text → Bool)) → Option (List QuotaRow) → QuotasModule → Go QuotasModule
unfolding regexes_from
regexes_load compile none m = panic
regexes_load compile (some rows) m = ok (record m { regexes = regexes_from compile rows })

module _ {S : Type 0} (redis : Redis S) where
  -- `insertQuotaDefinitions`
  unfoldable pub insert_quota_definitions : ℕ → Text → List Text → S → S
  unfolding definitions_key
  insert_quota_definitions inst key values store =
      let k = definitions_key inst key in
      redis.expire (redis.l_push (redis.del store k) k values) k (24 * 3600)

  unfoldable pub insert_all : ℕ → Dict (List Text) → S → S
  unfolding insert_quota_definitions
  insert_all inst [] store = store
  insert_all inst ((key, values) ∷ grouped) store =
      insert_all inst grouped (insert_quota_definitions inst key values store)

  -- `quotasRedisInsertRegexesForSelector`
  unfoldable pub insert_regexes_for_selector : QuotasModule → Text → Text → S → S × Bool
  unfolding group_regexes insert_all
  insert_regexes_for_selector m selector value store =
      let (grouped, inserted) = group_regexes selector value m.regexes [] in
      (insert_all m.instance_id grouped store, inserted)

  abbrev update_if : QuotasModule → Option Bool → Option (List QuotaRow) → S → Go S
  update_if m (some false) rows store = ok store
  update_if m _ none store = panic
  update_if m _ (some rows) store = ok (insert_all m.instance_id (group_rows rows []) store)

  -- `quotasRedisUpdateFromRdbms`, with the rows of the query, none for its error. An error of redis
  -- is only reported.
  unfoldable pub update_from_rdbms : QuotasModule → Text → Option (List QuotaRow) → S → Go S
  unfolding insert_all group_rows
  update_from_rdbms m hostname rows store =
      let (store', set) =
        redis.set_nx store
          (text "cluegetter-"
            ++ (show m.instance_id ++ text "-quotas-schedule-quotasRedisUpdateFromRdbms"))
          hostname (5 * 60) in
      update_if m set rows store'
