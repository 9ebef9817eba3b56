-- ===== src/Message/Verdict/Gathering.antt =====
-- Which results the loop over the channel takes in.
use clue_getter.Prelude.{
  suc, ◌≡◌, refl, ap, ◌⊎◌, inl, inr, Bool, true, false, List, [], ◌∷◌, map, arith, length, take,
}
use clue_getter.Prelude.Float.{Float}
use clue_getter.Message.{Action, error, same_action, CheckResult}
use clue_getter.Message.Groups.Weights.{count_errors}
use clue_getter.Message.Verdict.{Gathered, arrive, add_score, take_in, gather}

module _ {F : Type 0} (fl : Float F) (breaker : F) where
  -- The loop ends by its `break`: the last result of the list is no error, and brings its action's
  -- score to the breaker score.
  abbrev pub Breaks : (Action → F) → List (CheckResult F) → Type 0
  Breaks scores [] = ⊥
  Breaks scores (r ∷ []) =
      (same_action r.suggested_action error ≡ false)
      × (fl.le breaker (add_score fl scores r.suggested_action r.score r.suggested_action) ≡ true)
  Breaks scores (r ∷ (q ∷ rs)) = Breaks (add_score fl scores r.suggested_action r.score) (q ∷ rs)

  Breaks-cons :
      (scores : Action → F) (r : CheckResult F) (rs : List (CheckResult F))
      → Breaks (add_score fl scores r.suggested_action r.score) rs
      → Breaks scores (r ∷ rs)
  Breaks-cons scores r [] h = absurd h
  Breaks-cons scores r (q ∷ rs) h = h

  -- What is taken in is a first part of the results, in their order; the error count is that of the
  -- errors in it; and either all results are taken in, or the last one breaks.
  abbrev pub IsGathered : (Action → F) → List (CheckResult F) → Gathered F → Type 0
  IsGathered scores results g =
      (g.flat ≡ map (arrive fl) (take (length g.flat) results))
      × (g.error_count ≡ count_errors g.flat)
      × ((length g.flat ≡ length results) ⊎ Breaks scores g.flat)

  take_in-IsGathered :
      (scores : Action → F) (r : CheckResult F) (rs : List (CheckResult F)) (bad breaks : Bool)
      (rest : Gathered F)
      → same_action (arrive fl r).suggested_action error ≡ bad
      → fl.le breaker (
          add_score fl scores (arrive fl r).suggested_action r.score (arrive fl r).suggested_action)
        ≡ breaks
      → IsGathered (add_score fl scores (arrive fl r).suggested_action r.score) rs rest
      → IsGathered scores (r ∷ rs) (take_in fl bad breaks (arrive fl r) rest)
  unfolding take_in
  take_in-IsGathered scores r rs true breaks rest e e' (prefix, errors, end) = (
    ap (λ t. arrive fl r ∷ t) prefix,
    rw e (omega (arith, errors)),
    elim end [
      | inl all_of ↦ inl (ap suc all_of)
      | inr broken ↦ inr (Breaks-cons scores (arrive fl r) rest.flat broken)
    ],
  )
  take_in-IsGathered scores r rs false true rest e e' h = (refl, rw e (omega arith), inr (e, e'))
  take_in-IsGathered scores r rs false false rest e e' (prefix, errors, end) = (
    ap (λ t. arrive fl r ∷ t) prefix,
    rw e (omega (arith, errors)),
    elim end [
      | inl all_of ↦ inl (ap suc all_of)
      | inr broken ↦ inr (Breaks-cons scores (arrive fl r) rest.flat broken)
    ],
  )

  gather_from :
      (scores : Action → F) (results : List (CheckResult F))
      → IsGathered scores results (gather fl breaker scores results)
  unfolding gather
  gather_from scores [] = (refl, refl, inl refl)
  gather_from scores (r ∷ rs) =
      take_in-IsGathered scores r rs _ _ _ refl refl
        (gather_from (add_score fl scores (arrive fl r).suggested_action r.score) rs)

  -- The loop takes in a first part of the results, in their order, each with its score as its weight
  -- and as a permit if it has no score; it counts the errors in that part; and it leaves results
  -- out only behind one, no error, that brings the sum of its action's scores to the breaker score.
  pub gather-IsGathered :
      (results : List (CheckResult F))
      → IsGathered (λ a. fl.zero) results (gather fl breaker (λ a. fl.zero) results)
  gather-IsGathered results = gather_from (λ a. fl.zero) results
