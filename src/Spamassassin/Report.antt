-- ===== src/Spamassassin/Report.antt =====
-- spamassassin/report.go: the text that a report gives for a verdict.
use clue_getter.Prelude.{
  ◌≡◌, refl, sym, ap, ◌∙◌, ◌⊎◌, inl, inr, true, false, some, List, [], ◌∷◌, All, Among, Bool-cases,
  Option-cases,
}
use mathlib.Core.Path.{subst}
use clue_getter.Prelude.Text.{Text}
use clue_getter.Prelude.Float.{Float}
use clue_getter.Dict.{Dict, lookup}
use clue_getter.Spamassassin.{ReportFact, default_message, verdict_from, verdict_message}

module _ {F : Type 0} (fl : Float F) (msgs : Dict Text)
    (lt_asym : (a b : F) → fl.lt a b ≡ true → fl.lt b a ≡ false)
    (lt_connects : (a b c : F) → fl.lt a b ≡ false → fl.lt b c ≡ false → fl.lt a c ≡ false) where
  -- No fact with a text scores above a score.
  abbrev pub IsTop : F → List (ReportFact F) → Type 0
  IsTop score = All (λ (fact : ReportFact F).
      (msg : Text) → lookup fact.symbol msgs ≡ some msg → fl.lt score fact.score ≡ false)

  -- The fact is in the report, scores above a score, and has the text.
  abbrev pub IsChosen : F → Text → List (ReportFact F) → ReportFact F → Type 0
  IsChosen score msg facts fact =
      Among fact facts × (lookup fact.symbol msgs ≡ some msg) × (fl.lt score fact.score ≡ true)

  lt_irrefl : (a : F) → fl.lt a a ≡ false
  lt_irrefl a = elim (Bool-cases (fl.lt a a)) [
    | inl less ↦ lt_asym a a less
    | inr not_less ↦ not_less
  ]

  lt_trans : (a b c : F) → fl.lt a b ≡ true → fl.lt b c ≡ true → fl.lt a c ≡ true
  lt_trans a b c h k = elim (Bool-cases (fl.lt a c)) [
    | inl less ↦ less
    | inr not_less ↦ cc (h, lt_connects a c b not_less (lt_asym b c k))
  ]

  -- What the loop comes to: the top score, and where its text comes from.
  record Chooses (best : F × Text) (facts : List (ReportFact F)) (out : F × Text) : Type 0 where
    top : IsTop out.0 facts
    not_less : fl.lt out.0 best.0 ≡ false
    chosen :
        (out ≡ best)
        ⊎ ((fact : ReportFact F) × (fact.score ≡ out.0) × IsChosen best.0 out.1 facts fact)

  Chooses-skip :
      (best : F × Text) (fact : ReportFact F) (facts : List (ReportFact F)) (out : F × Text)
      → ((msg : Text) → lookup fact.symbol msgs ≡ some msg → fl.lt out.0 fact.score ≡ false)
      → Chooses best facts out
      → Chooses best (fact ∷ facts) out
  Chooses-skip best fact facts out below h = record {
    top = (below, h.top);
    not_less = h.not_less;
    chosen = elim h.chosen [
      | inl same ↦ inl same
      | inr (f, e, (among, found, more)) ↦ inr (f, e, (inr among, found, more))
    ];
  }

  Chooses-take :
      (best : F × Text) (fact : ReportFact F) (facts : List (ReportFact F)) (msg : Text)
      (out : F × Text)
      → lookup fact.symbol msgs ≡ some msg
      → fl.lt best.0 fact.score ≡ true
      → Chooses (fact.score, msg) facts out
      → Chooses best (fact ∷ facts) out
  Chooses-take best fact facts msg out found less h = record {
    top = (λ other e. h.not_less, h.top);
    not_less = lt_connects out.0 fact.score best.0 h.not_less (lt_asym best.0 fact.score less);
    chosen = elim h.chosen [
      | inl same ↦
          inr (
            fact,
            sym (ap (λ o. o.0) same),
            (inl refl, found ∙ ap (λ o. some o.1) (sym same), less),
          )
      | inr (f, e, (among, known, more)) ↦
          inr (f, e, (inr among, known, lt_trans best.0 fact.score f.score less more))
    ];
  }

  verdict_from-Chooses :
      (facts : List (ReportFact F)) (best : F × Text)
      → Chooses best facts (verdict_from fl msgs facts best)
  unfolding verdict_from
  verdict_from-Chooses [] best = record { top = tt; not_less = lt_irrefl best.0; chosen = inl refl }
  verdict_from-Chooses (fact ∷ facts) best = elim (Option-cases (lookup fact.symbol msgs)) [
    | inl missing ↦ rw missing (
        Chooses-skip best fact facts (verdict_from fl msgs facts best)
          (λ msg e. absurd (cc (missing, e))) (verdict_from-Chooses facts best))
    | inr (msg, found) ↦ elim (Bool-cases (fl.lt best.0 fact.score)) [
      | inl less ↦
          rw (found, less)
            (Chooses-take best fact facts msg (verdict_from fl msgs facts (fact.score, msg)) found
              less (verdict_from-Chooses facts (fact.score, msg)))
      | inr not_less ↦
          let h = verdict_from-Chooses facts best in
          let out = verdict_from fl msgs facts best in
          rw (found, not_less)
            (Chooses-skip best fact facts out
              (λ m e. lt_connects out.0 best.0 fact.score h.not_less not_less) h)
    ]
  ]

  -- Where scores are ordered: the text for a verdict is that of a fact that scores above zero and has a
  -- text, such that no fact with a text scores more; and it is the text for all other messages if no
  -- fact with a text scores above zero.
  pub verdict_message_lem :
      (facts : List (ReportFact F))
      → ((verdict_message fl msgs facts ≡ default_message) × IsTop fl.zero facts)
        ⊎ ((fact : ReportFact F) × IsChosen fl.zero (verdict_message fl msgs facts) facts fact
            × IsTop fact.score facts)
  unfolding verdict_message
  verdict_message_lem facts =
      let h = verdict_from-Chooses facts (fl.zero, default_message) in
      elim h.chosen [
        | inl same ↦
            inl (ap (λ o. o.1) same, subst (λ score. IsTop score facts) (ap (λ o. o.0) same) h.top)
        | inr (fact, e, chosen) ↦
            inr (fact, chosen, subst (λ score. IsTop score facts) (sym e) h.top)
      ]
