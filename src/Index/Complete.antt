-- ===== src/Index/Complete.antt =====
-- The loop over the pages: it ends, and each session is handed on once.
use clue_getter.Prelude.{
  ℕ, zero, suc, ◌+◌, ◌<◌, ◌≤◌, ◌≡◌, ◌≢◌, refl, sym, ◌∙◌, ap, true, false, some, List, [], ◌∷◌, ◌++◌,
  length, drop, eqb, take, keep, All, All-append, arith, inl, inr, ◌⊎◌,
}
use mathlib.Core.Path.{subst}
use mathlib.Core.List.{append_assoc}
use clue_getter.Prelude.Go.{ok}
use clue_getter.Index.{StoredSession, Page, fetch_sessions, fetch_rest, index_sessions}
use clue_getter.Index.Pages.{
  concat, concat-append, Descending, page_of, is_from, last_of, Sent, IsIn, read_rows-Sent,
  is_below, All-take, All-keep, All-map, Descending-keep, Descending-take, keep_whole, keep-keep,
  All-below, last_of-lt, keep-last_of, length-drop, take-drop,
}

List-cases : {A : Type 0} (xs : List A) → (xs ≡ []) ⊎ ((x : A) × (rest : List A) × (xs ≡ x ∷ rest))
List-cases [] = inl refl
List-cases (x ∷ xs) = inr (x, xs, refl)

module _ (not_before not_after : ℕ) (table : List StoredSession)
    (inside : All (IsIn not_before not_after) table) (desc : Descending table) where
  abbrev rest_below : ℕ → List StoredSession
  rest_below x = keep (is_below x) table

  next_rest :
      (y : ℕ) (s : StoredSession) (sessions : List StoredSession)
      → rest_below y ≡ s ∷ sessions
      → rest_below (last_of 0 (take 512 (s ∷ sessions))) ≡ drop 512 (s ∷ sessions)
  next_rest y s sessions e =
      let (lt, below) = subst (All (λ t. t.id < y)) e (All-below y table) in
      let sorted = subst Descending e (Descending-keep (is_below y) table desc) in
      let x = last_of 0 (take 512 (s ∷ sessions)) in
      let x_lt = last_of-lt y s.id (take 511 sessions) lt (All-take _ 511 sessions below) in
      sym (keep-keep x y table (omega (arith, x_lt)))
      ∙ ap (keep (is_below x)) e
      ∙ keep-last_of 511 0 s sessions sorted

  fetch_page :
      (y : ℕ)
      → (next : Page) × (fetch_sessions not_before not_after (page_of table) y false ≡ ok next)
        × Sent next
            (take 512 (rest_below y))
            (last_of 0 (take 512 (rest_below y)))
            (length (take 512 (rest_below y)))
  unfolding fetch_sessions
  fetch_page y =
      let (next, e, (c, l, n, b)) =
        read_rows-Sent not_before not_after [] [] (take 512 (rest_below y)) 0 0
          (All-take _ 512 (rest_below y) (All-keep _ (is_below y) table inside))
          (Descending-take 512 (rest_below y) (Descending-keep (is_below y) table desc)) tt
          (omega arith) tt in
      (next, e, (c, l, omega (arith, n), b))

  fetch_rest-ended :
      (fuel : ℕ) (page : Page)
      → page.count ≡ 0
      → 1 ≤ fuel
      → fetch_rest not_before not_after (page_of table) fuel page ≡ ok (some page.batches)
  unfolding fetch_rest
  fetch_rest-ended zero page e h = absurd (omega (arith, h))
  fetch_rest-ended (suc fuel) page e h =
      let ended : eqb page.count 0 ≡ true = ground (arith, e) in rw ended refl

  fetch_rest_complete :
      (fuel : ℕ) (page : Page)
      → page.count ≢ 0
      → length (rest_below page.last_id) + 2 ≤ fuel
      → All (λ b. length b ≤ 65) page.batches
      → (batches : List (List StoredSession)) × (fetch_rest not_before not_after
            (page_of table)
            fuel
            page
          ≡ ok (some batches))
        × (concat batches ≡ concat page.batches ++ rest_below page.last_id)
        × All (λ b. length b ≤ 65) batches
  unfolding fetch_rest
  fetch_rest_complete zero page some_read enough small = absurd (omega (arith, enough))
  fetch_rest_complete (suc fuel) page some_read enough small =
      let y = page.last_id in
      let (next, e, (c, l, n, b)) = fetch_page y in
      let going : eqb page.count 0 ≡ false = ground (arith, some_read) in
      let both = All-append _ page.batches next.batches small b in
      elim (List-cases (rest_below y)) [
        | inl none_left ↦
            let ended : next.count ≡ 0 = n ∙ ap (λ l. length (take 512 l)) none_left in
            let done =
              fetch_rest-ended fuel (record next { batches = page.batches ++ next.batches }) ended
                (omega (arith, enough)) in
            rw (going, e)
              (
                page.batches ++ next.batches,
                done,
                concat-append page.batches next.batches
                    ∙ ap (λ l. concat page.batches ++ l)
                        (c ∙ ap (take 512) none_left ∙ sym none_left),
                both,
              )
        | inr (s, sessions, left) ↦
            let rest = next_rest y s sessions left in
            let last = l ∙ ap (λ l. last_of 0 (take 512 l)) left in
            let left_after = ap rest_below last ∙ rest in
            let shorter = length-drop 511 sessions in
            let (batches, read, all_read, all_small) =
              fetch_rest_complete fuel (record next { batches = page.batches ++ next.batches })
                (ground (arith, n, ap (λ l. length (take 512 l)) left))
                (omega (arith, enough, shorter, ap length left_after, ap length left)) both in
            rw (going, e)
              (
                batches,
                read,
                all_read
                    ∙ rw
                        (
                          concat-append page.batches next.batches,
                          c,
                          left_after,
                          left,
                          append_assoc (concat page.batches) (take 512 (s ∷ sessions))
                              (drop 511 sessions),
                        )
                        (ap (λ l. concat page.batches ++ l) (take-drop 512 (s ∷ sessions))),
                all_small,
              )
      ]

  -- Where the query gives the next 512 sessions at most, newest first, from the given one on, and all
  -- sessions are in the period: the loop ends, once it may run two rounds more than there are
  -- sessions, and hands on each session once, newest first, in batches of at most 65.
  pub index_sessions_complete :
      (fuel start : ℕ)
      → All (λ s. s.id ≤ start) table
      → length table + 2 ≤ fuel
      → (batches : List (List StoredSession)) × (index_sessions not_before not_after
            (page_of table)
            fuel
            start
          ≡ ok (some batches))
        × (concat batches ≡ table)
        × All (λ b. length b ≤ 65) batches
  unfolding index_sessions fetch_sessions
  index_sessions_complete fuel start up_to enough =
      let whole =
        keep_whole (is_from true start) table
          (All-map _ _ (λ s le. ground (arith, le)) table up_to) in
      let (page, e, (c, l, n, b)) =
        read_rows-Sent not_before not_after [] [] (take 512 table) 0 0 (All-take _ 512 table inside)
          (Descending-take 512 table desc) tt (omega arith) tt in
      elim (List-cases table) [
        | inl empty ↦
            let ended : page.count ≡ 0 = omega (arith, n, ap (λ l. length (take 512 l)) empty) in
            rw (whole, e)
              (
                page.batches,
                fetch_rest-ended fuel page ended (omega (arith, enough)),
                c ∙ ap (take 512) empty ∙ sym empty,
                b,
              )
        | inr (s, sessions, all_sessions) ↦
            let last = l ∙ ap (λ l. last_of 0 (take 512 l)) all_sessions in
            let sorted = subst Descending all_sessions desc in
            let rest : rest_below page.last_id ≡ drop 511 sessions =
              ap rest_below last
              ∙ ap (keep (is_below (last_of s.id (take 511 sessions)))) all_sessions
              ∙ keep-last_of 511 0 s sessions sorted in
            let (batches, read, all_read, all_small) =
              fetch_rest_complete fuel page
                (ground (arith, n, ap (λ l. length (take 512 l)) all_sessions))
                (omega
                  (arith, enough, length-drop 511 sessions, ap length rest, ap length all_sessions))
                b in
            rw (whole, e)
              (
                batches,
                read,
                all_read
                    ∙ rw (c, rest)
                        (ap (λ l. take 512 l ++ drop 511 sessions) all_sessions
                          ∙ take-drop 512 (s ∷ sessions)
                          ∙ sym all_sessions),
                all_small,
              )
      ]
