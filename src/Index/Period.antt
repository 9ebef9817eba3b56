-- ===== src/Index/Period.antt =====
-- A page without a session of the period.
use clue_getter.Prelude.{
  ℕ, suc, ◌<◌, ◌≤◌, ◌≡◌, refl, true, false, some, List, [], ◌∷◌, ◌++◌, eqb, take, All, map, arith,
}
use clue_getter.Prelude.Go.{ok}
use clue_getter.Index.{StoredSession, is_out, read_rows, fetch_sessions, fetch_rest, index_sessions}
use clue_getter.Index.Pages.{last_of, page_of, keep_whole, is_from, All-map}

module _ (not_before not_after : ℕ) where
  abbrev pub IsOut : StoredSession → Type 0
  IsOut s = (is_out not_before not_after s ≡ true) × (0 < s.id)

  read_rows-out :
      (sent : List (List StoredSession)) (sessions rows : List StoredSession) (last count : ℕ)
      → All IsOut rows
      → read_rows not_before not_after sent sessions last count (map some rows)
        ≡ ok
            (record { batches = sent ++ sessions ∷ []; last_id = last_of last rows; count = count })
  unfolding read_rows
  read_rows-out sent sessions [] last count h = refl
  read_rows-out sent sessions (s ∷ rows) last count ((out, pos), h) =
      let valid : eqb s.id 0 ≡ false = ground (arith, pos) in
      rw (valid, out) (read_rows-out sent sessions rows s.id count h)

  -- Where none of the 512 newest sessions is in the period, the loop ends after them, with one batch
  -- that is empty: older sessions are not handed on, be they in the period.
  pub newest_out_ends :
      (table : List StoredSession) (fuel start : ℕ)
      → All (λ s. s.id ≤ start) table
      → All IsOut (take 512 table)
      → index_sessions not_before not_after (page_of table) (suc fuel) start ≡ ok (some ([] ∷ []))
  unfolding index_sessions fetch_sessions fetch_rest
  newest_out_ends table fuel start up_to out =
      rw
        (
          keep_whole (is_from true start) table
              (All-map _ _ (λ s le. ground (arith, le)) table up_to),
          read_rows-out [] [] (take 512 table) 0 0 out,
        )
        refl
