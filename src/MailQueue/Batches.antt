-- ===== src/MailQueue/Batches.antt =====
-- Which queue files are read.
use clue_getter.Prelude.{
  ℕ, ◌<◌, ◌≤◌, ◌≡◌, refl, inl, inr, List, [], ◌∷◌, ◌++◌, arith, length, leb, length-append, All,
  Bool-cases, ap, ◌∙◌,
}
use mathlib.Core.List.{append_assoc}
use clue_getter.Prelude.Text.{Text}
use clue_getter.MailQueue.{batches_from, process_file_list}

abbrev pub concat : List (List Text) → List Text
concat [] = []
concat (batch ∷ batches) = batch ++ concat batches

batches_from_lem :
    (size : ℕ) (batch files : List Text)
    → length batch < size
    → (concat (batches_from size batch files) ≡ batch ++ files)
      × All (λ b. length b ≤ size) (batches_from size batch files)
unfolding batches_from
batches_from_lem size batch [] h = (refl, (omega (arith, h), tt))
batches_from_lem size batch (file ∷ files) h =
    let grown = length-append batch (file ∷ []) in
    elim (Bool-cases (leb size (length (batch ++ file ∷ [])))) [
      | inl full ↦
          let (all_files, small) = batches_from_lem size [] files (omega (arith, h)) in
          rw full (
            ap (λ (fs : List Text). (batch ++ file ∷ []) ++ fs) all_files
                ∙ append_assoc batch (file ∷ []) files,
            (omega (arith, h, grown), small),
          )
      | inr room ↦
          let (all_files, small) =
            batches_from_lem size (batch ++ file ∷ []) files (ground (arith, room)) in
          rw room (all_files ∙ append_assoc batch (file ∷ []) files, small)
    ]

-- Each file is in one batch, in the order in which the files were found, and no batch has more than
-- 256 of them.
pub process_file_list_lem :
    (files : List Text)
    → (concat (process_file_list files) ≡ files)
      × All (λ b. length b ≤ 256) (process_file_list files)
unfolding process_file_list
process_file_list_lem files = batches_from_lem 256 [] files (omega arith)
