-- ===== src/Index/Restored.antt =====
-- A message that is read from the database has what the rows say of it.
use clue_getter.Prelude.{
  ℕ, zero, suc, ◌≡◌, ap, ◌∙◌, Option, none, some, List, [], ◌∷◌, ◌++◌, All, All-append,
}
use clue_getter.Prelude.Text.{Text}
use clue_getter.Prelude.Go.{ok}
use clue_getter.Dict.{Dict, lookup}
use clue_getter.Address.{Address}
use clue_getter.Message.{Message}
use clue_getter.Index.Hydration.{RecipientRow, HeaderRow, ResultRow, address_of, hydrate}
use clue_getter.Index.Edits.{
  Edit, IsKnown, edited, edited-append, apply_edits-lookup, repeated, recipient_edits, header_edits,
  result_edits, all_edits, hydrate-edits,
}
use clue_getter.Index.Fields.{
  recipients_of, headers_of, results_of, with_recipients, with_headers, edited-recipients,
  edited-headers, edited-results,
}

-- The messages that the rows name.
abbrev pub recipient_ids : List (Option RecipientRow) → List Text
recipient_ids [] = []
recipient_ids (none ∷ rows) = recipient_ids rows
recipient_ids (some row ∷ rows) = row.message ∷ recipient_ids rows

abbrev pub header_ids : List (Option HeaderRow) → List Text
header_ids [] = []
header_ids (none ∷ rows) = header_ids rows
header_ids (some row ∷ rows) = row.message ∷ header_ids rows

abbrev pub result_ids : {F : Type 0} → List (Option (ResultRow F)) → List Text
result_ids [] = []
result_ids (none ∷ rows) = result_ids rows
result_ids (some row ∷ rows) = row.message ∷ result_ids rows

module _ {F : Type 0} where
  IsKnown-repeated :
      (messages : Dict (Message F)) (id : Text) (count : ℕ) (rcpt : Address)
      → IsKnown messages id
      → All (λ (e : Edit F). IsKnown messages e.0) (repeated count id rcpt)
  IsKnown-repeated messages id zero rcpt h = tt
  IsKnown-repeated messages id (suc count) rcpt h = (h, IsKnown-repeated messages id count rcpt h)

  IsKnown-recipients :
      (messages : Dict (Message F)) (rows : List (Option RecipientRow))
      → All (IsKnown messages) (recipient_ids rows)
      → All (λ (e : Edit F). IsKnown messages e.0) (recipient_edits rows)
  IsKnown-recipients messages [] h = tt
  IsKnown-recipients messages (none ∷ rows) h = IsKnown-recipients messages rows h
  IsKnown-recipients messages (some row ∷ rows) (one, h) =
      let rcpt = address_of row.local row.domain in
      All-append _ (repeated row.count row.message rcpt) (recipient_edits rows)
        (IsKnown-repeated messages row.message row.count rcpt one)
        (IsKnown-recipients messages rows h)

  IsKnown-headers :
      (messages : Dict (Message F)) (rows : List (Option HeaderRow))
      → All (IsKnown messages) (header_ids rows)
      → All (λ (e : Edit F). IsKnown messages e.0) (header_edits rows)
  IsKnown-headers messages [] h = tt
  IsKnown-headers messages (none ∷ rows) h = IsKnown-headers messages rows h
  IsKnown-headers messages (some row ∷ rows) (one, h) = (one, IsKnown-headers messages rows h)

  IsKnown-results :
      (messages : Dict (Message F)) (rows : List (Option (ResultRow F)))
      → All (IsKnown messages) (result_ids rows)
      → All (λ (e : Edit F). IsKnown messages e.0) (result_edits rows)
  IsKnown-results messages [] h = tt
  IsKnown-results messages (none ∷ rows) h = IsKnown-results messages rows h
  IsKnown-results messages (some row ∷ rows) (one, h) = (one, IsKnown-results messages rows h)

  -- Where the rows of recipients, headers and results are of messages of the batch, reading them does
  -- not panic; it gives each message, at the end of its own, the recipients that its rows have, each
  -- as often as its count, its headers and its results, in the order of the rows, and nothing else.
  pub hydrate_lem :
      (messages : Dict (Message F)) (recipients : List (Option RecipientRow))
      (headers : List (Option HeaderRow)) (results : List (Option (ResultRow F))) (q : Text)
      (m : Message F)
      → lookup q messages ≡ some m
      → All (IsKnown messages) (recipient_ids recipients)
      → All (IsKnown messages) (header_ids headers)
      → All (IsKnown messages) (result_ids results)
      → (next : Dict (Message F)) × (hydrate messages recipients headers results ≡ ok next)
        × (lookup q next
            ≡ some (record m {
              rcpt = m.rcpt ++ recipients_of q recipients;
              headers = m.headers ++ headers_of q headers;
              check_results = m.check_results ++ results_of q results;
            }))
  hydrate_lem messages recipients headers results q m e known_rcpt known_headers known_results =
      let (next, run, ends) = apply_edits-lookup (all_edits recipients headers results) messages (
        All-append _ (recipient_edits recipients) (header_edits headers ++ result_edits results)
          (IsKnown-recipients messages recipients known_rcpt)
          (All-append _ (header_edits headers) (result_edits results)
            (IsKnown-headers messages headers known_headers)
            (IsKnown-results messages results known_results))) in
      (
        next,
        hydrate-edits recipients headers results messages ∙ run,
        let m1 = with_recipients m (recipients_of q recipients) in
            let m2 = with_headers m1 (headers_of q headers) in
            ends q m e
            ∙ ap some (
                edited-append q (recipient_edits recipients)
                  (header_edits headers ++ result_edits results) m
                ∙ edited-append q (header_edits headers) (result_edits results)
                    (edited q (recipient_edits recipients) m)
                ∙ ap (λ x. edited q (result_edits results) (edited q (header_edits headers) x))
                    (edited-recipients q recipients m)
                ∙ ap (edited q (result_edits results)) (edited-headers q headers m1)
                ∙ edited-results q results m2),
      )
