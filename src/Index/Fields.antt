-- ===== src/Index/Fields.antt =====
-- What the changes of the rows make of one message.
use clue_getter.Prelude.{
  ℕ, zero, suc, ◌≡◌, refl, sym, ap, ◌∙◌, Bool, true, false, Option, none, some, List, [], ◌∷◌, ◌++◌,
  if◌then◌else◌, inl, inr, Bool-cases,
}
use mathlib.Core.List.{append_assoc, append-nil}
use clue_getter.Prelude.Text.{Text, ◌==◌}
use clue_getter.Address.{Address}
use clue_getter.Message.{Header, new_header, CheckResult, Message}
use clue_getter.Index.Hydration.{
  RecipientRow, HeaderRow, ResultRow, address_of, check_result_of, add_recipient, append_header,
  add_result,
}
use clue_getter.Index.Edits.{
  edited, edited-append, repeated, recipient_edits, header_edits, result_edits,
}

abbrev copies : ℕ → Address → List Address
copies zero rcpt = []
copies (suc count) rcpt = rcpt ∷ copies count rcpt

-- What the rows have for a message, in their order.
abbrev pub recipients_of : Text → List (Option RecipientRow) → List Address
recipients_of q [] = []
recipients_of q (none ∷ rows) = recipients_of q rows
recipients_of q (some row ∷ rows) =
    (if row.message == q then copies row.count (address_of row.local row.domain) else [])
    ++ recipients_of q rows

abbrev pub headers_of : Text → List (Option HeaderRow) → List Header
headers_of q [] = []
headers_of q (none ∷ rows) = headers_of q rows
headers_of q (some row ∷ rows) =
    (if row.message == q then new_header row.name row.body ∷ [] else []) ++ headers_of q rows

abbrev pub results_of : {F : Type 0} → Text → List (Option (ResultRow F)) → List (CheckResult F)
results_of q [] = []
results_of q (none ∷ rows) = results_of q rows
results_of q (some row ∷ rows) =
    (if row.message == q then check_result_of row ∷ [] else []) ++ results_of q rows

module _ {F : Type 0} where
  abbrev pub with_recipients : Message F → List Address → Message F
  with_recipients m more = record m { rcpt = m.rcpt ++ more }

  with_recipients-nil : (m : Message F) → m ≡ with_recipients m []
  with_recipients-nil m = ap (λ l. record m { rcpt = l }) (sym (append-nil m.rcpt))

  with_recipients-append :
      (m : Message F) (xs ys : List Address)
      → with_recipients (with_recipients m xs) ys ≡ with_recipients m (xs ++ ys)
  with_recipients-append m xs ys = ap (λ l. record m { rcpt = l }) (append_assoc m.rcpt xs ys)

  abbrev pub with_headers : Message F → List Header → Message F
  with_headers m more = record m { headers = m.headers ++ more }

  with_headers-nil : (m : Message F) → m ≡ with_headers m []
  with_headers-nil m = ap (λ l. record m { headers = l }) (sym (append-nil m.headers))

  with_headers-append :
      (m : Message F) (xs ys : List Header)
      → with_headers (with_headers m xs) ys ≡ with_headers m (xs ++ ys)
  with_headers-append m xs ys = ap (λ l. record m { headers = l }) (append_assoc m.headers xs ys)

  abbrev pub with_results : Message F → List (CheckResult F) → Message F
  with_results m more = record m { check_results = m.check_results ++ more }

  with_results-nil : (m : Message F) → m ≡ with_results m []
  with_results-nil m = ap (λ l. record m { check_results = l }) (sym (append-nil m.check_results))

  with_results-append :
      (m : Message F) (xs ys : List (CheckResult F))
      → with_results (with_results m xs) ys ≡ with_results m (xs ++ ys)
  with_results-append m xs ys =
      ap (λ l. record m { check_results = l }) (append_assoc m.check_results xs ys)

  one_recipient :
      (hit : Bool) (x : Address) (m : Message F)
      → (if hit then add_recipient x m else m) ≡ with_recipients m (if hit then x ∷ [] else [])
  one_recipient true x m = refl
  one_recipient false x m = with_recipients-nil m

  one_header :
      (hit : Bool) (x : Header) (m : Message F)
      → (if hit then append_header x m else m) ≡ with_headers m (if hit then x ∷ [] else [])
  one_header true x m = refl
  one_header false x m = with_headers-nil m

  one_result :
      (hit : Bool) (x : CheckResult F) (m : Message F)
      → (if hit then add_result x m else m) ≡ with_results m (if hit then x ∷ [] else [])
  one_result true x m = refl
  one_result false x m = with_results-nil m

  edited-repeated :
      (q id : Text) (count : ℕ) (rcpt : Address) (m : Message F)
      → edited q (repeated count id rcpt) m
        ≡ with_recipients m (if id == q then copies count rcpt else [])
  edited-repeated q id zero rcpt m = elim (Bool-cases (id == q)) [
    | inl hit ↦ rw hit (with_recipients-nil m)
    | inr miss ↦ rw miss (with_recipients-nil m)
  ]
  edited-repeated q id (suc count) rcpt m =
      edited-repeated q id count rcpt (if id == q then add_recipient rcpt m else m)
      ∙ elim (Bool-cases (id == q)) [
        | inl hit ↦ rw hit (with_recipients-append m (rcpt ∷ []) (copies count rcpt))
        | inr miss ↦ rw miss refl
      ]

  pub edited-recipients :
      (q : Text) (rows : List (Option RecipientRow)) (m : Message F)
      → edited q (recipient_edits rows) m ≡ with_recipients m (recipients_of q rows)
  edited-recipients q [] m = with_recipients-nil m
  edited-recipients q (none ∷ rows) m = edited-recipients q rows m
  edited-recipients q (some row ∷ rows) m =
      let rcpt = address_of row.local row.domain in
      let own = if row.message == q then copies row.count rcpt else [] in
      edited-append q (repeated row.count row.message rcpt) (recipient_edits rows) m
      ∙ ap (edited q (recipient_edits rows)) (edited-repeated q row.message row.count rcpt m)
      ∙ edited-recipients q rows (with_recipients m own)
      ∙ with_recipients-append m own (recipients_of q rows)

  pub edited-headers :
      (q : Text) (rows : List (Option HeaderRow)) (m : Message F)
      → edited q (header_edits rows) m ≡ with_headers m (headers_of q rows)
  edited-headers q [] m = with_headers-nil m
  edited-headers q (none ∷ rows) m = edited-headers q rows m
  edited-headers q (some row ∷ rows) m =
      let hit = row.message == q in
      let x = new_header row.name row.body in
      ap (edited q (header_edits rows)) (one_header hit x m)
      ∙ edited-headers q rows (with_headers m (if hit then x ∷ [] else []))
      ∙ with_headers-append m (if hit then x ∷ [] else []) (headers_of q rows)

  pub edited-results :
      (q : Text) (rows : List (Option (ResultRow F))) (m : Message F)
      → edited q (result_edits rows) m ≡ with_results m (results_of q rows)
  edited-results q [] m = with_results-nil m
  edited-results q (none ∷ rows) m = edited-results q rows m
  edited-results q (some row ∷ rows) m =
      let hit = row.message == q in
      let x = check_result_of row in
      ap (edited q (result_edits rows)) (one_result hit x m)
      ∙ edited-results q rows (with_results m (if hit then x ∷ [] else []))
      ∙ with_results-append m (if hit then x ∷ [] else []) (results_of q rows)
