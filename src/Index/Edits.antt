-- ===== src/Index/Edits.antt =====
-- The rows of recipients, headers and results as changes of single messages.
use clue_getter.Prelude.{
  ℕ, zero, suc, ◌≡◌, refl, sym, ap, ◌∙◌, Bool, false, Option, none, some, List, [], ◌∷◌, ◌++◌,
  if◌then◌else◌, inl, inr, Bool-cases, All,
}
use clue_getter.Prelude.Text.{Text, ◌==◌, eq_iff}
use clue_getter.Prelude.Go.{Go, ok, panic, ◌>>=◌, Go-cases}
use clue_getter.Dict.{Dict, lookup, insert, lookup-insert}
use clue_getter.Address.{Address}
use clue_getter.Message.{new_header, Message}
use clue_getter.Index.Hydration.{
  RecipientRow, HeaderRow, ResultRow, address_of, update, add_recipient, append_header, add_result,
  append_recipients, hydrate_recipients, hydrate_headers, hydrate_results, check_result_of, hydrate,
}
use clue_getter.Index.Pages.{All-map}

abbrev pub changed : {A : Type 0} → (A → A) → Bool → Option A → Option A
changed f hit none = none
changed f hit (some a) = some (if hit then f a else a)

changed_no : {A : Type 0} (f : A → A) (o : Option A) → changed f false o ≡ o
changed_no f none = refl
changed_no f (some a) = refl

-- A change that a row makes to the message of an id.
abbrev pub Edit : Type 0 → Type 0
Edit F = Text × (Message F → Message F)

module _ {F : Type 0} where
  update-lookup :
      (id : Text) (change : Message F → Message F) (messages : Dict (Message F)) (m : Message F)
      → lookup id messages ≡ some m
      → (next : Dict (Message F)) × (update id change messages ≡ ok next)
        × ((q : Text) → lookup q next ≡ changed change (id == q) (lookup q messages))
  unfolding update
  update-lookup id change messages m e = (
    insert id (change m) messages,
    rw (e, update) refl,
    λ q. elim (Bool-cases (id == q)) [
      | inl hit ↦
          let found = ap (λ k. lookup k messages) (sym ((eq_iff id q).0 hit)) ∙ e in
          rw (lookup-insert id q (change m) messages, hit, found) refl
      | inr miss ↦
          rw (lookup-insert id q (change m) messages, miss)
            (sym (changed_no change (lookup q messages)))
    ],
  )

  abbrev pub apply_edits : List (Edit F) → Dict (Message F) → Go (Dict (Message F))
  apply_edits [] messages = ok messages
  apply_edits ((id, change) ∷ edits) messages = update id change messages >>= apply_edits edits

  abbrev pub edited : Text → List (Edit F) → Message F → Message F
  edited q [] m = m
  edited q ((id, change) ∷ edits) m = edited q edits (if id == q then change m else m)

  abbrev pub IsKnown : Dict (Message F) → Text → Type 0
  IsKnown messages id = (m : Message F) × (lookup id messages ≡ some m)

  changed-some :
      (f : Message F → Message F) (hit : Bool) (o : Option (Message F)) (m : Message F)
      → o ≡ some m
      → changed f hit o ≡ some (if hit then f m else m)
  changed-some f hit o m e = rw e refl

  pub apply_edits-lookup :
      (edits : List (Edit F)) (messages : Dict (Message F))
      → All (λ (e : Edit F). IsKnown messages e.0) edits
      → (next : Dict (Message F)) × (apply_edits edits messages ≡ ok next)
        × ((q : Text) (m : Message F)
            → lookup q messages ≡ some m
            → lookup q next ≡ some (edited q edits m))
  apply_edits-lookup [] messages known = (messages, refl, λ q m e. e)
  apply_edits-lookup ((id, change) ∷ edits) messages ((old, found), known) =
      let (middle, e, at) = update-lookup id change messages old found in
      let still =
        All-map (λ (x : Edit F). IsKnown messages x.0) (λ (x : Edit F). IsKnown middle x.0)
          (λ x (m, h). (_, at x.0 ∙ changed-some change (id == x.0) (lookup x.0 messages) m h))
          edits known in
      let (next, run, ends) = apply_edits-lookup edits middle still in
      (
        next,
        rw e run,
        λ q m h.
            ends q (if id == q then change m else m)
              (at q ∙ changed-some change (id == q) (lookup q messages) m h),
      )

bind-cong :
    {A B : Type 0} (m : Go A) (f g : A → Go B) → ((a : A) → f a ≡ g a) → (m >>= f) ≡ (m >>= g)
bind-cong panic f g h = refl
bind-cong (ok a) f g h = h a

module _ {F : Type 0} where
  apply_edits-append :
      (xs ys : List (Edit F)) (messages : Dict (Message F))
      → apply_edits (xs ++ ys) messages ≡ (apply_edits xs messages >>= apply_edits ys)
  apply_edits-append [] ys messages = refl
  apply_edits-append ((id, change) ∷ xs) ys messages = elim (Go-cases (update id change messages)) [
    | inl e ↦ rw e refl
    | inr (next, e) ↦ rw e (apply_edits-append xs ys next)
  ]

  pub edited-append :
      (q : Text) (xs ys : List (Edit F)) (m : Message F)
      → edited q (xs ++ ys) m ≡ edited q ys (edited q xs m)
  edited-append q [] ys m = refl
  edited-append q ((id, change) ∷ xs) ys m = edited-append q xs ys (if id == q then change m else m)

  abbrev pub repeated : ℕ → Text → Address → List (Edit F)
  repeated zero id rcpt = []
  repeated (suc count) id rcpt = (id, add_recipient rcpt) ∷ repeated count id rcpt

  abbrev pub recipient_edits : List (Option RecipientRow) → List (Edit F)
  recipient_edits [] = []
  recipient_edits (none ∷ rows) = recipient_edits rows
  recipient_edits (some row ∷ rows) =
      repeated row.count row.message (address_of row.local row.domain) ++ recipient_edits rows

  abbrev pub header_edits : List (Option HeaderRow) → List (Edit F)
  header_edits [] = []
  header_edits (none ∷ rows) = header_edits rows
  header_edits (some row ∷ rows) =
      (row.message, append_header (new_header row.name row.body)) ∷ header_edits rows

  abbrev pub result_edits : List (Option (ResultRow F)) → List (Edit F)
  result_edits [] = []
  result_edits (none ∷ rows) = result_edits rows
  result_edits (some row ∷ rows) =
      (row.message, add_result (check_result_of row)) ∷ result_edits rows

  append_recipients-edits :
      (count : ℕ) (id : Text) (rcpt : Address) (messages : Dict (Message F))
      → append_recipients count id rcpt messages ≡ apply_edits (repeated count id rcpt) messages
  unfolding append_recipients
  append_recipients-edits zero id rcpt messages = refl
  append_recipients-edits (suc count) id rcpt messages =
      bind-cong (update id (add_recipient rcpt) messages) _ _
        (append_recipients-edits count id rcpt)

  hydrate_recipients-edits :
      (rows : List (Option RecipientRow)) (messages : Dict (Message F))
      → hydrate_recipients messages rows ≡ apply_edits (recipient_edits rows) messages
  unfolding hydrate_recipients
  hydrate_recipients-edits [] messages = refl
  hydrate_recipients-edits (none ∷ rows) messages = hydrate_recipients-edits rows messages
  hydrate_recipients-edits (some row ∷ rows) messages =
      let rcpt = address_of row.local row.domain in
      bind-cong (append_recipients row.count row.message rcpt messages) _ _
        (hydrate_recipients-edits rows)
      ∙ ap (λ (r : Go (Dict (Message F))). r >>= apply_edits (recipient_edits rows))
          (append_recipients-edits row.count row.message rcpt messages)
      ∙ sym
          (apply_edits-append (repeated row.count row.message rcpt) (recipient_edits rows) messages)

  hydrate_headers-edits :
      (rows : List (Option HeaderRow)) (messages : Dict (Message F))
      → hydrate_headers messages rows ≡ apply_edits (header_edits rows) messages
  unfolding hydrate_headers
  hydrate_headers-edits [] messages = refl
  hydrate_headers-edits (none ∷ rows) messages = hydrate_headers-edits rows messages
  hydrate_headers-edits (some row ∷ rows) messages =
      bind-cong (update row.message (append_header (new_header row.name row.body)) messages) _ _
        (hydrate_headers-edits rows)

  hydrate_results-edits :
      (rows : List (Option (ResultRow F))) (messages : Dict (Message F))
      → hydrate_results messages rows ≡ apply_edits (result_edits rows) messages
  unfolding hydrate_results
  hydrate_results-edits [] messages = refl
  hydrate_results-edits (none ∷ rows) messages = hydrate_results-edits rows messages
  hydrate_results-edits (some row ∷ rows) messages =
      bind-cong (update row.message (add_result (check_result_of row)) messages) _ _
        (hydrate_results-edits rows)

  abbrev pub all_edits :
      List (Option RecipientRow)
      → List (Option HeaderRow)
      → List (Option (ResultRow F))
      → List (Edit F)
  all_edits recipients headers results =
      recipient_edits recipients ++ (header_edits headers ++ result_edits results)

  pub hydrate-edits :
      (recipients : List (Option RecipientRow)) (headers : List (Option HeaderRow))
      (results : List (Option (ResultRow F))) (messages : Dict (Message F))
      → hydrate messages recipients headers results
        ≡ apply_edits (all_edits recipients headers results) messages
  unfolding hydrate
  hydrate-edits recipients headers results messages =
      bind-cong (hydrate_recipients messages recipients) _ _ (λ next.
        bind-cong (hydrate_headers next headers) _ _ (hydrate_results-edits results)
        ∙ ap (λ (r : Go (Dict (Message F))). r >>= apply_edits (result_edits results))
            (hydrate_headers-edits headers next)
        ∙ sym (apply_edits-append (header_edits headers) (result_edits results) next))
      ∙ ap
          (λ (r : Go (Dict (Message F))).
            r >>= apply_edits (header_edits headers ++ result_edits results))
          (hydrate_recipients-edits recipients messages)
      ∙ sym (
          apply_edits-append (recipient_edits recipients)
            (header_edits headers ++ result_edits results) messages)
