-- ===== src/MailQueue/Envelopes.antt =====
-- core/mailQueue.go: what postcat prints of queue files, and the items that are read from it.
use clue_getter.Prelude.{
  ℕ, zero, suc, ◌-◌, Option, none, some, List, [], ◌∷◌, ◌++◌, eqb, if◌then◌else◌, length, ltb, drop,
}
use clue_getter.Prelude.Text.{Text, text, ◌==◌, cut, starts_with, push_head, split, trim}
use clue_getter.Dict.{Dict, lookup, insert}

-- strings.Split by a text that is not empty; the number counts the bytes of a separator that are
-- still to be passed over.
unfoldable pub split_from : Text → ℕ → Text → List Text
unfolding starts_with
split_from sep skip [] = [] ∷ []
split_from sep (suc skip) (c ∷ s) = split_from sep skip s
split_from sep zero (c ∷ s) =
    let found = starts_with sep (c ∷ s) in
    let rest = split_from sep (if found then length sep - 1 else 0) s in
    if found then [] ∷ rest else push_head c rest

-- strings.SplitN(s, sep, 2) by a text that is not empty, none where it does not stand in s.
unfoldable pub cut_by : Text → Text → Option (Text × Text)
unfolding starts_with
cut_by sep [] = none
cut_by sep (c ∷ s) =
    let later = cut_by sep s in
    if starts_with sep (c ∷ s)
    then some ([], drop (length sep) (c ∷ s))
    else elim later [ none ↦ none | some (a, b) ↦ some (c ∷ a, b) ]

-- `mailQueueItem`
pub record Item (T : Type 0) : Type 0 where
  pub time : Option T
  pub kv : Dict Text

abbrev pub trim_spaces : Text → Text
trim_spaces = trim (λ c. eqb c b' ')

-- The first element of a list that strings.Split gives, which is never empty.
abbrev first_of : List Text → Text
first_of [] = []
first_of (line ∷ lines) = line

abbrev before_space : Text → Text
before_space line = elim (cut b' ' line) [ none ↦ line | some parts ↦ parts.0 ]

abbrev pub queue_id : List Text → Text
queue_id lines = before_space (first_of lines)

-- A line as a key and a value, none for one that is passed over.
unfoldable pub attribute_of : Text → Option (Text × Text)
unfolding cut_by cut ◌==◌
attribute_of line = elim (cut_by (text ": ") line) [
  | none ↦ none
  | some (key, value) ↦ if key == text "named_attribute" then cut b'=' value else some (key, value)
]

-- The loop over the lines.
abbrev with_attribute : Option (Text × Text) → Dict Text → Dict Text
with_attribute none kv = kv
with_attribute (some (key, value)) kv = insert (trim_spaces key) (trim_spaces value) kv

unfoldable pub read_lines : List Text → Dict Text → Dict Text
unfolding attribute_of insert trim
read_lines [] kv = kv
read_lines (line ∷ lines) kv = read_lines lines (with_attribute (attribute_of line) kv)

abbrev with_ident : Text → Dict Text → Dict Text
with_ident id kv = elim (lookup (text "log_ident") kv) [
  | none ↦ insert (text "log_ident") id kv
  | some old ↦ kv
]

-- `parse_time` stands for time.Parse with the layout of the source, none for an error, and `zone` for
-- the name of the local time zone.
module _ {T : Type 0} (parse_time : Text → Option T) (zone : Text) where
  abbrev time_of : Dict Text → Option T
  time_of kv = elim (lookup (text "create_time") kv) [
    | none ↦ none
    | some created ↦ parse_time (created ++ (text " " ++ zone))
  ]

  abbrev item_of : Dict Text → Item T
  item_of kv = record { time = time_of kv; kv = kv }

  -- `mailQueueParseEnvelopeString`, none for its error.
  unfoldable pub parse_envelope_string : Text → Option (Item T)
  unfolding read_lines split cut lookup insert
  parse_envelope_string envelope =
      let lines = split 10 envelope in
      let id = queue_id lines in
      if ltb (length id) 6 then none else some (item_of (with_ident id (read_lines lines [])))

  unfoldable pub items_of : List Text → List (Item T)
  unfolding parse_envelope_string
  items_of [] = []
  items_of (envelope ∷ envelopes) =
      let rest = items_of envelopes in
      elim (parse_envelope_string envelope) [ none ↦ rest | some item ↦ item ∷ rest ]

  -- `mailQueueProcessFiles`, the loop over what postcat prints.
  unfoldable pub read_postcat : Text → List (Item T)
  unfolding items_of split_from
  read_postcat out = items_of (drop 1 (split_from (text "*** ENVELOPE RECORDS ") 0 out))
