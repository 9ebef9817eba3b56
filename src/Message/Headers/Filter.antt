-- ===== src/Message/Headers/Filter.antt =====
-- The headers that are added to a message: what the loops over slices that they change in place
-- come to.
use mathlib.Core.List.{append_assoc, append-nil}
use native.Mathlib.Numerals.{add-one}
use clue_getter.Prelude.{
  ℕ, suc, ◌+◌, ◌-◌, ◌≡◌, refl, Bool, true, not, inl, inr, List, [], ◌∷◌, ◌++◌, map, arith,
  if◌then◌else◌, length, take, drop, keep, ltb, get_elem?-append, take-append, drop-append,
  length-append, Bool-cases, ltb_iff, ap, ◌∙◌,
}
use clue_getter.Prelude.Text.{is_empty, replace, contains}
use clue_getter.Prelude.Go.{ok, panic}
use clue_getter.Prelude.Float.{Float}
use clue_getter.Address.{Address, to_string}
use clue_getter.Message.{Header, SessionConfig, SessionInfo, Message}
use clue_getter.Message.Headers.{
  substituted, recipient_var, with_value, update_at, for_recipients, expand_header, expand_headers,
  replaced_headers, remove_empty, with_message_id, finish_headers, message_get_mutable_headers,
}

abbrev pub has_value : Header → Bool
has_value hdr = not (is_empty hdr.value)

length-append_one : {A : Type 0} (xs : List A) (x : A) → length (xs ++ x ∷ []) ≡ suc (length xs)
length-append_one xs x = omega (arith, length-append xs (x ∷ []))

-- Cutting out the header at place `k`.
cut_at :
    (done : List Header) (hdr : Header) (rest : List Header) (k : ℕ)
    → k ≡ length done
    → (if ltb k (length (done ++ hdr ∷ rest))
        then take k (done ++ hdr ∷ rest) ++ drop (k + 1) (done ++ hdr ∷ rest)
        else take k (done ++ hdr ∷ rest))
      ≡ done ++ rest
cut_at done hdr rest k e =
    let inside : ltb (length done) (length (done ++ hdr ∷ rest)) ≡ true =
      (ltb_iff _ _).1 (omega (arith, length-append done (hdr ∷ rest))) in
    rw (e, inside, add-one, take-append done (hdr ∷ rest), drop-append done hdr rest)

-- `done` has been looked at, `rest` has not.
remove_empty_from :
    (done rest : List Header) (i deleted : ℕ)
    → i ≡ length done + deleted
    → remove_empty (length rest) i deleted (done ++ rest) ≡ ok (done ++ keep has_value rest)
unfolding remove_empty
remove_empty_from done [] i deleted e = refl
remove_empty_from done (hdr ∷ rest) i deleted e =
    let place : i - deleted ≡ length done = omega arith in
    rw (place, get_elem?-append done hdr rest, remove_empty)
      (elim (Bool-cases (is_empty hdr.value)) [
        | inl empty ↦
            rw (empty, cut_at done hdr rest (i - deleted) place)
              (remove_empty_from done rest (i + 1) (deleted + 1) (omega arith))
        | inr full ↦
            rw (full, ← append_assoc done (hdr ∷ []) rest)
              (remove_empty_from (done ++ hdr ∷ []) rest (i + 1) deleted
                  (omega (arith, length-append_one done hdr))
                ∙ ap ok (append_assoc done (hdr ∷ []) (keep has_value rest)))
      ])

pub remove_empty_lem :
    (hdrs : List Header) → remove_empty (length hdrs) 0 0 hdrs ≡ ok (keep has_value hdrs)
remove_empty_lem hdrs = remove_empty_from [] hdrs 0 0 (omega arith)

-- What a header with the recipient variable turns into, and the headers that it adds.
abbrev pub first_filled : Address → Header → Header
first_filled first v =
    if contains recipient_var v.value
    then with_value (replace recipient_var (to_string first) v.value) v
    else v

abbrev pub rest_filled : List Address → Header → List Header
rest_filled rest v = if contains recipient_var v.value then for_recipients v rest else []

abbrev pub all_rest_filled : List Address → List Header → List Header
all_rest_filled rest [] = []
all_rest_filled rest (v ∷ vs) = rest_filled rest v ++ all_rest_filled rest vs

update_at-append :
    (f : Header → Header) (pre : List Header) (v : Header) (post : List Header)
    → update_at (length pre) f (pre ++ v ∷ post) ≡ pre ++ f v ∷ post
unfolding update_at
update_at-append f [] v post = refl
update_at-append f (u ∷ pre) v post = rw (update_at-append f pre v post)

expand_header_lem :
    (first : Address) (rest : List Address) (pre : List Header) (v : Header) (post : List Header)
    → expand_header (first ∷ rest) v (length pre) (pre ++ v ∷ post)
      ≡ ok (pre ++ first_filled first v ∷ (post ++ rest_filled rest v))
unfolding expand_header
expand_header_lem first rest pre v post = elim (Bool-cases (contains recipient_var v.value)) [
  | inl yes' ↦
      rw (yes', append_assoc pre (v ∷ post) (for_recipients v rest))
        (ap ok (update_at-append _ pre v (post ++ for_recipients v rest)))
  | inr no' ↦ rw (no', append-nil post)
]

expand_headers_from :
    (first : Address) (rest : List Address) (vs pre post : List Header)
    → expand_headers (first ∷ rest) vs (length pre) (pre ++ (vs ++ post))
      ≡ ok (pre ++ (map (first_filled first) vs ++ (post ++ all_rest_filled rest vs)))
unfolding expand_headers
expand_headers_from first rest [] pre post = rw (append-nil post)
expand_headers_from first rest (v ∷ vs) pre post =
    rw (expand_header_lem first rest pre v (vs ++ post)) (
      simp (add-one, append_assoc)
        (simp (append_assoc, length-append_one) at
          (expand_headers_from first rest vs (pre ++ first_filled first v ∷ [])
            (post ++ rest_filled rest v))))

pub expand_headers_lem :
    (first : Address) (rest : List Address) (hdrs : List Header)
    → expand_headers (first ∷ rest) hdrs 0 hdrs
      ≡ ok (map (first_filled first) hdrs ++ all_rest_filled rest hdrs)
expand_headers_lem first rest hdrs =
    rw (append-nil hdrs) at (expand_headers_from first rest hdrs [] [])

length-map : {A B : Type 0} (f : A → B) (xs : List A) → length (map f xs) ≡ length xs
length-map f [] = refl
length-map f (x ∷ xs) = ap suc (length-map f xs)

-- The headers of a message before the variables are filled in.
abbrev pub planned_headers :
    {F : Type 0} → SessionConfig F → Message F → Address → List Address → List Header
planned_headers config msg first rest =
    with_message_id config msg
      (map (first_filled first) msg.add_headers ++ all_rest_filled rest msg.add_headers)

module _ {F : Type 0} (fl : Float F) (config : SessionConfig F) (info : SessionInfo) where
  finish_headers_lem :
      (msg : Message F) (hdrs : List Header)
      → finish_headers fl config info msg hdrs
        ≡ ok (
          record msg { add_headers = keep has_value (map (substituted fl config info msg) hdrs) },
          replaced_headers msg.headers hdrs,
        )
  unfolding finish_headers
  finish_headers_lem msg hdrs =
      rw (← length-map (substituted fl config info msg) hdrs)
        (rw (remove_empty_lem (map (substituted fl config info msg) hdrs)))

  -- A message with a recipient gets its planned headers, the variables filled in, without those that
  -- have no value then; what is deleted are the headers that the unique ones of the plan replace. No
  -- index is out of range.
  pub message_get_mutable_headers_lem :
      (msg : Message F) (first : Address) (rest : List Address)
      → msg.rcpt ≡ first ∷ rest
      → message_get_mutable_headers fl config info msg
        ≡ ok (
          record msg {
            add_headers =
                keep has_value
                  (map (substituted fl config info msg) (planned_headers config msg first rest));
          },
          replaced_headers msg.headers (planned_headers config msg first rest),
        )
  unfolding message_get_mutable_headers
  message_get_mutable_headers_lem msg first rest e =
      let expanded : expand_headers msg.rcpt msg.add_headers 0 msg.add_headers
          ≡ ok (map (first_filled first) msg.add_headers ++ all_rest_filled rest msg.add_headers) =
        ap (λ rcpts. expand_headers rcpts msg.add_headers 0 msg.add_headers) e
        ∙ expand_headers_lem first rest msg.add_headers in
      rw expanded (finish_headers_lem msg (planned_headers config msg first rest))

  -- A message with no recipient panics if a header has the recipient variable.
  pub message_get_mutable_headers_panics :
      (msg : Message F) (hdr : Header) (hdrs : List Header)
      → msg.rcpt ≡ []
      → msg.add_headers ≡ hdr ∷ hdrs
      → contains recipient_var hdr.value ≡ true
      → message_get_mutable_headers fl config info msg ≡ panic
  unfolding message_get_mutable_headers expand_header
  message_get_mutable_headers_panics msg hdr hdrs none_given e h = rw (none_given, e, h)
