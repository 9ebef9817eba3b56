-- ===== src/Milter/Numbers.antt =====
-- core/milter.go: the index that a received header has for libmilter.
use clue_getter.Prelude.{
  ℕ, ap, not, ◌&&◌, if◌then◌else◌, Bool-cases, inl, inr, arith, ◌+◌, ◌≡◌, refl, sym, false, List,
  [], ◌∷◌, ◌++◌, length,
}
use mathlib.Core.Path.{subst}
use clue_getter.Prelude.Text.{Text, to_lower, equal_fold, ◌==◌}
use clue_getter.Message.{Header, new_header, Message}
use clue_getter.Message.Headers.{get_header, is_header}
use clue_getter.Milter.Mail.{add_message_header}
use mathlib.Core.List.{append_assoc, append-nil}

-- How many headers have a name, in whatever case, and are not deleted.
abbrev pub count_named : Text → List Header → ℕ
count_named name [] = 0
count_named name (hdr ∷ hdrs) =
    (if to_lower hdr.key == to_lower name && not hdr.deleted then 1 else 0) + count_named name hdrs

length-get_header :
    (hdrs : List Header) (name : Text) → length (get_header hdrs name false) ≡ count_named name hdrs
unfolding get_header is_header equal_fold
length-get_header [] name = refl
length-get_header (hdr ∷ hdrs) name =
    let rest = length-get_header hdrs name in
    elim (Bool-cases (to_lower hdr.key == to_lower name && not hdr.deleted)) [
      | inl named ↦ rw named (omega (arith, rest))
      | inr other ↦ rw other (omega (arith, rest))
    ]

-- The index of each header counts the headers of its name up to it; `before` are those before.
abbrev pub IsNumbered : List Header → List Header → Type 0
IsNumbered before [] = Unit
IsNumbered before (hdr ∷ hdrs) =
    (hdr.milter_idx ≡ count_named hdr.key before + 1) × IsNumbered (before ++ hdr ∷ []) hdrs

IsNumbered-last :
    (before hdrs : List Header) (hdr : Header)
    → IsNumbered before hdrs
    → hdr.milter_idx ≡ count_named hdr.key (before ++ hdrs) + 1
    → IsNumbered before (hdrs ++ hdr ∷ [])
IsNumbered-last before [] hdr h e =
    (subst (λ hdrs. hdr.milter_idx ≡ count_named hdr.key hdrs + 1) (append-nil before) e, tt)
IsNumbered-last before (first ∷ hdrs) hdr (e', h) e = (
  e',
  IsNumbered-last (before ++ first ∷ []) hdrs hdr h (
      subst (λ hs. hdr.milter_idx ≡ count_named hdr.key hs + 1)
        (sym (append_assoc before (first ∷ []) hdrs)) e),
)

-- Receiving one more header keeps the index of each header one more than the number of headers before
-- it that have its name, in whatever case, and are not deleted. The new header is the last one.
pub add_message_header-IsNumbered :
    {F : Type 0} (msg : Message F) (key value : Text)
    → IsNumbered [] msg.headers
    → IsNumbered [] (add_message_header key value msg).headers
      × ((idx : ℕ) × ((add_message_header key value msg).headers
            ≡ msg.headers ++ record (new_header key value) { milter_idx = idx } ∷ []))
unfolding add_message_header
add_message_header-IsNumbered msg key value h = (
  IsNumbered-last [] msg.headers _ h (ap (λ n. n + 1) (length-get_header msg.headers key)),
  (_, refl),
)
