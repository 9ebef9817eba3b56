-- ===== src/Index/Pages.antt =====
-- What the pages hand on, all in all.
use clue_getter.Prelude.{
  ℕ, zero, suc, ◌+◌, ◌<◌, ◌≤◌, ◌≡◌, refl, sym, ◌∙◌, ap, Bool, true, false, Option, some, List, [],
  ◌∷◌, ◌++◌, length, length-append, drop, ltb, leb, eqb, take, keep, All, All-append, map, arith,
  inl, inr, Bool-cases,
}
use mathlib.Core.List.{append_assoc, append-nil}
use clue_getter.Prelude.Go.{ok}
use clue_getter.Index.{StoredSession, Page, keep_session, is_out, read_rows}

abbrev pub concat : List (List StoredSession) → List StoredSession
concat [] = []
concat (batch ∷ batches) = batch ++ concat batches

pub concat-append : (xs ys : List (List StoredSession)) → concat (xs ++ ys) ≡ concat xs ++ concat ys
concat-append [] ys = refl
concat-append (x ∷ xs) ys = rw (concat-append xs ys) (sym (append_assoc x (concat xs) (concat ys)))

-- Newest first, as the query orders them.
abbrev pub Descending : List StoredSession → Type 0
Descending [] = Unit
Descending (s ∷ sessions) = All (λ t. t.id < s.id) sessions × Descending sessions

abbrev pub is_from : Bool → ℕ → StoredSession → Bool
is_from true start s = leb s.id start
is_from false start s = ltb s.id start

-- The answer of the database, of a table without a row that Scan cannot read.
abbrev pub page_of : List StoredSession → Bool → ℕ → List (Option StoredSession)
page_of table include_id start = map some (take 512 (keep (is_from include_id start) table))

pub All-map :
    {A : Type 0} (P Q : A → Type 0) → ((x : A) → P x → Q x) → (xs : List A) → All P xs → All Q xs
All-map P Q f [] h = tt
All-map P Q f (x ∷ xs) (p, h) = (f x p, All-map P Q f xs h)

keep_session-fresh :
    (s : StoredSession) (sessions : List StoredSession)
    → All (λ t. s.id < t.id) sessions
    → keep_session s sessions ≡ sessions ++ s ∷ []
unfolding keep_session
keep_session-fresh s [] h = refl
keep_session-fresh s (t ∷ sessions) (lt, h) = rw (keep_session-fresh s sessions h) (ground arith)

abbrev pub last_of : ℕ → List StoredSession → ℕ
last_of last [] = last
last_of last (s ∷ sessions) = last_of s.id sessions

abbrev pub Sent : Page → List StoredSession → ℕ → ℕ → Type 0
Sent page all_sessions last count =
    (concat page.batches ≡ all_sessions)
    × (page.last_id ≡ last)
    × (page.count ≡ count)
    × All (λ b. length b ≤ 65) page.batches

sent_one :
    (sent : List (List StoredSession)) (sessions rows : List StoredSession) (s : StoredSession)
    → concat (sent ++ (sessions ++ s ∷ []) ∷ []) ++ rows ≡ concat sent ++ (sessions ++ s ∷ rows)
sent_one sent sessions rows s =
    rw
      (
        concat-append sent ((sessions ++ s ∷ []) ∷ []),
        append-nil (sessions ++ s ∷ []),
        append_assoc (concat sent) (sessions ++ s ∷ []) rows,
        append_assoc sessions (s ∷ []) rows,
      )
      refl

module _ (not_before not_after : ℕ) where
  abbrev pub IsIn : StoredSession → Type 0
  IsIn s = (is_out not_before not_after s ≡ false) × (0 < s.id)

  pub read_rows-Sent :
      (sent : List (List StoredSession)) (sessions rows : List StoredSession) (last count : ℕ)
      → All IsIn rows
      → Descending rows
      → All (λ t. All (λ s. s.id < t.id) rows) sessions
      → length sessions ≤ 64
      → All (λ b. length b ≤ 65) sent
      → (page : Page) × (read_rows not_before not_after sent sessions last count (map some rows)
          ≡ ok page)
        × Sent page (concat sent ++ (sessions ++ rows)) (last_of last rows) (count + length rows)
  unfolding read_rows
  read_rows-Sent sent sessions [] last count good desc above small small_sent = (
    _,
    refl,
    (
      concat-append sent (sessions ∷ []),
      refl,
      omega arith,
      All-append _ sent (sessions ∷ []) small_sent (omega (arith, small), tt),
    ),
  )
  read_rows-Sent sent sessions (s ∷ rows) last count ((inside, pos), good) (below, desc) above small
        small_sent =
      let fresh = keep_session-fresh s sessions (All-map _ _ (λ t h. h.0) sessions above) in
      let valid : eqb s.id 0 ≡ false = ground (arith, pos) in
      let grown = length-append sessions (s ∷ []) in
      elim (Bool-cases (ltb 64 (length (sessions ++ s ∷ [])))) [
        | inl full ↦
            let (page, e, (c, l, n, b)) =
              read_rows-Sent (sent ++ (sessions ++ s ∷ []) ∷ []) [] rows s.id (count + 1) good desc
                tt (omega arith)
                (All-append _ sent ((sessions ++ s ∷ []) ∷ []) small_sent
                  (omega (arith, grown, small), tt)) in
            (
              page,
              rw (fresh, valid, inside, full) e,
              (c ∙ sent_one sent sessions rows s, l, omega (arith, n), b),
            )
        | inr room ↦
            let (page, e, (c, l, n, b)) =
              read_rows-Sent sent (sessions ++ s ∷ []) rows s.id (count + 1) good desc
                (All-append _ sessions (s ∷ []) (All-map _ _ (λ t h. h.1) sessions above)
                  (below, tt))
                (ground (arith, room)) small_sent in
            (
              page,
              rw (fresh, valid, inside, room) e,
              (
                c ∙ ap (λ l. concat sent ++ l) (append_assoc sessions (s ∷ []) rows),
                l,
                omega (arith, n),
                b,
              ),
            )
      ]

abbrev pub is_below : ℕ → StoredSession → Bool
is_below x s = ltb s.id x

pub All-keep :
    {A : Type 0} (P : A → Type 0) (p : A → Bool) (xs : List A) → All P xs → All P (keep p xs)
All-keep P p [] h = tt
All-keep P p (x ∷ xs) (one, h) = elim (Bool-cases (p x)) [
  | inl stays ↦ rw stays (one, All-keep P p xs h)
  | inr goes ↦ rw goes (All-keep P p xs h)
]

pub All-take : {A : Type 0} (P : A → Type 0) (n : ℕ) (xs : List A) → All P xs → All P (take n xs)
All-take P zero xs h = tt
All-take P (suc n) [] h = tt
All-take P (suc n) (x ∷ xs) (one, h) = (one, All-take P n xs h)

pub Descending-keep :
    (p : StoredSession → Bool) (sessions : List StoredSession)
    → Descending sessions
    → Descending (keep p sessions)
Descending-keep p [] h = tt
Descending-keep p (s ∷ sessions) (below, h) = elim (Bool-cases (p s)) [
  | inl stays ↦ rw stays (All-keep _ p sessions below, Descending-keep p sessions h)
  | inr goes ↦ rw goes (Descending-keep p sessions h)
]

pub Descending-take :
    (n : ℕ) (sessions : List StoredSession) → Descending sessions → Descending (take n sessions)
Descending-take zero sessions h = tt
Descending-take (suc n) [] h = tt
Descending-take (suc n) (s ∷ sessions) (below, h) =
    (All-take _ n sessions below, Descending-take n sessions h)

pub keep_whole :
    (p : StoredSession → Bool) (sessions : List StoredSession)
    → All (λ s. p s ≡ true) sessions
    → keep p sessions ≡ sessions
keep_whole p [] h = refl
keep_whole p (s ∷ sessions) (one, h) = rw (one, keep_whole p sessions h) refl

ltb_irrefl : (x : ℕ) → ltb x x ≡ false
ltb_irrefl x = ground arith

pub keep-keep :
    (x y : ℕ) (sessions : List StoredSession)
    → x ≤ y
    → keep (is_below x) (keep (is_below y) sessions) ≡ keep (is_below x) sessions
keep-keep x y [] h = refl
keep-keep x y (s ∷ sessions) h = ground (arith, h, keep-keep x y sessions h)

pub All-below :
    (x : ℕ) (sessions : List StoredSession) → All (λ s. s.id < x) (keep (is_below x) sessions)
All-below x [] = tt
All-below x (s ∷ sessions) = elim (Bool-cases (ltb s.id x)) [
  | inl lt ↦ rw lt (ground (arith, lt), All-below x sessions)
  | inr ge ↦ rw ge (All-below x sessions)
]

pub last_of-lt :
    (x d : ℕ) (sessions : List StoredSession)
    → d < x
    → All (λ s. s.id < x) sessions
    → last_of d sessions < x
last_of-lt x d [] lt h = lt
last_of-lt x d (s ∷ sessions) lt (one, h) = last_of-lt x s.id sessions one h

-- Below the last session of a page are the sessions after the page.
pub keep-last_of :
    (n d : ℕ) (s : StoredSession) (sessions : List StoredSession)
    → Descending (s ∷ sessions)
    → keep (is_below (last_of d (take (suc n) (s ∷ sessions)))) (s ∷ sessions)
      ≡ drop (suc n) (s ∷ sessions)
keep-last_of zero d s sessions (below, desc) =
    rw (ltb_irrefl s.id) (
      keep_whole (is_below s.id) sessions (All-map _ _ (λ t lt. ground (arith, lt)) sessions below))
keep-last_of (suc n) d s [] (below, desc) = rw (ltb_irrefl s.id) refl
keep-last_of (suc n) d s (t ∷ sessions) ((lt, below), desc) =
    let later : ltb s.id (last_of t.id (take n sessions)) ≡ false =
      ground (arith, last_of-lt s.id t.id (take n sessions) lt (All-take _ n sessions below)) in
    rw later (keep-last_of n s.id t sessions desc)

pub length-drop :
    (n : ℕ) (sessions : List StoredSession) → length (drop n sessions) ≤ length sessions
length-drop zero sessions = omega arith
length-drop (suc n) [] = omega arith
length-drop (suc n) (s ∷ sessions) = omega (arith, length-drop n sessions)

pub take-drop :
    (n : ℕ) (sessions : List StoredSession) → take n sessions ++ drop n sessions ≡ sessions
take-drop zero sessions = refl
take-drop (suc n) [] = refl
take-drop (suc n) (s ∷ sessions) = ap (λ l. s ∷ l) (take-drop n sessions)
