-- ===== src/Srs/Domains.antt =====
-- The domain of a rewritten sender. The loop that looks for it cuts out of the slice that it ranges
-- over.
use clue_getter.Prelude.{
  ℕ, zero, suc, ◌+◌, ◌-◌, ◌<◌, ◌≤◌, ◌≡◌, ◌≢◌, refl, sym, ap, ◌∙◌, inl, inr, Bool, false, not, some,
  List, [], ◌∷◌, ◌++◌, arith, length, get_elem?, take, drop, keep, any, ltb, ◌||◌, All, All-append,
  length-append, get_elem?-append, take-append, drop-append, Bool-cases,
}
use mathlib.Core.Path.{subst}
use mathlib.Core.List.{append_assoc}
use clue_getter.Prelude.Text.{Text, ◌==◌, eq_iff, eq_refl, to_lower}
use clue_getter.Prelude.Go.{ok, panic}
use clue_getter.Address.{Address}
use clue_getter.Message.{Message}
use clue_getter.Srs.{
  SrsConfig, header_domains, shift_down, remove_from, remove_domain, remove_domains, first_or_empty,
  get_rewrite_domain,
}

-- No domain stands in the list twice.
abbrev pub IsDistinct : List Text → Type 0
IsDistinct [] = Unit
IsDistinct (d ∷ ds) = All (λ e. e ≢ d) ds × IsDistinct ds

suc-add : (a b : ℕ) → suc a + b ≡ suc (a + b)
suc-add a b = omega arith

zero-add : (b : ℕ) → 0 + b ≡ b
zero-add b = omega arith

module _ {ℓ} {A : Type ℓ} where
  take-length : (xs : List A) → take (length xs) xs ≡ xs
  take-length [] = refl
  take-length (x ∷ xs) = rw (take-length xs)

  drop-append_more : (xs ys : List A) (n : ℕ) → drop (length xs + n) (xs ++ ys) ≡ drop n ys
  drop-append_more [] ys n = rw (zero-add n)
  drop-append_more (x ∷ xs) ys n = rw (suc-add (length xs) n) (drop-append_more xs ys n)

  length-drop : (n : ℕ) (xs : List A) → length xs ≤ length (drop n xs) + n
  length-drop zero xs = omega arith
  length-drop (suc n) [] = omega arith
  length-drop (suc n) (x ∷ xs) = omega (arith, length-drop n xs)

  get_elem?-All :
      (P : A → Type 0) (xs : List A) (k : ℕ)
      → k < length xs
      → All P xs
      → (x : A) × (get_elem? xs k ≡ some x) × P x
  get_elem?-All P [] k h all = absurd (omega arith)
  get_elem?-All P (x ∷ xs) zero h (p, all) = (x, refl, p)
  get_elem?-All P (x ∷ xs) (suc k) h (p, all) = get_elem?-All P xs k (omega arith) all

  drop-All : (P : A → Type 0) (n : ℕ) (xs : List A) → All P xs → All P (drop n xs)
  drop-All P zero xs all = all
  drop-All P (suc n) [] all = tt
  drop-All P (suc n) (x ∷ xs) (p, all) = drop-All P n xs all

-- A loop that meets no element to remove leaves the slice as it is.
remove_from-unchanged :
    (r : Text) (todo k len : ℕ) (array : List Text)
    → All (λ d. d ≢ r) array
    → k + todo ≤ length array
    → remove_from r todo k len array ≡ ok (take len array)
unfolding remove_from
remove_from-unchanged r zero k len array others h = refl
remove_from-unchanged r (suc todo) k len array others h =
    let (d, found, ne) = get_elem?-All (λ d. d ≢ r) array k (omega arith) others in
    rw (found, remove_from-unchanged r todo (k + 1) len array others (omega arith), remove_from)
      (ground (arith, eq_iff r d))

length-middle :
    (done rest : List Text) (r : Text) → length (done ++ r ∷ rest) ≡ suc (length done + length rest)
length-middle done rest r = omega (arith, length-append done (r ∷ rest))

shift_down_lem :
    (r : Text) (done rest : List Text)
    → shift_down (length done) (suc (length done + length rest)) (done ++ r ∷ rest)
      ≡ done ++ (rest ++ drop (length rest) (r ∷ rest))
unfolding shift_down
shift_down_lem r done rest =
    let array = done ++ r ∷ rest in
    let whole : take (suc (length done + length rest)) array ≡ array =
      rw (← length-middle done rest r) (take-length array) in
    let next : length done + 1 ≡ suc (length done) = omega arith in
    let last : suc (length done + length rest) - 1 ≡ length done + length rest = omega arith in
    rw (
      whole,
      next,
      last,
      take-append done (r ∷ rest),
      drop-append done r rest,
      drop-append_more done (r ∷ rest) (length rest),
    )

take_lem :
    (done rest tail : List Text)
    → take (length done + length rest) (done ++ (rest ++ tail)) ≡ done ++ rest
take_lem done rest tail =
    rw (← length-append done rest, ← append_assoc done rest tail) (take-append (done ++ rest) tail)

-- A round that removes, in an array of which no other element is to be removed.
remove_from-shift_down :
    (r : Text) (done rest : List Text)
    → All (λ e. e ≢ r) done
    → All (λ e. e ≢ r) rest
    → remove_from r
        (length rest)
        (length done + 1)
        (length done + length rest)
        (shift_down (length done) (suc (length done + length rest)) (done ++ r ∷ rest))
      ≡ ok (done ++ rest)
unfolding remove_from
remove_from-shift_down r done [] before after =
    rw (shift_down_lem r done []) (ap ok (take_lem done [] (r ∷ [])))
remove_from-shift_down r done (e ∷ rest) before after =
    let tail = drop (length rest) (e ∷ rest) in
    let others =
      All-append (λ e. e ≢ r) done ((e ∷ rest) ++ tail) before
        (All-append (λ e. e ≢ r) (e ∷ rest) tail after
          (drop-All (λ e. e ≢ r) (length rest) (e ∷ rest) after)) in
    rw
      (
        shift_down_lem r done (e ∷ rest),
        remove_from-unchanged r (suc (length rest)) (length done + 1)
            (length done + suc (length rest)) (done ++ ((e ∷ rest) ++ tail)) others
            (omega (
              arith,
              length-append done ((e ∷ rest) ++ tail),
              length-append (e ∷ rest) tail,
              length-drop (length rest) (e ∷ rest),
            )),
      )
      (ap ok (take_lem done (e ∷ rest) tail))

keep-others : (r : Text) (ds : List Text) → All (λ e. e ≢ r) ds → keep (λ d. not (r == d)) ds ≡ ds
keep-others r [] all = refl
keep-others r (d ∷ ds) (ne, all) = ground (arith, keep-others r ds all, eq_iff r d)

remove_from-here :
    (r : Text) (done rest : List Text)
    → All (λ e. e ≢ r) done
    → All (λ e. e ≢ r) rest
    → remove_from r (suc (length rest)) (length done) (length (done ++ r ∷ rest)) (done ++ r ∷ rest)
      ≡ ok (done ++ rest)
unfolding remove_from shift_down
remove_from-here r done rest before after =
    let fits : ltb (suc (length done + length rest)) (length done + 1) ≡ false = ground arith in
    let last : suc (length done + length rest) - 1 ≡ length done + length rest = omega arith in
    rw (remove_from, get_elem?-append done r rest, eq_refl r, length-middle done rest r, fits)
      (subst
        (λ len.
          remove_from r (length rest) (length done + 1) len
            (shift_down (length done) (suc (length done + length rest)) (done ++ r ∷ rest))
          ≡ ok (done ++ rest))
        (sym last) (remove_from-shift_down r done rest before after))

-- The loop over a list in which no domain stands twice removes the domain.
remove_from_distinct :
    (r : Text) (done todo : List Text)
    → All (λ e. e ≢ r) done
    → IsDistinct todo
    → remove_from r (length todo) (length done) (length (done ++ todo)) (done ++ todo)
      ≡ ok (done ++ keep (λ d. not (r == d)) todo)
unfolding remove_from
remove_from_distinct r done [] before h = rw (take-length (done ++ []))
remove_from_distinct r done (d ∷ todo) before (fresh, h) = elim (Bool-cases (r == d)) [
  | inl same ↦
      rw (← (eq_iff r d).0 same, eq_refl r)
        (let after = subst (λ x. All (λ e. e ≢ x) todo) (sym ((eq_iff r d).0 same)) fresh in
          rw (keep-others r todo after) (remove_from-here r done todo before after))
  | inr other ↦
      let next : length done + 1 ≡ length (done ++ d ∷ []) =
        omega (arith, length-append done (d ∷ [])) in
      rw (remove_from, get_elem?-append done d todo, other, next, ← append_assoc done (d ∷ []) todo)
        (remove_from_distinct r (done ++ d ∷ []) todo
            (All-append (λ e. e ≢ r) done (d ∷ []) before (ground (arith, eq_iff r d), tt)) h
          ∙ ap ok (append_assoc done (d ∷ []) _))
]

keep-All : (P : Text → Type 0) (p : Text → Bool) (ds : List Text) → All P ds → All P (keep p ds)
keep-All P p [] all = tt
keep-All P p (d ∷ ds) (h, all) = ground (arith, keep-All P p ds all)

keep-IsDistinct : (p : Text → Bool) (ds : List Text) → IsDistinct ds → IsDistinct (keep p ds)
keep-IsDistinct p [] h = tt
keep-IsDistinct p (d ∷ ds) (fresh, h) =
    ground (arith, keep-All (λ e. e ≢ d) p ds fresh, keep-IsDistinct p ds h)

abbrev pub is_domain_of : List Address → Text → Bool
is_domain_of rcpts d = any (λ (rcpt : Address). to_lower rcpt.domain == d) rcpts

keep-twice :
    (r : Text) (p : Text → Bool) (ds : List Text)
    → keep (λ d. not (p d)) (keep (λ d. not (r == d)) ds) ≡ keep (λ d. not (r == d || p d)) ds
keep-twice r p [] = refl
keep-twice r p (d ∷ ds) = ground (arith, keep-twice r p ds)

keep-all : (ds : List Text) → keep (λ d. not false) ds ≡ ds
keep-all [] = refl
keep-all (d ∷ ds) = rw (keep-all ds)

remove_domains_distinct :
    (rcpts : List Address) (ds : List Text)
    → IsDistinct ds
    → remove_domains rcpts ds ≡ ok (keep (λ d. not (is_domain_of rcpts d)) ds)
unfolding remove_domains remove_domain
remove_domains_distinct [] ds h = rw (keep-all ds)
remove_domains_distinct (rcpt ∷ rcpts) ds h =
    let r = to_lower rcpt.domain in
    rw (
      remove_from_distinct r [] ds tt h,
      remove_domains_distinct rcpts (keep (λ d. not (r == d)) ds)
          (keep-IsDistinct (λ d. not (r == d)) ds h),
      keep-twice r (is_domain_of rcpts) ds,
    )

-- Where no two headers name recipients of one domain, the domain of a rewritten sender is the first
-- of these domains that is not the domain of a recipient; it is empty where there is none.
pub get_rewrite_domain_distinct :
    {F : Type 0} (config : SrsConfig) (msg : Message F)
    → IsDistinct (header_domains config msg.headers)
    → get_rewrite_domain config msg
      ≡ ok (
          first_or_empty
            (keep (λ d. not (is_domain_of msg.rcpt d)) (header_domains config msg.headers)))
unfolding get_rewrite_domain
get_rewrite_domain_distinct config msg h =
    rw (remove_domains_distinct msg.rcpt (header_domains config msg.headers) h)

-- Where two headers name recipients, both of them in the domain of the first recipient, the search
-- for the domain of a rewritten sender panics.
pub get_rewrite_domain_panics :
    {F : Type 0} (config : SrsConfig) (msg : Message F) (rcpt : Address) (rcpts : List Address)
    → msg.rcpt ≡ rcpt ∷ rcpts
    → header_domains config msg.headers ≡ to_lower rcpt.domain ∷ to_lower rcpt.domain ∷ []
    → get_rewrite_domain config msg ≡ panic
unfolding get_rewrite_domain remove_domains remove_domain remove_from
get_rewrite_domain_panics config msg rcpt rcpts h e =
    rw (h, e, remove_from, eq_refl (to_lower rcpt.domain)) refl
