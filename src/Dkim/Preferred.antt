-- ===== src/Dkim/Preferred.antt =====
-- The key that the backend prefers is one that it can sign with.
use clue_getter.Prelude.{
  ◌≡◌, refl, sym, ap, ◌∙◌, inl, inr, Bool, true, false, ◌||◌, Option, none, some, List, [], ◌∷◌,
  any, All, Among, Bool-cases, Option-cases,
}
use mathlib.Core.Path.{subst}
use clue_getter.Prelude.Text.{Text, text, ◌==◌, eq_iff}
use clue_getter.Dict.{Dict, lookup, insert, lookup-insert}
use clue_getter.Dkim.Keys.{
  Files, sha256, Signatures, key_files, read_key, read_keys, load_keys, has_key, get_preferred_key,
  sign_with_key,
}

or_false : (a : Bool) → a ≡ (a || false)
or_false true = refl
or_false false = refl

or_swap : (a b c : Bool) → ((a || b) || c) ≡ (b || (a || c))
or_swap true true c = refl
or_swap true false c = refl
or_swap false b c = refl

loaded_inj : {A : Type 0} {a b : A} → ◌≡◌ {A = Option A} (some a) (some b) → a ≡ b
loaded_inj e = cc e

module _ {K : Type 0} (files : Files K) where
  -- Whether a file has the private key of a number.
  abbrev pub file_has : Text → Text → Bool
  file_has number file = elim (read_key files file) [
    | none ↦ false
    | some key ↦ files.number key == number
  ]

  has_key-insert :
      (number : Text) (key : K) (keys : Dict K)
      → has_key (insert (files.number key) key keys) number
        ≡ (files.number key == number || has_key keys number)
  unfolding has_key
  has_key-insert number key keys = elim (Bool-cases (files.number key == number)) [
    | inl same ↦ rw (has_key, lookup-insert (files.number key) number key keys, same) refl
    | inr other ↦ rw (has_key, lookup-insert (files.number key) number key keys, other) refl
  ]

  read_keys-has_key :
      (number : Text) (keys loaded : Dict K) (found : List Text)
      → read_keys files keys found ≡ some loaded
      → has_key loaded number ≡ (has_key keys number || any (file_has number) found)
  unfolding read_keys
  read_keys-has_key number keys loaded [] e =
      ap (λ m. has_key m number) (sym (loaded_inj e)) ∙ or_false (has_key keys number)
  read_keys-has_key number keys loaded (file ∷ rest) e = elim (Option-cases (read_key files file)) [
    | inl unreadable ↦ cc (rw (unreadable, read_keys) at e)
    | inr (key, readable) ↦
        let later =
          read_keys-has_key number (insert (files.number key) key keys) loaded rest
            (rw (readable, read_keys) at e) in
        later
        ∙ rw (readable, has_key-insert number key keys, file_has)
            (or_swap (files.number key == number) (has_key keys number)
              (any (file_has number) rest))
  ]

  -- The files that the backend loads, where its patterns are valid.
  abbrev pub files_of : List Text → List Text
  files_of paths = elim (key_files files paths) [ none ↦ [] | some found ↦ found ]

  load_keys-has_key :
      (number : Text) (paths : List Text) (keys : Dict K)
      → load_keys files paths ≡ some keys
      → has_key keys number ≡ any (file_has number) (files_of paths)
  unfolding load_keys has_key
  load_keys-has_key number paths keys e = elim (Option-cases (key_files files paths)) [
    | inl invalid ↦ cc (rw (load_keys, invalid) at e)
    | inr ([], found) ↦ cc (rw (load_keys, found) at e)
    | inr (file ∷ rest, found) ↦
        rw (files_of, found)
          (read_keys-has_key number [] keys (file ∷ rest) (rw (load_keys, found) at e))
  ]

  -- Each private key stands under its own number.
  abbrev IsKeyed : Dict K → Type 0
  IsKeyed keys = (n : Text) (key : K) → lookup n keys ≡ some key → files.number key ≡ n

  insert-IsKeyed :
      (key : K) (keys : Dict K) → IsKeyed keys → IsKeyed (insert (files.number key) key keys)
  insert-IsKeyed key keys h n other e = elim (Bool-cases (files.number key == n)) [
    | inl same ↦
        let this = loaded_inj (rw (lookup-insert (files.number key) n key keys, same) at e) in
        ap files.number (sym this) ∙ (eq_iff (files.number key) n).0 same
    | inr differs ↦ h n other (rw (lookup-insert (files.number key) n key keys, differs) at e)
  ]

  read_keys-IsKeyed :
      (keys loaded : Dict K) (found : List Text)
      → read_keys files keys found ≡ some loaded
      → IsKeyed keys
      → IsKeyed loaded
  unfolding read_keys
  read_keys-IsKeyed keys loaded [] e h = subst IsKeyed (loaded_inj e) h
  read_keys-IsKeyed keys loaded (file ∷ rest) e h = elim (Option-cases (read_key files file)) [
    | inl unreadable ↦ cc (rw (unreadable, read_keys) at e)
    | inr (key, readable) ↦
        read_keys-IsKeyed (insert (files.number key) key keys) loaded rest
          (rw (readable, read_keys) at e) (insert-IsKeyed key keys h)
  ]

  load_keys-IsKeyed :
      (paths : List Text) (keys : Dict K) → load_keys files paths ≡ some keys → IsKeyed keys
  unfolding load_keys lookup
  load_keys-IsKeyed paths keys e = elim (Option-cases (key_files files paths)) [
    | inl invalid ↦ cc (rw (load_keys, invalid) at e)
    | inr ([], found) ↦ cc (rw (load_keys, found) at e)
    | inr (file ∷ rest, found) ↦
        read_keys-IsKeyed [] keys (file ∷ rest) (rw (load_keys, found) at e)
          (λ n key none_there. cc none_there)
  ]

  abbrev base64_of : Signatures K → Option Text → Option Text
  base64_of s none = none
  base64_of s (some signature) = some (s.base64 signature)

  -- What is known of the preferred key, and of a signature with it.
  abbrev pub IsPreferred :
      Signatures K → Text → Dict K → List Text → List Text → Option Text → Type 0
  IsPreferred s message keys found numbers none = All (λ n. any (file_has n) found ≡ false) numbers
  IsPreferred s message keys found numbers (some n) =
      Among n numbers
      × ((key : K) × (files.number key ≡ n)
          × (sign_with_key s keys n message (text "sha256")
              ≡ base64_of s (s.sign_pkcs1 key sha256 (s.sum sha256 message))))

  sign_with_key_lem :
      (s : Signatures K) (keys : Dict K) (n message : Text) (key : K)
      → lookup n keys ≡ some key
      → sign_with_key s keys n message (text "sha256")
        ≡ base64_of s (s.sign_pkcs1 key sha256 (s.sum sha256 message))
  unfolding sign_with_key ◌==◌
  sign_with_key_lem s keys n message key at =
      elim (Option-cases (s.sign_pkcs1 key sha256 (s.sum sha256 message))) [
        | inl refused ↦ rw (sign_with_key, at, refused) refl
        | inr (signature, signed) ↦ rw (sign_with_key, at, signed) refl
      ]

  IsPreferred-next :
      (s : Signatures K) (message : Text) (keys : Dict K) (found : List Text) (number : Text)
      (numbers : List Text) (preferred : Option Text)
      → any (file_has number) found ≡ false
      → IsPreferred s message keys found numbers preferred
      → IsPreferred s message keys found (number ∷ numbers) preferred
  IsPreferred-next s message keys found number numbers none lacks h = (lacks, h)
  IsPreferred-next s message keys found number numbers (some n) lacks (among, h) = (inr among, h)

  -- Where the keys could be loaded: the key that is preferred is one of those that are offered, and
  -- signing with it uses the private key of its number, so it fails only if RSA does; no key is
  -- preferred only where no file has the private key of any of them.
  pub get_preferred_key_lem :
      (s : Signatures K) (message : Text) (paths : List Text) (keys : Dict K) (numbers : List Text)
      → load_keys files paths ≡ some keys
      → IsPreferred s message keys (files_of paths) numbers (get_preferred_key keys numbers)
  unfolding get_preferred_key
  get_preferred_key_lem s message paths keys [] e = tt
  get_preferred_key_lem s message paths keys (number ∷ numbers) e =
      elim (Bool-cases (has_key keys number)) [
        | inl has ↦ rw has elim (Option-cases (lookup number keys)) [
          | inl missing ↦ cc (rw (has_key, missing) at has)
          | inr (key, at) ↦ (
            inl refl,
            (
              key,
              load_keys-IsKeyed paths keys e number key at,
              sign_with_key_lem s keys number message key at,
            ),
          )
        ]
        | inr lacks ↦ rw lacks (
            IsPreferred-next s message keys (files_of paths) number numbers
              (get_preferred_key keys numbers) (sym (load_keys-has_key number paths keys e) ∙ lacks)
              (get_preferred_key_lem s message paths keys numbers e))
      ]
