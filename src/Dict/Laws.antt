-- ===== src/Dict/Laws.antt =====
-- Go maps with string keys: the operations, and one law for each pair of them.
use clue_getter.Prelude.{
  ℕ, ◌+◌, ◌≡◌, refl, Bool, false, ◌||◌, Option, none, some, List, [], ◌∷◌, arith, if◌then◌else◌,
}
use clue_getter.Prelude.Text.{Text, ◌==◌, eq_iff}

abbrev pub Dict {ℓ} : Type ℓ → Type ℓ
Dict V = List (Text × V)

-- Whether a key is among the keys.
abbrev pub mem : Text → List Text → Bool
mem k [] = false
mem k (j ∷ js) = j == k || mem k js

module _ {ℓ} {V : Type ℓ} where
  -- v, ok := m[k]
  unfoldable pub lookup : Text → Dict V → Option V
  lookup wanted [] = none
  lookup wanted ((key, value) ∷ entries) =
      let later = lookup wanted entries in if key == wanted then some value else later

  -- m[k] = v
  unfoldable pub insert : Text → V → Dict V → Dict V
  insert key value [] = (key, value) ∷ []
  insert key value (entry ∷ entries) =
      let later = insert key value entries in
      if entry.0 == key then (key, value) ∷ entries else entry ∷ later

  -- delete(m, k)
  unfoldable pub delete : Text → Dict V → Dict V
  delete k [] = []
  delete k ((j, v) ∷ m) = let rest = delete k m in if j == k then rest else (j, v) ∷ rest

  -- The keys whose values pass a test.
  unfoldable pub keys_where : (V → Bool) → Dict V → List Text
  keys_where p [] = []
  keys_where p ((j, v) ∷ m) = let rest = keys_where p m in if p v then j ∷ rest else rest

  pub lookup-insert :
      (k j : Text) (v : V) (m : Dict V)
      → lookup j (insert k v m) ≡ (if k == j then some v else lookup j m)
  unfolding insert lookup
  lookup-insert key other value [] = refl
  lookup-insert key other value ((first, old) ∷ entries) = ground (
    arith,
    eq_iff first other,
    eq_iff first key,
    eq_iff key other,
    lookup-insert key other value entries,
  )

  pub lookup-delete :
      (k j : Text) (m : Dict V) → lookup j (delete k m) ≡ (if k == j then none else lookup j m)
  unfolding lookup delete
  lookup-delete k j [] = ground arith
  lookup-delete k j ((i, w) ∷ m) =
      ground (arith, eq_iff k j, eq_iff i k, eq_iff i j, lookup-delete k j m)

  -- No key is bound twice.
  abbrev pub IsDistinct : Dict V → Type ℓ
  IsDistinct [] = Unit
  IsDistinct ((j, v) ∷ m) = (lookup j m ≡ none) × IsDistinct m

  pub insert-IsDistinct : (k : Text) (v : V) (m : Dict V) → IsDistinct m → IsDistinct (insert k v m)
  unfolding lookup insert
  insert-IsDistinct k v [] h = (refl, tt)
  insert-IsDistinct k v ((j, w) ∷ m) (fresh, h) =
      ground (arith, insert-IsDistinct k v m h, lookup-insert k j v m, eq_iff j k, eq_iff k j)

  pub delete-IsDistinct : (k : Text) (m : Dict V) → IsDistinct m → IsDistinct (delete k m)
  unfolding delete
  delete-IsDistinct k [] h = tt
  delete-IsDistinct k ((j, w) ∷ m) (fresh, h) =
      ground (arith, delete-IsDistinct k m h, lookup-delete k j m)

  abbrev pub passes : (V → Bool) → Option V → Bool
  passes p none = false
  passes p (some v) = p v

  mem-keys_where-none :
      (p : V → Bool) (k : Text) (m : Dict V) → lookup k m ≡ none → mem k (keys_where p m) ≡ false
  unfolding lookup keys_where
  mem-keys_where-none p k [] h = refl
  mem-keys_where-none p k ((j, v) ∷ m) h = ground (arith, mem-keys_where-none p k m)

  pub mem-keys_where :
      (p : V → Bool) (k : Text) (m : Dict V)
      → IsDistinct m
      → mem k (keys_where p m) ≡ passes p (lookup k m)
  unfolding lookup keys_where
  mem-keys_where p k [] h = refl
  mem-keys_where p k ((j, v) ∷ m) (fresh, h) =
      ground (arith, mem-keys_where p k m h, mem-keys_where-none p j m, eq_iff j k)

  module _ (size : V → ℕ) where
    unfoldable pub total : Dict V → ℕ
    total [] = 0
    total ((j, v) ∷ m) = size v + total m

    abbrev pub size_at : Option V → ℕ
    size_at none = 0
    size_at (some v) = size v

    total-delete-none : (k : Text) (m : Dict V) → lookup k m ≡ none → total (delete k m) ≡ total m
    unfolding total delete lookup
    total-delete-none k [] h = refl
    total-delete-none k ((j, v) ∷ m) h = ground (arith, total-delete-none k m)

    pub total-delete :
        (k : Text) (m : Dict V) → IsDistinct m → total (delete k m) + size_at (lookup k m) ≡ total m
    unfolding total delete lookup
    total-delete k [] h = omega arith
    total-delete k ((j, v) ∷ m) (fresh, h) =
        ground (arith, total-delete k m h, total-delete-none j m fresh, eq_iff j k)

    pub total-insert :
        (k : Text) (v : V) (m : Dict V)
        → lookup k m ≡ none
        → total (insert k v m) ≡ total m + size v
    unfolding total insert lookup
    total-insert k v [] h = omega arith
    total-insert k v ((j, w) ∷ m) h = ground (arith, total-insert k v m)
