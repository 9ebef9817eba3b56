-- ===== src/Milter/Networks.antt =====
-- What the whitelist lets in: the addresses of the configured networks.
use Prim.Native.Nat.{bit_and, bit_or, bit_xor}
use clue_getter.Prelude.{
  if◌then◌else◌, ◌≤◌, eqb_iff, ap, ◌∙◌, ℕ, zero, suc, ◌+◌, ◌-◌, ◌%◌, ◌^◌, ◌<◌, ◌≡◌, refl, Bool,
  true, false, ◌&&◌, List, [], ◌∷◌, length, leb, eqb, All, arith, inl, inr, Bool-cases,
}
use clue_getter.Milter.{bytes_le}
use clue_getter.Milter.Whitelist.{mask_of, last_ip}

-- On addresses of one length: the bytes are the same under the mask.
unfoldable pub same_masked : List ℕ → List ℕ → List ℕ → Bool
same_masked [] mask t = true
same_masked (v ∷ ip) [] t = true
same_masked (v ∷ ip) (m ∷ mask) [] = false
same_masked (v ∷ ip) (m ∷ mask) (x ∷ t) = eqb (bit_and v m) (bit_and x m) && same_masked ip mask t

-- The test passes for the numbers up to a bound, by trying them from the bound down.
tried : (ℕ → Bool) → ℕ → Bool
tried test zero = test 0
tried test (suc bound) = if test (suc bound) then tried test bound else false

tried_passes :
    (test : ℕ → Bool) (bound : ℕ)
    → tried test bound ≡ true
    → (byte : ℕ) → byte ≤ bound
    → test byte ≡ true
unfolding tried
tried_passes test zero passes zero h = passes
tried_passes test zero passes (suc byte) h = absurd (omega (arith, h))
tried_passes test (suc bound) passes byte h = elim (Bool-cases (test (suc bound))) [
  | inr fails ↦ cc (rw fails at passes)
  | inl top ↦ elim (Bool-cases (eqb byte (suc bound))) [
    | inl here ↦ ap test ((eqb_iff byte (suc bound)).0 here) ∙ top
    | inr lower ↦ tried_passes test bound (rw top at passes) byte (ground (arith, lower, h))
  ]
]

-- What a byte of a mask does to the bytes, with the size of the block that it leaves open.
abbrev is_mask_at : ℕ → ℕ → ℕ → Bool
is_mask_at m size x =
    eqb (bit_and x m + x % size) x && eqb (bit_or x (bit_xor m 255) + x % size + 1) (x + size)

abbrev IsMask : ℕ → ℕ → Type 0
IsMask m size =
    (x : ℕ)
    → x < 256
    → (bit_and x m + x % size ≡ x) × (bit_or x (bit_xor m 255) + x % size + 1 ≡ x + size)

table_sound : (m size : ℕ) → tried (is_mask_at m size) 255 ≡ true → IsMask m size
table_sound m size h x lt =
    let e = tried_passes (is_mask_at m size) 255 h x (omega (arith, lt)) in
    (ground (arith, e), ground (arith, e))

full-IsMask : IsMask 255 1
unfolding tried
full-IsMask = table_sound 255 1 refl

partial-IsMask : (ones : ℕ) → ones < 8 → IsMask (256 - 2 ^ (8 - ones)) (2 ^ (8 - ones))
unfolding tried
partial-IsMask zero h = table_sound 0 256 refl
partial-IsMask (suc zero) h = table_sound 128 128 refl
partial-IsMask (suc (suc zero)) h = table_sound 192 64 refl
partial-IsMask (suc (suc (suc zero))) h = table_sound 224 32 refl
partial-IsMask (suc (suc (suc (suc zero)))) h = table_sound 240 16 refl
partial-IsMask (suc (suc (suc (suc (suc zero))))) h = table_sound 248 8 refl
partial-IsMask (suc (suc (suc (suc (suc (suc zero)))))) h = table_sound 252 4 refl
partial-IsMask (suc (suc (suc (suc (suc (suc (suc zero))))))) h = table_sound 254 2 refl
partial-IsMask (suc (suc (suc (suc (suc (suc (suc (suc n)))))))) h = absurd (omega (arith, h))

-- A block of a network: the bytes from a multiple of its size on.
abbrev IsBlock : ℕ → Type 0
IsBlock size = (v x : ℕ) → v % size ≡ 0 → (leb v x && leb x (v + (size - 1))) ≡ eqb v (x - x % size)

partial-IsBlock : (ones : ℕ) → ones < 8 → IsBlock (2 ^ (8 - ones))
partial-IsBlock zero h = λ v x e. ground (arith, e)
partial-IsBlock (suc zero) h = λ v x e. ground (arith, e)
partial-IsBlock (suc (suc zero)) h = λ v x e. ground (arith, e)
partial-IsBlock (suc (suc (suc zero))) h = λ v x e. ground (arith, e)
partial-IsBlock (suc (suc (suc (suc zero)))) h = λ v x e. ground (arith, e)
partial-IsBlock (suc (suc (suc (suc (suc zero))))) h = λ v x e. ground (arith, e)
partial-IsBlock (suc (suc (suc (suc (suc (suc zero)))))) h = λ v x e. ground (arith, e)
partial-IsBlock (suc (suc (suc (suc (suc (suc (suc zero))))))) h = λ v x e. ground (arith, e)
partial-IsBlock (suc (suc (suc (suc (suc (suc (suc (suc n)))))))) h = absurd (omega (arith, h))

-- The bytes of an address under a mask, which the mask leaves as they are.
abbrev pub IsMasked : List ℕ → List ℕ → Type 0
IsMasked [] [] = Unit
IsMasked [] (m ∷ mask) = ⊥
IsMasked (v ∷ ip) [] = ⊥
IsMasked (v ∷ ip) (m ∷ mask) = (v < 256) × (bit_and v m ≡ v) × IsMasked ip mask

abbrev pub is_in_range : List ℕ → List ℕ → List ℕ → Bool
is_in_range ip mask t = bytes_le ip t && bytes_le t (last_ip ip mask)

-- Behind the last one of a mask, all addresses are in the range.
open_range :
    (bytes : ℕ) (ip t : List ℕ)
    → IsMasked ip (mask_of bytes 0)
    → All (λ x. x < 256) t
    → length t ≡ bytes
    → (bytes_le ip t ≡ true)
      × (bytes_le t (last_ip ip (mask_of bytes 0)) ≡ true)
      × (same_masked ip (mask_of bytes 0) t ≡ true)
unfolding mask_of bytes_le last_ip same_masked
open_range zero [] [] h small len = (refl, refl, refl)
open_range zero (v ∷ ip) t h small len = elim h [ ]
open_range (suc bytes) [] t h small len = elim h [ ]
open_range zero [] (x ∷ t) h small len = absurd (omega (arith, len))
open_range (suc bytes) (v ∷ ip) [] h small len = absurd (omega (arith, len))
open_range (suc bytes) (v ∷ ip) (x ∷ t) (lt, masked, h) (x_lt, small) len =
    let (low, high, same) = open_range bytes ip t h small (omega (arith, len)) in
    let (v_and, v_or) = partial-IsMask 0 (omega arith) v lt in
    let (x_and, x_or) = partial-IsMask 0 (omega arith) x x_lt in
    (
      ground (arith, low, masked, v_and),
      ground (arith, high, masked, v_and, v_or),
      ground (arith, same, masked, v_and, x_and),
    )

full_step :
    (v x : ℕ) (ip mask t : List ℕ)
    → v < 256
    → x < 256
    → is_in_range ip mask t ≡ same_masked ip mask t
    → is_in_range (v ∷ ip) (255 ∷ mask) (x ∷ t) ≡ same_masked (v ∷ ip) (255 ∷ mask) (x ∷ t)
unfolding bytes_le last_ip same_masked
full_step v x ip mask t v_lt x_lt rest =
    let (v_and, v_or) = full-IsMask v v_lt in
    let (x_and, x_or) = full-IsMask x x_lt in ground (arith, rest, v_and, v_or, x_and, x_or)

last_step :
    (bytes ones v x : ℕ) (ip t : List ℕ)
    → ones < 8
    → v < 256
    → x < 256
    → bit_and v (256 - 2 ^ (8 - ones)) ≡ v
    → IsMasked ip (mask_of bytes 0)
    → All (λ x. x < 256) t
    → length t ≡ bytes
    → is_in_range (v ∷ ip) ((256 - 2 ^ (8 - ones)) ∷ mask_of bytes 0) (x ∷ t)
      ≡ same_masked (v ∷ ip) ((256 - 2 ^ (8 - ones)) ∷ mask_of bytes 0) (x ∷ t)
unfolding bytes_le last_ip same_masked
last_step bytes ones v x ip t few v_lt x_lt masked h small len =
    let (low, high, same) = open_range bytes ip t h small len in
    let (v_and, v_or) = partial-IsMask ones few v v_lt in
    let (x_and, x_or) = partial-IsMask ones few x x_lt in
    let in_block = partial-IsBlock ones few v x (omega (arith, masked, v_and)) in
    ground (arith, low, high, same, masked, v_and, v_or, x_and, in_block)

pub in_range :
    (bytes ones : ℕ) (ip t : List ℕ)
    → IsMasked ip (mask_of bytes ones)
    → All (λ x. x < 256) t
    → length t ≡ bytes
    → is_in_range ip (mask_of bytes ones) t ≡ same_masked ip (mask_of bytes ones) t
unfolding mask_of same_masked bytes_le
in_range zero ones [] [] h small len = refl
in_range zero ones [] (x ∷ t) h small len = absurd (omega (arith, len))
in_range zero ones (v ∷ ip) t h small len = elim h [ ]
in_range (suc bytes) ones ip [] h small len = absurd (omega (arith, len))
in_range (suc bytes) ones [] (x ∷ t) h small len = elim (Bool-cases (leb 8 ones)) [
  | inl full ↦ absurd (rw full at h)
  | inr last ↦ absurd (rw last at h)
]
in_range (suc bytes) ones (v ∷ ip) (x ∷ t) h (x_lt, small) len = elim (Bool-cases (leb 8 ones)) [
  | inl full ↦
      let (v_lt, masked, rest) : (v < 256)
          × (bit_and v 255 ≡ v)
          × IsMasked ip (mask_of bytes (ones - 8)) =
        rw full at h in
      rw full (
        full_step v x ip (mask_of bytes (ones - 8)) t v_lt x_lt
          (in_range bytes (ones - 8) ip t rest small (omega (arith, len))))
  | inr last ↦
      let (v_lt, masked, rest) : (v < 256)
          × (bit_and v (256 - 2 ^ (8 - ones)) ≡ v)
          × IsMasked ip (mask_of bytes 0) =
        rw last at h in
      rw last (
        last_step bytes ones v x ip t (ground (arith, last)) v_lt x_lt masked rest small
          (omega (arith, len)))
]
