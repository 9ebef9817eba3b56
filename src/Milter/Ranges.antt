-- ===== src/Milter/Ranges.antt =====
-- The test of the whitelist against the networks of the configuration.
use clue_getter.Prelude.{
  ℕ, zero, suc, ◌+◌, ◌<◌, ◌≡◌, refl, sym, ap, ◌∙◌, Bool, false, ◌&&◌, ◌⊎◌, Option, none, some, List,
  [], ◌∷◌, ◌++◌, if◌then◌else◌, length, drop, eqb, All, any, arith, inl, inr, Option-cases,
}
use clue_getter.Prelude.Text.{Text, starts_with}
use clue_getter.Prelude.Go.{Go, ok, panic, Go-cases}
use clue_getter.Milter.{Session, MilterConfig, WhitelistRange, bytes_le, is_whitelisted}
use clue_getter.Milter.Whitelist.{
  Network, mask_of, last_ip, to_16, v4_prefix, with_mask, range_of, ranges_of,
}
use clue_getter.Milter.Networks.{same_masked, IsMasked, in_range}

-- Whether the first bits of an address of 16 bytes are those of the network, where a network of 4 bytes
-- stands behind the prefix of mapped addresses. It is wider than net.IPNet.Contains, which never finds
-- a mapped address in a network of 16 bytes that is not itself mapped, such as ::/0.
unfoldable pub covers : Network → List ℕ → Bool
unfolding same_masked mask_of starts_with
covers n t =
    if eqb (length n.ip) 4
    then starts_with v4_prefix t && same_masked n.ip (mask_of (length n.ip) n.ones) (drop 12 t)
    else same_masked n.ip (mask_of (length n.ip) n.ones) t

-- What net.ParseCIDR promises of a network.
abbrev pub IsNetwork : Network → Type 0
IsNetwork n =
    ((length n.ip ≡ 4) ⊎ (length n.ip ≡ 16)) × IsMasked n.ip (mask_of (length n.ip) n.ones)

-- What To16 promises of an address: 16 bytes, or nil.
abbrev pub IsAddress : List ℕ → Type 0
IsAddress t = ((t ≡ []) ⊎ (length t ≡ 16)) × All (λ x. x < 256) t

prefix_range :
    (p a b t : List ℕ)
    → (bytes_le (p ++ a) t && bytes_le t (p ++ b))
      ≡ (starts_with p t && (bytes_le a (drop (length p) t) && bytes_le (drop (length p) t) b))
unfolding bytes_le starts_with
prefix_range [] a b t = refl
prefix_range (c ∷ p) a b [] = refl
prefix_range (c ∷ p) a b (x ∷ t) = ground (arith, prefix_range p a b t)

All-drop : (n : ℕ) (t : List ℕ) → All (λ x. x < 256) t → All (λ x. x < 256) (drop n t)
All-drop zero t h = h
All-drop (suc n) [] h = tt
All-drop (suc n) (x ∷ t) (lt, h) = All-drop n t h

length-drop : (n : ℕ) (t : List ℕ) → length t ≡ n + 4 → length (drop n t) ≡ 4
length-drop zero t h = omega (arith, h)
length-drop (suc n) [] h = absurd (omega (arith, h))
length-drop (suc n) (x ∷ t) h = length-drop n t (omega (arith, h))

length-last_ip : (ip mask : List ℕ) → IsMasked ip mask → length (last_ip ip mask) ≡ length ip
unfolding last_ip
length-last_ip [] [] h = refl
length-last_ip [] (m ∷ mask) h = elim h [ ]
length-last_ip (v ∷ ip) [] h = elim h [ ]
length-last_ip (v ∷ ip) (m ∷ mask) (lt, masked, h) = omega (arith, length-last_ip ip mask h)

abbrev range_for : Network → WhitelistRange
range_for n = record {
  ip_start = to_16 n.ip;
  ip_end = to_16 (last_ip n.ip (mask_of (length n.ip) n.ones));
}

abbrev is_in : WhitelistRange → List ℕ → Bool
is_in r t = bytes_le r.ip_start t && bytes_le t r.ip_end

is_between : List ℕ → List ℕ → List ℕ → Bool
is_between start end t = bytes_le start t && bytes_le t end

between_v4 :
    (ip end t : List ℕ)
    → length ip ≡ 4
    → length end ≡ 4
    → is_between (to_16 ip) (to_16 end) t
      ≡ (starts_with v4_prefix t && is_between ip end (drop 12 t))
unfolding to_16 is_between
between_v4 ip end t four end_four = rw (four, end_four) (prefix_range v4_prefix ip end t)

between_v6 :
    (ip end t : List ℕ)
    → length ip ≡ 16
    → length end ≡ 16
    → is_between (to_16 ip) (to_16 end) t ≡ is_between ip end t
unfolding to_16
between_v6 ip end t whole end_whole = rw (whole, end_whole) refl

nil_out :
    (ip mask end : List ℕ)
    → IsMasked ip mask
    → length ip ≡ 16
    → (bytes_le ip [] && bytes_le [] end) ≡ same_masked ip mask []
unfolding bytes_le same_masked
nil_out [] mask end h len = absurd (omega (arith, len))
nil_out (v ∷ ip) [] end h len = elim h [ ]
nil_out (v ∷ ip) (m ∷ mask) end h len = refl

is_in-covers :
    (n : Network) (t : List ℕ) → IsNetwork n → IsAddress t → is_in (range_for n) t ≡ covers n t
unfolding covers is_between
is_in-covers n t (inl four, masked) (len, small) =
    let mask = mask_of (length n.ip) n.ones in
    between_v4 n.ip (last_ip n.ip mask) t four (length-last_ip n.ip mask masked ∙ four)
    ∙ rw (ap (λ k. eqb k 4) four) (elim len [
      | inl nil ↦ rw nil refl
      | inr sixteen ↦
          ap (λ b. starts_with v4_prefix t && b)
            (in_range (length n.ip) n.ones n.ip (drop 12 t) masked (All-drop 12 t small)
              (length-drop 12 t sixteen ∙ sym four))
    ])
is_in-covers n t (inr whole, masked) (len, small) =
    let mask = mask_of (length n.ip) n.ones in
    between_v6 n.ip (last_ip n.ip mask) t whole (length-last_ip n.ip mask masked ∙ whole)
    ∙ rw (ap (λ k. eqb k 4) whole) (elim len [
      | inl nil ↦ rw nil (nil_out n.ip mask (last_ip n.ip mask) masked whole)
      | inr sixteen ↦ in_range (length n.ip) n.ones n.ip t masked small (sixteen ∙ sym whole)
    ])

ok_of_ok : {A : Type 0} {a b : A} → ◌≡◌ {A = Go A} (ok a) (ok b) → a ≡ b
ok_of_ok e = cc e

panic_ne_ok : {A : Type 0} {a : A} → ◌≡◌ {A = Go A} panic (ok a) → ⊥
panic_ne_ok e = cc e

module _ (parse_cidr : Text → Option Network) where
  -- Whether an entry of the configuration is a network with the address.
  abbrev pub entry_has : List ℕ → Text → Bool
  entry_has t entry = elim (parse_cidr (with_mask entry)) [ none ↦ false | some n ↦ covers n t ]

  ranges_of-any :
      ((s : Text) (n : Network) → parse_cidr s ≡ some n → IsNetwork n)
      → (entries : List Text) (ranges : List WhitelistRange) (t : List ℕ)
      → ranges_of parse_cidr entries ≡ ok ranges
      → IsAddress t
      → any (λ r. is_in r t) ranges ≡ any (entry_has t) entries
  unfolding ranges_of range_of
  ranges_of-any law [] ranges t e h = ap (any (λ r. is_in r t)) (sym (ok_of_ok e))
  ranges_of-any law (entry ∷ entries) ranges t e h =
      elim (Option-cases (parse_cidr (with_mask entry))) [
        | inl invalid ↦ absurd (panic_ne_ok (rw (invalid, range_of) at e))
        | inr (n, parsed) ↦ elim (Go-cases (ranges_of parse_cidr entries)) [
          | inl panics ↦ absurd (panic_ne_ok (rw (parsed, range_of, panics) at e))
          | inr (rest, read) ↦
              let made : range_for n ∷ rest ≡ ranges =
                ok_of_ok (rw (parsed, range_of, read) at e) in
              let others = ranges_of-any law entries rest t read h in
              let this = is_in-covers n t (law (with_mask entry) n parsed) h in
              rw (← made, this, others, parsed, entry_has) refl
        ]
      ]

  -- Where the whitelist was read without a panic from the configured entries, networks are masked
  -- addresses of 4 or 16 bytes, and the session's address has 16 bytes or is none: the session is
  -- whitelisted exactly if the first bits of its address are those of some entry's network, both taken
  -- as 16 bytes. So an address of IPv4 is also held against the networks of IPv6, as a mapped one.
  pub is_whitelisted_lem :
      {F : Type 0} (config : MilterConfig) (s : Session F) (entries : List Text)
      → ((entry : Text) (n : Network) → parse_cidr entry ≡ some n → IsNetwork n)
      → ranges_of parse_cidr entries ≡ ok config.whitelist
      → IsAddress (config.parse_ip s.ip)
      → is_whitelisted config s ≡ any (entry_has (config.parse_ip s.ip)) entries
  unfolding is_whitelisted
  is_whitelisted_lem config s entries law read address =
      ranges_of-any law entries config.whitelist (config.parse_ip s.ip) read address
