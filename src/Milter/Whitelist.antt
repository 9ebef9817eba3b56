-- ===== src/Milter/Whitelist.antt =====
-- core/milterSession.go: the whitelist that milterSessionStart reads from the configuration.
use Prim.Native.Nat.{bit_or, bit_xor}
use clue_getter.Prelude.{
  ℕ, zero, suc, ◌-◌, ◌^◌, Option, none, some, List, [], ◌∷◌, ◌++◌, if◌then◌else◌, length, leb, eqb,
}
use clue_getter.Prelude.Text.{Text, text, contains}
use clue_getter.Prelude.Go.{Go, ok, panic, ◌>>=◌}
use clue_getter.Milter.{WhitelistRange}

-- A network of net.ParseCIDR: its address, 4 or 16 bytes, and the number of ones of its mask.
pub record Network : Type 0 where
  pub ip : List ℕ
  pub ones : ℕ

-- net.CIDRMask, as many bytes as are asked for.
unfoldable pub mask_of : ℕ → ℕ → List ℕ
mask_of zero ones = []
mask_of (suc bytes) ones =
    let full = 255 ∷ mask_of bytes (ones - 8) in
    let last = (256 - 2 ^ (8 - ones)) ∷ mask_of bytes 0 in if leb 8 ones then full else last

-- The last address of a network.
unfoldable pub last_ip : List ℕ → List ℕ → List ℕ
last_ip [] mask = []
last_ip (v ∷ ip) [] = []
last_ip (v ∷ ip) (m ∷ mask) = bit_or v (bit_xor m 255) ∷ last_ip ip mask

-- To16: an address of 4 bytes as one of 16, and nil for any other length than these.
abbrev pub v4_prefix : List ℕ
v4_prefix = 0 ∷ 0 ∷ 0 ∷ 0 ∷ 0 ∷ 0 ∷ 0 ∷ 0 ∷ 0 ∷ 0 ∷ 255 ∷ 255 ∷ []

unfoldable pub to_16 : List ℕ → List ℕ
to_16 ip = if eqb (length ip) 4 then v4_prefix ++ ip else if eqb (length ip) 16 then ip else []

-- The mask that an entry of the configuration has, or is given.
unfoldable pub with_mask : Text → Text
unfolding contains
with_mask entry =
    if contains (text "/") entry
    then entry
    else if contains (text ":") entry
    then entry ++ text "/128"
    else entry ++ text "/32"

module _ (parse_cidr : Text → Option Network) where
  -- The body of the loop over the configured entries, which panics at one that is no network.
  unfoldable pub range_of : Text → Go WhitelistRange
  unfolding mask_of last_ip to_16 with_mask
  range_of entry = elim (parse_cidr (with_mask entry)) [
    | none ↦ panic
    | some n ↦ ok (record {
      ip_start = to_16 n.ip;
      ip_end = to_16 (last_ip n.ip (mask_of (length n.ip) n.ones));
    })
  ]

  -- `milterSessionStart`, the whitelist.
  unfoldable pub ranges_of : List Text → Go (List WhitelistRange)
  unfolding range_of
  ranges_of [] = ok []
  ranges_of (entry ∷ entries) =
      range_of entry >>= λ range. ranges_of entries >>= λ ranges. ok (range ∷ ranges)
