-- ===== src/Srs/Forwarded.antt =====
-- Which mail counts as forwarded.
use clue_getter.Prelude.{◌≡◌, Bool, true, false, not, ◌&&◌, ◌||◌, List, [], ◌∷◌, arith, any}
use clue_getter.Prelude.Text.{equal_fold}
use clue_getter.Address.{Address, to_string}
use clue_getter.Message.{Header}
use clue_getter.Srs.{SrsConfig, is_recipient_header, names_recipient, is_forwarded}

module _ (config : SrsConfig) where
  abbrev pub is_named_by : Address → Header → Bool
  is_named_by rcpt hdr = is_recipient_header config hdr && equal_fold hdr.value (to_string rcpt)

  names_recipient_lem :
      (rcpt : Address) (headers : List Header) (counted : Bool)
      → names_recipient config rcpt headers counted
        ≡ (any (is_named_by rcpt) headers, counted || any (is_recipient_header config) headers)
  unfolding names_recipient
  names_recipient_lem rcpt [] counted = ground arith
  names_recipient_lem rcpt (hdr ∷ hdrs) counted =
      ground (arith, names_recipient_lem rcpt hdrs counted, names_recipient_lem rcpt hdrs true)

  -- Mail is forwarded exactly when it has a header for recipients, and one of its recipients is named
  -- by none of these headers.
  pub is_forwarded_iff :
      (headers : List Header) (rcpts : List Address)
      → is_forwarded config headers rcpts ≡ (
          any (is_recipient_header config) headers
          && any (λ rcpt. not (any (is_named_by rcpt) headers)) rcpts)
  unfolding is_forwarded
  is_forwarded_iff headers [] = ground arith
  is_forwarded_iff headers (rcpt ∷ rcpts) =
      rw (names_recipient_lem rcpt headers false, is_forwarded_iff headers rcpts) (ground arith)
