-- ===== src/Message/Inserted.antt =====
-- core/message.go: the headers that the configuration adds to each message, and a message as the text
-- that the modules hand to other programs.
use clue_getter.Prelude.{
  ◌≡◌, refl, Bool, true, false, Option, none, some, List, [], ◌∷◌, ◌++◌, eqb, if◌then◌else◌,
}
use clue_getter.Prelude.Text.{Text, text, cut, split, join, trim, ◌==◌}
use clue_getter.Address.{to_string}
use clue_getter.Message.{Header, new_header, Message}

abbrev trim_spaces : Text → Text
unfolding trim
trim_spaces = trim (λ c. eqb c b' ')

-- Whether all flags are the one that there is, "U".
unfoldable pub are_flags : List Text → Bool
unfolding ◌==◌
are_flags [] = true
are_flags (flag ∷ flags) = let rest = are_flags flags in if flag == text "U" then rest else false

abbrev pub with_flags : Text → Option (Text × Text) → Option Header
unfolding are_flags split trim
with_flags value none = none
with_flags value (some (flags, key)) =
    if are_flags (split b',' flags)
    then some (record (new_header (trim_spaces key) value) { flag_unique = true })
    else none

abbrev pub has_flags : Text → Bool
unfolding cut
has_flags [] = false
has_flags (c ∷ key) =
    if eqb c b'[' then (elim (cut b']' key) [ none ↦ false | some p ↦ true ]) else false

abbrev pub tail : Text → Text
tail [] = []
tail (c ∷ s) = s

abbrev pub header_of : Text → Text → Option Header
unfolding with_flags has_flags cut
header_of key value =
    if has_flags key then with_flags value (cut b']' (tail key)) else some (new_header key value)

abbrev pub header_from : Option (Text × Text) → Option Header
unfolding header_of trim
header_from none = none
header_from (some ([], value)) = none
header_from (some (c ∷ key, value)) = header_of (trim_spaces (c ∷ key)) (trim_spaces value)

-- A round of the loop of `messageStart`; none stands for the end of the program by log.Fatal.
unfoldable pub parse_add_header : Text → Option Header
unfolding header_from cut
parse_add_header hdr_string = header_from (cut b':' hdr_string)

-- `messageStart`: the headers that the configuration adds.
unfoldable pub message_start : List Text → Option (List Header)
unfolding parse_add_header
message_start [] = some []
message_start (s ∷ ss) =
    let rest = message_start ss in
    elim (parse_add_header s) [
      | none ↦ none
      | some hdr ↦ elim rest [ none ↦ none | some hdrs ↦ some (hdr ∷ hdrs) ]
    ]

-- What `String` reads of the session, the host and the time; the names that the address stands for are
-- none where they are not found.
pub record Printer : Type 0 where
  pub helo : Text
  pub ip : Text
  pub hostname : Text
  pub revdns : Option (List Text)
  pub now : Text

abbrev crlf : Text
crlf = 13 ∷ (10 ∷ [])

abbrev revdns_of : Option (List Text) → Text
unfolding join
revdns_of none = text "unknown"
revdns_of (some names) = join [] names

unfoldable pub header_lines : List Header → Text
header_lines [] = []
header_lines (hdr ∷ hdrs) = hdr.key ++ (text ": " ++ (hdr.value ++ (crlf ++ header_lines hdrs)))

-- `String`; a message without a session is empty.
unfoldable pub message_text : {F : Type 0} → Option Printer → Message F → Text
unfolding header_lines to_string revdns_of
message_text none msg = []
message_text (some p) msg =
    text "Received: from "
    ++ (p.helo
        ++ (text " ("
            ++ (revdns_of p.revdns
                ++ (text " ["
                    ++ (p.ip
                        ++ (text "])"
                            ++ (crlf
                                ++ (9 ∷ text "by "
                                    ++ (p.hostname
                                        ++ (text " with SMTP id "
                                            ++ (msg.queue_id
                                                ++ (text "; "
                                                    ++ (p.now
                                                        ++ (crlf
                                                            ++ (9 ∷ text "(envelope-from <"
                                                            ++ (to_string msg.sender
                                                            ++ (text ">)"
                                                            ++ (crlf
                                                            ++ (header_lines msg.headers
                                                            ++ (crlf ++ msg.body))))))))))))))))))))

message_start_tests :
    (message_start (text "X-Spam: %{x} " ∷ (text "[U] X-Host:a:b" ∷ []))
      ≡ some (
          new_header (text "X-Spam") (text "%{x}")
          ∷ (record (new_header (text "X-Host") (text "a:b")) { flag_unique = true } ∷ [])))
    × (parse_add_header (text ":a") ≡ none)
    × (parse_add_header (text "[]X: a") ≡ none)
    × (parse_add_header (text "[U,V]X: a") ≡ none)
unfolding message_start
message_start_tests = (refl, refl, refl, refl)
