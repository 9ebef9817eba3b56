-- ===== src/Milter/Tests.antt =====
-- Tests of the callbacks, and their theorems at concrete inputs.
use clue_getter.Prelude.{
  ℕ, ◌++◌, inl, inr, Bool-cases, any, arith, ◌≡◌, ◌≢◌, refl, sym, ◌∙◌, true, false, Option, none,
  some, List, [], ◌∷◌, if◌then◌else◌,
}
use mathlib.Core.Path.{subst}
use clue_getter.Prelude.Text.{Text, text, cut, trim, ◌==◌, eq_iff}
use clue_getter.Prelude.Go.{ok}
use clue_getter.Prelude.Float.{whole}
use clue_getter.Dict.{lookup, insert, delete}
use clue_getter.Address.{Address, from_string}
use clue_getter.Message.{SessionConfig, Message, new_message, new_header}
use clue_getter.Message.Headers.{get_header, is_header}
use clue_getter.Message.Verdict.{message_get_verdict}
use clue_getter.Milter.{Session, continue, accept, Milter, MilterConfig, Ctx, is_whitelisted}
use clue_getter.Milter.Lifecycle.{new_session}
use clue_getter.Milter.Mail.{session_info, add_message_header, eom_with}
use clue_getter.Milter.Events.{Event, connect, env_from, env_rcpt, header, close, run, run_all}
use clue_getter.Milter.Index.{IsIndexed}
use clue_getter.Milter.Isolation.{run_all-IsLocal}
use clue_getter.Milter.Answers.{status_of, eom_answers}
use clue_getter.Milter.Whitelist.{Network, mask_of, v4_prefix, with_mask, ranges_of}
use clue_getter.Milter.Ranges.{IsNetwork, IsAddress, covers, entry_has, is_whitelisted_lem}
use clue_getter.Milter.Numbers.{IsNumbered, add_message_header-IsNumbered}

abbrev session_config : SessionConfig ℕ
session_config = record {
  message_reject_score = 8;
  message_tempfail_score = 5;
  message_spamflag_score = 4;
  breaker_score = 100;
  insert_missing_message_id = true;
}

config : MilterConfig
unfolding run_all run from_string new_message lookup insert delete cut trim get_header is_header
    message_get_verdict eom_with is_whitelisted ◌==◌
config = record { noop = false; whitelist = []; parse_ip = λ s. [] }

abbrev ctx : ℕ → Text → Ctx
ctx number priv = record { number = number; priv = priv; is_kept = true; symbol = λ s. [] }

abbrev empty : Milter ℕ
empty = record { sessions = []; persisted = []; calls = [] }

empty-IsIndexed : IsIndexed empty
unfolding lookup
empty-IsIndexed u s e = absurd (cc e)

abbrev connected : Text → Event ℕ
connected id = connect session_config (λ s. s) id 7 (text "host") (text "192.0.2.1") []

-- Two connections that take turns; the second never sends a sender and panics.
abbrev turns : List (Ctx × Event ℕ)
turns =
    (ctx 1 (text "A"), connected (text "A"))
    ∷ (ctx 2 (text "B"), connected (text "B"))
    ∷ (ctx 1 (text "A"), env_from 0 [] (text "<Ann@a.org>" ∷ []))
    ∷ (ctx 2 (text "B"), header (text "Subject") (text "x"))
    ∷ (ctx 1 (text "A"), env_rcpt (λ a. []) (text "bob@b.org" ∷ []))
    ∷ (ctx 2 (text "B"), close 9)
    ∷ []

abbrev messages_of : Option (Session ℕ) → List (Message ℕ)
messages_of none = []
messages_of (some s) = s.messages

abbrev recipients_of : List (Message ℕ) → List (List Address)
recipients_of [] = []
recipients_of (msg ∷ msgs) = msg.rcpt ∷ recipients_of msgs

turns_test :
    recipients_of (messages_of (lookup (text "A") (run_all whole config empty turns).sessions))
    ≡ (from_string (text "bob@b.org") ∷ []) ∷ []
unfolding config
turns_test = refl

differ : (s t : Text) → (s == t) ≡ false → s ≢ t
differ s t h e = true_ne (sym ((eq_iff s t).1 e) ∙ h)
  where
    true_ne : true ≡ false → ⊥
    true_ne e' = cc e'

not_a : text "C" ≢ text "A"
unfolding config
not_a = differ (text "C") (text "A") refl

not_b : text "C" ≢ text "B"
unfolding config
not_b = differ (text "C") (text "B") refl

run_all-IsLocal_example :
    IsIndexed (run_all whole config empty turns)
    × (lookup (text "C") (run_all whole config empty turns).sessions
        ≡ lookup (text "C") empty.sessions)
run_all-IsLocal_example =
    run_all-IsLocal whole config (text "C") empty turns empty-IsIndexed
      (not_a, (not_b, (not_a, (not_b, (not_a, (not_b, tt))))))

abbrev mail : Message ℕ
mail = record (new_message 0 []) { rcpt = from_string (text "bob@b.org") ∷ [] }

abbrev session : Session ℕ
session =
    record (new_session session_config (ctx 1 (text "A")) (text "A") 7 (text "host")
      (text "192.0.2.1") []) { messages = mail ∷ [] }

eom_answers_example :
    (eom_with whole config [] (text "own") 9 [] empty session mail).1
    ≡ ok (
        if config.noop
        then continue
        else if is_whitelisted config session
        then accept
        else status_of
            (message_get_verdict whole session.config
              (session_info session)
              []
              (text "own")
              9
              mail
              []).verdict)
unfolding config
eom_answers_example =
    eom_answers whole config [] (text "own") 9 [] empty session mail
      (from_string (text "bob@b.org")) [] refl

abbrev one_header : Message ℕ
one_header = record mail {
  headers = record (new_header (text "Received") (text "x")) { milter_idx = 1 } ∷ [];
}

add_message_header-IsNumbered_example :
    IsNumbered [] (add_message_header (text "received") (text "y") one_header).headers
    × ((idx : ℕ) × ((add_message_header (text "received") (text "y") one_header).headers
          ≡ one_header.headers
            ++ record (new_header (text "received") (text "y")) { milter_idx = idx } ∷ []))
unfolding config
add_message_header-IsNumbered_example =
    add_message_header-IsNumbered one_header (text "received") (text "y") (refl, tt)

abbrev parse_cidr : Text → Option Network
parse_cidr entry =
    if entry == text "192.0.2.0/24"
    then some (record { ip = 192 ∷ 0 ∷ 2 ∷ 0 ∷ []; ones = 24 })
    else none

abbrev test_network : Network
test_network = record { ip = 192 ∷ 0 ∷ 2 ∷ 0 ∷ []; ones = 24 }

test_network-IsNetwork : IsNetwork test_network
unfolding mask_of
test_network-IsNetwork = (
  inl refl,
  (omega arith, refl, (omega arith, refl, (omega arith, refl, (omega arith, refl, tt)))),
)

parse_cidr-IsNetwork : (entry : Text) (n : Network) → parse_cidr entry ≡ some n → IsNetwork n
parse_cidr-IsNetwork entry n e = elim (Bool-cases (entry == text "192.0.2.0/24")) [
  | inl this ↦
      let found : test_network ≡ n = cc (rw this at e) in
      subst IsNetwork found test_network-IsNetwork
  | inr other ↦ cc (rw other at e)
]

-- The mapped addresses from 192.0.2.0 to 192.0.2.255.
abbrev listed : MilterConfig
listed = record {
  noop = false;
  whitelist =
      record {
        ip_start = v4_prefix ++ 192 ∷ 0 ∷ 2 ∷ 0 ∷ [];
        ip_end = v4_prefix ++ 192 ∷ 0 ∷ 2 ∷ 255 ∷ [];
      }
      ∷ [];
  parse_ip = λ s. v4_prefix ++ 192 ∷ 0 ∷ 2 ∷ 7 ∷ [];
}

listed_read : ranges_of parse_cidr (text "192.0.2.0/24" ∷ []) ≡ ok listed.whitelist
unfolding ranges_of ◌==◌
listed_read = refl

with_mask_test :
    (with_mask (text "::1") ≡ text "::1/128")
    × (with_mask (text "192.0.2.1") ≡ text "192.0.2.1/32")
    × (with_mask (text "10.0.0.0/8") ≡ text "10.0.0.0/8")
unfolding with_mask
with_mask_test = (refl, refl, refl)

abbrev session_a : Session ℕ
session_a =
    new_session session_config (ctx 1 (text "A")) (text "A") 7 (text "host") (text "192.0.2.7") []

listed-IsAddress : IsAddress (listed.parse_ip (text "192.0.2.7"))
listed-IsAddress = (inr refl, omega arith)

is_whitelisted_lem_example :
    is_whitelisted listed session_a
    ≡ any (entry_has parse_cidr (listed.parse_ip session_a.ip)) (text "192.0.2.0/24" ∷ [])
is_whitelisted_lem_example =
    is_whitelisted_lem parse_cidr listed session_a (text "192.0.2.0/24" ∷ []) parse_cidr-IsNetwork
      listed_read listed-IsAddress

abbrev zeros : List ℕ
zeros = 0 ∷ 0 ∷ 0 ∷ 0 ∷ 0 ∷ 0 ∷ 0 ∷ 0 ∷ 0 ∷ 0 ∷ 0 ∷ 0 ∷ 0 ∷ 0 ∷ 0 ∷ 0 ∷ []

-- A client of IPv4 is held against a network of IPv6 as a mapped address: ::/0 has it.
covers_test : covers (record { ip = zeros; ones = 0 }) (v4_prefix ++ 192 ∷ 0 ∷ 2 ∷ 7 ∷ []) ≡ true
unfolding covers
covers_test = refl
