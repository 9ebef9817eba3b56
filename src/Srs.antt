-- ===== src/Srs.antt =====
-- srs/srs.go: forwarded mail gets a sender in a domain of this host, and a bounce to that sender goes
-- to the one it stands for. Redis is a parameter; what the module asks the milter to do is a list.
pub mod Forwarded
pub mod Domains
pub mod Bounces
mod Tests
use clue_getter.Prelude.{
  ℕ, zero, suc, ◌+◌, ◌-◌, ◌*◌, Bool, true, false, not, ◌&&◌, ◌||◌, none, some, Option, List, [],
  ◌∷◌, ◌++◌, if◌then◌else◌, length, get_elem?, take, drop, keep, any, eqb, ltb, leb, map,
}
use clue_getter.Prelude.Text.{Text, text, is_empty, to_lower, equal_fold, ◌==◌}
use clue_getter.Prelude.Go.{Go, ok, panic, ◌>>=◌}
use clue_getter.Dict.{Dict, insert}
use clue_getter.Address.{Address, from_string, to_string}
use clue_getter.Message.{Action, permit, reject, Header, Message}

-- What the module uses of redis: GET of a key at a time, empty for an error too, and SET of a key
-- at a time to a value for a number of seconds.
pub record Redis (S : Type 0) : Type 0 where
  pub get : S → ℕ → Text → Text
  pub put : S → ℕ → Text → Text → ℕ → S

pub record SrsConfig : Type 0 where
  pub enabled : Bool
  pub recipient_header : Text

-- What stands behind "SRS" in an address: digits, at least one, and a "=".
abbrev pub digits_then_equals : Bool → Text → Bool
digits_then_equals seen [] = false
digits_then_equals seen (c ∷ s) =
    if leb b'0' c && leb c b'9' then digits_then_equals true s else seen && eqb c b'='

abbrev pub behind_srs : Text → Bool
behind_srs (s ∷ (r ∷ (s' ∷ rest))) =
    eqb s b's' && eqb r b'r' && eqb s' b's' && digits_then_equals false rest
behind_srs _ = false

-- `srsMatch`
unfoldable pub srs_match : Text → Bool
unfolding to_lower
srs_match local = behind_srs (to_lower local)

unfoldable pub is_srs_address : SrsConfig → Address → Bool
unfolding srs_match
is_srs_address config a = if not config.enabled then false else srs_match a.local

unfoldable pub entry_key : Text → Text
unfolding to_lower
entry_key a = to_lower (text "cluegetter--srs-entry-" ++ a)

module _ {S : Type 0} (redis : Redis S) where
  unfoldable pub lookup_address : S → ℕ → Address → Text
  unfolding entry_key to_string
  lookup_address store now a = redis.get store now (entry_key (to_string a))

  unfoldable pub persist : {F : Type 0} → S → ℕ → Message F → Text → S
  unfolding entry_key to_string
  persist store now msg sender =
      redis.put store now (entry_key sender) (to_string msg.sender) (7 * 24 * 3600)

  unfoldable pub recipient_check : SrsConfig → S → ℕ → Address → Action × Text
  unfolding is_srs_address lookup_address
  recipient_check config store now rcpt =
      if not (is_srs_address config rcpt)
      then (permit, [])
      else if is_empty (lookup_address store now rcpt)
      then (reject, [])
      else (permit, [])

unfoldable pub is_recipient_header : SrsConfig → Header → Bool
unfolding equal_fold
is_recipient_header config hdr = equal_fold hdr.key config.recipient_header

-- The inner loop of `isForwarded`: whether a header names the recipient, and whether any header was
-- counted before the loop ended.
unfoldable pub names_recipient : SrsConfig → Address → List Header → Bool → Bool × Bool
unfolding is_recipient_header equal_fold to_string
names_recipient config rcpt [] counted = (false, counted)
names_recipient config rcpt (hdr ∷ hdrs) counted =
    let with_this = names_recipient config rcpt hdrs true in
    let without_this = names_recipient config rcpt hdrs counted in
    if is_recipient_header config hdr
    then (if equal_fold hdr.value (to_string rcpt) then (true, true) else with_this)
    else without_this

-- `isForwarded`
unfoldable pub is_forwarded : SrsConfig → List Header → List Address → Bool
unfolding names_recipient
is_forwarded config headers [] = false
is_forwarded config headers (rcpt ∷ rcpts) =
    let rest = is_forwarded config headers rcpts in
    let (match, counted) = names_recipient config rcpt headers false in
    if not counted then false else if not match then true else rest

-- The domains of the headers that name recipients.
unfoldable pub header_domains : SrsConfig → List Header → List Text
unfolding is_recipient_header from_string to_lower
header_domains config [] = []
header_domains config (hdr ∷ hdrs) =
    let rest = header_domains config hdrs in
    if is_recipient_header config hdr
    then (from_string (to_lower hdr.value)).domain ∷ rest
    else rest

-- The array behind the slice after append(domains[:k], domains[k+1:]...), where the slice has `len`
-- of its elements: it is as long as before.
unfoldable pub shift_down : ℕ → ℕ → List Text → List Text
shift_down k len array = take k array ++ (drop (k + 1) (take len array) ++ drop (len - 1) array)

-- The loop over the slice as it was at its start; `todo` rounds are left, `array` is what stands
-- behind the slice, and `len` the length of the slice now.
unfoldable pub remove_from : Text → ℕ → ℕ → ℕ → List Text → Go (List Text)
unfolding shift_down
remove_from rcpt_domain zero k len array = ok (take len array)
remove_from rcpt_domain (suc todo) k len array = elim (get_elem? array k) [
  | none ↦ panic
  | some domain ↦
      let stays = remove_from rcpt_domain todo (k + 1) len array in
      let removed =
        if ltb len (k + 1)
        then panic
        else remove_from rcpt_domain todo (k + 1) (len - 1) (shift_down k len array) in
      if rcpt_domain == domain then removed else stays
]

unfoldable pub remove_domain : Text → List Text → Go (List Text)
unfolding remove_from
remove_domain rcpt_domain domains =
    remove_from rcpt_domain (length domains) 0 (length domains) domains

unfoldable pub remove_domains : List Address → List Text → Go (List Text)
unfolding remove_domain to_lower
remove_domains [] domains = ok domains
remove_domains (rcpt ∷ rcpts) domains =
    remove_domain (to_lower rcpt.domain) domains >>= remove_domains rcpts

abbrev pub first_or_empty : List Text → Text
first_or_empty [] = []
first_or_empty (domain ∷ domains) = domain

module _ {F : Type 0} (config : SrsConfig) where
  -- `getRewriteDomain`
  unfoldable pub get_rewrite_domain : Message F → Go Text
  unfolding header_domains remove_domains
  get_rewrite_domain msg =
      remove_domains msg.rcpt (header_domains config msg.headers) >>= λ domains.
      ok (first_or_empty domains)

  abbrev pub srs_address : Message F → Text → Text
  srs_address msg domain =
      text "SRS0="
      ++ (msg.queue_id ++ b'=' ∷ (msg.sender.domain ++ b'=' ∷ (msg.sender.local ++ b'@' ∷ domain)))

  -- `getFromAddress`
  unfoldable pub get_from_address : Message F → Go Text
  unfolding is_forwarded get_rewrite_domain to_string
  get_from_address msg =
      if not config.enabled
      then ok []
      else if not (is_forwarded config msg.headers msg.rcpt)
      then ok []
      else if is_empty (to_string msg.sender)
      then ok []
      else get_rewrite_domain msg >>= λ domain.
          ok (if is_empty domain then [] else srs_address msg domain)

  -- `getInboundSrsAddresses`
  unfoldable pub get_inbound_srs_addresses : Message F → List Address
  unfolding is_srs_address
  get_inbound_srs_addresses msg = keep (is_srs_address config) msg.rcpt

-- What the module has the milter change.
pub data MilterCall : Type 0 where
  change_from : Text → MilterCall
  del_rcpt add_rcpt : Text → MilterCall

pub record SrsResult : Type 0 where
  pub calls : List MilterCall
  -- the sender under which an entry is kept
  pub persisted : Option Text
  pub sender : Text
  pub forwarded : Bool
  pub mapped : Dict Text

module _ {S : Type 0} (redis : Redis S) (config : SrsConfig) (store : S) (now : ℕ) where
  -- `swapRecipients`: the calls and the map.
  unfoldable pub swap_recipients :
      List Address → List MilterCall × Dict Text → List MilterCall × Dict Text
  unfolding lookup_address insert to_string
  swap_recipients [] done = done
  swap_recipients (a ∷ rest) (calls, mapped) =
      let found = lookup_address redis store now a in
      swap_recipients rest
        (calls ++ del_rcpt (to_string a) ∷ (add_rcpt found ∷ []), insert (to_string a) found mapped)

  unfoldable pub rewrite_sender : {F : Type 0} → Message F → Text → SrsResult
  rewrite_sender msg sender = record {
    calls = if is_empty sender then [] else change_from sender ∷ [];
    persisted = if is_empty sender then none else some sender;
    sender = sender;
    forwarded = is_forwarded config msg.headers msg.rcpt;
    mapped = [];
  }

  -- `MessageCheck`, whose suggestion is always to permit.
  unfoldable pub message_check : {F : Type 0} → Message F → Go SrsResult
  unfolding swap_recipients rewrite_sender get_inbound_srs_addresses get_from_address
  message_check msg = elim (get_inbound_srs_addresses config msg) [
    | [] ↦ get_from_address config msg >>= λ sender. ok (rewrite_sender msg sender)
    | a ∷ rest ↦
        let (calls, mapped) = swap_recipients (a ∷ rest) ([], []) in
        ok (record {
          calls = calls;
          persisted = none;
          sender = [];
          forwarded = is_forwarded config msg.headers msg.rcpt;
          mapped = mapped;
        })
  ]
