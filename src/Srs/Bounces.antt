-- ===== src/Srs/Bounces.antt =====
-- A bounce to a rewritten sender reaches the sender that it stands for.
use clue_getter.Prelude.{
  ℕ, ◌+◌, ◌<◌, ◌≤◌, ◌≡◌, ◌≢◌, refl, sym, ap, ◌∙◌, inl, inr, Bool, true, false, not, some, [], ◌∷◌,
  ◌++◌, arith, eqb, all, Bool-cases, eqb_iff, if◌then◌else◌,
}
use clue_getter.Prelude.Text.{Text, text, cut, is_empty, lower_byte, to_lower}
use clue_getter.Prelude.Go.{Go, ok, panic, ◌>>=◌}
use clue_getter.Address.{message_parse_address, from_string, to_string}
use clue_getter.Message.{permit, Message}
use mathlib.Core.List.{append_assoc}
use clue_getter.Srs.{
  Redis, SrsConfig, srs_match, is_srs_address, entry_key, lookup_address, persist, recipient_check,
  is_forwarded, get_rewrite_domain, srs_address, get_from_address,
}

first_byte : (a : Text) (b : ℕ) (s : Text) → (x : ℕ) × (r : Text) × (a ++ b ∷ s ≡ x ∷ r)
first_byte [] b s = (b, s, refl)
first_byte (c ∷ a) b s = (c, a ++ b ∷ s, refl)

-- A text with the byte and more behind it is cut in two parts, the second of them not empty.
cut-behind :
    (c : ℕ) (a : Text) (e : ℕ) (d : Text)
    → (l : Text) × (x : ℕ) × (r : Text) × (cut c (a ++ c ∷ (e ∷ d)) ≡ some (l, x ∷ r))
      × (l ++ c ∷ (x ∷ r) ≡ a ++ c ∷ (e ∷ d))
unfolding cut
cut-behind c [] e d = ([], e, d, ground arith, refl)
cut-behind c (h ∷ a) e d = elim (Bool-cases (eqb h c)) [
  | inl here ↦
      let (x, r, split) = first_byte a c (e ∷ d) in
      ([], x, r, rw (here, split) refl, rw (← split, (eqb_iff h c).0 here) refl)
  | inr later ↦
      let (l, x, r, found, whole) = cut-behind c a e d in
      (h ∷ l, x, r, rw (later, found), ap (λ (t : Text). h ∷ t) whole)
]

to_string-from_string_behind :
    (a d : Text) → d ≢ [] → to_string (from_string (a ++ b'@' ∷ d)) ≡ a ++ b'@' ∷ d
unfolding to_string from_string
to_string-from_string_behind a [] h = absurd (h refl)
to_string-from_string_behind a (e ∷ d) h =
    let (l, x, r, found, whole) = cut-behind b'@' a e d in rw (message_parse_address, found) whole

lower_byte_twice : (c : ℕ) → lower_byte (lower_byte c) ≡ lower_byte c
unfolding lower_byte
lower_byte_twice c = ground arith

to_lower_twice : (s : Text) → to_lower (to_lower s) ≡ to_lower s
unfolding to_lower
to_lower_twice [] = refl
to_lower_twice (c ∷ s) = rw (lower_byte_twice c, to_lower_twice s)

to_lower-append : (s t : Text) → to_lower (s ++ t) ≡ to_lower s ++ to_lower t
unfolding to_lower
to_lower-append [] t = refl
to_lower-append (c ∷ s) t = ap (λ (u : Text). lower_byte c ∷ u) (to_lower-append s t)

entry_key_lower : (s : Text) → entry_key (to_lower s) ≡ entry_key s
unfolding entry_key
entry_key_lower s = rw (
  to_lower-append (text "cluegetter--srs-entry-") (to_lower s),
  to_lower-append (text "cluegetter--srs-entry-") s,
  to_lower_twice s,
)

ok_inj : {a b : Text} → ok a ≡ ok b → a ≡ b
ok_inj e = cc

module _ {F : Type 0} (config : SrsConfig) (msg : Message F) (sender : Text) where
  -- What a rewritten sender is made of.
  IsRewritten : Type 0
  IsRewritten =
      (config.enabled ≡ true)
      × (is_empty (to_string msg.sender) ≡ false)
      × (domain : Text) × (domain ≢ [])
      × (sender ≡ srs_address config msg domain)

  rewritten_by :
      (enabled forwarded null : Bool) (found : Go Text)
      → (if not enabled
          then ok []
          else if not forwarded
          then ok []
          else if null
          then ok []
          else found >>= λ domain.
              ok (if is_empty domain then [] else srs_address config msg domain))
        ≡ ok sender
      → sender ≢ []
      → (enabled ≡ true)
        × (null ≡ false)
        × (domain : Text) × (domain ≢ [])
        × (sender ≡ srs_address config msg domain)
  rewritten_by false forwarded null found e ne = absurd (ne (sym (ok_inj e)))
  rewritten_by true false null found e ne = absurd (ne (sym (ok_inj e)))
  rewritten_by true true true found e ne = absurd (ne (sym (ok_inj e)))
  rewritten_by true true false panic e ne = absurd (ne cc)
  rewritten_by true true false (ok []) e ne = absurd (ne (sym (ok_inj e)))
  rewritten_by true true false (ok (c ∷ d)) e ne =
      (refl, refl, c ∷ d, (λ empty. cc), sym (ok_inj e))

  get_from_address-IsRewritten : get_from_address config msg ≡ ok sender → sender ≢ [] → IsRewritten
  unfolding get_from_address IsRewritten
  get_from_address-IsRewritten e ne =
      rewritten_by config.enabled (is_forwarded config msg.headers msg.rcpt)
        (is_empty (to_string msg.sender)) (get_rewrite_domain config msg) e ne

to_lower-srs0 : (s : Text) → to_lower (text "SRS0=" ++ s) ≡ text "srs0=" ++ to_lower s
unfolding to_lower lower_byte
to_lower-srs0 s = refl

to_lower-at : (s : Text) → to_lower (b'@' ∷ s) ≡ b'@' ∷ to_lower s
unfolding to_lower lower_byte
to_lower-at s = refl

to_lower-ne : (c : ℕ) (s : Text) → to_lower (c ∷ s) ≢ []
unfolding to_lower
to_lower-ne c s e = cc

-- What stands behind "SRS0=" and before the "@".
abbrev middle : {F : Type 0} → Message F → Text
middle msg = msg.queue_id ++ b'=' ∷ (msg.sender.domain ++ b'=' ∷ msg.sender.local)

srs_address-to_lower :
    {F : Type 0} (config : SrsConfig) (msg : Message F) (domain : Text)
    → to_lower (srs_address config msg domain)
      ≡ text "srs0=" ++ (to_lower (middle msg) ++ b'@' ∷ to_lower domain)
srs_address-to_lower config msg domain =
    let at_sign = b'@' ∷ domain in
    let grouped : srs_address config msg domain ≡ text "SRS0=" ++ (middle msg ++ at_sign) =
      rw
        (
          append_assoc msg.queue_id (b'=' ∷ (msg.sender.domain ++ b'=' ∷ msg.sender.local)) at_sign,
          append_assoc msg.sender.domain (b'=' ∷ msg.sender.local) at_sign,
        )
        refl in
    ap to_lower grouped
    ∙ (to_lower-srs0 (middle msg ++ at_sign)
        ∙ ap (λ (s : Text). text "srs0=" ++ s)
            (to_lower-append (middle msg) at_sign
              ∙ ap (λ (s : Text). to_lower (middle msg) ++ s) (to_lower-at domain)))

cut-over :
    (c : ℕ) (p s a b : Text)
    → all (λ h. not (eqb h c)) p ≡ true
    → cut c s ≡ some (a, b)
    → cut c (p ++ s) ≡ some (p ++ a, b)
unfolding cut
cut-over c [] s a b lacks found = found
cut-over c (h ∷ p) s a b lacks found = elim (Bool-cases (eqb h c)) [
  | inl here ↦ absurd (cc (rw here at lacks))
  | inr later ↦ rw (later, cut-over c p s a b (rw later at lacks) found) refl
]

is_srs_address-srs0 :
    (config : SrsConfig) (before d : Text)
    → config.enabled ≡ true
    → d ≢ []
    → is_srs_address config (from_string (text "srs0=" ++ (before ++ b'@' ∷ d))) ≡ true
unfolding is_srs_address from_string srs_match to_lower lower_byte cut message_parse_address
is_srs_address-srs0 config before [] on ne = absurd (ne refl)
is_srs_address-srs0 config before (c ∷ d) on ne =
    let (l, x, r, found, whole) = cut-behind b'@' before c d in
    let parts : cut b'@' (text "srs0=" ++ (before ++ b'@' ∷ (c ∷ d)))
        ≡ some (text "srs0=" ++ l, x ∷ r) =
      cut-over b'@' (text "srs0=") (before ++ b'@' ∷ (c ∷ d)) l (x ∷ r) refl found in
    rw (on, from_string, message_parse_address, parts) refl

-- A recipient whose text, in whatever case, is that of a rewritten sender.
rcpt-IsSrs :
    {F : Type 0} (config : SrsConfig) (msg : Message F) (domain rcpt : Text)
    → config.enabled ≡ true
    → domain ≢ []
    → to_lower rcpt ≡ to_lower (srs_address config msg domain)
    → (to_string (from_string (to_lower rcpt)) ≡ to_lower rcpt)
      × (is_srs_address config (from_string (to_lower rcpt)) ≡ true)
rcpt-IsSrs config msg [] rcpt on ne e = absurd (ne refl)
rcpt-IsSrs config msg (c ∷ domain) rcpt on ne e =
    rw (e, srs_address-to_lower config msg (c ∷ domain))
      (
        to_string-from_string_behind (text "srs0=" ++ to_lower (middle msg)) (to_lower (c ∷ domain))
            (to_lower-ne c domain),
        is_srs_address-srs0 config (to_lower (middle msg)) (to_lower (c ∷ domain)) on
            (to_lower-ne c domain),
      )

module _ {S : Type 0} (redis : Redis S)
    (get-put : (store : S) (now later : ℕ) (key value : Text) (ttl : ℕ)
      → now ≤ later
      → later < now + ttl
      → redis.get (redis.put store now key value ttl) later key ≡ value) where
  -- Where redis gives a value back until it expires: a recipient that is, but for the case of its
  -- letters, the sender that a message was given, is known for seven days. It is accepted, and it
  -- stands for the message's own sender.
  pub bounce_reaches_sender :
      {F : Type 0} (config : SrsConfig) (msg : Message F) (sender rcpt : Text) (store : S)
      (now later : ℕ)
      → get_from_address config msg ≡ ok sender
      → sender ≢ []
      → to_lower rcpt ≡ to_lower sender
      → now ≤ later
      → later < now + 604800
      → (is_srs_address config (from_string (to_lower rcpt)) ≡ true)
        × (lookup_address redis
              (persist redis store now msg sender)
              later
              (from_string (to_lower rcpt))
            ≡ to_string msg.sender)
        × (recipient_check redis config
              (persist redis store now msg sender)
              later
              (from_string (to_lower rcpt))
            ≡ (permit, []))
  unfolding lookup_address persist recipient_check IsRewritten
  bounce_reaches_sender config msg sender rcpt store now later e ne same after before =
      let (on, named, domain, ne', made) = get_from_address-IsRewritten config msg sender e ne in
      let (whole, is_srs) = rcpt-IsSrs config msg domain rcpt on ne' (same ∙ ap to_lower made) in
      let key : entry_key (to_string (from_string (to_lower rcpt))) ≡ entry_key sender =
        ap entry_key (whole ∙ same) ∙ entry_key_lower sender in
      let found =
        get-put store now later (entry_key sender) (to_string msg.sender) 604800 after before in
      let known : lookup_address redis (persist redis store now msg sender) later
            (from_string (to_lower rcpt))
          ≡ to_string msg.sender =
        ap (λ k. redis.get (persist redis store now msg sender) later k) key ∙ found in
      rw (is_srs, known, named) (refl, refl, refl)
