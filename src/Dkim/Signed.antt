-- ===== src/Dkim/Signed.antt =====
-- dkim/dkim.go: what leaves the module unsigned.
use clue_getter.Prelude.{
  ◌≡◌, ◌≢◌, refl, ap, ◌∙◌, Among, Option, none, Option-cases, ◌⊎◌, inl, inr, some, List, [], ◌∷◌,
  ◌++◌,
}
use clue_getter.Prelude.Text.{Text, text}
use clue_getter.Prelude.Float.{Float}
use clue_getter.Message.{Action, permit, tempfail, error, new_header, Message}
use clue_getter.Dkim.{
  required, signing_required, Signer, sign_message, preferred, get_dkim_keys, check_mode,
  message_check,
}

not_permit_tempfail : ◌≢◌ {A = Action} tempfail permit
not_permit_tempfail e = cc

not_permit_error : ◌≢◌ {A = Action} error permit
not_permit_error e = cc

some_key : {K : Type 0} {a b : K} → ◌≡◌ {A = Option K} (some a) (some b) → a ≡ b
some_key e = cc e

module _ {K F : Type 0} (signer : Signer K F) where
  -- The keys of an answer of the DNS.
  abbrev pub answered : Option (List K) → List K
  answered none = []
  answered (some keys) = keys

  -- The keys that the DNS has for a domain, of all selectors in their order.
  abbrev pub keys_in_dns : Text → List Text → List K
  keys_in_dns domain [] = []
  keys_in_dns domain (selector ∷ selectors) =
      answered (signer.pub_key_from_dns selector domain) ++ keys_in_dns domain selectors

  -- The backend's choice among some keys, which it is not asked for where there is none.
  abbrev pub chosen : List K → Option K
  chosen [] = none
  chosen (key ∷ keys) = signer.get_preferred_key (key ∷ keys)

  chosen-preferred : (keys : List K) → preferred signer keys ≡ chosen keys
  chosen-preferred [] = refl
  chosen-preferred (key ∷ keys) = refl

  get_dkim_keys-keys_in_dns :
      (domain : Text) (selectors : List Text)
      → get_dkim_keys signer domain selectors ≡ keys_in_dns domain selectors
  unfolding get_dkim_keys
  get_dkim_keys-keys_in_dns domain [] = refl
  get_dkim_keys-keys_in_dns domain (selector ∷ selectors) =
      let rest = get_dkim_keys-keys_in_dns domain selectors in
      elim (Option-cases (signer.pub_key_from_dns selector domain)) [
        | inl missing ↦ rw (get_dkim_keys, missing) rest
        | inr (keys, found) ↦ rw (get_dkim_keys, found) (ap (λ ks. keys ++ ks) rest)
      ]

  -- Some selector has the key in the DNS, for the domain.
  abbrev pub IsInDns : Text → List Text → K → Type 0
  IsInDns domain selectors key =
      (selector : Text) × (keys : List K) × Among selector selectors
      × (signer.pub_key_from_dns selector domain ≡ some keys)
      × Among key keys

  Among-append : (key : K) (xs ys : List K) → Among key (xs ++ ys) → Among key xs ⊎ Among key ys
  Among-append key [] ys h = inr h
  Among-append key (x ∷ xs) ys (inl e) = inl (inl e)
  Among-append key (x ∷ xs) ys (inr h) = elim (Among-append key xs ys h) [
    | inl first ↦ inl (inr first)
    | inr second ↦ inr second
  ]

  keys_in_dns-IsInDns :
      (domain : Text) (selectors : List Text) (key : K)
      → Among key (keys_in_dns domain selectors)
      → IsInDns domain selectors key
  keys_in_dns-IsInDns domain [] key h = elim h [ ]
  keys_in_dns-IsInDns domain (selector ∷ selectors) key h =
      let later : Among key (keys_in_dns domain selectors)
          → IsInDns domain (selector ∷ selectors) key =
        λ h'.
          let (other, keys, among, found, has) = keys_in_dns-IsInDns domain selectors key h' in
          (other, keys, inr among, found, has) in
      elim (Option-cases (signer.pub_key_from_dns selector domain)) [
        | inl missing ↦ later (rw missing at h)
        | inr (keys, found) ↦
            elim (Among-append key keys (keys_in_dns domain selectors) (rw found at h)) [
              | inl here ↦ (selector, keys, inl refl, found, here)
              | inr there ↦ later there
            ]
      ]

  module _ (fl : Float F) (failure_score no_key_score : F)
      (get_preferred_key-Among : (keys : List K) (key : K)
        → signer.get_preferred_key keys ≡ some key
        → Among key keys) where
    -- The message got a signature, made with a key that the DNS has for the domain of its sender.
    abbrev pub IsSigned : List Text → Message F → Message F → Type 0
    IsSigned selectors msg msg' =
        (key : K) × (header : Text) × IsInDns msg.sender.domain selectors key
        × (signer.sign key msg ≡ some header)
        × (msg' ≡ record msg {
          add_headers = msg.add_headers ++ new_header (text "DKIM-Signature") header ∷ [];
        })

    -- Of all keys that the DNS has for the domain of the sender the backend chooses none, or signing
    -- with its choice fails.
    abbrev pub CannotSign : List Text → Message F → Type 0
    CannotSign selectors msg =
        (chosen (keys_in_dns msg.sender.domain selectors) ≡ none)
        ⊎ ((key : K) × (chosen (keys_in_dns msg.sender.domain selectors) ≡ some key)
            × (signer.sign key msg ≡ none))

    chosen-IsInDns :
        (domain : Text) (selectors : List Text) (key : K)
        → chosen (keys_in_dns domain selectors) ≡ some key
        → IsInDns domain selectors key
    chosen-IsInDns domain selectors key e =
        keys_in_dns-IsInDns domain selectors key (from (keys_in_dns domain selectors) e)
      where
        from : (keys : List K) → chosen keys ≡ some key → Among key keys
        from [] e' = cc e'
        from (k ∷ keys) e' = get_preferred_key-Among (k ∷ keys) key e'

    -- Where signing is required and the backend chooses among the keys that it is offered: a message
    -- that the module lets pass has got a signature, made with a key that the DNS has for the domain of
    -- its sender. Any other message is unchanged, and then of all keys that the DNS has for that domain
    -- the backend chooses none, or signing with its choice fails.
    pub sign_message_required :
        (sign : Text) (selectors : List Text) (msg : Message F)
        → signing_required sign ≡ some required
        → (((message_check signer fl failure_score no_key_score sign selectors
                msg).1.suggested_action
              ≡ permit)
            × IsSigned selectors msg
                (message_check signer fl failure_score no_key_score sign selectors msg).0)
          ⊎ (((message_check signer fl failure_score no_key_score sign selectors
                  msg).1.suggested_action
                ≢ permit)
              × ((message_check signer fl failure_score no_key_score sign selectors msg).0 ≡ msg)
              × CannotSign selectors msg)
    unfolding message_check sign_message check_mode
    sign_message_required sign selectors msg e =
        let domain = msg.sender.domain in
        let same : preferred signer (get_dkim_keys signer domain selectors)
            ≡ chosen (keys_in_dns domain selectors) =
          chosen-preferred (get_dkim_keys signer domain selectors)
          ∙ ap chosen (get_dkim_keys-keys_in_dns domain selectors) in
        elim (Option-cases (chosen (keys_in_dns domain selectors))) [
          | inl no_key ↦ rw (e, same, no_key) (inr (not_permit_tempfail, refl, inl refl))
          | inr (key, found) ↦ elim (Option-cases (signer.sign key msg)) [
            | inl failed ↦
                rw (e, same, found, failed) (inr (not_permit_error, refl, inr (key, refl, failed)))
            | inr (header, made) ↦
                rw (e, same, found, made)
                  (inl (refl, (key, header, chosen-IsInDns domain selectors key found, made, refl)))
          ]
        ]
