-- ===== src/Dkim/Tests.antt =====
-- Tests of the signing module, and its theorem at a concrete input.
use clue_getter.Prelude.{
  ℕ, ◌≡◌, ◌≢◌, ◌⊎◌, refl, inl, Among, none, some, List, [], ◌∷◌, ◌++◌, if◌then◌else◌,
}
use clue_getter.Prelude.Text.{Text, text, to_lower, ◌==◌}
use clue_getter.Prelude.Float.{whole}
use clue_getter.Message.{permit, tempfail, new_header, Message, new_message}
use clue_getter.Dkim.{signing_required, Signer, get_dkim_keys, sign_message, message_check}
use clue_getter.Dkim.Keys.{Files, Signatures, load_keys, get_preferred_key, sign_with_key}
use clue_getter.Dkim.Preferred.{files_of, IsPreferred, get_preferred_key_lem}
use clue_getter.Dkim.Signed.{IsSigned, CannotSign, sign_message_required}

-- A key for the selector "k1" only.
signer : Signer ℕ ℕ
unfolding signing_required get_dkim_keys sign_message message_check to_lower ◌==◌ new_message
signer = record {
  pub_key_from_dns = λ selector domain. if selector == text "k1" then some (7 ∷ []) else none;
  get_preferred_key = λ keys. elim keys [ [] ↦ none | key ∷ keys ↦ some key ];
  sign = λ key msg. some (text "v=1");
}

abbrev msg : Message ℕ
unfolding signer
msg = new_message 0 []

message_check_test :
    ((message_check signer whole 25 100 (text "Required") (text "k2" ∷ []) msg).1.suggested_action
      ≡ tempfail)
    × ((message_check signer whole 25 100 (text "optional") (text "k2" ∷ []) msg).1.suggested_action
        ≡ permit)
    × ((message_check signer whole 25 100 (text "none") (text "k1" ∷ []) msg).0.add_headers ≡ [])
    × ((message_check signer whole 25 100
          (text "required")
          (text "k2" ∷ (text "k1" ∷ []))
          msg).0.add_headers
        ≡ new_header (text "DKIM-Signature") (text "v=1") ∷ [])
unfolding signer
message_check_test = (refl, refl, refl, refl)

chosen-Among : (keys : List ℕ) (key : ℕ) → signer.get_preferred_key keys ≡ some key → Among key keys
unfolding signer
chosen-Among [] key e = cc e
chosen-Among (k ∷ keys) key e = inl cc

sign_message_required_example :
    (((message_check signer whole 25 100 (text "Required") (text "k1" ∷ []) msg).1.suggested_action
        ≡ permit)
      × IsSigned signer whole 25 100 chosen-Among
          (text "k1" ∷ [])
          msg
          (message_check signer whole 25 100 (text "Required") (text "k1" ∷ []) msg).0)
    ⊎ (((message_check signer whole 25 100
            (text "Required")
            (text "k1" ∷ [])
            msg).1.suggested_action
          ≢ permit)
        × ((message_check signer whole 25 100 (text "Required") (text "k1" ∷ []) msg).0 ≡ msg)
        × CannotSign signer whole 25 100 chosen-Among (text "k1" ∷ []) msg)
unfolding signer
sign_message_required_example =
    sign_message_required signer whole 25 100 chosen-Among (text "Required") (text "k1" ∷ []) msg
      refl

-- Two files; a key is its number, and the file's name is its contents.
abbrev key_dir : Files Text
key_dir = record {
  glob = λ path. some (text "a.key" ∷ text "b.key" ∷ []);
  read_file = λ file. some file;
  pem_decode = λ contents. some contents;
  parse_private_key = λ block. some block;
  number = λ key. key;
}

abbrev plain_signatures : Signatures Text
plain_signatures = record {
  sum = λ hash message. message;
  sign_pkcs1 = λ key hash sum. some (key ++ sum);
  base64 = λ signature. signature;
}

abbrev loaded : List (Text × Text)
loaded = (text "a.key", text "a.key") ∷ (text "b.key", text "b.key") ∷ []

keys_loaded : load_keys key_dir (text "*" ∷ []) ≡ some loaded
unfolding load_keys ◌==◌
keys_loaded = refl

sign_with_key_test :
    (get_preferred_key loaded (text "c.key" ∷ text "b.key" ∷ []) ≡ some (text "b.key"))
    × (sign_with_key plain_signatures loaded (text "b.key") (text "m") (text "sha1")
        ≡ some (text "b.keym"))
    × (sign_with_key plain_signatures loaded (text "b.key") (text "m") (text "md5") ≡ none)
unfolding get_preferred_key sign_with_key ◌==◌
sign_with_key_test = (refl, refl, refl)

get_preferred_key_lem_example :
    IsPreferred key_dir plain_signatures
      (text "m")
      loaded
      (files_of key_dir (text "*" ∷ []))
      (text "c.key" ∷ text "b.key" ∷ [])
      (get_preferred_key loaded (text "c.key" ∷ text "b.key" ∷ []))
get_preferred_key_lem_example =
    get_preferred_key_lem key_dir plain_signatures (text "m") (text "*" ∷ []) loaded
      (text "c.key" ∷ text "b.key" ∷ []) keys_loaded
