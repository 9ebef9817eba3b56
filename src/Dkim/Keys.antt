-- ===== src/Dkim/Keys.antt =====
-- dkim/backend/file: the private keys of the files that the configuration names, and signing with
-- one of them. Files, PEM, RSA and the hashes are parameters.
use clue_getter.Prelude.{Bool, true, false, Option, none, some, List, [], ◌∷◌, ◌++◌, if◌then◌else◌}
use clue_getter.Prelude.Text.{Text, text, ◌==◌}
use clue_getter.Dict.{Dict, lookup, insert}

-- What the backend uses; none stands for an error, and for a block that pem.Decode does not find. A
-- key's number is its modulus as a text, which is also that of the public key.
pub record Files (K : Type 0) : Type 0 where
  pub glob : Text → Option (List Text)
  pub read_file : Text → Option Text
  pub pem_decode : Text → Option Text
  pub parse_private_key : Text → Option K
  pub number : K → Text

-- crypto.SHA1, crypto.SHA256
pub data Hash : Type 0 where
  sha1 sha256 : Hash

-- What signing uses.
pub record Signatures (K : Type 0) : Type 0 where
  pub sum : Hash → Text → Text
  pub sign_pkcs1 : K → Hash → Text → Option Text
  pub base64 : Text → Text

-- `getHashandHash`, none for its error.
unfoldable pub get_hash : Text → Option Hash
unfolding ◌==◌
get_hash algo =
    if algo == text "sha1" then some sha1 else if algo == text "sha256" then some sha256 else none

module _ {K : Type 0} (files : Files K) where
  -- The first loop of `loadKeys`.
  unfoldable pub key_files : List Text → Option (List Text)
  key_files [] = some []
  key_files (path ∷ paths) =
      let rest = key_files paths in
      elim (files.glob path) [
        | none ↦ none
        | some found ↦ elim rest [ none ↦ none | some more ↦ some (found ++ more) ]
      ]

  -- The key of a file.
  unfoldable pub read_key : Text → Option K
  read_key file = elim (files.read_file file) [
    | none ↦ none
    | some contents ↦ elim (files.pem_decode contents) [
      | none ↦ none
      | some block ↦ files.parse_private_key block
    ]
  ]

  -- The second loop.
  unfoldable pub read_keys : Dict K → List Text → Option (Dict K)
  unfolding read_key insert
  read_keys keys [] = some keys
  read_keys keys (file ∷ rest) = elim (read_key file) [
    | none ↦ none
    | some key ↦ read_keys (insert (files.number key) key keys) rest
  ]

  abbrev some_files : List Text → Option (Dict K)
  some_files [] = none
  some_files (file ∷ rest) = read_keys [] (file ∷ rest)

  -- `loadKeys`, none for its errors.
  unfoldable pub load_keys : List Text → Option (Dict K)
  unfolding key_files read_keys
  load_keys paths = elim (key_files paths) [ none ↦ none | some found ↦ some_files found ]

module _ {K : Type 0} where
  -- `HasKey`, at the number of a public key.
  unfoldable pub has_key : Dict K → Text → Bool
  unfolding lookup
  has_key keys number = elim (lookup number keys) [ none ↦ false | some key ↦ true ]

  -- `GetPreferredKey`, none for nil.
  unfoldable pub get_preferred_key : Dict K → List Text → Option Text
  unfolding has_key
  get_preferred_key keys [] = none
  get_preferred_key keys (number ∷ numbers) =
      let rest = get_preferred_key keys numbers in if has_key keys number then some number else rest

  -- `Sign`, with the number of the signer's public key; none for its errors.
  unfoldable pub sign_with_key : Signatures K → Dict K → Text → Text → Text → Option Text
  unfolding lookup get_hash
  sign_with_key s keys number message algo = elim (lookup number keys) [
    | none ↦ none
    | some key ↦ elim (get_hash algo) [
      | none ↦ none
      | some hash ↦ elim (s.sign_pkcs1 key hash (s.sum hash message)) [
        | none ↦ none
        | some signature ↦ some (s.base64 signature)
      ]
    ]
  ]
