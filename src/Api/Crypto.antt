-- ===== src/Api/Crypto.antt =====
-- api/crypto_box.py: values that are stored encrypted. Fernet is third-party code.
use mathlib.Core.Option.{some-injective}
use ship_zen_gcp.Prelude.{
  ◌≡◌, refl, sym, ◌⊎◌, true, false, ◌++◌, Text, Option, none, some, codes, starts_with, drop,
  if◌then◌else◌, is_some, inl, inr, arith,
}

-- `Fernet(key).encrypt` and `.decrypt`, each with its key; `none` is an exception: of a key that is none,
-- or of a token that the key did not make. What was encrypted is decrypted with the same key.
pub record Fernet : Type 0 where
  pub encrypt : Text → Text → Option Text
  pub decrypt : Text → Text → Option Text
  pub decrypt-encrypt :
      (key v token : Text) → encrypt key v ≡ some token → decrypt key token ≡ some v

-- `_PREFIX`
abbrev pub prefix : Text
prefix = codes "enc:v1:"

abbrev pub prefixed : Option Text → Option Text
prefixed none = none
prefixed (some token) = some (prefix ++ token)

module _ (f : Fernet) where
  -- The key is SHIPZEN_DATA_KEY, stripped, or none if that is empty.
  unfoldable pub encrypt_value : Option Text → Text → Option Text
  encrypt_value none v = some v
  encrypt_value (some key) v = prefixed (f.encrypt key v)

  abbrev opened : Option Text → Text → Option Text
  opened none token = none
  opened (some key) token = f.decrypt key token

  unfoldable pub decrypt_value : Option Text → Text → Option Text
  decrypt_value key stored =
      if starts_with prefix stored then opened key (drop 7 stored) else some stored

  sealed :
      (key v stored : Text) (o : Option Text)
      → f.encrypt key v ≡ o
      → prefixed o ≡ some stored
      → decrypt_value (some key) stored ≡ some v
  unfolding decrypt_value
  sealed key v stored none e h = ground arith
  sealed key v stored (some token) e h =
      rw (some-injective _ _ (sym h)) (f.decrypt-encrypt key v token e)

  -- What was stored is read back: with the key that it was stored with, and, of a value that was
  -- stored without a key and does not look like an encrypted one, with any key or none.
  pub decrypt_value-encrypt_value :
      (stored_with read_with : Option Text) (v stored : Text)
      → encrypt_value stored_with v ≡ some stored
      → (stored_with ≡ read_with) × (is_some read_with ≡ true)
        ⊎ (stored_with ≡ none) × (starts_with prefix v ≡ false)
      → decrypt_value read_with stored ≡ some v
  unfolding encrypt_value decrypt_value
  decrypt_value-encrypt_value none read_with v stored e (inl h) = ground arith
  decrypt_value-encrypt_value none read_with v stored e (inr h) = ground arith
  decrypt_value-encrypt_value (some key) read_with v stored e (inl h) =
      rw (sym h.0) (sealed key v stored (f.encrypt key v) refl e)
  decrypt_value-encrypt_value (some key) read_with v stored e (inr h) = ground arith
