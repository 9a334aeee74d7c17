-- ===== src/Passwords/RoundTrip.antt =====
-- What `verify_password` makes of the text that `hash_password` writes.
use Prim.Native.Nat.{◌/◌, ◌%◌}
use orchestract.Common.{
  ℕ, ◌<◌, ◌≡◌, refl, ◌↔◌, true, false, some, [], ◌∷◌, ◌++◌, arith, ◌==◌, All, Text, text, text_eq,
  text_eq_iff,
}
use orchestract.Passwords.{
  Bytes, Scrypt, hex_digit, hex, hex_value, from_hex, parse_int, cons_first, split, compare_digest,
  hash_password, verify_fields, verify_password,
}

abbrev pub AreBytes : Bytes → Type 0
AreBytes = All (λ b. b < 256)

hex_value-hex_digit : (v : ℕ) → v < 16 → hex_value (hex_digit v) ≡ some v
unfolding hex_value hex_digit
hex_value-hex_digit v h = ground arith

from_hex-hex : (bs : Bytes) → AreBytes bs → from_hex (hex bs) ≡ some bs
unfolding from_hex hex
from_hex-hex [] h = refl
from_hex-hex (b ∷ bs) h =
    ground (arith, hex_value-hex_digit (b / 16), hex_value-hex_digit (b % 16), from_hex-hex bs h.1)

-- A hexadecimal digit is no dollar sign.
hex_digit-ne-dollar : (v : ℕ) → v < 16 → (hex_digit v == b'$') ≡ false
unfolding hex_digit
hex_digit-ne-dollar v h = ground arith

split-hex : (bs : Bytes) → AreBytes bs → split b'$' (hex bs) ≡ hex bs ∷ []
unfolding split hex cons_first
split-hex [] h = refl
split-hex (b ∷ bs) h =
    ground (arith, hex_digit-ne-dollar (b / 16), hex_digit-ne-dollar (b % 16), split-hex bs h.1)

split-hex-dollar :
    (bs : Bytes) (rest : Text)
    → AreBytes bs
    → split b'$' (hex bs ++ b'$' ∷ rest) ≡ hex bs ∷ split b'$' rest
unfolding split hex cons_first
split-hex-dollar [] rest h = ground arith
split-hex-dollar (b ∷ bs) rest h = ground (
  arith,
  hex_digit-ne-dollar (b / 16),
  hex_digit-ne-dollar (b % 16),
  split-hex-dollar bs rest h.1,
)

module _ (scrypt : Scrypt)
    (bytes : (raw : Text) (salt : Bytes) → AreBytes (scrypt raw salt 16384 8 1)) where
  fields-hash_password :
      (salt : Bytes) (raw : Text)
      → AreBytes salt
      → split b'$' (hash_password scrypt salt raw)
        ≡ text "scrypt"
          ∷ text "16384"
          ∷ text "8"
          ∷ text "1"
          ∷ hex salt
          ∷ hex (scrypt raw salt 16384 8 1)
          ∷ []
  unfolding hash_password split cons_first
  fields-hash_password salt raw h =
      rw (split-hex-dollar salt (hex (scrypt raw salt 16384 8 1)) h)
        (rw (split-hex (scrypt raw salt 16384 8 1) (bytes raw salt)))

  verify-fields :
      (salt : Bytes) (raw other : Text)
      → AreBytes salt
      → verify_fields scrypt other (split b'$' (hash_password scrypt salt raw))
        ≡ some (text_eq (scrypt other salt 16384 8 1) (scrypt raw salt 16384 8 1))
  unfolding verify_fields parse_int compare_digest text_eq
  verify-fields salt raw other h =
      rw (fields-hash_password salt raw h)
        (rw (from_hex-hex salt h, from_hex-hex (scrypt raw salt 16384 8 1) (bytes raw salt)))

  -- Where scrypt gives bytes and the salt consists of bytes, a password is accepted against a hash
  -- exactly if scrypt gives the same bytes for it as for the password that was hashed.
  pub verify-hash_password :
      (salt : Bytes) (raw other : Text)
      → AreBytes salt
      → (verify_password scrypt other (hash_password scrypt salt raw) ≡ true)
        ↔ (scrypt other salt 16384 8 1 ≡ scrypt raw salt 16384 8 1)
  unfolding verify_password
  verify-hash_password salt raw other h =
      rw (verify-fields salt raw other h, verify_password)
        (text_eq_iff (scrypt other salt 16384 8 1) (scrypt raw salt 16384 8 1))
