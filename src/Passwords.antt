-- ===== src/Passwords.antt =====
-- app/domain/shared/password.py. `scrypt` of hashlib is a parameter of the model, and the salt that
-- os.urandom gives is an argument. A byte is a number below 256.
-- Of what int() and bytes.fromhex() take, the model takes what `hash_password` writes: digits
-- with no sign, space or underscore, and hexadecimal digits with no space.
pub mod RoundTrip
mod Examples
use orchestract.Common.{
  ℕ, ◌+◌, ◌-◌, ◌*◌, Bool, false, ◌&&◌, Option, none, some, List, [], ◌∷◌, ◌++◌, ltb, leb, ◌==◌,
  if◌then◌else◌, Text, text, text_eq, is_empty,
}
use Prim.Native.Nat.{◌/◌, ◌%◌, ◌^◌}

abbrev pub Bytes : Type 0
Bytes = List ℕ

-- scrypt(raw_password.encode(), salt, n, r, p), 32 bytes long
abbrev pub Scrypt : Type 0
Scrypt = Text → Bytes → ℕ → ℕ → ℕ → Bytes

unfoldable pub hex_digit : ℕ → ℕ
hex_digit v = if ltb v 10 then b'0' + v else b'a' + (v - 10)

-- bytes.hex()
unfoldable pub hex : Bytes → Text
unfolding hex_digit
hex [] = []
hex (b ∷ bs) = hex_digit (b / 16) ∷ hex_digit (b % 16) ∷ hex bs

unfoldable pub hex_value : ℕ → Option ℕ
hex_value c =
    if leb b'0' c && leb c b'9'
    then some (c - b'0')
    else if leb b'a' c && leb c b'f'
    then some (c - b'a' + 10)
    else if leb b'A' c && leb c b'F'
    then some (c - b'A' + 10)
    else none

infixl 5 ◌>>=?◌
abbrev pub ◌>>=?◌ {ℓ κ} : {A : Type ℓ} {B : Type κ} → Option A → (A → Option B) → Option B
none >>=? f = none
some a >>=? f = f a

-- bytes.fromhex(s); none stands for the ValueError
unfoldable pub from_hex : Text → Option Bytes
unfolding hex_value
from_hex [] = some []
from_hex (c ∷ []) = none
from_hex (c ∷ d ∷ s) =
    let rest = from_hex s in
    hex_value c >>=? λ u. hex_value d >>=? λ v. rest >>=? λ bs. some ((16 * u + v) ∷ bs)

-- int(s); none stands for the ValueError
unfoldable pub to_int : ℕ → Text → Option ℕ
to_int n [] = some n
to_int n (c ∷ s) =
    let rest = to_int (10 * n + (c - b'0')) s in if leb b'0' c && leb c b'9' then rest else none

unfoldable pub parse_int : Text → Option ℕ
unfolding to_int
parse_int s = if is_empty s then none else to_int 0 s

cons_first : ℕ → List Text → List Text
cons_first c [] = (c ∷ []) ∷ []
cons_first c (w ∷ ws) = (c ∷ w) ∷ ws

-- s.split(sep), for a separator of one character
unfoldable pub split : ℕ → Text → List Text
unfolding cons_first
split sep [] = [] ∷ []
split sep (c ∷ s) = let rest = split sep s in if c == sep then [] ∷ rest else cons_first c rest

-- hmac.compare_digest
unfoldable pub compare_digest : Bytes → Bytes → Bool
compare_digest = text_eq

module _ (scrypt : Scrypt) where
  unfoldable pub hash_password : Bytes → Text → Text
  hash_password salt raw =
      text "scrypt$16384$8$1$" ++ (hex salt ++ (b'$' ∷ hex (scrypt raw salt 16384 8 1)))

  -- none stands for the ValueError or TypeError that verify_password catches.
  unfoldable pub verify_fields : Text → List Text → Option Bool
  verify_fields raw (scheme ∷ n ∷ r ∷ p ∷ salt_hex ∷ hash_hex ∷ []) =
      if text_eq scheme (text "scrypt")
      then (from_hex salt_hex >>=? λ salt. parse_int n >>=? λ n'. parse_int r >>=? λ r'.
          parse_int p >>=? λ p'.
          from_hex hash_hex >>=? λ hash. some (compare_digest (scrypt raw salt n' r' p') hash))
      else some false
  verify_fields raw _ = none

  unfoldable pub verify_password : Text → Text → Bool
  unfolding verify_fields
  verify_password raw encoded = elim (verify_fields raw (split b'$' encoded)) [
    | none ↦ false
    | some b ↦ b
  ]
