-- ===== src/Passwords/Examples.antt =====
-- A password and a hash, with a function in the place of scrypt that hashes by length.
use Prim.Native.Nat.{◌%◌}
use orchestract.Common.{ℕ, ◌≡◌, ◌↔◌, true, List, [], ◌∷◌, arith, length, Text, text}
use orchestract.Passwords.{Scrypt, hash_password, verify_password}
use orchestract.Passwords.RoundTrip.{AreBytes, verify-hash_password}

abbrev by_length : Scrypt
by_length raw salt n r p = length raw % 256 ∷ []

by_length-AreBytes : (raw : Text) (salt : List ℕ) → AreBytes (by_length raw salt 16384 8 1)
by_length-AreBytes raw salt = (ground arith, tt)

verify-hash_password_example :
    (verify_password by_length
        (text "secret")
        (hash_password by_length (1 ∷ 255 ∷ []) (text "secret"))
      ≡ true)
    ↔ (by_length (text "secret") (1 ∷ 255 ∷ []) 16384 8 1
        ≡ by_length (text "secret") (1 ∷ 255 ∷ []) 16384 8 1)
verify-hash_password_example =
    verify-hash_password by_length by_length-AreBytes (1 ∷ 255 ∷ []) (text "secret") (text "secret")
      (omega arith, (omega arith, tt))
