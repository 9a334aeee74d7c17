-- ===== src/Services/Names/Numerals.antt =====
-- str(n) is made of digits, and no two numbers have the same.
use Prim.Native.Nat.{◌/◌, ◌%◌}
use orchestract.Common.{
  ℕ, zero, suc, ◌+◌, ◌-◌, ◌*◌, ◌<◌, ◌≡◌, refl, ap, sym, ◌∙◌, Bool, true, false, inl, inr, ◌&&◌, [],
  ◌∷◌, arith, ltb, leb, Bool-cases, Text, is_empty, show_nat, decimal,
}

-- The digits of a number.
unfoldable pub all_digits : Text → Bool
all_digits [] = true
all_digits (c ∷ s) = leb b'0' c && leb c b'9' && all_digits s

decimal-all_digits :
    (fuel n : ℕ) (s : Text) → all_digits s ≡ true → all_digits (decimal fuel n s) ≡ true
unfolding decimal all_digits
decimal-all_digits zero n s h = h
decimal-all_digits (suc fuel) n s h = elim (Bool-cases (ltb n 10)) [
  | inl e ↦ rw e (ground arith)
  | inr e ↦ rw e (decimal-all_digits fuel (n / 10) ((b'0' + n % 10) ∷ s) (ground arith))
]

decimal-is_empty : (fuel n c : ℕ) (s : Text) → is_empty (decimal fuel n (c ∷ s)) ≡ false
unfolding decimal
decimal-is_empty zero n c s = refl
decimal-is_empty (suc fuel) n c s = elim (Bool-cases (ltb n 10)) [
  | inl e ↦ rw e refl
  | inr e ↦ rw e (decimal-is_empty fuel (n / 10) (b'0' + n % 10) (c ∷ s))
]

pub show_nat-all_digits : (n : ℕ) → all_digits (show_nat n) ≡ true
unfolding show_nat all_digits
show_nat-all_digits n = decimal-all_digits (n + 1) n [] refl

decimal-first : (fuel n : ℕ) → is_empty (decimal (suc fuel) n []) ≡ false
unfolding decimal
decimal-first fuel n = elim (Bool-cases (ltb n 10)) [
  | inl e ↦ rw e refl
  | inr e ↦ rw e (decimal-is_empty fuel (n / 10) (b'0' + n % 10) [])
]

pub show_nat-is_empty : (n : ℕ) → is_empty (show_nat n) ≡ false
unfolding show_nat
show_nat-is_empty n =
    let q : n + 1 ≡ suc n = omega arith in ap (λ k. is_empty (decimal k n [])) q ∙ decimal-first n n

-- The number that the digits continue.
read : ℕ → Text → ℕ
read n [] = n
read n (c ∷ s) = read (10 * n + (c - b'0')) s

read-decimal : (fuel n : ℕ) (s : Text) → n < fuel → read 0 (decimal fuel n s) ≡ read n s
unfolding read decimal
read-decimal zero n s h = absurd (omega (arith, h))
read-decimal (suc fuel) n s h = elim (Bool-cases (ltb n 10)) [
  | inl e ↦ rw e (ap (λ k. read k s) (omega arith))
  | inr e ↦ rw e (
      read-decimal fuel (n / 10) ((b'0' + n % 10) ∷ s) (let q = e in ground (arith, h))
      ∙ ap (λ k. read k s) (omega arith))
]

pub show_nat-injective : (n m : ℕ) → show_nat n ≡ show_nat m → n ≡ m
unfolding show_nat read
show_nat-injective n m h =
    sym (read-decimal (n + 1) n [] (omega arith))
    ∙ ap (read 0) h
    ∙ read-decimal (m + 1) m [] (omega arith)
