-- ===== src/Services/Names/Slugs.antt =====
-- What slugify makes of a text that ends in a number: the number stands at the end of the slug.
use orchestract.Common.{
  append_assoc, append-nil, ℕ, ◌≡◌, refl, ap, sym, ◌∙◌, Bool, true, false, not, inl, inr, [], ◌∷◌,
  ◌++◌, arith, leb, Bool-cases, Text, is_empty, strip_left, strip_right, lower, lower_char,
  is_slug_char, dash_runs, is_space, ◌==◌, strip, strip_chars, or_n_a, slugify, text, show_nat,
}
use orchestract.Services.Names.Numerals.{
  all_digits, show_nat-is_empty, show_nat-all_digits, show_nat-injective,
}

filled-append : (a x : Text) → is_empty x ≡ false → is_empty (a ++ x) ≡ false
filled-append [] x h = h
filled-append (b ∷ a) x h = refl

module _ (p : ℕ → Bool) where
  strip_left-append :
      (a x : Text) (c : ℕ) → p c ≡ false → strip_left p (a ++ c ∷ x) ≡ strip_left p a ++ c ∷ x
  unfolding strip_left
  strip_left-append [] x c h = rw h refl
  strip_left-append (b ∷ a) x c h = elim (Bool-cases (p b)) [
    | inl e ↦ rw e (strip_left-append a x c h)
    | inr e ↦ rw e refl
  ]

  strip_right-append :
      (a x : Text)
      → is_empty (strip_right p x) ≡ false
      → strip_right p (a ++ x) ≡ a ++ strip_right p x
  unfolding strip_right
  strip_right-append [] x h = refl
  strip_right-append (b ∷ a) x h =
      let q = strip_right-append a x h in
      let r = filled-append a (strip_right p x) h in
      elim (Bool-cases (p b)) [ inl e ↦ rw e (rw q (rw r refl)) | inr e ↦ rw e (rw q refl) ]

lower-append : (a b : Text) → lower (a ++ b) ≡ lower a ++ lower b
unfolding lower
lower-append [] b = refl
lower-append (c ∷ a) b =
    ap (λ r. lower_char c ++ r) (lower-append a b)
    ∙ sym (append_assoc (lower_char c) (lower a) (lower b))

digit-lower : (c : ℕ) → leb b'0' c ≡ true → leb c b'9' ≡ true → lower_char c ≡ c ∷ []
unfolding lower_char
digit-lower c h k = ground arith

digits-lower : (d : Text) → all_digits d ≡ true → lower d ≡ d
unfolding lower all_digits
digits-lower [] h = refl
digits-lower (c ∷ d) h =
    ap (λ r. r ++ lower d) (digit-lower c (ground arith) (ground arith))
    ∙ ap (λ r. c ∷ r) (digits-lower d (ground arith))

digit-is_slug_char : (c : ℕ) → leb b'0' c ≡ true → leb c b'9' ≡ true → is_slug_char c ≡ true
unfolding is_slug_char
digit-is_slug_char c h k = ground arith

-- Whether dash_runs is inside a run after the text.
ends_inside : Bool → Text → Bool
ends_inside inside [] = inside
ends_inside inside (c ∷ s) = ends_inside (not (is_slug_char c)) s

dash_runs-append :
    (inside : Bool) (a b : Text)
    → dash_runs inside (a ++ b) ≡ dash_runs inside a ++ dash_runs (ends_inside inside a) b
unfolding dash_runs ends_inside
dash_runs-append inside [] b = refl
dash_runs-append inside (c ∷ a) b = elim (Bool-cases (is_slug_char c)) [
  | inl e ↦ rw e (ap (λ r. c ∷ r) (dash_runs-append false a b))
  | inr e ↦ elim (Bool-cases inside) [
    | inl f ↦ rw (e, f) (dash_runs-append true a b)
    | inr f ↦ rw (e, f) (ap (λ r. b'-' ∷ r) (dash_runs-append true a b))
  ]
]

dash_runs-digits :
    (inside : Bool) (c : ℕ) (d t : Text)
    → all_digits (c ∷ d) ≡ true
    → dash_runs inside ((c ∷ d) ++ t) ≡ (c ∷ d) ++ dash_runs false t
unfolding dash_runs all_digits
dash_runs-digits inside c [] t h =
    let q = digit-is_slug_char c (ground arith) (ground arith) in rw q refl
dash_runs-digits inside c (b ∷ d) t h =
    let q = digit-is_slug_char c (ground arith) (ground arith) in
    rw q (ap (λ r. c ∷ r) (dash_runs-digits false b d t (ground arith)))

digit-is_space : (c : ℕ) → leb b'0' c ≡ true → leb c b'9' ≡ true → is_space c ≡ false
unfolding is_space
digit-is_space c h k = ground arith

abbrev pub is_dash : ℕ → Bool
is_dash c = c == b'-'

strip_right-digits : (d : Text) → all_digits d ≡ true → strip_right is_dash d ≡ d
unfolding strip_right all_digits
strip_right-digits [] h = refl
strip_right-digits (c ∷ d) h =
    let q : is_dash c ≡ false = ground arith in
    rw q (ap (λ r. c ∷ r) (strip_right-digits d (ground arith)))

-- The rest of a name after its number: nothing, or a character that becomes a dash.
pub record IsTail (t : Text) : Type 0 where
  pub kept : (d : Text) → all_digits d ≡ true → strip_right is_space (d ++ t) ≡ d ++ t
  pub lowered : lower t ≡ t
  pub dropped : (d : Text) → all_digits d ≡ true → strip_right is_dash (d ++ dash_runs false t) ≡ d

-- What the slug of `a`, a number and a tail starts with.
pub slug_start : Text → Text
slug_start a = strip_left is_dash (dash_runs false (lower (strip_left is_space a)))

module _ (a t : Text) (c : ℕ) (d : Text) (tail : IsTail t) (h : all_digits (c ∷ d) ≡ true) where
  strip-number : strip (a ++ ((c ∷ d) ++ t)) ≡ strip_left is_space a ++ ((c ∷ d) ++ t)
  unfolding strip strip_chars all_digits
  strip-number =
      let k = tail.kept (c ∷ d) h in
      ap (strip_right is_space)
        (strip_left-append is_space a (d ++ t) c (digit-is_space c (ground arith) (ground arith)))
      ∙ strip_right-append is_space (strip_left is_space a) ((c ∷ d) ++ t) (ap is_empty k)
      ∙ ap (λ r. strip_left is_space a ++ r) k

  lower-number : (l : Text) → lower (l ++ ((c ∷ d) ++ t)) ≡ lower l ++ ((c ∷ d) ++ t)
  lower-number l =
      lower-append l ((c ∷ d) ++ t)
      ∙ ap (λ r. lower l ++ r) (lower-append (c ∷ d) t)
      ∙ ap (λ r. lower l ++ (r ++ lower t)) (digits-lower (c ∷ d) h)
      ∙ ap (λ r. lower l ++ ((c ∷ d) ++ r)) tail.lowered

  dash_runs-number :
      (l : Text)
      → dash_runs false (l ++ ((c ∷ d) ++ t)) ≡ dash_runs false l ++ ((c ∷ d) ++ dash_runs false t)
  dash_runs-number l =
      dash_runs-append false l ((c ∷ d) ++ t)
      ∙ ap (λ r. dash_runs false l ++ r) (dash_runs-digits (ends_inside false l) c d t h)

  strip_dashes-number :
      (l : Text)
      → strip_chars is_dash (l ++ ((c ∷ d) ++ dash_runs false t)) ≡ strip_left is_dash l ++ (c ∷ d)
  unfolding strip_chars all_digits
  strip_dashes-number l =
      let k = tail.dropped (c ∷ d) h in
      ap (strip_right is_dash)
        (strip_left-append is_dash l (d ++ dash_runs false t) c (ground arith))
      ∙ strip_right-append is_dash (strip_left is_dash l) ((c ∷ d) ++ dash_runs false t)
          (ap is_empty k)
      ∙ ap (λ r. strip_left is_dash l ++ r) k

  or_n_a-filled : (x : Text) → or_n_a (x ++ (c ∷ d)) ≡ x ++ (c ∷ d)
  or_n_a-filled [] = refl
  or_n_a-filled (b ∷ x) = refl

  pub slugify-number : slugify (a ++ ((c ∷ d) ++ t)) ≡ slug_start a ++ (c ∷ d)
  unfolding slugify slug_start
  slugify-number =
      let l = strip_left is_space a in
      ap (λ r. or_n_a (strip_chars is_dash (dash_runs false (lower r)))) strip-number
      ∙ ap (λ r. or_n_a (strip_chars is_dash (dash_runs false r))) (lower-number l)
      ∙ ap (λ r. or_n_a (strip_chars is_dash r)) (dash_runs-number (lower l))
      ∙ ap or_n_a (strip_dashes-number (dash_runs false (lower l)))
      ∙ or_n_a-filled (slug_start a)

append-injective : (x a b : Text) → x ++ a ≡ x ++ b → a ≡ b
append-injective [] a b h = h
append-injective (c ∷ x) a b h = append-injective x a b (ground arith)

slugify-digits :
    (a t d : Text)
    → IsTail t
    → is_empty d ≡ false
    → all_digits d ≡ true
    → slugify (a ++ (d ++ t)) ≡ slug_start a ++ d
slugify-digits a t [] tail e h = absurd (ground arith)
slugify-digits a t (c ∷ d) tail e h = slugify-number a t c d tail h

-- Names that differ in the number have slugs that differ.
pub slugify-injective :
    (a t : Text) (n m : ℕ)
    → IsTail t
    → slugify (a ++ (show_nat n ++ t)) ≡ slugify (a ++ (show_nat m ++ t))
    → n ≡ m
slugify-injective a t n m tail h =
    let shown = λ (k : ℕ).
      slugify-digits a t (show_nat k) tail (show_nat-is_empty k) (show_nat-all_digits k) in
    show_nat-injective n m
      (append-injective (slug_start a) (show_nat n) (show_nat m) (sym (shown n) ∙ h ∙ shown m))

kept_paren : (d : Text) → strip_right is_space (d ++ text ")") ≡ d ++ text ")"
unfolding strip_right is_space
kept_paren d = strip_right-append is_space d (text ")") refl

dropped_dash : (d : Text) → all_digits d ≡ true → strip_right is_dash (d ++ text "-") ≡ d
unfolding strip_right all_digits
dropped_dash [] h = refl
dropped_dash (c ∷ d) h =
    let q : is_dash c ≡ false = ground arith in
    rw q (ap (λ r. c ∷ r) (dropped_dash d (ground arith)))

kept_digits : (d : Text) → all_digits d ≡ true → strip_right is_space d ≡ d
unfolding strip_right all_digits
kept_digits [] h = refl
kept_digits (c ∷ d) h =
    let q = digit-is_space c (ground arith) (ground arith) in
    rw q (ap (λ r. c ∷ r) (kept_digits d (ground arith)))

pub nothing-IsTail : IsTail []
unfolding lower dash_runs
nothing-IsTail = record {
  kept = λ d h. ap (strip_right is_space) (append-nil d) ∙ kept_digits d h ∙ sym (append-nil d);
  lowered = refl;
  dropped = λ d h. ap (strip_right is_dash) (append-nil d) ∙ strip_right-digits d h;
}

pub paren-IsTail : IsTail (text ")")
unfolding lower dash_runs
paren-IsTail = record { kept = λ d h. kept_paren d; lowered = refl; dropped = dropped_dash }
