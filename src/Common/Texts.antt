-- ===== src/Common/Texts.antt =====
-- Python's `str` as the list of its code points, with what the domain uses of it: equality,
-- `strip`, `lower`, and `slugify` of app/domain/shared/types.py.
use Prim.Native.Nat.{ℕ, zero, suc, ◌+◌, ◌/◌, ◌%◌}
use Prim.Native.Char.{code}
use Prim.Native.String.{String}
use mathlib.Core.Path.{◌≡◌, refl}
use mathlib.Core.Logic.{◌↔◌, ◌≢◌, ◌⊎◌}
use mathlib.Core.Bool.{Bool, true, false, not, ◌&&◌, ◌||◌}
use mathlib.Core.List.{List, [], ◌∷◌, ◌++◌}
use native.Mathlib.Omega.{arith}
use orchestract.Common.Tests.{ltb, leb, ◌==◌, if◌then◌else◌}

abbrev pub Text : Type 0
Text = List ℕ

-- A literal.
abbrev pub text : String → Text
text String.[] = []
text (String.◌∷◌ c s) = code c ∷ text s

-- s == t
unfoldable pub text_eq : Text → Text → Bool
text_eq [] [] = true
text_eq (c ∷ s) (d ∷ t) = c == d && text_eq s t
text_eq _ _ = false

pub text_eq_refl : (s : Text) → text_eq s s ≡ true
unfolding text_eq
text_eq_refl [] = refl
text_eq_refl (c ∷ s) = ground (arith, text_eq_refl s)

pub text_eq→eq : (s t : Text) → text_eq s t ≡ true → s ≡ t
unfolding text_eq
text_eq→eq [] [] h = refl
text_eq→eq [] (d ∷ t) h = cc
text_eq→eq (c ∷ s) [] h = cc
text_eq→eq (c ∷ s) (d ∷ t) h = ground (arith, text_eq→eq s t)

pub text_eq_iff : (s t : Text) → (text_eq s t ≡ true) ↔ (s ≡ t)
text_eq_iff s t = (text_eq→eq s t, λ e. rw e (text_eq_refl t))

-- not s
abbrev pub is_empty : Text → Bool
is_empty [] = true
is_empty (_ ∷ _) = false

-- The characters that `str.strip()` removes: those of `str.isspace`.
unfoldable pub is_space : ℕ → Bool
is_space c =
    leb 9 c && leb c 13
    || leb 28 c && leb c 32
    || c == 133
    || c == 160
    || c == 5760
    || leb 8192 c && leb c 8202
    || c == 8232
    || c == 8233
    || c == 8239
    || c == 8287
    || c == 12288

module _ (p : ℕ → Bool) where
  unfoldable pub strip_left : Text → Text
  strip_left [] = []
  strip_left (c ∷ s) = let rest = strip_left s in if p c then rest else c ∷ s

  unfoldable pub strip_right : Text → Text
  strip_right [] = []
  strip_right (c ∷ s) = let rest = strip_right s in if p c && is_empty rest then [] else c ∷ rest

  -- s.strip(chars)
  unfoldable pub strip_chars : Text → Text
  unfolding strip_left strip_right
  strip_chars s = strip_right (strip_left s)

-- s.strip()
unfoldable pub strip : Text → Text
unfolding strip_chars is_space
strip = strip_chars is_space

-- `str.lower` on one character: exact on ASCII and on the two other characters whose lower case
-- has an ASCII letter in it; every other character stays as it is.
unfoldable pub lower_char : ℕ → Text
lower_char c =
    if leb b'A' c && leb c b'Z'
    then (c + 32) ∷ []
    else if c == 0x130
    then b'i' ∷ 0x307 ∷ []
    else if c == 0x212a
    then b'k' ∷ []
    else c ∷ []

-- s.lower()
unfoldable pub lower : Text → Text
unfolding lower_char
lower [] = []
lower (c ∷ s) = lower_char c ++ lower s

-- The class [a-z0-9].
unfoldable pub is_slug_char : ℕ → Bool
is_slug_char c = leb b'a' c && leb c b'z' || leb b'0' c && leb c b'9'

-- _SLUG_RE.sub("-", s): every longest run of other characters becomes one dash. `inside` says
-- that the character before belonged to such a run.
unfoldable pub dash_runs : Bool → Text → Text
unfolding is_slug_char
dash_runs inside [] = []
dash_runs inside (c ∷ s) =
    let rest = dash_runs (not (is_slug_char c)) s in
    if is_slug_char c then c ∷ rest else if inside then rest else b'-' ∷ rest

abbrev pub or_n_a : Text → Text
or_n_a [] = text "n-a"
or_n_a (c ∷ s) = c ∷ s

unfoldable pub slugify : Text → Text
unfolding dash_runs strip lower strip_chars
slugify s = or_n_a (strip_chars (λ c. c == b'-') (dash_runs false (lower (strip s))))

slugify_renewal : slugify (text "  Renewal & Co (copy 2) ") ≡ text "renewal-co-copy-2"
unfolding slugify
slugify_renewal = refl

slugify_symbols : slugify (text " ?! ") ≡ text "n-a"
unfolding slugify
slugify_symbols = refl

-- k in xs
unfoldable pub contains : Text → List Text → Bool
contains k [] = false
contains k (x ∷ xs) = text_eq k x || contains k xs

-- s < t, by code points
unfoldable pub text_lt : Text → Text → Bool
text_lt s [] = false
text_lt [] (d ∷ t) = true
text_lt (c ∷ s) (d ∷ t) = ltb c d || c == d && text_lt s t

insert_key : Text → List Text → List Text
insert_key k [] = k ∷ []
insert_key k (x ∷ xs) =
    let rest = insert_key k xs in
    if text_eq k x then x ∷ xs else if text_lt k x then k ∷ x ∷ xs else x ∷ rest

-- sorted(set(xs)): in order, each once
unfoldable pub sorted_set : List Text → List Text
unfolding insert_key
sorted_set [] = []
sorted_set (x ∷ xs) = insert_key x (sorted_set xs)

-- sep.join(xs)
unfoldable pub join : Text → List Text → Text
join sep [] = []
join sep (x ∷ []) = x
join sep (x ∷ y ∷ xs) = x ++ (sep ++ join sep (y ∷ xs))

sorted_set_keys :
    sorted_set (text "sign" ∷ text "draft" ∷ text "sign" ∷ []) ≡ text "draft" ∷ text "sign" ∷ []
unfolding sorted_set text_lt text_eq
sorted_set_keys = refl

insert_key-ne-nil : (k : Text) (xs : List Text) → insert_key k xs ≢ []
unfolding insert_key
insert_key-ne-nil k [] = ground arith
insert_key-ne-nil k (x ∷ xs) = ground arith

-- Nothing is left exactly if there was nothing.
pub sorted_set-eq-nil : (xs : List Text) → (sorted_set xs ≡ []) ↔ (xs ≡ [])
unfolding sorted_set
sorted_set-eq-nil [] = (λ e. e, λ e. e)
sorted_set-eq-nil (x ∷ xs) = (λ e. absurd (insert_key-ne-nil x (sorted_set xs) e), λ e. cc)

pub contains-cons_iff :
    (k x : Text) (xs : List Text)
    → (contains k (x ∷ xs) ≡ true) ↔ ((k ≡ x) ⊎ (contains k xs ≡ true))
unfolding contains
contains-cons_iff k x xs = ground (arith, text_eq_iff k x)

-- str(n); the fuel is enough, since every round divides by ten.
unfoldable pub decimal : ℕ → ℕ → Text → Text
decimal zero n s = s
decimal (suc fuel) n s =
    let rest = decimal fuel (n / 10) ((b'0' + n % 10) ∷ s) in
    if ltb n 10 then (b'0' + n) ∷ s else rest

unfoldable pub show_nat : ℕ → Text
unfolding decimal
show_nat n = decimal (n + 1) n []

show_nat_15 : show_nat 15 ≡ text "15"
unfolding show_nat
show_nat_15 = refl
