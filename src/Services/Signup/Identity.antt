-- ===== src/Services/Signup/Identity.antt =====
-- The identity that is read from Google's answer has a name to derive that of an organization from.
use orchestract.Common.{
  ℕ, ◌≡◌, refl, sym, ap, ◌∙◌, ◌⊎◌, inl, inr, Bool, false, Option, [], ◌∷◌, arith, Bool-cases, Text,
  is_empty, strip, strip_left, strip_right, strip_chars, is_space, ok, Result-cases,
}
use orchestract.Services.SocialAuth.{
  first_word, derive_org_name, personal_name, GoogleIdentity, google_identity,
}

-- The text starts with a character that fails the test.
abbrev StartsOff : (ℕ → Bool) → Text → Type 0
StartsOff p s = (c : ℕ) × (rest : Text) × (s ≡ c ∷ rest) × (p c ≡ false)

strip_left-cases : (p : ℕ → Bool) (s : Text) → (strip_left p s ≡ []) ⊎ StartsOff p (strip_left p s)
unfolding strip_left
strip_left-cases p [] = inl refl
strip_left-cases p (c ∷ s) = elim (Bool-cases (p c)) [
  | inl e ↦ rw e (strip_left-cases p s)
  | inr e ↦ rw e (inr (c, s, refl, e))
]

strip-cases : (s : Text) → (strip s ≡ []) ⊎ StartsOff is_space (strip s)
unfolding strip strip_chars strip_right
strip-cases s = elim (strip_left-cases is_space s) [
  | inl e ↦ inl (rw e)
  | inr (c, rest, e, f) ↦ inr (c, strip_right is_space rest, rw e (ground arith), f)
]

-- A text that `strip` has left is not blank.
stripped-strip : (s : Text) → is_empty (strip s) ≡ false → is_empty (strip (strip s)) ≡ false
unfolding strip strip_chars strip_left strip_right
stripped-strip s h = elim (strip-cases s) [
  | inl e ↦ absurd (ground arith)
  | inr (c, rest, e, f) ↦ rw e (ground arith)
]

first_word-ok : (s : Text) → is_empty s ≡ false → (w : Text) × (first_word s ≡ ok w)
unfolding first_word
first_word-ok [] h = absurd (ground arith)
first_word-ok (c ∷ s) h = (_, refl)

personal_name-ok :
    (i : GoogleIdentity) (s : Text) → i.name ≡ strip s → (w : Text) × (personal_name i ≡ ok w)
unfolding personal_name
personal_name-ok i s h = elim (Result-cases (personal_name i)) [
  | inl (w, e) ↦ (w, e)
  | inr (x, e) ↦ elim (Bool-cases (is_empty i.name)) [
    | inl f ↦ absurd (ground arith)
    | inr f ↦
        let still = ap (λ x. is_empty (strip x)) h ∙ stripped-strip s (ap is_empty (sym h) ∙ f) in
        let (w, g) = first_word-ok (strip i.name) still in absurd (ground (arith, g))
  ]
]

-- The identity that is read from an answer of Google always has a name for an organization, though
-- `_derive_org_name` takes the first word of a name without asking whether there is one.
pub google_identity-derive_org_name :
    (sub : Text) (email : Option Text) (verified : Option Bool) (name given_name : Option Text)
    → (w : Text) × (derive_org_name (google_identity sub email verified name given_name) ≡ ok w)
unfolding derive_org_name google_identity
google_identity-derive_org_name sub email verified name given_name =
    let i = google_identity sub email verified name given_name in
    elim (Result-cases (derive_org_name i)) [
      | inl (w, e) ↦ (w, e)
      | inr (x, e) ↦ let (w, f) = personal_name-ok i _ refl in absurd (ground (arith, f))
    ]
