-- ===== src/Services/Names/Free.antt =====
-- The names that the loops find are free: among one more numbers than there are slugs, one is.
use orchestract.Common.{
  append-nil, ap, sym, show_nat, ◌++◌, [], text, ℕ, zero, suc, ◌+◌, ◌≤◌, ◌<◌, ◌≡◌, ◌≢◌, ◌⊎◌, ap,
  sym, ◌∙◌, Bool, true, false, not, inl, inr, List, [], ◌∷◌, ◌++◌, arith, Bool-cases, length,
  filter, Text, text, text_eq, text_eq_iff, contains, contains-cons_iff, slugify,
}
use orchestract.Services.Names.Slugs.{slugify-injective, paren-IsTail, nothing-IsTail}
use orchestract.Services.Names.{
  first_free, free_suffix, copy_name, unique_copy_name, numbered_name, unique_workflow_name,
}

-- Another text than t.
abbrev differs : Text → Text → Bool
differs t x = not (text_eq t x)

length-filter : (q : Text → Bool) (xs : List Text) → length (filter q xs) ≤ length xs
unfolding filter length
length-filter q [] = omega arith
length-filter q (x ∷ xs) = ground (arith, length-filter q xs)

length-remove :
    (t : Text) (xs : List Text) → contains t xs ≡ true → length (filter (differs t) xs) < length xs
unfolding filter length contains
length-remove t [] h = absurd (ground arith)
length-remove t (x ∷ xs) h = elim (Bool-cases (text_eq t x)) [
  | inl e ↦ rw e (let q = length-filter (differs t) xs in omega (arith, q))
  | inr e ↦ rw e (let q = length-remove t xs (ground arith) in omega (arith, q))
]

contains-remove :
    (t u : Text) (xs : List Text)
    → u ≢ t
    → contains u xs ≡ true
    → contains u (filter (differs t) xs) ≡ true
unfolding filter contains
contains-remove t u [] d h = absurd (ground arith)
contains-remove t u (x ∷ xs) d h = elim ((contains-cons_iff u x xs).0 h) [
  | inl e ↦
      let q : text_eq t x ≡ false = elim (Bool-cases (text_eq t x)) [
        | inl f ↦ absurd (d (e ∙ sym ((text_eq_iff t x).0 f)))
        | inr f ↦ f
      ] in
      rw q ((contains-cons_iff u x _).1 (inl e))
  | inr m ↦ elim (Bool-cases (text_eq t x)) [
    | inl f ↦ rw f (contains-remove t u xs d m)
    | inr f ↦ rw f ((contains-cons_iff u x _).1 (inr (contains-remove t u xs d m)))
  ]
]

module _ (f : ℕ → Text) (injective : (n m : ℕ) → f n ≡ f m → n ≡ m) where
  -- Different texts that all stand in a list are at most as many as its items.
  taken-length :
      (fuel s : ℕ) (xs : List Text)
      → ((k : ℕ) → k < fuel → contains (f (s + k)) xs ≡ true)
      → fuel ≤ length xs
  taken-length zero s xs h = omega arith
  taken-length (suc fuel) s xs h =
      let here : contains (f s) xs ≡ true =
        ap (λ n. contains (f n) xs) (omega arith) ∙ h 0 (omega arith) in
      let shorter = length-remove (f s) xs here in
      let rest = taken-length fuel (s + 1) (filter (differs (f s)) xs) (λ k below.
        contains-remove (f s) (f ((s + 1) + k)) xs
          (λ e. let q = injective ((s + 1) + k) s e in omega (arith, q))
          (ap (λ n. contains (f n) xs) (omega arith) ∙ h (k + 1) (omega (arith, below)))) in
      omega (arith, shorter, rest)

module _ (name : ℕ → Text) (slugs : List Text) where
  first_taken :
      (fuel s : ℕ)
      → contains (slugify (name s)) slugs ≡ true
      → ((k : ℕ) → k < fuel → contains (slugify (name ((s + 1) + k))) slugs ≡ true)
      → (k : ℕ) → k < suc fuel
      → contains (slugify (name (s + k))) slugs ≡ true
  first_taken fuel s e all zero below =
      ap (λ n. contains (slugify (name n)) slugs) (omega arith) ∙ e
  first_taken fuel s e all (suc k) below =
      ap (λ n. contains (slugify (name n)) slugs) (omega arith) ∙ all k (omega (arith, below))

  first_free-cases :
      (fuel s : ℕ)
      → (contains (slugify (name (first_free name slugs fuel s))) slugs ≡ false)
        ⊎ ((k : ℕ) → k < fuel → contains (slugify (name (s + k))) slugs ≡ true)
  unfolding first_free
  first_free-cases zero s = inr (λ k below. absurd (omega (arith, below)))
  first_free-cases (suc fuel) s = elim (Bool-cases (contains (slugify (name s)) slugs)) [
    | inr e ↦ inl (rw e e)
    | inl e ↦ elim (first_free-cases fuel (s + 1)) [
      | inl free ↦ inl (rw e free)
      | inr all ↦ inr (first_taken fuel s e all)
    ]
  ]

  pub free_suffix-free :
      ((n m : ℕ) → slugify (name n) ≡ slugify (name m) → n ≡ m)
      → contains (slugify (name (free_suffix name slugs))) slugs ≡ false
  unfolding free_suffix
  free_suffix-free injective = elim (first_free-cases (length slugs + 1) 2) [
    | inl free ↦ free
    | inr all ↦
        let q = taken-length (λ n. slugify (name n)) injective (length slugs + 1) 2 slugs all in
        absurd (omega (arith, q))
  ]

copy-free :
    (base : Text) (slugs : List Text)
    → contains (slugify (unique_copy_name base slugs)) slugs ≡ false
unfolding unique_copy_name
copy-free base slugs = elim (Bool-cases (contains (slugify (base ++ text " (copy)")) slugs)) [
  | inl e ↦ rw e (
      free_suffix-free (copy_name base) slugs
        (λ n m. slugify-injective (base ++ text " (copy ") (text ")") n m paren-IsTail))
  | inr e ↦ rw e e
]

numbered-injective :
    (base : Text) (n m : ℕ)
    → slugify (numbered_name base n) ≡ slugify (numbered_name base m)
    → n ≡ m
numbered-injective base n m h =
    let padded = λ (k : ℕ). ap (λ d. slugify ((base ++ text " ") ++ d)) (append-nil (show_nat k)) in
    slugify-injective (base ++ text " ") [] n m nothing-IsTail (padded n ∙ h ∙ sym (padded m))

workflow-free :
    (base : Text) (slugs : List Text)
    → contains (slugify (unique_workflow_name base slugs)) slugs ≡ false
unfolding unique_workflow_name
workflow-free base slugs = elim (Bool-cases (contains (slugify base) slugs)) [
  | inl e ↦ rw e (free_suffix-free (numbered_name base) slugs (numbered-injective base))
  | inr e ↦ rw e e
]

-- Whatever the name and the slugs in use: the loops of _unique_copy_name and
-- _unique_workflow_name end, within one more round than there are slugs, with a name whose slug is
-- not in use.
pub unique_names-free :
    (base : Text) (slugs : List Text)
    → (contains (slugify (unique_copy_name base slugs)) slugs ≡ false)
      × (contains (slugify (unique_workflow_name base slugs)) slugs ≡ false)
unique_names-free base slugs = (copy-free base slugs, workflow-free base slugs)
