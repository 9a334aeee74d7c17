-- ===== src/Services/Names.antt =====
-- The loops of app/application/workflow_service.py (_unique_copy_name) and app/web/routes.py
-- (_unique_workflow_name) that look for a name whose slug no workflow of the organization has.
-- `name` is the f-string with the suffix. The fuel is one more than there are slugs.
pub mod Numerals
pub mod Slugs
pub mod Free
use orchestract.Common.{
  ℕ, zero, suc, ◌+◌, List, ◌∷◌, ◌++◌, if◌then◌else◌, length, Text, text, slugify, contains,
  show_nat,
}

-- while slugify(name(suffix)) in existing_slugs: suffix += 1
unfoldable pub first_free : (ℕ → Text) → List Text → ℕ → ℕ → ℕ
first_free name slugs zero suffix = suffix
first_free name slugs (suc fuel) suffix =
    let rest = first_free name slugs fuel (suffix + 1) in
    if contains (slugify (name suffix)) slugs then rest else suffix

-- The suffix 2, or the first after it that is free.
unfoldable pub free_suffix : (ℕ → Text) → List Text → ℕ
unfolding first_free
free_suffix name slugs = first_free name slugs (length slugs + 1) 2

-- f"{base_name} (copy {suffix})"
abbrev pub copy_name : Text → ℕ → Text
copy_name base n = (base ++ text " (copy ") ++ (show_nat n ++ text ")")

unfoldable pub unique_copy_name : Text → List Text → Text
unfolding free_suffix
unique_copy_name base slugs =
    let candidate = base ++ text " (copy)" in
    if contains (slugify candidate) slugs
    then copy_name base (free_suffix (copy_name base) slugs)
    else candidate

-- f"{base_name} {suffix}"
abbrev pub numbered_name : Text → ℕ → Text
numbered_name base n = (base ++ text " ") ++ show_nat n

unfoldable pub unique_workflow_name : Text → List Text → Text
unfolding free_suffix
unique_workflow_name base slugs =
    if contains (slugify base) slugs
    then numbered_name base (free_suffix (numbered_name base) slugs)
    else base
