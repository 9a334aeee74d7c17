-- ===== src/Locales.antt =====
-- app/infrastructure/i18n/__init__.py: the language of a request. `float` gives the rank of a weight
-- that Python's float reads, among weights that can be compared, `one` is the rank of 1.0, and
-- `negotiate_locale` is Babel's.
pub mod Preferences
mod Examples
use orchestract.Common.{
  ℕ, Bool, false, ◌&&◌, Option, none, some, List, [], ◌∷◌, map, leb, ◌==◌, if◌then◌else◌, Text,
  text, is_empty, strip, contains,
}

abbrev pub default_locale : Text
default_locale = text "en"

-- SUPPORTED_LOCALES
abbrev pub supported_locales : List Text
supported_locales = text "en" ∷ text "pt" ∷ text "fr" ∷ text "es" ∷ []

-- locale in SUPPORTED_LOCALES
abbrev pub is_supported : Option Text → Bool
is_supported none = false
is_supported (some l) = contains l supported_locales

-- The value that set_current_locale pins and returns.
unfoldable pub set_current_locale : Option Text → Text
unfolding contains
set_current_locale none = default_locale
set_current_locale (some l) = if contains l supported_locales then l else default_locale

-- s.split(sep)
unfoldable pub split : ℕ → Text → List Text
split sep [] = [] ∷ []
split sep (c ∷ s) =
    let rest = split sep s in
    if c == sep then [] ∷ rest else elim rest [ [] ↦ (c ∷ []) ∷ [] | w ∷ ws ↦ (c ∷ w) ∷ ws ]

-- s.partition(sep)[0] and s.partition(sep)[2]
unfoldable pub partition : ℕ → Text → Text × Text
partition sep [] = ([], [])
partition sep (c ∷ s) =
    let rest = partition sep s in if c == sep then ([], s) else (c ∷ rest.0, rest.1)

-- code.replace("-", "_")
abbrev underscored : Text → Text
underscored = map (λ c. if c == b'-' then b'_' else c)

-- params.strip()[2:] where params.strip() starts with "q="
abbrev weight_text : Text → Option Text
weight_text [] = none
weight_text (c ∷ []) = none
weight_text (c ∷ d ∷ s) = if c == b'q' && d == b'=' then some s else none

-- ranked.sort(key=lambda item: item[0], reverse=True): stable, with the greatest first.
unfoldable pub insert_ranked : ℕ × Text → List (ℕ × Text) → List (ℕ × Text)
insert_ranked x [] = x ∷ []
insert_ranked x (y ∷ ys) =
    let rest = insert_ranked x ys in if leb y.0 x.0 then x ∷ y ∷ ys else y ∷ rest

unfoldable pub sort_ranked : List (ℕ × Text) → List (ℕ × Text)
unfolding insert_ranked
sort_ranked [] = []
sort_ranked (x ∷ xs) = insert_ranked x (sort_ranked xs)

module _ (float : Text → Option ℕ) (one : ℕ) where
  unfoldable pub quality : Text → ℕ
  quality params = elim (weight_text (strip params)) [
    | none ↦ one
    | some w ↦ elim (float w) [ none ↦ one | some q ↦ q ]
  ]

  -- The loop, over the parts of the header.
  unfoldable pub rank_parts : List Text → List (ℕ × Text)
  unfolding quality partition
  rank_parts [] = []
  rank_parts (part ∷ parts) =
      let rest = rank_parts parts in
      let (code, params) = partition b';' (strip part) in
      let name = underscored (strip code) in
      if is_empty name then rest else (quality params, name) ∷ rest

  unfoldable pub parse_accept_language : Text → List Text
  unfolding sort_ranked rank_parts split
  parse_accept_language header = map (λ x. x.1) (sort_ranked (rank_parts (split b',' header)))

  module _ (negotiate_locale : List Text → List Text → Option Text) where
    unfoldable pub negotiate_from_header : Text → Option Text
    unfolding parse_accept_language
    negotiate_from_header header = elim (parse_accept_language header) [
      | [] ↦ none
      | l ∷ ls ↦ negotiate_locale (l ∷ ls) supported_locales
    ]

    -- The value that _negotiate_and_set_locale of app/api/deps.py pins: `preference` is user.locale,
    -- where a user is logged in.
    unfoldable pub negotiate_and_set_locale : Option Text → Option Text → Text → Text
    unfolding set_current_locale negotiate_from_header
    negotiate_and_set_locale preference cookie header = set_current_locale (
        if is_supported preference
        then preference
        else if is_supported cookie
        then cookie
        else elim (negotiate_from_header header) [
          | none ↦ some default_locale
          | some l ↦ some (if is_empty l then default_locale else l)
        ])
