-- ===== src/Locales/Examples.antt =====
-- A request with a cookie, and one with a header, with a Babel that takes the first language.
use orchestract.Common.{
  ℕ, ◌≡◌, refl, true, false, Option, none, some, List, [], ◌∷◌, if◌then◌else◌, Text, text, text_eq,
  contains, strip,
}
use orchestract.Locales.{
  supported_locales, is_supported, negotiate_and_set_locale, parse_accept_language,
}
use orchestract.Locales.Preferences.{negotiate_and_set_locale-supported}

-- 0.8 is read, and nothing else.
abbrev float : Text → Option ℕ
float s = if text_eq s (text "0.8") then some 8 else none

abbrev first_of : List Text → List Text → Option Text
first_of [] ls = none
first_of (l ∷ _) ls = some l

ranked : parse_accept_language float 10 (text "fr;q=0.8, pt-BR") ≡ text "pt_BR" ∷ text "fr" ∷ []
unfolding parse_accept_language strip text_eq
ranked = refl

negotiate_and_set_locale-supported_example :
    (contains
        (negotiate_and_set_locale float 10 first_of
          (some (text "de"))
          (some (text "pt"))
          (text "fr"))
        supported_locales
      ≡ true)
    × (is_supported (some (text "de")) ≡ true
        → some (text "de")
          ≡ some (
              negotiate_and_set_locale float 10 first_of
                (some (text "de"))
                (some (text "pt"))
                (text "fr")))
    × (is_supported (some (text "de")) ≡ false
        → is_supported (some (text "pt")) ≡ true
        → some (text "pt")
          ≡ some (
              negotiate_and_set_locale float 10 first_of
                (some (text "de"))
                (some (text "pt"))
                (text "fr")))
negotiate_and_set_locale-supported_example =
    negotiate_and_set_locale-supported float 10 first_of (some (text "de")) (some (text "pt"))
      (text "fr")
