-- ===== src/Compliance.antt =====
-- app/domain/compliance/models.py and terms.py: the consent of a user to a version of the terms.
-- `now` is the value of utcnow().
use orchestract.Common.{
  ℕ, zero, suc, Option, none, some, [], ◌∷◌, if◌then◌else◌, Text, text, is_empty,
}

-- CURRENT_TERMS_VERSION
unfoldable pub current_terms_version : Text
current_terms_version = text "2026-07-28"

pub record TermsAcceptance : Type 0 where
  pub user_id : ℕ
  pub organization_id : ℕ
  pub version : Text
  pub accepted_at : ℕ
  pub ip_address : Option Text
  pub user_agent : Option Text

-- s[:n]
unfoldable pub take : ℕ → Text → Text
take zero s = []
take (suc n) [] = []
take (suc n) (c ∷ s) = c ∷ take n s

-- The empty text is no user agent either.
unfoldable pub short_agent : Option Text → Option Text
unfolding take
short_agent none = none
short_agent (some s) = if is_empty s then none else some (take 400 s)

-- TermsAcceptance.record
unfoldable pub record_acceptance : ℕ → ℕ → Text → Option Text → Option Text → ℕ → TermsAcceptance
unfolding short_agent
record_acceptance user_id organization_id version ip_address user_agent now = record {
  user_id = user_id;
  organization_id = organization_id;
  version = version;
  accepted_at = now;
  ip_address = ip_address;
  user_agent = short_agent user_agent;
}
