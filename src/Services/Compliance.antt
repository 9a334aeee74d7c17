-- ===== src/Services/Compliance.antt =====
-- app/application/compliance_service.py, with the queries of
-- app/infrastructure/db/repositories/terms_acceptances.py. `now` is the value of utcnow().
use orchestract.Common.{
  ℕ, Bool, ◌&&◌, Option, none, some, List, [], ◌∷◌, ◌==◌, any, filter, Text, text_eq, Result, ok,
  ◌>>=◌, or_raise, integrity_error,
}
use orchestract.Services.{Store}
use orchestract.Compliance.{TermsAcceptance, record_acceptance, current_terms_version}

abbrev pub is_acceptance_of : ℕ → Text → TermsAcceptance → Bool
is_acceptance_of user_id version a = a.user_id == user_id && text_eq a.version version

abbrev pub is_by_user : ℕ → TermsAcceptance → Bool
is_by_user user_id a = a.user_id == user_id

-- limit(1)
abbrev first_row {ℓ} : {A : Type ℓ} → List A → Option A
first_row [] = none
first_row (a ∷ l) = some a

module _ {S : Type 0} (store : Store S) where
  -- ComplianceService.record_acceptance
  unfoldable pub accept_terms :
      ℕ → ℕ → Option Text → Option Text → Text → ℕ → S → Result (TermsAcceptance × S)
  accept_terms user_id organization_id ip_address user_agent version now s = do
    let a = record_acceptance user_id organization_id version ip_address user_agent now
    s' ← or_raise (store.terms_acceptances.add a s) integrity_error
    ok (a, s')

  unfoldable pub has_accepted : ℕ → Text → S → Bool
  has_accepted user_id version s =
      any (is_acceptance_of user_id version) (store.terms_acceptances.rows s)

  unfoldable pub has_accepted_current : ℕ → S → Bool
  unfolding has_accepted current_terms_version
  has_accepted_current user_id s = has_accepted user_id current_terms_version s

  -- `latest_first` is order_by(TermsAcceptance.accepted_at.desc()).
  unfoldable pub latest_acceptance :
      (List TermsAcceptance → List TermsAcceptance) → ℕ → S → Option TermsAcceptance
  latest_acceptance latest_first user_id s =
      first_row (latest_first (filter (is_by_user user_id) (store.terms_acceptances.rows s)))
