-- ===== src/Tenancy/Limits.antt =====
-- The limits of a plan: the guard of the services, and what a dearer plan admits.
use orchestract.Common.{
  ℕ, ◌≤◌, ◌≡◌, refl, true, Option, none, some, List, arith, if◌then◌else◌, length, Text, ok, err,
  plan_limit_exceeded,
}
use orchestract.Tenancy.Plans.{
  Plan, free, team, business, fits, can_add_user, can_add_contract, can_add_workflow, can_add_agent,
  plan_limits, check_limit,
}

-- The guard that the services repeat lets pass exactly what `fits`.
pub check_limit-fits {ℓ} :
    {A : Type ℓ} (limit : Option ℕ) (existing : List A) (message : Text)
    → check_limit limit existing message
      ≡ (if fits limit (length existing) then ok tt else err (plan_limit_exceeded message))
unfolding check_limit fits
check_limit-fits none existing message = refl
check_limit-fits (some limit) existing message = ground arith

-- A plan that costs at least as much admits whatever the other admits, and has its AI features.
pub dearer_admits_more :
    (p q : Plan) (n : ℕ)
    → (plan_limits p).monthly_price_usd ≤ (plan_limits q).monthly_price_usd
    → (can_add_user (plan_limits p) n ≡ true → can_add_user (plan_limits q) n ≡ true)
      × (can_add_contract (plan_limits p) n ≡ true → can_add_contract (plan_limits q) n ≡ true)
      × (can_add_workflow (plan_limits p) n ≡ true → can_add_workflow (plan_limits q) n ≡ true)
      × (can_add_agent (plan_limits p) n ≡ true → can_add_agent (plan_limits q) n ≡ true)
      × ((plan_limits p).ai_enabled ≡ true → (plan_limits q).ai_enabled ≡ true)
unfolding plan_limits can_add_user can_add_contract can_add_workflow can_add_agent fits
dearer_admits_more free free n h = (λ e. e, λ e. e, λ e. e, λ e. e, λ e. e)
dearer_admits_more free team n h = (λ e. ground arith, λ e. refl, λ e. refl, λ e. refl, λ e. refl)
dearer_admits_more free business n h = (λ e. refl, λ e. refl, λ e. refl, λ e. refl, λ e. refl)
dearer_admits_more team free n h = absurd (ground arith)
dearer_admits_more team team n h = (λ e. e, λ e. e, λ e. e, λ e. e, λ e. e)
dearer_admits_more team business n h = (λ e. refl, λ e. refl, λ e. refl, λ e. refl, λ e. refl)
dearer_admits_more business free n h = absurd (ground arith)
dearer_admits_more business team n h = absurd (ground arith)
dearer_admits_more business business n h = (λ e. e, λ e. e, λ e. e, λ e. e, λ e. e)
