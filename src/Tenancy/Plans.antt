-- ===== src/Tenancy/Plans.antt =====
-- app/domain/tenancy/plans.py
use orchestract.Common.{
  ℕ, Bool, true, false, Option, none, some, List, ltb, leb, length, Text, text, Result, ok,
  raise_if, plan_limit_exceeded,
}

pub data Plan : Type 0 where
  free team business : Plan

pub record PlanLimits : Type 0 where
  pub display_name : Text
  pub monthly_price_usd : ℕ
  pub max_users : Option ℕ
  pub max_contracts : Option ℕ
  pub max_workflows : Option ℕ
  pub max_agents : Option ℕ
  pub ai_enabled : Bool

-- limit is None or current_count < limit
unfoldable pub fits : Option ℕ → ℕ → Bool
fits none current_count = true
fits (some limit) current_count = ltb current_count limit

unfoldable pub can_add_user : PlanLimits → ℕ → Bool
unfolding fits
can_add_user l = fits l.max_users

unfoldable pub can_add_contract : PlanLimits → ℕ → Bool
unfolding fits
can_add_contract l = fits l.max_contracts

unfoldable pub can_add_workflow : PlanLimits → ℕ → Bool
unfolding fits
can_add_workflow l = fits l.max_workflows

unfoldable pub can_add_agent : PlanLimits → ℕ → Bool
unfolding fits
can_add_agent l = fits l.max_agents

-- PLAN_LIMITS
unfoldable pub plan_limits : Plan → PlanLimits
plan_limits free = record {
  display_name = text "Free";
  monthly_price_usd = 0;
  max_users = some 3;
  max_contracts = some 5;
  max_workflows = some 3;
  max_agents = some 3;
  ai_enabled = false;
}
plan_limits team = record {
  display_name = text "Team";
  monthly_price_usd = 49;
  max_users = some 15;
  max_contracts = none;
  max_workflows = none;
  max_agents = none;
  ai_enabled = true;
}
plan_limits business = record {
  display_name = text "Business";
  monthly_price_usd = 199;
  max_users = none;
  max_contracts = none;
  max_workflows = none;
  max_agents = none;
  ai_enabled = true;
}

-- The guard that the services repeat: if limit is not None and len(existing) >= limit, raise.
unfoldable pub check_limit {ℓ} : {A : Type ℓ} → Option ℕ → List A → Text → Result (Unit {0})
check_limit none existing message = ok tt
check_limit (some limit) existing message =
    raise_if (leb limit (length existing)) (plan_limit_exceeded message)
