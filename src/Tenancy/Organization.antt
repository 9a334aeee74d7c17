-- ===== src/Tenancy/Organization.antt =====
-- app/domain/tenancy/models.py: the tenant, with its plan and its subscription. Organization.plan
-- is stored as the value of a Plan, which every method writes and Plan(...) reads back.
use orchestract.Common.{
  ℕ, Option, none, some, Text, is_empty, strip, slugify, Result, ok, ◌>>◌, raise_if,
  empty_organization_name,
}
use orchestract.Tenancy.Plans.{Plan, free}

pub record Organization : Type 0 where
  pub id : Option ℕ
  pub name : Text
  pub slug : Text
  pub plan : Plan
  pub stripe_customer_id : Option Text
  pub stripe_subscription_id : Option Text
  pub subscription_status : Option Text

unfoldable pub create : Text → Result Organization
create name =
    let stripped = strip name in
    do
      raise_if (is_empty stripped) empty_organization_name
      ok (record {
        id = none;
        name = stripped;
        slug = slugify stripped;
        plan = free;
        stripe_customer_id = none;
        stripe_subscription_id = none;
        subscription_status = none;
      })

unfoldable pub set_plan : Plan → Organization → Organization
set_plan plan o = record o { plan = plan }

unfoldable pub set_stripe_customer : Text → Organization → Organization
set_stripe_customer customer_id o = record o { stripe_customer_id = some customer_id }

unfoldable pub apply_subscription : Text → Text → Plan → Organization → Organization
apply_subscription subscription_id status plan o = record o {
  stripe_subscription_id = some subscription_id;
  subscription_status = some status;
  plan = plan;
}

unfoldable pub clear_subscription : Organization → Organization
clear_subscription o = record o {
  stripe_subscription_id = none;
  subscription_status = none;
  plan = free;
}
