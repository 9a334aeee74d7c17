-- ===== src/Services/BillingExamples.antt =====
-- An organization that takes out a subscription, in the database in memory.
use mathlib.Core.List.Memᴰ
use orchestract.Common.{
  ◌≡◌, refl, ap, inl, inr, none, some, [], ◌∷◌, arith, filter, text, text_eq, ok,
}
use orchestract.Session.{IsLawful, select_where, scalar_one_or_none}
use orchestract.Session.Memory.{memory, memory-IsLawful}
use orchestract.Session.Part.{part, part-IsLawful}
use orchestract.Tenancy.Plans.{free, team}
use orchestract.Tenancy.Organization.{Organization, apply_subscription}
use orchestract.Services.Db.{Db, db_store}
use orchestract.Services.Examples.{fresh_db}
use orchestract.Services.Billing.{
  Event, subscription_changed, resolve_plan, get_by_stripe_customer_id, commit_organization,
  handle_webhook_event,
}
use orchestract.Services.Billing.Subscribed.{
  id_of_organization, organization_with_id, AllPay, handle_webhook_event-AllPay,
}

abbrev customer : Organization
customer = record {
  id = some 0;
  name = text "Acme";
  slug = text "acme";
  plan = free;
  stripe_customer_id = some (text "cus");
  stripe_subscription_id = none;
  subscription_status = none;
}

abbrev subscriber : Organization
subscriber = record customer {
  plan = team;
  stripe_subscription_id = some (text "sub");
  subscription_status = some (text "active");
}

abbrev db_of : Organization → Db
db_of o = record fresh_db { organizations = o ∷ [] }

abbrev subscribed : Event
subscribed = subscription_changed (text "sub") (text "active") (text "cus") (some (text "p1"))

subscription_handled :
    handle_webhook_event db_store (text "p1") (text "p2") subscribed (db_of customer)
    ≡ ok (db_of subscriber)
unfolding handle_webhook_event get_by_stripe_customer_id select_where filter scalar_one_or_none
    commit_organization part memory resolve_plan text_eq apply_subscription
subscription_handled = refl

organizations-IsLawful : IsLawful db_store.organizations id_of_organization organization_with_id
organizations-IsLawful =
    part-IsLawful (λ s. s.organizations) (λ l s. record s { organizations = l })
      (memory id_of_organization organization_with_id) (λ u s. refl) id_of_organization
      organization_with_id
      (memory-IsLawful id_of_organization organization_with_id (λ n o. refl)
        (λ n o h. ground arith))

customer-AllPay : AllPay db_store organizations-IsLawful (db_of customer)
unfolding part memory
customer-AllPay = record {
  pays = λ o m. elim (Memᴰ.cases_cons m) [
    | inl e ↦ inl (ap (λ x. x.plan) e)
    | inr k ↦ absurd (Memᴰ.not-nil k)
  ];
}

handle_webhook_event-AllPay_example : AllPay db_store organizations-IsLawful (db_of subscriber)
handle_webhook_event-AllPay_example =
    handle_webhook_event-AllPay db_store organizations-IsLawful (text "p1") (text "p2") subscribed
      (db_of customer) (db_of subscriber) subscription_handled customer-AllPay
