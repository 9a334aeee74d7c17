-- ===== src/Services/Billing.antt =====
-- app/application/billing_service.py: what the events of Stripe write, with the query
-- get_by_stripe_customer_id of app/infrastructure/db/repositories/organizations.py. An event is
-- kept as the fields that the handler reads.
pub mod Subscribed
use orchestract.Common.{
  ℕ, zero, suc, ◌+◌, ◌-◌, ◌*◌, ◌≤◌, ◌<◌, String, ◌≡◌, refl, sym, ap, ◌∙◌, subst, ◌≢◌, ◌↔◌, ◌⊎◌, inl,
  inr, Bool, true, false, not, ◌&&◌, ◌||◌, Option, none, some, List, [], ◌∷◌, ◌++◌, map, Memᴰ,
  arith, ltb, leb, ◌==◌, if◌then◌else◌, ltb→lt, lt→ltb, Bool-cases, Option-cases, List-cases,
  length, any, filter, find, last, All, length-append, last-append, any-append, filter-append,
  any_of_mem, mem_of_any, find-some, find-none, find-any, mem-filter, filter-eq-nil, append-eq-nil,
  Text, text, text_eq, text_eq_refl, text_eq_iff, is_empty, strip, lower, slugify, contains,
  sorted_set, join, contains-cons_iff, sorted_set-eq-nil, Result, ok, err, DomainError, ◌>>=◌, ◌>>◌,
  raise_if, or_raise, Result-cases, show_nat, integrity_error,
}
use orchestract.Session.{select_where, scalar_one_or_none}
use orchestract.Tenancy.Plans.{Plan, free, team, business}
use orchestract.Tenancy.Organization.{
  Organization, set_stripe_customer, apply_subscription, clear_subscription,
}
use orchestract.Services.{Store}

pub data Event : Type 0 where
  -- checkout.session.completed: client_reference_id and customer
  checkout_completed : ℕ → Text → Event
  -- customer.subscription.updated or .created: id, status, customer and the price of the first item
  subscription_changed : Text → Text → Text → Option Text → Event
  -- customer.subscription.deleted: customer
  subscription_deleted : Text → Event
  other_event : Event

abbrev pub has_customer : Text → Organization → Bool
has_customer customer o = elim o.stripe_customer_id [ none ↦ false | some c ↦ text_eq c customer ]

-- _resolve_plan; the settings stripe_price_team and stripe_price_business are arguments.
unfoldable pub resolve_plan : Text → Text → Option Text → Plan
resolve_plan price_team price_business none = free
resolve_plan price_team price_business (some price_id) =
    if is_empty price_id
    then free
    else if text_eq price_id price_team
    then team
    else if text_eq price_id price_business
    then business
    else free

module _ {S : Type 0} (store : Store S) where
  unfoldable pub get_by_stripe_customer_id : Text → S → Result (Option Organization)
  get_by_stripe_customer_id customer s =
      scalar_one_or_none (select_where store.organizations (has_customer customer) s)

  -- The commit of a change to an organization that a query found.
  unfoldable pub commit_organization :
      Option Organization → (Organization → Organization) → S → Result S
  commit_organization none change s = ok s
  commit_organization (some o) change s = elim o.id [
    | none ↦ err integrity_error
    | some n ↦ ok (store.organizations.save n (change o) s)
  ]

  unfoldable pub handle_webhook_event : Text → Text → Event → S → Result S
  unfolding commit_organization
  handle_webhook_event price_team price_business (checkout_completed organization_id customer) s =
      commit_organization (store.organizations.get organization_id s) (set_stripe_customer customer)
        s
  handle_webhook_event price_team price_business (subscription_changed id status customer price_id)
        s =
      do
        o ← get_by_stripe_customer_id customer s
        commit_organization o
            (apply_subscription id status (resolve_plan price_team price_business price_id)) s
  handle_webhook_event price_team price_business (subscription_deleted customer) s = do
    o ← get_by_stripe_customer_id customer s
    commit_organization o clear_subscription s
  handle_webhook_event price_team price_business other_event s = ok s
