-- ===== src/Services/Organizations.antt =====
-- app/application/organization_service.py, with the query get_by_slug of
-- app/infrastructure/db/repositories/organizations.py. The NotFoundError of a slug carries 0 for
-- the id that it has not.
use orchestract.Common.{
  ℕ, some, Text, text_eq, Result, ok, ◌>>=◌, or_raise, not_found, organization, integrity_error,
}
use orchestract.Session.{select_where, scalar_one_or_none}
use orchestract.Tenancy.Plans.{Plan}
use orchestract.Tenancy.Organization.{Organization, create, set_plan}
use orchestract.Services.{Store}

module _ {S : Type 0} (store : Store S) where
  unfoldable pub create_organization : Text → S → Result (Organization × S)
  create_organization name s = do
    o ← create name
    (n, s') ← or_raise (store.organizations.add o s) integrity_error
    ok (record o { id = some n }, s')

  -- OrganizationService.get
  unfoldable pub get_organization : ℕ → S → Result Organization
  get_organization organization_id s =
      or_raise (store.organizations.get organization_id s) (not_found organization organization_id)

  -- OrganizationService.get_by_slug
  unfoldable pub get_organization_by_slug : Text → S → Result Organization
  get_organization_by_slug slug s = do
    found ← scalar_one_or_none (select_where store.organizations (λ o. text_eq o.slug slug) s)
    or_raise found (not_found organization 0)

  -- OrganizationService.set_plan
  unfoldable pub set_organization_plan : ℕ → Plan → S → Result (Organization × S)
  set_organization_plan organization_id plan s = do
    o ← get_organization organization_id s
    ok (set_plan plan o, store.organizations.save organization_id (set_plan plan o) s)
