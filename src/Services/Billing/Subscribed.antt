-- ===== src/Services/Billing/Subscribed.antt =====
-- The plan of an organization and its subscription.
use orchestract.Common.{
  ℕ, ◌≡◌, refl, sym, ◌∙◌, subst, ◌⊎◌, inl, inr, Option, none, some, Memᴰ, arith, ◌==◌, Bool-cases,
  Option-cases, Text, ok, ◌>>=◌, Result-cases,
}
use orchestract.Session.Query.{scalar-count}
use orchestract.Session.{IsLawful, select_where}
use orchestract.Tenancy.Plans.{free}
use orchestract.Tenancy.Organization.{
  Organization, set_stripe_customer, apply_subscription, clear_subscription,
}
use orchestract.Services.{Store}
use orchestract.Services.Billing.{
  Event, checkout_completed, subscription_changed, subscription_deleted, other_event, has_customer,
  resolve_plan, get_by_stripe_customer_id, commit_organization, handle_webhook_event,
}

abbrev pub id_of_organization : Organization → Option ℕ
id_of_organization o = o.id

abbrev pub organization_with_id : ℕ → Organization → Organization
organization_with_id n o = record o { id = some n }

-- The organization is on the free plan or has a subscription.
abbrev pub PaysFor : Organization → Type 0
PaysFor o = (o.plan ≡ free) ⊎ ((i : Text) × (o.stripe_subscription_id ≡ some i))

module _ {S : Type 0} (store : Store S)
    (laws : IsLawful store.organizations id_of_organization organization_with_id) where
  pub record AllPay (s : S) : Type 0 where
    pub pays : (o : Organization) → Memᴰ o (store.organizations.rows s) → PaysFor o

  save-AllPay :
      (n : ℕ) (s : S) (old new : Organization)
      → store.organizations.get n s ≡ some old
      → new.id ≡ some n
      → PaysFor new
      → AllPay s
      → AllPay (store.organizations.save n new s)
  save-AllPay n s old new h i p v = record {
    pays = λ o m.
        let (k, ki, kg) = laws.rows-get (store.organizations.save n new s) o m in
        elim (Bool-cases (n == k)) [
          | inl same ↦
              let e : o ≡ new = ground (arith, laws.get-save_self n s old new h i) in
              subst PaysFor (sym e) p
          | inr other ↦
              let before = sym (laws.get-save_ne n k s new (ground arith)) ∙ kg in
              v.pays o (laws.get-rows k s o before).0
        ];
  }

  -- A change that keeps the id, and after which the organization pays.
  commit-AllPay :
      (o : Organization) (change : Organization → Organization) (s s' : S)
      → Memᴰ o (store.organizations.rows s)
      → (change o).id ≡ o.id
      → (PaysFor o → PaysFor (change o))
      → commit_organization store (some o) change s ≡ ok s'
      → AllPay s
      → AllPay s'
  unfolding commit_organization
  commit-AllPay o change s s' m keeps_id keeps h v =
      let (n, i, g) = laws.rows-get s o m in
      let last : s' ≡ store.organizations.save n (change o) s = ground arith in
      subst AllPay (sym last) (save-AllPay n s o (change o) g (keeps_id ∙ i) (keeps (v.pays o m)) v)

  -- The same for the organization of a customer, if there is one.
  customer-AllPay :
      (customer : Text) (change : Organization → Organization) (s s' : S)
      → ((o : Organization) → (change o).id ≡ o.id)
      → ((o : Organization) → PaysFor (change o))
      → (get_by_stripe_customer_id store customer s >>= λ o. commit_organization store o change s)
        ≡ ok s'
      → AllPay s
      → AllPay s'
  unfolding get_by_stripe_customer_id select_where commit_organization
  customer-AllPay customer change s s' keeps_id pays_after h v =
      elim (Result-cases (get_by_stripe_customer_id store customer s)) [
        | inr (x, e) ↦ absurd (ground arith)
        | inl (none, e) ↦ let q : s' ≡ s = ground arith in subst AllPay (sym q) v
        | inl (some o, e) ↦
            elim (scalar-count (has_customer customer) (store.organizations.rows s) (some o) e) [
              | inl (q, z) ↦ absurd (ground arith)
              | inr (o', q, one, m, p) ↦
                  let same : o ≡ o' = ground arith in
                  commit-AllPay o change s s'
                    (subst (λ x. Memᴰ x (store.organizations.rows s)) (sym same) m) (keeps_id o)
                    (λ _. pays_after o) (ground arith) v
            ]
      ]

  -- Over a table of organizations that obeys its laws: if every organization on a paid plan has a
  -- subscription, then this holds again after every event of Stripe that is handled.
  pub handle_webhook_event-AllPay :
      (price_team price_business : Text) (event : Event) (s s' : S)
      → handle_webhook_event store price_team price_business event s ≡ ok s'
      → AllPay s
      → AllPay s'
  unfolding handle_webhook_event set_stripe_customer apply_subscription clear_subscription
      commit_organization
  handle_webhook_event-AllPay a b (checkout_completed n customer) s s' h v =
      elim (Option-cases (store.organizations.get n s)) [
        | inl e ↦ let q : s' ≡ s = ground arith in subst AllPay (sym q) v
        | inr (o, e) ↦
            commit-AllPay o (set_stripe_customer customer) s s' (laws.get-rows n s o e).0 refl
              (λ p. p) (ground arith) v
      ]
  handle_webhook_event-AllPay a b (subscription_changed i status customer price) s s' h v =
      customer-AllPay customer (apply_subscription i status (resolve_plan a b price)) s s'
        (λ o. refl) (λ o. inr (i, refl)) h v
  handle_webhook_event-AllPay a b (subscription_deleted customer) s s' h v =
      customer-AllPay customer clear_subscription s s' (λ o. refl) (λ o. inl refl) h v
  handle_webhook_event-AllPay a b other_event s s' h v =
      let q : s' ≡ s = ground arith in subst AllPay (sym q) v
