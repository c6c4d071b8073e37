-- ===== src/Payments/Initiate/Settled.antt =====
-- From the initiation of a payment to its activation (payments/services.py,
-- payments/webhooks.py, payments/gateways/paymob.py).

use cavallo_app.Monetization.Activation.{has_active-after_activation}
use cavallo_app.Payments.Webhook.Live.{process_webhook_event-activates, confirmed}
use cavallo_app.Money.{to_cents, amount_to_cents}
use cavallo_app.Payments.Initiate.Confirm.{update_where-append}
use cavallo_app.Payments.Webhook.Steps.{Found, is_final}
use cavallo_app.Payments.Initiate.{
  redirect, answer, Initiation, usable, finish, initiate_subscription_payment, new_subscription,
  set_reference, new_transaction, create_rows, save_reference,
}
use cavallo_app.Payments.Webhook.Invariant.{IsSound}
use cavallo_app.Payments.Webhook.{
  use_row, Outcome, save_transaction, choose_open, save_status, process_webhook_event,
  choose_transaction, amount_matches, has_id, resolve_by_reference, resolve_subscription_id, Target,
  is_open_row,
}
use cavallo_app.Monetization.{has_active, ok, Plan, BusinessProfile}
use cavallo_app.Payments.Records.{Subscription, Ledger, Transaction, WebhookEvent, Runtime}
use cavallo_app.Prelude.{
  ==-refl, sym, find-append_miss, ◌∙◌, int_eq_iff, ap, text_eq, text_eq_refl, some, refl, arith, [],
  ◌∷◌, Text, ◌++◌, find_last, false, ◌==◌, true, none, any, ◌<◌, ◌≡◌, find, All, List, ℕ, Bool,
}

find-append_none {ℓ} :
    {A : Type ℓ} (p : A → Bool) (xs : List A) (r : A)
    → find p xs ≡ none
    → p r ≡ false
    → find p (xs ++ r ∷ []) ≡ none
find-append_none p [] r h k = ground arith
find-append_none p (x ∷ xs) r h k = ground (arith, find-append_none p xs r)

find_last-append {ℓ} :
    {A : Type ℓ} (p : A → Bool) (xs : List A) (r : A)
    → p r ≡ true
    → find_last p (xs ++ r ∷ []) ≡ some r
find_last-append p [] r k = ground arith
find_last-append p (x ∷ xs) r k = rw (find_last-append p xs r k, find_last) refl

find-below {ℓ} :
    {A : Type ℓ} (key : A → ℕ) (k : ℕ) (xs : List A)
    → All (λ x. key x < k) xs
    → find (λ x. key x == k) xs ≡ none
find-below key k [] h = refl
find-below key k (x ∷ xs) h = ground (arith, h.0, find-below key k xs h.1)

find-open_none :
    (k : ℕ) (ts : List Transaction)
    → any (λ t. t.subscription_id == k) ts ≡ false
    → find (is_open_row k) ts ≡ none
find-open_none k [] h = refl
find-open_none k (t ∷ ts) h = ground (arith, find-open_none k ts)

-- What the initiation and the later event have to do with one another.
pub record Confirms (rt : Runtime) (e : WebhookEvent) (business : BusinessProfile) (plan : Plan)
    (l : Ledger) (reference : Text) : Type 0 where
  pub sound : IsSound l
  pub stored_plan : find (λ p. p.pk == plan.pk) l.plans ≡ some plan
  pub stored_business : find (λ b. b.pk == business.pk) l.featured.businesses ≡ some business
  -- foreign keys: no row refers to the key that is not yet given
  pub no_rows_yet : any (λ t. t.subscription_id == l.next_subscription) l.transactions ≡ false
  pub final : is_final e ≡ true
  pub success : e.success ≡ true
  pub new_id : find (has_id e.transaction_id) l.transactions ≡ none
  pub order : e.order_id ≡ reference
  pub cents : e.amount_cents ≡ some (amount_to_cents plan.price)
  pub money : rt.upper e.currency ≡ rt.upper plan.currency

module _ (rt rt' : Runtime) (e : WebhookEvent) (business : BusinessProfile) (plan : Plan)
    (l : Ledger) (c : ℕ) (cs : Text) (h : Confirms rt' e business plan l (c ∷ cs)) where
  abbrev begun : Ledger
  begun = save_reference l.next_subscription (c ∷ cs) (create_rows rt business plan l)

  abbrev payment : Subscription
  payment = set_reference (c ∷ cs) (new_subscription business plan l)

  abbrev opening : Target
  opening = record { stored = true; row = new_transaction rt plan l }

  begun_subscriptions : begun.subscriptions ≡ l.subscriptions ++ payment ∷ []
  unfolding save_reference create_rows
  begun_subscriptions =
      update_where-append (λ (s : Subscription). s.pk) (set_reference (c ∷ cs)) l.next_subscription
        l.subscriptions (new_subscription business plan l) h.sound.payments.below refl

  resolve_begun : resolve_subscription_id rt' e begun ≡ some l.next_subscription
  unfolding resolve_subscription_id resolve_by_reference create_rows save_reference
  resolve_begun = ground (
    arith,
    h.order,
    text_eq_refl (c ∷ cs),
    begun_subscriptions,
    find-append_none (has_id e.transaction_id) l.transactions (new_transaction rt plan l) h.new_id
        refl,
    find_last-append (λ s. text_eq s.gateway_reference e.order_id) l.subscriptions payment,
  )

  choose_begun : choose_transaction rt' e payment begun ≡ use_row opening
  unfolding choose_transaction choose_open create_rows save_reference
  choose_begun = ground (
    arith,
    find-append_none (has_id e.transaction_id) l.transactions (new_transaction rt plan l) h.new_id
        refl,
    find-append_miss (is_open_row l.next_subscription) l.transactions (new_transaction rt plan l)
        (find-open_none l.next_subscription l.transactions h.no_rows_yet) (ground arith),
  )

  found_begun : Found rt' e begun
  unfolding create_rows save_reference
  found_begun = record {
    key = l.next_subscription;
    subscription = payment;
    plan = plan;
    target = opening;
    final = h.final;
    resolved = resolve_begun;
    located =
        ap (find (λ s. s.pk == l.next_subscription)) begun_subscriptions
        ∙ find-append_miss (λ s. s.pk == l.next_subscription) l.subscriptions payment
            (find-below (λ (s : Subscription). s.pk) l.next_subscription l.subscriptions
              h.sound.payments.below)
            (==-refl l.next_subscription);
    planned = h.stored_plan;
    chosen = choose_begun;
  }

  matches_begun : amount_matches rt' e (new_transaction rt plan l) ≡ true
  unfolding amount_matches amount_to_cents to_cents
  matches_begun =
      let same = (int_eq_iff (to_cents plan.price) (to_cents plan.price)).1 refl in
      let money =
        ap (text_eq (rt'.upper e.currency)) (sym h.money) ∙ text_eq_refl (rt'.upper e.currency) in
      ground (arith, h.cents, same, money)

  process_begun :
      process_webhook_event rt' e begun
      ≡ ok (Outcome.activated, confirmed rt' e payment plan opening begun)
  unfolding save_reference create_rows found_begun
  process_begun =
      process_webhook_event-activates rt' e begun found_begun business h.stored_business h.success
        matches_begun refl

  featured_begun :
      has_active business.pk (confirmed rt' e payment plan opening begun).featured.subscriptions
      ≡ true
  unfolding create_rows save_reference save_status save_transaction
  featured_begun =
      has_active-after_activation business.pk business.pk plan rt'.now l.featured ∙ ground arith

  -- In a sound state with the plan and the business stored, after an initiation that the gateway
  -- answers with a page and a reference, a successful final event for that reference with a new
  -- identifier, the amount that the intention asked for and the plan's currency activates the
  -- payment, and the business then has an active featured subscription.
  pub initiated_payment_settles :
      (initiate : Subscription → Initiation) (u : ℕ) (us : Text)
      → initiate (new_subscription business plan l) ≡ answer (some (u ∷ us)) (some (c ∷ cs))
      → let (result, l') = initiate_subscription_payment rt initiate business plan l in
        (result ≡ redirect (u ∷ us))
        × ((l'' : Ledger) × (process_webhook_event rt' e l' ≡ ok (Outcome.activated, l''))
            × (has_active business.pk l''.featured.subscriptions ≡ true))
  unfolding initiate_subscription_payment finish usable
  initiated_payment_settles initiate u us answered =
      rw (answered, finish)
        (refl, (confirmed rt' e payment plan opening begun, process_begun, featured_begun))
