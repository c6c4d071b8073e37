-- ===== src/Payments/Webhook/Sound.antt =====
-- Every webhook event keeps the invariant of the payment tables (payments/webhooks.py).

use cavallo_app.Monetization.Activation.{after_activation, after_activation-IsConsistent}
use cavallo_app.Monetization.{ok, Plan}
use cavallo_app.Payments.Webhook.Chosen.{written, choose_transaction-IsChosen, IsChosen}
use cavallo_app.Payments.Webhook.Invariant.{
  IsSettled-stays, save_transaction-IsSettled, is_completed-save_status, save_transaction-IsKeyed,
  save_status-IsKeyed, IsSettled, activate-keeps, IsSound,
}
use cavallo_app.Payments.Webhook.Steps.{
  declined, paid_ledger, paid, quiet, process_webhook_event-Step, Declined, Paid, Found,
}
use cavallo_app.Payments.Webhook.{
  process_webhook_event, record_failure, Outcome, Target, save_transaction, save_status,
}
use cavallo_app.Prelude.{
  inr, inl, ==-refl, false, Bool-cases, ◌∙◌, ◌∙◌, ap, ==→eq, find-holds, some, ◌==◌, ◌≡◌, ◌≡◌, find,
  arith, ℕ, Text,
}
use cavallo_app.Payments.Records.{status_eq, Subscription, Ledger, WebhookEvent, Status, Runtime}

-- the first located row has the key that was asked for
pub found-key :
    (rt : Runtime) (e : WebhookEvent) (l : Ledger) (f : Found rt e l)
    → find (λ s. s.pk == f.subscription.pk) l.subscriptions ≡ some f.subscription
found-key rt e l f =
    let holds = find-holds (λ s. s.pk == f.key) l.subscriptions f.subscription f.located in
    ap (λ (n : ℕ). find (λ (s : Subscription). s.pk == n) l.subscriptions)
      (==→eq f.subscription.pk f.key holds)
    ∙ f.located

module _ (id : Text) (status : Status) (s : Subscription) (l : Ledger) (t : Target) where
  pub saved-IsSound :
      IsSound l
      → IsChosen id s l t
      → find (λ x. x.pk == s.pk) l.subscriptions ≡ some s
      → status_eq s.status Status.completed ≡ false
      → IsSettled (save_status s.pk status l).subscriptions (written id status t)
      → IsSound (save_status s.pk status (save_transaction id status t l))
  unfolding save_status save_transaction
  saved-IsSound h c there open_status w = record {
    featured = h.featured;
    payments = unfold save_status in save_status-IsKeyed s.pk status l h.payments;
    rows = save_transaction-IsKeyed id status s l t c h.rows;
    settled =
        save_transaction-IsSettled id status l t (save_status s.pk status l).subscriptions w
          (IsSettled-stays s.pk status l s there open_status h.settled);
  }

  pub row_saved-IsSound :
      IsSound l
      → IsChosen id s l t
      → IsSettled l.subscriptions (written id status t)
      → IsSound (save_transaction id status t l)
  unfolding save_transaction
  row_saved-IsSound h c w = record {
    featured = h.featured;
    payments = h.payments;
    rows = save_transaction-IsKeyed id status s l t c h.rows;
    settled = save_transaction-IsSettled id status l t l.subscriptions w h.settled;
  }

activated-IsSound :
    (k : ℕ) (plan : Plan) (now : ℕ) (l : Ledger)
    → IsSound l
    → IsSound (record l { featured = after_activation k plan now l.featured })
activated-IsSound k plan now l h = record {
  featured = after_activation-IsConsistent k plan now l.featured h.featured;
  payments = h.payments;
  rows = h.rows;
  settled = h.settled;
}

module _ (rt : Runtime) (e : WebhookEvent) (l l' : Ledger) (h : IsSound l) where
  pub Paid-IsSound : Paid rt e l l' → IsSound l'
  Paid-IsSound p =
      rw
        (activate-keeps rt p.subscription p.plan (paid_ledger e p.subscription.pk p.target l) l'
          p.active)
        (activated-IsSound p.subscription.business_id p.plan rt.now _ (
          saved-IsSound e.transaction_id Status.completed p.subscription l p.target h chosen
            (found-key rt e l p.found) p.unpaid settled))
    where
      chosen : IsChosen e.transaction_id p.subscription l p.target
      chosen = choose_transaction-IsChosen rt e p.subscription l p.target p.chosen

      settled :
          IsSettled
            (save_status p.subscription.pk Status.completed l).subscriptions
            (written e.transaction_id Status.completed p.target)
      settled done = (
        ground (
          arith,
          chosen.belongs,
          ==-refl p.subscription.pk,
          is_completed-save_status p.subscription.pk p.subscription.pk Status.completed l,
          found-key rt e l p.found,
        ),
        λ q. ground (arith, q),
      )

  pub Declined-IsSound : Declined rt e l l' → IsSound l'
  unfolding record_failure
  Declined-IsSound d =
      rw d.recorded (elim (Bool-cases (status_eq d.subscription.status Status.pending)) [
        | inl still_open ↦ rw still_open (
            saved-IsSound e.transaction_id Status.failed d.subscription l d.target h chosen
              (found-key rt e l d.found) (ground (arith, still_open))
              (λ done. absurd (ground (arith, done))))
        | inr decided ↦ rw decided (
            row_saved-IsSound e.transaction_id Status.failed d.subscription l d.target h chosen
              (λ done. absurd (ground (arith, done))))
      ])
    where
      chosen : IsChosen e.transaction_id d.subscription l d.target
      chosen = choose_transaction-IsChosen rt e d.subscription l d.target d.chosen

  -- From a sound state every event that is processed leads to a sound state: flags mirror the
  -- subscriptions, keys are distinct, and completed transactions belong to completed payments.
  pub process_webhook_event-IsSound :
      (o : Outcome) → process_webhook_event rt e l ≡ ok (o, l') → IsSound l'
  process_webhook_event-IsSound o r = elim (process_webhook_event-Step rt e l l' o r) [
    | quiet q same ↦ rw same h
    | paid is_active p ↦ Paid-IsSound p
    | declined is_failure d ↦ Declined-IsSound d
  ]
