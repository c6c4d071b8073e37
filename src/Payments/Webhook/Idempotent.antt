-- ===== src/Payments/Webhook/Idempotent.antt =====
-- A payment event that is delivered again has no further effect (payments/webhooks.py).

use cavallo_app.Payments.Webhook.Sound.{found-key}
use cavallo_app.Payments.Webhook.Invariant.{activate-keeps}
use cavallo_app.Payments.Webhook.Chosen.{
  find-save_transaction, choose_transaction-IsChosen, written,
}
use cavallo_app.Monetization.{Plan, ok}
use cavallo_app.Prelude.{==-refl, find-update_where, refl, true, ◌==◌, arith, some, find, ◌≡◌}
use cavallo_app.Payments.Webhook.Steps.{
  paid_ledger, paid, declined, is_final, quiet, process_webhook_event-Step, Paid,
}
use cavallo_app.Payments.Webhook.{
  save_transaction, set_status, has_id, Outcome, resolve_subscription_id, choose_transaction,
  process_choice, process_locked, save_status, process_webhook_event,
}
use cavallo_app.Payments.Records.{Status, Subscription, Transaction, Ledger, WebhookEvent, Runtime}

duplicate_of_completed :
    (rt : Runtime) (e : WebhookEvent) (l : Ledger) (w : Transaction) (s : Subscription)
    (plan : Plan)
    → is_final e ≡ true
    → find (has_id e.transaction_id) l.transactions ≡ some w
    → w.status ≡ Status.completed
    → find (λ s. s.pk == w.subscription_id) l.subscriptions ≡ some s
    → find (λ p. p.pk == s.plan_id) l.plans ≡ some plan
    → process_webhook_event rt e l ≡ ok (Outcome.duplicate, l)
unfolding process_webhook_event process_locked process_choice choose_transaction
    resolve_subscription_id
duplicate_of_completed rt e l w s plan final there done located planned = ground arith

-- the tables after a payment, seen through the event's own lookups
after-Paid :
    (rt : Runtime) (e : WebhookEvent) (l l' : Ledger) (p : Paid rt e l l')
    → (find (has_id e.transaction_id) l'.transactions
        ≡ some (written e.transaction_id Status.completed p.target))
      × (find (λ s. s.pk == p.subscription.pk) l'.subscriptions
          ≡ some (set_status Status.completed p.subscription))
      × (l'.plans ≡ l.plans)
unfolding save_status save_transaction
after-Paid rt e l l' p =
    let same =
      activate-keeps rt p.subscription p.plan (paid_ledger e p.subscription.pk p.target l) l'
        p.active in
    let chosen = choose_transaction-IsChosen rt e p.subscription l p.target p.chosen in
    let lookup =
      find-update_where (λ (s : Subscription). s.pk) (set_status Status.completed) (λ s. refl)
        p.subscription.pk p.subscription.pk l.subscriptions in
    (
      rw same (
          find-save_transaction e.transaction_id Status.completed p.subscription l p.target chosen),
      rw same (ground (arith, lookup, found-key rt e l p.found, ==-refl p.subscription.pk)),
      rw same refl,
    )

-- After an activation the same event, at any later time, is a duplicate that changes nothing.
pub process_webhook_event_idempotent :
    (rt rt' : Runtime) (e : WebhookEvent) (l l' : Ledger)
    → process_webhook_event rt e l ≡ ok (Outcome.activated, l')
    → process_webhook_event rt' e l' ≡ ok (Outcome.duplicate, l')
process_webhook_event_idempotent rt rt' e l l' h =
    elim (process_webhook_event-Step rt e l l' Outcome.activated h) [
      | quiet q same ↦ absurd (ground arith)
      | declined is_failure d ↦ absurd (ground arith)
      | paid is_active p ↦
          let (there, located, plans) = after-Paid rt e l l' p in
          let chosen = choose_transaction-IsChosen rt e p.subscription l p.target p.chosen in
          duplicate_of_completed rt' e l' (written e.transaction_id Status.completed p.target)
            (set_status Status.completed p.subscription) p.plan p.final there refl
            (rw chosen.belongs located) (rw plans p.planned)
    ]
