-- ===== src/Payments/Webhook/Live.antt =====
-- A payment that the gateway confirms is activated (payments/webhooks.py).

use cavallo_app.Monetization.Activation.{activate_subscription_lem, after_activation}
use cavallo_app.Prelude.{false, ==→eq, arith, find-holds, true, some, ◌≡◌, ◌==◌, find}
use cavallo_app.Payments.Webhook.{
  Outcome, amount_matches, save_transaction, process_choice, save_status, process_locked, complete,
  process_webhook_event, apply_result, activate, Target,
}
use cavallo_app.Monetization.{ok, BusinessProfile, Plan}
use cavallo_app.Payments.Webhook.Steps.{paid_ledger, Found}
use cavallo_app.Payments.Records.{Status, status_eq, Subscription, Ledger, WebhookEvent, Runtime}

-- the tables after the activation of a payment
abbrev pub confirmed : Runtime → WebhookEvent → Subscription → Plan → Target → Ledger → Ledger
confirmed rt e s plan t l =
    let saved = paid_ledger e s.pk t l in
    record saved { featured = after_activation s.business_id plan rt.now saved.featured }

module _ (rt : Runtime) (e : WebhookEvent) (l : Ledger) (f : Found rt e l) (b : BusinessProfile)
    (there : find (λ b. b.pk == f.subscription.business_id) l.featured.businesses ≡ some b) where
  activate_lem :
      activate rt f.subscription f.plan (paid_ledger e f.subscription.pk f.target l)
      ≡ ok (confirmed rt e f.subscription f.plan f.target l)
  unfolding activate save_status save_transaction
  activate_lem =
      let same =
        find-holds (λ b. b.pk == f.subscription.business_id) l.featured.businesses b there in
      ground (
        arith,
        there,
        ==→eq b.pk f.subscription.business_id same,
        activate_subscription_lem b f.plan rt.now l.featured,
      )

  apply_result-activates :
      e.success ≡ true
      → amount_matches rt e f.target.row ≡ true
      → status_eq f.subscription.status Status.completed ≡ false
      → apply_result rt e f.subscription f.plan f.target l
        ≡ ok (Outcome.activated, confirmed rt e f.subscription f.plan f.target l)
  unfolding apply_result complete
  apply_result-activates success matched unpaid = ground (arith, activate_lem)

  -- Where the event's rows are found and its business is stored, a successful event of the right
  -- amount for a payment not yet completed is activated.
  pub process_webhook_event-activates :
      e.success ≡ true
      → amount_matches rt e f.target.row ≡ true
      → status_eq f.subscription.status Status.completed ≡ false
      → process_webhook_event rt e l
        ≡ ok (Outcome.activated, confirmed rt e f.subscription f.plan f.target l)
  unfolding process_webhook_event process_locked process_choice
  process_webhook_event-activates success matched unpaid = ground (
    arith,
    f.final,
    f.resolved,
    f.located,
    f.planned,
    f.chosen,
    apply_result-activates success matched unpaid,
  )
