-- ===== src/Payments/Webhook/Atomic.antt =====
-- `process_webhook_event` writes only where it reports that it did, and activates only on a
-- verified payment (payments/webhooks.py).

use cavallo_app.Money.{to_cents}
use cavallo_app.Monetization.{ok}
use cavallo_app.Prelude.{
  text_eq→eq, ap, ◌∙◌, ◌∙◌, int_eq_iff, inr, inl, ◌≢◌, ◌≢◌, arith, Option-cases, false, some, true,
  ◌≡◌,
}
use cavallo_app.Payments.Webhook.Steps.{
  declined, paid, quiet, writes, process_webhook_event-Step, Found,
}
use cavallo_app.Payments.Webhook.{process_webhook_event, Outcome, amount_matches}
use cavallo_app.Payments.Records.{Status, Transaction, Ledger, WebhookEvent, Runtime}

-- An event that is not reported as activated or as a recorded failure has changed no table.
pub process_webhook_event_unchanged :
    (rt : Runtime) (e : WebhookEvent) (l l' : Ledger) (o : Outcome)
    → process_webhook_event rt e l ≡ ok (o, l')
    → writes o ≡ false
    → l' ≡ l
process_webhook_event_unchanged rt e l l' o h w = elim (process_webhook_event-Step rt e l l' o h) [
  | quiet q same ↦ same
  | paid is_active p ↦ absurd (ground arith)
  | declined is_failure d ↦ absurd (ground arith)
]

-- What an activation proves of the event and of the tables before it.
pub record Authorised (rt : Runtime) (e : WebhookEvent) (l : Ledger) : Type 0 where
  pub found : Found rt e l
  pub open found use *
  pub success : e.success ≡ true
  pub cents : e.amount_cents ≡ some (to_cents target.row.amount)
  pub money : rt.upper e.currency ≡ rt.upper target.row.currency
  pub unpaid : subscription.status ≢ Status.completed

amount_matches_cents :
    (rt : Runtime) (e : WebhookEvent) (t : Transaction)
    → amount_matches rt e t ≡ true
    → (e.amount_cents ≡ some (to_cents t.amount)) × (rt.upper e.currency ≡ rt.upper t.currency)
unfolding amount_matches
amount_matches_cents rt e t h = elim (Option-cases e.amount_cents) [
  | inl nothing ↦ absurd (ground arith)
  | inr (cents, some_cents) ↦
      let exact : cents ≡ to_cents t.amount =
        (int_eq_iff cents (to_cents t.amount)).0 (ground arith) in
      (some_cents ∙ ap some exact, text_eq→eq _ _ (ground arith))
]

-- An activation was asked for by a final, successful event whose amount is the recorded amount in
-- cents and whose currency is the recorded one up to letter case, for a payment not yet completed.
pub activated-Authorised :
    (rt : Runtime) (e : WebhookEvent) (l l' : Ledger)
    → process_webhook_event rt e l ≡ ok (Outcome.activated, l')
    → Authorised rt e l
activated-Authorised rt e l l' h = elim (process_webhook_event-Step rt e l l' Outcome.activated h) [
  | quiet q same ↦ absurd (ground arith)
  | declined is_failure d ↦ absurd (ground arith)
  | paid is_active p ↦
      let (cents, money) = amount_matches_cents rt e p.target.row p.matched in
      record {
        found = p.found;
        success = p.success;
        cents = cents;
        money = money;
        unpaid = λ q. ground (arith, p.unpaid, q);
      }
]
