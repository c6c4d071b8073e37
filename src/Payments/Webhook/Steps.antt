-- ===== src/Payments/Webhook/Steps.antt =====
-- What a call of `process_webhook_event` did, read off its result: nothing, a completed payment
-- with its activation, or a recorded failure (payments/webhooks.py).

use cavallo_app.Monetization.{ok, Plan}
use cavallo_app.Prelude.{
  refl, Option-cases, ◌==◌, inl, find, some, inr, arith, Bool-cases, ◌||◌, false, ◌≡◌, ◌≡◌, true,
  not, ℕ, Bool,
}
use cavallo_app.Payments.Records.{status_eq, Status, Subscription, Ledger, WebhookEvent, Runtime}
use cavallo_app.Payments.Webhook.{
  no_rows, other_subscription, already_completed, Choice, process_webhook_event, process_locked,
  process_choice, record_failure, use_row, choose_transaction, amount_matches, save_transaction,
  resolve_subscription_id, activate, save_status, complete, apply_result, Target, Outcome,
}

-- The outcomes that report a write.
abbrev pub writes : Outcome → Bool
writes Outcome.activated = true
writes Outcome.failure_recorded = true
writes _ = false

abbrev pub is_final : WebhookEvent → Bool
is_final e = not (e.pending || e.is_voided || e.is_refunded)

-- The rows that a call which writes has found, and what they satisfy.
pub record Found (rt : Runtime) (e : WebhookEvent) (l : Ledger) : Type 0 where
  pub key : ℕ
  pub subscription : Subscription
  pub plan : Plan
  pub target : Target
  pub final : is_final e ≡ true
  pub resolved : resolve_subscription_id rt e l ≡ some key
  pub located : find (λ s. s.pk == key) l.subscriptions ≡ some subscription
  pub planned : find (λ p. p.pk == subscription.plan_id) l.plans ≡ some plan
  pub chosen : choose_transaction rt e subscription l ≡ use_row target

-- the tables when both rows have become completed
abbrev pub paid_ledger : WebhookEvent → ℕ → Target → Ledger → Ledger
paid_ledger e k t l =
    save_status k Status.completed (save_transaction e.transaction_id Status.completed t l)

pub record Paid (rt : Runtime) (e : WebhookEvent) (l l' : Ledger) : Type 0 where
  pub found : Found rt e l
  pub open found use *
  pub success : e.success ≡ true
  pub matched : amount_matches rt e target.row ≡ true
  pub unpaid : status_eq subscription.status Status.completed ≡ false
  pub active : activate rt subscription plan (paid_ledger e subscription.pk target l) ≡ ok l'

pub record Declined (rt : Runtime) (e : WebhookEvent) (l l' : Ledger) : Type 0 where
  pub found : Found rt e l
  pub open found use *
  pub success : e.success ≡ false
  pub recorded : l' ≡ record_failure e subscription target l

pub data Step (rt : Runtime) (e : WebhookEvent) (l l' : Ledger) (o : Outcome) : Type 0 where
  quiet : writes o ≡ false → l' ≡ l → Step rt e l l' o
  paid : o ≡ Outcome.activated → Paid rt e l l' → Step rt e l l' o
  declined : o ≡ Outcome.failure_recorded → Declined rt e l l' → Step rt e l l' o

module _ (rt : Runtime) (e : WebhookEvent) (l l' : Ledger) (o : Outcome) where
  complete-active :
      (s : Subscription) (plan : Plan) (t : Target)
      → complete rt e s plan t l ≡ ok (o, l')
      → (o ≡ Outcome.activated) × (activate rt s plan (paid_ledger e s.pk t l) ≡ ok l')
  unfolding complete
  complete-active s plan t h = ground arith

  apply_result-Step :
      (f : Found rt e l)
      → apply_result rt e f.subscription f.plan f.target l ≡ ok (o, l')
      → Step rt e l l' o
  unfolding apply_result
  apply_result-Step f h = elim (Bool-cases e.success) [
    | inr failed ↦
        declined (ground arith) (record { found = f; success = failed; recorded = ground arith })
    | inl success ↦ elim (Bool-cases (amount_matches rt e f.target.row)) [
      | inr differs ↦ quiet (ground arith) (ground arith)
      | inl matched ↦ elim (Bool-cases (status_eq f.subscription.status Status.completed)) [
        | inl before ↦ quiet (ground arith) (ground arith)
        | inr unpaid ↦ from_complete success matched unpaid (ground arith)
      ]
    ]
  ]
    where
      from_complete :
          e.success ≡ true
          → amount_matches rt e f.target.row ≡ true
          → status_eq f.subscription.status Status.completed ≡ false
          → complete rt e f.subscription f.plan f.target l ≡ ok (o, l')
          → Step rt e l l' o
      from_complete success matched unpaid c =
          let (outcome, active) = complete-active f.subscription f.plan f.target c in
          paid outcome (record {
            found = f;
            success = success;
            matched = matched;
            unpaid = unpaid;
            active = active;
          })

  module _ (k : ℕ) (s : Subscription) (final : is_final e ≡ true)
      (resolved : resolve_subscription_id rt e l ≡ some k)
      (located : find (λ s. s.pk == k) l.subscriptions ≡ some s) where
    process_choice-Step :
        (plan : Plan) (c : Choice)
        → find (λ p. p.pk == s.plan_id) l.plans ≡ some plan
        → choose_transaction rt e s l ≡ c
        → process_choice rt e s plan c l ≡ ok (o, l')
        → Step rt e l l' o
    unfolding process_choice
    process_choice-Step plan already_completed planned chosen h =
        quiet (ground arith) (ground arith)
    process_choice-Step plan other_subscription planned chosen h =
        quiet (ground arith) (ground arith)
    process_choice-Step plan no_rows planned chosen h = quiet (ground arith) (ground arith)
    process_choice-Step plan (use_row t) planned chosen h =
        apply_result-Step
          (record {
            key = k;
            subscription = s;
            plan = plan;
            target = t;
            final = final;
            resolved = resolved;
            located = located;
            planned = planned;
            chosen = chosen;
          })
          h

    process_locked-Step : process_locked rt e s l ≡ ok (o, l') → Step rt e l l' o
    unfolding process_locked
    process_locked-Step h = elim (Option-cases (find (λ p. p.pk == s.plan_id) l.plans)) [
      | inl missing ↦ absurd (ground (arith, missing))
      | inr (plan, planned) ↦
          process_choice-Step plan (choose_transaction rt e s l) planned refl (ground arith)
    ]

  -- Every call that does not raise is one of the three steps.
  pub process_webhook_event-Step : process_webhook_event rt e l ≡ ok (o, l') → Step rt e l l' o
  unfolding process_webhook_event
  process_webhook_event-Step h = elim (Bool-cases (e.pending || e.is_voided || e.is_refunded)) [
    | inl early ↦ quiet (ground arith) (ground arith)
    | inr final ↦ elim (Option-cases (resolve_subscription_id rt e l)) [
      | inl nobody ↦ quiet (ground arith) (ground arith)
      | inr (k, resolved) ↦ elim (Option-cases (find (λ s. s.pk == k) l.subscriptions)) [
        | inl missing ↦ absurd (ground arith)
        | inr (s, located) ↦ process_locked-Step k s (ground arith) resolved located (ground arith)
      ]
    ]
  ]
