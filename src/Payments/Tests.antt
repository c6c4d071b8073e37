-- ===== src/Payments/Tests.antt =====
-- Runs of the payment code on small tables, and the theorems at them.

use cavallo_app.Payments.Reconcile.Selection.{pending_subscriptions_lem}
use cavallo_app.Payments.Webhook.Idempotent.{process_webhook_event_idempotent}
use cavallo_app.Payments.Reconcile.Batch.{
  ends_batch, IsTallied, reconcile_pending_transactions_lem, final_events, batch,
}
use cavallo_app.Payments.Initiate.Settled.{initiated_payment_settles, Confirms}
use cavallo_app.Payments.Webhook.Runs.{run_accounts, featured_rows, paid_records, run}
use cavallo_app.Payments.Reconcile.{
  is_stuck, pending_subscriptions, answer, Check, reconcile_pending_transactions,
}
use cavallo_app.Payments.Webhook.{
  save_transaction, save_status, record_failure, activate, complete, merchant_ref, amount_matches,
  resolve_by_merchant, apply_result, resolve_by_reference, resolve_subscription_id, choose_open,
  choose_transaction, process_choice, process_locked, Outcome, process_webhook_event,
}
use cavallo_app.Payments.Initiate.{redirect, Initiation, initiate_subscription_payment}
use cavallo_app.Money.{to_cents, round_half_up, amount_to_cents}
use cavallo_app.Prelude.{
  Distinct, ◌==◌, ◌-◌, ◌&&◌, ◌≤◌, leb, any, true, refl, pos, if◌then◌else◌, ◌+◌, ◌∷◌, text, some,
  none, mem, length, false, count, arith, [], Option, ◌≡◌, ℕ, Text, List,
}
use cavallo_app.Payments.Webhook.Invariant.{IsSound}
use cavallo_app.Payments.Records.{
  Status, Runtime, WebhookEvent, Transaction, Subscription, Ledger, GatewayTransactionStatus,
}
use cavallo_app.Monetization.{
  activate_subscription, is_active_of, has_active, err, ok, Result, Plan, Db, BusinessProfile,
}
use cavallo_app.Payments.Webhook.Atomic.{
  process_webhook_event_unchanged, activated-Authorised, Authorised,
}

-- ASCII stands in for Python's Unicode tables
abbrev ascii_upper : Text → Text
ascii_upper [] = []
ascii_upper (c ∷ cs) = (if leb 97 c && leb c 122 then c - 32 else c) ∷ ascii_upper cs

abbrev pub ascii_digit : ℕ → Option ℕ
ascii_digit c = if leb 48 c && leb c 57 then some (c - 48) else none

abbrev pub at : ℕ → Runtime
at t = record { now = t; upper = ascii_upper; digit_value = ascii_digit }

abbrev pub weekly : Plan
weekly = record {
  pk = 1;
  duration_days = 7;
  price = record { negative = false; digits = 9900; places = 2 };
  currency = text "EGP";
}

abbrev pub shop : BusinessProfile
shop = record { pk = 1; is_featured = false; updated_at = 0 }

abbrev db : Db
db = record { businesses = shop ∷ []; subscriptions = []; next_pk = 1; cached_profiles = 1 ∷ [] }

abbrev pub payment : Subscription
payment = record {
  pk = 1;
  business_id = 1;
  plan_id = 1;
  status = Status.pending;
  gateway_reference = text "777";
}

abbrev open_row : Transaction
open_row = record {
  pk = 1;
  subscription_id = 1;
  transaction_id = none;
  amount = record { negative = false; digits = 9900; places = 2 };
  currency = text "EGP";
  status = Status.pending;
  created_at = 10;
}

abbrev pub ledger : Ledger
ledger = record {
  plans = weekly ∷ [];
  subscriptions = payment ∷ [];
  transactions = open_row ∷ [];
  next_subscription = 2;
  next_transaction = 2;
  featured = db;
}

abbrev success_of : Text → Text → WebhookEvent
success_of id order = record {
  transaction_id = id;
  order_id = order;
  merchant_order_id = text "payments-sub-1";
  success = true;
  pending = false;
  is_voided = false;
  is_refunded = false;
  amount_cents = some (pos 9900);
  currency = text "egp";
}

abbrev paid_event : WebhookEvent
paid_event = success_of (text "t-1") (text "777")

-- the same payment, found by the merchant reference alone
abbrev by_merchant : WebhookEvent
by_merchant = success_of (text "t-1") []

abbrev failed_event : WebhookEvent
failed_event = let e = paid_event in record e { success = false }

abbrev wrong_amount : WebhookEvent
wrong_amount = let e = paid_event in record e { amount_cents = some (pos 9901) }

abbrev outcome : Result (Outcome × Ledger) → Option Outcome
outcome (ok (o, _)) = some o
outcome (err _) = none

outcomes :
    (outcome (process_webhook_event (at 100) paid_event ledger) ≡ some Outcome.activated)
    × (outcome (process_webhook_event (at 100) by_merchant ledger) ≡ some Outcome.activated)
    × (outcome (process_webhook_event (at 100) failed_event ledger) ≡ some Outcome.failure_recorded)
    × (outcome (process_webhook_event (at 100) wrong_amount ledger)
        ≡ some Outcome.rejected_mismatch)
unfolding process_webhook_event process_locked process_choice choose_transaction choose_open
    resolve_subscription_id resolve_by_reference resolve_by_merchant merchant_ref apply_result
    amount_matches to_cents round_half_up complete activate activate_subscription record_failure
    save_status save_transaction
outcomes = (refl, refl, refl, refl)

no_active : (k : ℕ) → count (is_active_of k) db.subscriptions ≤ 1
no_active k = omega arith

ledger-IsSound : IsSound ledger
ledger-IsSound = record {
  featured = record {
    mirrored = (refl, tt);
    unique = no_active;
    keyed = record { distinct = tt; below = tt };
  };
  payments = record { distinct = (refl, tt); below = (omega arith, tt) };
  rows = record { distinct = (refl, tt); below = (omega arith, tt) };
  settled = (λ done. absurd (ground (arith, done)), tt);
}

abbrev deliveries : List (Runtime × WebhookEvent)
deliveries = (at 50, failed_event) ∷ (at 100, paid_event) ∷ (at 110, paid_event) ∷ []

run_accounts_example :
    let (n, last) = run deliveries ledger in
    IsSound last × (paid_records last ≡ 0 + n) × (featured_rows last ≡ 0 + n) × (n ≤ 1)
run_accounts_example = run_accounts deliveries ledger ledger-IsSound

abbrev state_of : Result (Outcome × Ledger) → Ledger
state_of (ok (_, l)) = l
state_of (err _) = ledger

abbrev paid_state : Ledger
unfolding process_webhook_event process_locked process_choice choose_transaction choose_open
    resolve_subscription_id resolve_by_reference apply_result amount_matches complete activate
    activate_subscription save_status save_transaction to_cents round_half_up
paid_state = state_of (process_webhook_event (at 100) paid_event ledger)

first_delivery :
    process_webhook_event (at 100) paid_event ledger ≡ ok (Outcome.activated, paid_state)
unfolding paid_state
first_delivery = refl

process_webhook_event_idempotent_example :
    process_webhook_event (at 200) paid_event paid_state ≡ ok (Outcome.duplicate, paid_state)
process_webhook_event_idempotent_example =
    process_webhook_event_idempotent (at 100) (at 200) paid_event ledger paid_state first_delivery

activated-Authorised_example : Authorised (at 100) paid_event ledger
activated-Authorised_example =
    activated-Authorised (at 100) paid_event ledger paid_state first_delivery

mismatch :
    process_webhook_event (at 100) wrong_amount ledger ≡ ok (Outcome.rejected_mismatch, ledger)
unfolding process_webhook_event process_locked process_choice choose_transaction choose_open
    resolve_subscription_id resolve_by_reference apply_result amount_matches to_cents round_half_up
mismatch = refl

process_webhook_event_unchanged_example : ledger ≡ ledger
process_webhook_event_unchanged_example =
    process_webhook_event_unchanged (at 100) wrong_amount ledger ledger Outcome.rejected_mismatch
      mismatch refl

abbrev gateway_answer : GatewayTransactionStatus
gateway_answer = record {
  transaction_id = text "t-1";
  order_id = text "777";
  merchant_order_id = [];
  success = true;
  pending = false;
  is_voided = false;
  is_refunded = false;
  amount_cents = some (pos 9900);
  currency = text "EGP";
}

abbrev check : Subscription → Check
check s = answer gateway_answer

reconcile_pending_transactions_lem_example :
    let (counts, last) = reconcile_pending_transactions (at 9999) check ledger in
    IsTallied
      (length (batch (at 9999) ledger))
      (any (λ s. ends_batch (check s)) (batch (at 9999) ledger))
      counts
    × (last ≡ (run (final_events (at 9999) check (batch (at 9999) ledger)) ledger).1)
    × IsSound last
reconcile_pending_transactions_lem_example =
    reconcile_pending_transactions_lem (at 9999) check ledger ledger-IsSound

pending_subscriptions_lem_example :
    ((k : ℕ)
      → mem k (pending_subscriptions 10 ledger)
        ≡ any
            (λ t. is_stuck 10 ledger.subscriptions t && t.subscription_id == k)
            ledger.transactions)
    × Distinct (λ k. k) (pending_subscriptions 10 ledger)
pending_subscriptions_lem_example = pending_subscriptions_lem 10 ledger

-- a state before any payment
abbrev empty_ledger : Ledger
empty_ledger = let l = ledger in record l { subscriptions = []; transactions = [] }

empty_ledger-IsSound : IsSound empty_ledger
empty_ledger-IsSound = record {
  featured = ledger-IsSound.featured;
  payments = record { distinct = tt; below = tt };
  rows = record { distinct = tt; below = tt };
  settled = tt;
}

abbrev hosted_page : Subscription → Initiation
hosted_page s = Initiation.answer (some (text "https://pay")) (some (text "888"))

settling_event :
    Confirms (at 100) (success_of (text "t-9") (text "888")) shop weekly empty_ledger (text "888")
unfolding amount_to_cents round_half_up
settling_event = record {
  sound = empty_ledger-IsSound;
  stored_plan = refl;
  stored_business = refl;
  no_rows_yet = refl;
  final = refl;
  success = refl;
  new_id = refl;
  order = refl;
  cents = refl;
  money = refl;
}

initiated_payment_settles_example :
    let (result, l') = initiate_subscription_payment (at 20) hosted_page shop weekly empty_ledger in
    (result ≡ redirect (text "https://pay"))
    × ((l'' : Ledger) × (process_webhook_event (at 100) (success_of (text "t-9") (text "888")) l'
          ≡ ok (Outcome.activated, l''))
        × (has_active 1 l''.featured.subscriptions ≡ true))
initiated_payment_settles_example =
    initiated_payment_settles (at 20) (at 100) (success_of (text "t-9") (text "888")) shop weekly
      empty_ledger 56 (56 ∷ 56 ∷ []) settling_event hosted_page 104
      (116 ∷ 116 ∷ 112 ∷ 115 ∷ 58 ∷ 47 ∷ 47 ∷ 112 ∷ 97 ∷ 121 ∷ []) refl
