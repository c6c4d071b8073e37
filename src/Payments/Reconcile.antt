-- ===== src/Payments/Reconcile.antt =====
-- payments/tasks.py: the daily reconciliation of payments that stay pending.
--
-- `check` is `gateway.check_transaction_status`, code outside this app's control: it raises
-- `PaymentGatewayError` or another exception, finds no transaction, or answers.
pub mod Batch
pub mod Selection
use cavallo_app.Prelude.{
  Option, false, true, filter, ◌||◌, sort, mem, leb, find, ◌==◌, ◌∷◌, some, ltb, any, [], ◌&&◌, ℕ,
  none, if◌then◌else◌, List, Bool, ◌-◌, ◌+◌,
}
use cavallo_app.Payments.Webhook.Runs.{deliver}
use cavallo_app.Payments.Records.{
  Status, status_eq, WebhookEvent, Subscription, Ledger, gateway_status, Transaction, Runtime,
  GatewayTransactionStatus,
}

pub data Check : Type 0 where
  gateway_error other_failure no_transaction : Check
  answer : GatewayTransactionStatus → Check

-- seconds
abbrev pub reconciliation_grace_period : ℕ
reconciliation_grace_period = 3600

-- `_to_event`
unfoldable pub to_event : GatewayTransactionStatus → WebhookEvent
to_event r = record {
  transaction_id = r.transaction_id;
  order_id = r.order_id;
  merchant_order_id = r.merchant_order_id;
  success = r.success;
  pending = r.pending;
  is_voided = r.is_voided;
  is_refunded = r.is_refunded;
  amount_cents = r.amount_cents;
  currency = r.currency;
}

abbrev pub is_pending_payment : ℕ → List Subscription → Bool
is_pending_payment k subscriptions =
    any (λ s. s.pk == k && status_eq s.status Status.pending) subscriptions

-- the filter of `_pending_subscriptions`
abbrev pub is_stuck : ℕ → List Subscription → Transaction → Bool
is_stuck cutoff subscriptions t =
    status_eq t.status Status.pending
    && leb t.created_at cutoff
    && is_pending_payment t.subscription_id subscriptions

-- `.order_by("created_at", "pk")`
abbrev pub oldest_first : Transaction → Transaction → Bool
oldest_first a b = ltb a.created_at b.created_at || a.created_at == b.created_at && leb a.pk b.pk

-- the loop over the rows with its set `seen`
unfoldable pub first_of_each : List ℕ → List Transaction → List ℕ
first_of_each seen [] = []
first_of_each seen (t ∷ ts) = elim (mem t.subscription_id seen) [
  | true ↦ first_of_each seen ts
  | false ↦ t.subscription_id ∷ first_of_each (t.subscription_id ∷ seen) ts
]

-- `_pending_subscriptions`, by key; the rows are joined with their subscriptions below
unfoldable pub pending_subscriptions : ℕ → Ledger → List ℕ
unfolding first_of_each
pending_subscriptions cutoff l =
    first_of_each [] (sort oldest_first (filter (is_stuck cutoff l.subscriptions) l.transactions))

pub record Counts : Type 0 where
  pub checked : ℕ
  pub processed : ℕ
  pub skipped : ℕ
  pub errors : ℕ

abbrev pub no_counts : Counts
no_counts = record { checked = 0; processed = 0; skipped = 0; errors = 0 }

abbrev pub add_processed : Counts → Counts
add_processed c = record c { checked = c.checked + 1; processed = c.processed + 1 }

abbrev pub add_skipped : Counts → Counts
add_skipped c = record c { checked = c.checked + 1; skipped = c.skipped + 1 }

abbrev pub add_error : Counts → Counts
add_error c = record c { checked = c.checked + 1; errors = c.errors + 1 }

-- the second `try`: a final answer goes to the webhook's own function
unfoldable pub hand_over : Runtime → GatewayTransactionStatus → Counts → Ledger → Counts × Ledger
unfolding deliver
hand_over rt r c l =
    let (o, l') = deliver rt (to_event r) l in
    (elim o [ none ↦ add_error c | some _ ↦ add_processed c ], l')

-- one round of the batch; only `PaymentGatewayError` is caught around the check, so that any other
-- exception of it ends the task, with none for its counts
unfoldable pub reconcile_one : Runtime → Check → Counts → Ledger → Option Counts × Ledger
unfolding hand_over gateway_status
reconcile_one rt gateway_error c l = (some (add_error c), l)
reconcile_one rt other_failure c l = (none, l)
reconcile_one rt no_transaction c l = (some (add_skipped c), l)
reconcile_one rt (answer r) c l =
    if status_eq (gateway_status r) Status.pending
    then (some (add_skipped c), l)
    else let (c', l') = hand_over rt r c l in (some c', l')

unfoldable pub reconcile_each :
    Runtime → (Subscription → Check) → List Subscription → Counts → Ledger → Option Counts × Ledger
unfolding reconcile_one
reconcile_each rt check [] c l = (some c, l)
reconcile_each rt check (s ∷ ss) c l =
    let (o, l') = reconcile_one rt (check s) c l in
    elim o [ none ↦ (none, l') | some c' ↦ reconcile_each rt check ss c' l' ]

-- the subscriptions of the keys, as `select_related` has read them
abbrev pub rows_of : List ℕ → List Subscription → List Subscription
rows_of [] subscriptions = []
rows_of (k ∷ ks) subscriptions = elim (find (λ s. s.pk == k) subscriptions) [
  | none ↦ rows_of ks subscriptions
  | some s ↦ s ∷ rows_of ks subscriptions
]

-- `reconcile_pending_transactions`
unfoldable pub reconcile_pending_transactions :
    Runtime → (Subscription → Check) → Ledger → Option Counts × Ledger
unfolding reconcile_each pending_subscriptions
reconcile_pending_transactions rt check l =
    reconcile_each rt check
      (rows_of (pending_subscriptions (rt.now - reconciliation_grace_period) l) l.subscriptions)
      no_counts l
