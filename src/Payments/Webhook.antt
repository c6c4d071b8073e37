-- ===== src/Payments/Webhook.antt =====
-- payments/webhooks.py: `process_webhook_event` and its helpers.
--
-- The body of `transaction.atomic()` is a function to `Result`: `err` stands for a raised
-- exception, after which the database is as it was.

pub mod Steps
pub mod Chosen
pub mod Invariant
pub mod Sound
pub mod Idempotent
pub mod Live
pub mod Runs
pub mod Atomic
use cavallo_app.Money.{to_cents}
use cavallo_app.Monetization.{activate_subscription, does_not_exist, ok, err, Result, Plan}
use cavallo_app.Payments.Records.{
  status_eq, Transaction, Subscription, Ledger, WebhookEvent, Status, Runtime,
}
use cavallo_app.Prelude.{
  digits_from, int_eq, ◌*◌, false, ◌*◌, ◌+◌, none, ◌+◌, ◌∷◌, ◌∷◌, [], ◌||◌, ◌++◌, ◌&&◌, ◌||◌, true,
  text_eq, ◌++◌, ◌&&◌, ◌==◌, update_where, if◌then◌else◌, find_last, find, ◌==◌, text, some, ℕ,
  Text, Option, Bool,
}

pub data Outcome : Type 0 where
  activated duplicate failure_recorded ignored unmatched rejected_mismatch : Outcome

unfoldable pub amount_matches : Runtime → WebhookEvent → Transaction → Bool
amount_matches rt event txn = elim event.amount_cents [
  | none ↦ false
  | some cents ↦
      int_eq cents (to_cents txn.amount)
      && text_eq (rt.upper event.currency) (rt.upper txn.currency)
]

-- the rest of a text behind a literal prefix
unfoldable pub strip_prefix : Text → Text → Option Text
strip_prefix [] cs = some cs
strip_prefix (p ∷ ps) [] = none
strip_prefix (p ∷ ps) (c ∷ cs) = let rest = strip_prefix ps cs in if p == c then rest else none

abbrev pub reference_prefix : Text
reference_prefix = text "payments-sub-"

-- `_MERCHANT_REF.fullmatch(...)` and `int(match.group(1))`
unfoldable pub merchant_ref : (ℕ → Option ℕ) → Text → Option ℕ
unfolding digits_from strip_prefix
merchant_ref digit_value reference = elim (strip_prefix reference_prefix reference) [
  | none ↦ none
  | some [] ↦ none
  | some (c ∷ cs) ↦ digits_from digit_value 0 (c ∷ cs)
]

-- `filter(transaction_id=...)`: NULL equals nothing
abbrev pub has_id : Text → Transaction → Bool
has_id id txn = elim txn.transaction_id [ none ↦ false | some x ↦ text_eq x id ]

abbrev pub subscription_key : Option Subscription → Option ℕ
subscription_key none = none
subscription_key (some s) = some s.pk

-- the last step of `_resolve_subscription_id`
unfoldable pub resolve_by_merchant : Runtime → WebhookEvent → Ledger → Option ℕ
resolve_by_merchant rt event ledger = elim (merchant_ref rt.digit_value event.merchant_order_id) [
  | none ↦ none
  | some k ↦ subscription_key (find (λ s. s.pk == k) ledger.subscriptions)
]

-- the second step, by the gateway's order id unless that is empty
unfoldable pub resolve_by_reference : Runtime → WebhookEvent → Ledger → Option ℕ
resolve_by_reference rt event ledger =
    let by_merchant = resolve_by_merchant rt event ledger in
    let by_reference =
      find_last (λ s. text_eq s.gateway_reference event.order_id) ledger.subscriptions in
    if text_eq event.order_id []
    then by_merchant
    else elim by_reference [ none ↦ by_merchant | some s ↦ some s.pk ]

-- `_resolve_subscription_id`
unfoldable pub resolve_subscription_id : Runtime → WebhookEvent → Ledger → Option ℕ
resolve_subscription_id rt event ledger =
    elim (find (has_id event.transaction_id) ledger.transactions) [
      | some txn ↦ some txn.subscription_id
      | none ↦ resolve_by_reference rt event ledger
    ]

-- A row that `save()` writes: an update of a stored row, or an insert.
pub record Target : Type 0 where
  pub stored : Bool
  pub row : Transaction

-- What the search for the transaction row ends in.
pub data Choice : Type 0 where
  already_completed other_subscription no_rows : Choice
  use_row : Target → Choice

abbrev pub is_open_row : ℕ → Transaction → Bool
is_open_row k txn =
    txn.subscription_id == k
    && elim txn.transaction_id [ none ↦ true | some _ ↦ false ]
    && status_eq txn.status Status.pending

-- a further attempt: a new row with the amount and currency of the latest one
unfoldable pub choose_new : Runtime → Subscription → Ledger → Choice
choose_new rt subscription ledger =
    elim (find_last (λ t. t.subscription_id == subscription.pk) ledger.transactions) [
      | none ↦ no_rows
      | some template ↦ use_row (record {
        stored = false;
        row = record {
          pk = ledger.next_transaction;
          subscription_id = subscription.pk;
          transaction_id = none;
          amount = template.amount;
          currency = template.currency;
          status = Status.pending;
          created_at = rt.now;
        };
      })
    ]

-- the pending row that the initiation has created, or a new one
unfoldable pub choose_open : Runtime → Subscription → Ledger → Choice
choose_open rt subscription ledger = elim (find (is_open_row subscription.pk) ledger.transactions) [
  | some txn ↦ use_row (record { stored = true; row = txn })
  | none ↦ choose_new rt subscription ledger
]

unfoldable pub choose_transaction : Runtime → WebhookEvent → Subscription → Ledger → Choice
choose_transaction rt event subscription ledger =
    elim (find (has_id event.transaction_id) ledger.transactions) [
      | some txn ↦
          if status_eq txn.status Status.completed
          then already_completed
          else if txn.subscription_id == subscription.pk
          then use_row (record { stored = true; row = txn })
          else other_subscription
      | none ↦ choose_open rt subscription ledger
    ]

-- `txn.transaction_id = event.transaction_id; txn.status = ...; txn.save()`
unfoldable pub save_transaction : Text → Status → Target → Ledger → Ledger
save_transaction id status target ledger =
    let row = target.row in
    let written = record row { transaction_id = some id; status = status } in
    record ledger {
      transactions =
          if target.stored
          then update_where (λ t. t.pk == written.pk) (λ t. written) ledger.transactions
          else ledger.transactions ++ written ∷ [];
      next_transaction =
          if target.stored then ledger.next_transaction else ledger.next_transaction + 1;
    }

abbrev pub set_status : Status → Subscription → Subscription
set_status status s = record s { status = status }

-- `subscription.status = ...; subscription.save(update_fields=...)`
unfoldable pub save_status : ℕ → Status → Ledger → Ledger
save_status k status ledger = record ledger {
  subscriptions = update_where (λ s. s.pk == k) (set_status status) ledger.subscriptions;
}

-- `activate_subscription(business=subscription.business, plan=subscription.plan)`
unfoldable pub activate : Runtime → Subscription → Plan → Ledger → Result Ledger
activate rt subscription plan ledger =
    elim (find (λ b. b.pk == subscription.business_id) ledger.featured.businesses) [
      | none ↦ err does_not_exist
      | some business ↦ elim (activate_subscription business plan rt.now ledger.featured) [
        | err e ↦ err e
        | ok (_, db) ↦ ok (record ledger { featured = db })
      ]
    ]

-- both rows become completed, then the plan is activated
unfoldable pub complete :
    Runtime → WebhookEvent → Subscription → Plan → Target → Ledger → Result (Outcome × Ledger)
complete rt event subscription plan target ledger =
    elim (activate rt subscription plan (
      save_status subscription.pk Status.completed
        (save_transaction event.transaction_id Status.completed target ledger))) [
          | err e ↦ err e
          | ok after ↦ ok (activated, after)
        ]

unfoldable pub record_failure : WebhookEvent → Subscription → Target → Ledger → Ledger
record_failure event subscription target ledger =
    let saved = save_transaction event.transaction_id Status.failed target ledger in
    if status_eq subscription.status Status.pending
    then save_status subscription.pk Status.failed saved
    else saved

-- the final result of the gateway, on the chosen row
unfoldable pub apply_result :
    Runtime → WebhookEvent → Subscription → Plan → Target → Ledger → Result (Outcome × Ledger)
apply_result rt event subscription plan target ledger =
    if event.success
    then (if amount_matches rt event target.row
        then (if status_eq subscription.status Status.completed
            then ok (ignored, ledger)
            else complete rt event subscription plan target ledger)
        else ok (rejected_mismatch, ledger))
    else ok (failure_recorded, record_failure event subscription target ledger)

unfoldable pub process_choice :
    Runtime → WebhookEvent → Subscription → Plan → Choice → Ledger → Result (Outcome × Ledger)
process_choice rt event subscription plan already_completed ledger = ok (duplicate, ledger)
process_choice rt event subscription plan other_subscription ledger = ok (unmatched, ledger)
process_choice rt event subscription plan no_rows ledger = ok (unmatched, ledger)
process_choice rt event subscription plan (use_row target) ledger =
    apply_result rt event subscription plan target ledger

-- with the subscription row locked and its plan joined
unfoldable pub process_locked :
    Runtime → WebhookEvent → Subscription → Ledger → Result (Outcome × Ledger)
process_locked rt event subscription ledger =
    elim (find (λ p. p.pk == subscription.plan_id) ledger.plans) [
      | none ↦ err does_not_exist
      | some plan ↦
          process_choice rt event subscription plan
            (choose_transaction rt event subscription ledger) ledger
    ]

-- `process_webhook_event`
unfoldable pub process_webhook_event : Runtime → WebhookEvent → Ledger → Result (Outcome × Ledger)
process_webhook_event rt event ledger =
    if event.pending || event.is_voided || event.is_refunded
    then ok (ignored, ledger)
    else elim (resolve_subscription_id rt event ledger) [
      | none ↦ ok (unmatched, ledger)
      | some k ↦ elim (find (λ s. s.pk == k) ledger.subscriptions) [
        | none ↦ err does_not_exist
        | some subscription ↦ process_locked rt event subscription ledger
      ]
    ]
