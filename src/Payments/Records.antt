-- ===== src/Payments/Records.antt =====
-- The rows of payments/models.py, the event types of payments/views.py and
-- payments/gateways/base.py, and the tables that the payment code works on.

use cavallo_app.Money.{Decimal}
use cavallo_app.Monetization.{Db, Plan}
use cavallo_app.Prelude.{◌||◌, ℤ, ◌||◌, false, true, if◌then◌else◌, Option, ℕ, Text, List, Bool}

pub data Status : Type 0 where
  pending completed failed : Status

abbrev pub status_eq : Status → Status → Bool
status_eq Status.pending Status.pending = true
status_eq Status.completed Status.completed = true
status_eq Status.failed Status.failed = true
status_eq _ _ = false

pub record Subscription : Type 0 where
  pub pk : ℕ
  pub business_id : ℕ
  pub plan_id : ℕ
  pub status : Status
  pub gateway_reference : Text

-- `transaction_id` is NULL until a webhook brings the gateway's identifier.
pub record Transaction : Type 0 where
  pub pk : ℕ
  pub subscription_id : ℕ
  pub transaction_id : Option Text
  pub amount : Decimal
  pub currency : Text
  pub status : Status
  pub created_at : ℕ

pub record WebhookEvent : Type 0 where
  pub transaction_id : Text
  pub order_id : Text
  pub merchant_order_id : Text
  pub success : Bool
  pub pending : Bool
  pub is_voided : Bool
  pub is_refunded : Bool
  pub amount_cents : Option ℤ
  pub currency : Text

pub record GatewayTransactionStatus : Type 0 where
  pub transaction_id : Text
  pub order_id : Text
  pub merchant_order_id : Text
  pub success : Bool
  pub pending : Bool
  pub is_voided : Bool
  pub is_refunded : Bool
  pub amount_cents : Option ℤ
  pub currency : Text

-- `GatewayTransactionStatus.status`
unfoldable pub gateway_status : GatewayTransactionStatus → Status
gateway_status r =
    if r.pending || r.is_voided || r.is_refunded
    then Status.pending
    else if r.success
    then Status.completed
    else Status.failed

-- The tables of the payments app, with those of monetization that activation writes.
pub record Ledger : Type 0 where
  pub plans : List Plan
  pub subscriptions : List Subscription
  pub transactions : List Transaction
  pub next_subscription : ℕ
  pub next_transaction : ℕ
  pub featured : Db

-- What a call reads from outside: the clock (`timezone.now()`), and two functions of Python's
-- Unicode tables, `str.upper` and the decimal value of a character (`\d` and `int`).
pub record Runtime : Type 0 where
  pub now : ℕ
  pub upper : Text → Text
  pub digit_value : ℕ → Option ℕ
