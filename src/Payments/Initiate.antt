-- ===== src/Payments/Initiate.antt =====
-- payments/services.py: the start of a payment.

pub mod Confirm
pub mod Settled
use cavallo_app.Payments.Webhook.{set_status}
use cavallo_app.Payments.Records.{Subscription, Status, Ledger, Transaction, Runtime}
use cavallo_app.Prelude.{◌+◌, ◌∷◌, some, ◌==◌, update_where, none, [], ◌++◌, ℕ, Text, Option}
use cavallo_app.Monetization.{Plan, BusinessProfile}

-- What `gateway.initiate_payment` does: it raises `PaymentGatewayError` or another exception,
-- returns something that is no dict, or a dict with these two entries, if they are there.
pub data Initiation : Type 0 where
  gateway_error other_error no_dict : Initiation
  answer : Option Text → Option Text → Initiation

-- What `initiate_subscription_payment` ends in.
pub data Started : Type 0 where
  redirect : Text → Started
  payment_gateway_error uncaught : Started

abbrev pub new_subscription : BusinessProfile → Plan → Ledger → Subscription
new_subscription business plan l = record {
  pk = l.next_subscription;
  business_id = business.pk;
  plan_id = plan.pk;
  status = Status.pending;
  gateway_reference = [];
}

abbrev pub new_transaction : Runtime → Plan → Ledger → Transaction
new_transaction rt plan l = record {
  pk = l.next_transaction;
  subscription_id = l.next_subscription;
  transaction_id = none;
  amount = plan.price;
  currency = plan.currency;
  status = Status.pending;
  created_at = rt.now;
}

-- the first transaction: both rows
unfoldable pub create_rows : Runtime → BusinessProfile → Plan → Ledger → Ledger
create_rows rt business plan l = record l {
  subscriptions = l.subscriptions ++ new_subscription business plan l ∷ [];
  transactions = l.transactions ++ new_transaction rt plan l ∷ [];
  next_subscription = l.next_subscription + 1;
  next_transaction = l.next_transaction + 1;
}

abbrev pub set_reference : Text → Subscription → Subscription
set_reference reference s = record s { gateway_reference = reference }

abbrev pub set_failed : Transaction → Transaction
set_failed t = record t { status = Status.failed }

-- `_mark_failed`, of the rows with these keys
unfoldable pub mark_failed : ℕ → ℕ → Ledger → Ledger
mark_failed subscription_pk transaction_pk l = record l {
  subscriptions =
      update_where (λ s. s.pk == subscription_pk) (set_status Status.failed) l.subscriptions;
  transactions = update_where (λ t. t.pk == transaction_pk) set_failed l.transactions;
}

-- `subscription.gateway_reference = ...; subscription.save(update_fields=...)`, of a text that fits
-- into the column
unfoldable pub save_reference : ℕ → Text → Ledger → Ledger
save_reference subscription_pk reference l = record l {
  subscriptions =
      update_where (λ s. s.pk == subscription_pk) (set_reference reference) l.subscriptions;
}

-- the `try` around the gateway's answer: the two texts, if both are there and not empty
unfoldable pub usable : Option Text → Option Text → Option (Text × Text)
usable (some (u ∷ url)) (some (r ∷ reference)) = some (u ∷ url, r ∷ reference)
usable _ _ = none

unfoldable pub finish : Initiation → ℕ → ℕ → Ledger → Started × Ledger
unfolding mark_failed save_reference usable
finish gateway_error s t l = (payment_gateway_error, mark_failed s t l)
finish other_error s t l = (uncaught, l)
finish no_dict s t l = (payment_gateway_error, mark_failed s t l)
finish (answer url reference) s t l = elim (usable url reference) [
  | none ↦ (payment_gateway_error, mark_failed s t l)
  | some (u, r) ↦ (redirect u, save_reference s r l)
]

-- `initiate_subscription_payment`
unfoldable pub initiate_subscription_payment :
    Runtime → (Subscription → Initiation) → BusinessProfile → Plan → Ledger → Started × Ledger
unfolding create_rows finish
initiate_subscription_payment rt initiate business plan l =
    finish (initiate (new_subscription business plan l)) l.next_subscription l.next_transaction
      (create_rows rt business plan l)
