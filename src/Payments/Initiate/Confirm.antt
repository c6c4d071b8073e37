-- ===== src/Payments/Initiate/Confirm.antt =====
-- The initiation of a payment, and its confirmation by the webhook (payments/services.py,
-- payments/webhooks.py).

use cavallo_app.Monetization.{Plan, BusinessProfile}
use cavallo_app.Prelude.{
  some, Text, arith, [], ◌∷◌, ◌++◌, ◌==◌, update_where, ◌≡◌, ◌<◌, All, List, ℕ,
}
use cavallo_app.Payments.Initiate.{
  other_error, no_dict, gateway_error, answer, new_transaction, new_subscription, uncaught,
  payment_gateway_error, redirect, Initiation, Started,
}
use cavallo_app.Payments.Records.{Ledger, Status, Runtime}

-- an update of the row that was just added
pub update_where-append {ℓ} :
    {A : Type ℓ} (key : A → ℕ) (f : A → A) (k : ℕ) (xs : List A) (r : A)
    → All (λ x. key x < k) xs
    → key r ≡ k
    → update_where (λ x. key x == k) f (xs ++ r ∷ []) ≡ xs ++ f r ∷ []
update_where-append key f k [] r h e = ground (arith, e)
update_where-append key f k (x ∷ xs) r h e =
    ground (arith, h.0, update_where-append key f k xs r h.1 e)

-- What an initiation ends in by what the gateway did, with the status of the two new rows and the
-- reference of the payment.
abbrev pub promised : Initiation → Started × (Status × Text)
promised gateway_error = (payment_gateway_error, (Status.failed, []))
promised no_dict = (payment_gateway_error, (Status.failed, []))
promised other_error = (uncaught, (Status.pending, []))
promised (answer (some (u ∷ us)) (some (r ∷ rs))) = (redirect (u ∷ us), (Status.pending, r ∷ rs))
promised (answer _ _) = (payment_gateway_error, (Status.failed, []))

module _ (rt : Runtime) (business : BusinessProfile) (plan : Plan) (l : Ledger) where
  pub record IsBegun (i : Initiation) (result : Started) (l' : Ledger) : Type 0 where
    pub ends : result ≡ (promised i).0
    pub subscriptions :
        l'.subscriptions
        ≡ l.subscriptions
          ++ record (new_subscription business plan l) {
            status = (promised i).1.0;
            gateway_reference = (promised i).1.1;
          }
            ∷ []
    pub transactions :
        l'.transactions
        ≡ l.transactions ++ record (new_transaction rt plan l) { status = (promised i).1.0 } ∷ []
    pub featured : l'.featured ≡ l.featured
