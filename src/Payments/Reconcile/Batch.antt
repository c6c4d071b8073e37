-- ===== src/Payments/Reconcile/Batch.antt =====
-- The batch of payments/tasks.py: what it counts, whom it asks, and that it is a run of webhook
-- deliveries.
use cavallo_app.Payments.Webhook.{Outcome}
use mathlib.Core.Path.{subst}
use cavallo_app.Payments.Webhook.Invariant.{IsSound}
use cavallo_app.Prelude.{
  inr, inl, Bool-cases, ◌||◌, suc, none, some, false, true, Option, ℕ, any, Bool, ◌-◌, refl,
  if◌then◌else◌, [], ◌∷◌, length, arith, List, ◌+◌, ◌≡◌,
}
use cavallo_app.Payments.Webhook.Runs.{deliver, run_accounts, run}
use cavallo_app.Payments.Records.{
  GatewayTransactionStatus, Status, gateway_status, status_eq, WebhookEvent, Ledger, Subscription,
  Runtime,
}
use cavallo_app.Payments.Reconcile.{
  add_skipped, add_processed, add_error, other_failure, hand_over, reconciliation_grace_period,
  no_counts, pending_subscriptions, rows_of, reconcile_pending_transactions, to_event,
  no_transaction, gateway_error, answer, Check, reconcile_one, reconcile_each, Counts,
}

-- the check of this row ends the batch
abbrev pub ends_batch : Check → Bool
ends_batch other_failure = true
ends_batch _ = false

-- the events that the answers of a batch amount to, up to the row whose check ends it
unfoldable pub final_events :
    Runtime → (Subscription → Check) → List Subscription → List (Runtime × WebhookEvent)
final_events rt check [] = []
final_events rt check (s ∷ ss) =
    let rest = final_events rt check ss in
    elim (check s) [
      | gateway_error ↦ rest
      | other_failure ↦ []
      | no_transaction ↦ rest
      | answer r ↦
          if status_eq (gateway_status r) Status.pending then rest else (rt, to_event r) ∷ rest
    ]

-- what a batch of so many rows, after so many, has counted; none if a row has ended it
abbrev pub IsTallied : ℕ → Bool → Option Counts → Type 0
IsTallied n ended none = ended ≡ true
IsTallied n ended (some c) =
    (ended ≡ false) × (c.checked ≡ n) × (c.checked ≡ c.processed + c.skipped + c.errors)

reconcile_one-tally :
    (rt : Runtime) (a : Check) (c : Counts) (l : Ledger)
    → c.checked ≡ c.processed + c.skipped + c.errors
    → IsTallied (c.checked + 1) (ends_batch a) (reconcile_one rt a c l).0
unfolding reconcile_one hand_over
reconcile_one-tally rt gateway_error c l h = (refl, omega arith, omega arith)
reconcile_one-tally rt other_failure c l h = refl
reconcile_one-tally rt no_transaction c l h = (refl, omega arith, omega arith)
reconcile_one-tally rt (answer r) c l h =
    elim (Bool-cases (status_eq (gateway_status r) Status.pending)) [
      | inl open_ ↦ rw open_ (refl, omega arith, omega arith)
      | inr final ↦ rw final (counted ((deliver rt (to_event r) l).0))
    ]
  where
    counted :
        (o : Option Outcome)
        → IsTallied
            (c.checked + 1)
            false
            (some (elim o [ none ↦ add_error c | some _ ↦ add_processed c ]))
    counted none = (refl, omega (arith, h), omega (arith, h))
    counted (some o) = (refl, omega (arith, h), omega (arith, h))

reconcile_each-tally :
    (rt : Runtime) (check : Subscription → Check) (ss : List Subscription) (c : Counts) (l : Ledger)
    → c.checked ≡ c.processed + c.skipped + c.errors
    → IsTallied
        (c.checked + length ss)
        (any (λ s. ends_batch (check s)) ss)
        (reconcile_each rt check ss c l).0
unfolding reconcile_each
reconcile_each-tally rt check [] c l h = (refl, omega arith, h)
reconcile_each-tally rt check (s ∷ ss) c l h =
    rest (λ c' l' sum. reconcile_each-tally rt check ss c' l' sum)
      ((reconcile_one rt (check s) c l).0) ((reconcile_one rt (check s) c l).1)
      (ends_batch (check s)) (reconcile_one-tally rt (check s) c l h)
  where
    rest :
        ((c' : Counts) (l' : Ledger)
          → c'.checked ≡ c'.processed + c'.skipped + c'.errors
          → IsTallied
              (c'.checked + length ss)
              (any (λ s. ends_batch (check s)) ss)
              (reconcile_each rt check ss c' l').0)
        → (o : Option Counts) (l' : Ledger) (ended : Bool) → IsTallied (c.checked + 1) ended o
        → IsTallied (c.checked + suc (length ss)) (ended || any (λ s. ends_batch (check s)) ss) (
            let out : Option Counts × Ledger = elim o [
              | none ↦ (none, l')
              | some c' ↦ reconcile_each rt check ss c' l'
            ] in
            out.0)
    rest again none l' ended k = ground (arith, k)
    rest again (some c') l' ended (open_, one, sum) =
        let count : c'.checked + length ss ≡ c.checked + suc (length ss) = omega (arith, one) in
        let same : any (λ s. ends_batch (check s)) ss
            ≡ (ended || any (λ s. ends_batch (check s)) ss) =
          ground (arith, open_) in
        subst
          (λ n.
            IsTallied n (ended || any (λ s. ends_batch (check s)) ss)
              (reconcile_each rt check ss c' l').0)
          count
          (subst (λ b. IsTallied (c'.checked + length ss) b (reconcile_each rt check ss c' l').0)
            same (again c' l' sum))

reconcile_one-pending :
    (rt : Runtime) (r : GatewayTransactionStatus) (c : Counts) (l : Ledger)
    → status_eq (gateway_status r) Status.pending ≡ true
    → reconcile_one rt (answer r) c l ≡ (some (add_skipped c), l)
unfolding reconcile_one
reconcile_one-pending rt r c l h = ground (arith, h)

reconcile_one-final :
    (rt : Runtime) (r : GatewayTransactionStatus) (c : Counts) (l : Ledger)
    → status_eq (gateway_status r) Status.pending ≡ false
    → let (c', l') = hand_over rt r c l in reconcile_one rt (answer r) c l ≡ (some c', l')
unfolding reconcile_one
reconcile_one-final rt r c l h = ground (arith, h)

reconcile_each-run :
    (rt : Runtime) (check : Subscription → Check) (ss : List Subscription) (c : Counts) (l : Ledger)
    → (reconcile_each rt check ss c l).1 ≡ (run (final_events rt check ss) l).1
unfolding reconcile_each reconcile_one hand_over final_events run
reconcile_each-run rt check [] c l = refl
reconcile_each-run rt check (s ∷ ss) c l =
    by_check (λ c' l'. reconcile_each-run rt check ss c' l') (check s)
  where
    by_check :
        ((c' : Counts) (l' : Ledger)
          → (reconcile_each rt check ss c' l').1 ≡ (run (final_events rt check ss) l').1)
        → (a : Check)
        → (let out : Option Counts × Ledger = elim (reconcile_one rt a c l).0 [
          | none ↦ (none, (reconcile_one rt a c l).1)
          | some c' ↦ reconcile_each rt check ss c' ((reconcile_one rt a c l).1)
        ] in
            out.1)
          ≡ (run
              (elim a [
                | gateway_error ↦ final_events rt check ss
                | other_failure ↦ []
                | no_transaction ↦ final_events rt check ss
                | answer r ↦
                    if status_eq (gateway_status r) Status.pending
                    then final_events rt check ss
                    else (rt, to_event r) ∷ final_events rt check ss
              ])
              l).1
    by_check again gateway_error = again (add_error c) l
    by_check again other_failure = refl
    by_check again no_transaction = again (add_skipped c) l
    by_check again (answer r) = elim (Bool-cases (status_eq (gateway_status r) Status.pending)) [
      | inl open_ ↦ rw (reconcile_one-pending rt r c l open_, open_) (again (add_skipped c) l)
      | inr final ↦
          let (o, l') = deliver rt (to_event r) l in
          rw (reconcile_one-final rt r c l final, final)
            (again (elim o [ none ↦ add_error c | some _ ↦ add_processed c ]) l')
    ]

-- The batch that a run asks the gateway about.
abbrev pub batch : Runtime → Ledger → List Subscription
batch rt l =
    rows_of (pending_subscriptions (rt.now - reconciliation_grace_period) l) l.subscriptions

-- Reconciliation counts every payment of its batch as processed, skipped or failed, unless the check
-- of one raises an exception other than PaymentGatewayError: then, and only then, it ends with an
-- exception. In both cases it leaves the tables as the webhook would after the final answers alone,
-- those before that exception; so a sound state stays sound.
pub reconcile_pending_transactions_lem :
    (rt : Runtime) (check : Subscription → Check) (l : Ledger)
    → IsSound l
    → let (counts, last) = reconcile_pending_transactions rt check l in
      IsTallied (length (batch rt l)) (any (λ s. ends_batch (check s)) (batch rt l)) counts
      × (last ≡ (run (final_events rt check (batch rt l)) l).1)
      × IsSound last
unfolding reconcile_pending_transactions
reconcile_pending_transactions_lem rt check l h =
    let same = reconcile_each-run rt check (batch rt l) no_counts l in
    let count : 0 + length (batch rt l) ≡ length (batch rt l) = omega arith in
    (
      subst
          (λ n.
            IsTallied n (any (λ s. ends_batch (check s)) (batch rt l))
              (reconcile_each rt check (batch rt l) no_counts l).0)
          count (reconcile_each-tally rt check (batch rt l) no_counts l (omega arith)),
      same,
      rw same (run_accounts (final_events rt check (batch rt l)) l h).0,
    )
