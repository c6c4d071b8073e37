-- ===== src/Payments/Reconcile/Selection.antt =====
-- Whom the reconciliation asks about (`_pending_subscriptions` of payments/tasks.py).

use cavallo_app.Payments.Records.{Transaction, Ledger}
use cavallo_app.Payments.Reconcile.{oldest_first, is_stuck, pending_subscriptions, first_of_each}
use cavallo_app.Prelude.{
  inr, inl, map, false, Bool-cases, any-sort, ◌∙◌, ==→eq, sort, refl, ap, arith, ◌==◌, not, [],
  ◌&&◌, ◌∷◌, ◌≡◌, mem, filter, Distinct, any, ℕ, List, Bool,
}

mem-first_of_each :
    (k : ℕ) (seen : List ℕ) (ts : List Transaction)
    → mem k (first_of_each seen ts) ≡ (not (mem k seen) && any (λ t. t.subscription_id == k) ts)
unfolding first_of_each
mem-first_of_each k seen [] = ground arith
mem-first_of_each k seen (t ∷ ts) = elim (Bool-cases (mem t.subscription_id seen)) [
  | inl old ↦ elim (Bool-cases (t.subscription_id == k)) [
    | inl same ↦
        let seen_k = ap (λ (n : ℕ). mem n seen) (==→eq t.subscription_id k same) in
        ground (arith, old, seen_k, mem-first_of_each k seen ts)
    | inr other ↦ ground (arith, old, other, mem-first_of_each k seen ts)
  ]
  | inr new ↦ elim (Bool-cases (t.subscription_id == k)) [
    | inl same ↦
        let seen_k = ap (λ (n : ℕ). mem n seen) (==→eq t.subscription_id k same) in
        ground (arith, new, seen_k, mem-first_of_each k (t.subscription_id ∷ seen) ts)
    | inr other ↦ ground (arith, new, other, mem-first_of_each k (t.subscription_id ∷ seen) ts)
  ]
]

mem-map_id : (k : ℕ) (ks : List ℕ) → mem k (map (λ j. j) ks) ≡ mem k ks
mem-map_id k [] = refl
mem-map_id k (j ∷ ks) = ground (arith, mem-map_id k ks)

Distinct-first_of_each :
    (seen : List ℕ) (ts : List Transaction) → Distinct (λ k. k) (first_of_each seen ts)
unfolding first_of_each
Distinct-first_of_each seen [] = tt
Distinct-first_of_each seen (t ∷ ts) =
    let k = t.subscription_id in
    let rest = first_of_each (k ∷ seen) ts in
    let absent : mem k rest ≡ false = ground (arith, mem-first_of_each k (k ∷ seen) ts) in
    let new : Distinct (λ k. k) (k ∷ rest) =
      (mem-map_id k rest ∙ absent, Distinct-first_of_each (k ∷ seen) ts) in
    let old = Distinct-first_of_each seen ts in
    elim (Bool-cases (mem k seen)) [
      | inl e ↦ rw (e, first_of_each) old
      | inr e ↦ rw (e, first_of_each) new
    ]

any-filter {ℓ} :
    {A : Type ℓ} (p q : A → Bool) (xs : List A) → any p (filter q xs) ≡ any (λ x. q x && p x) xs
any-filter p q [] = refl
any-filter p q (x ∷ xs) = ground (arith, any-filter p q xs)

-- A payment is asked about exactly if it is pending and has a pending transaction created at or
-- before the cutoff, and no payment is asked about twice.
pub pending_subscriptions_lem :
    (cutoff : ℕ) (l : Ledger)
    → ((k : ℕ)
        → mem k (pending_subscriptions cutoff l)
          ≡ any (λ t. is_stuck cutoff l.subscriptions t && t.subscription_id == k) l.transactions)
      × Distinct (λ k. k) (pending_subscriptions cutoff l)
unfolding pending_subscriptions
pending_subscriptions_lem cutoff l = (members, Distinct-first_of_each [] (sort oldest_first stuck))
  where
    stuck : List Transaction
    stuck = filter (is_stuck cutoff l.subscriptions) l.transactions

    members :
        (k : ℕ)
        → mem k (first_of_each [] (sort oldest_first stuck))
          ≡ any (λ t. is_stuck cutoff l.subscriptions t && t.subscription_id == k) l.transactions
    members k =
        mem-first_of_each k [] (sort oldest_first stuck)
        ∙ any-sort oldest_first (λ t. t.subscription_id == k) stuck
        ∙ any-filter (λ t. t.subscription_id == k) (is_stuck cutoff l.subscriptions) l.transactions
