-- ===== src/Payments/Webhook/Invariant.antt =====
-- The invariant of the payment tables, kept by every webhook event (payments/webhooks.py).

use cavallo_app.Payments.Webhook.Chosen.{fresh, opened, redelivered, Origin, written, IsChosen}
use cavallo_app.Monetization.{ok, Plan}
use cavallo_app.Monetization.Activation.{after_activation, activate_subscription_lem, IsConsistent}
use cavallo_app.Payments.Webhook.{set_status, Target, save_transaction, save_status, activate}
use cavallo_app.Prelude.{
  ap, All-map, append-IsKeyed, sym, refl, update_where-IsKeyed, find-update_where, if◌then◌else◌,
  [], ◌∷◌, ==→eq, some, find-holds, All-append, inr, false, none, arith, All-update_where, ◌≢◌, ◌≢◌,
  inl, Option-cases, true, Bool-cases, ◌==◌, find, All, ◌≡◌, ◌≡◌, IsKeyed, Bool, Text, ℕ, List,
}
use cavallo_app.Payments.Records.{status_eq, Transaction, Subscription, Status, Runtime, Ledger}

-- the status of a payment record
abbrev pub is_completed : ℕ → List Subscription → Bool
is_completed k subscriptions = elim (find (λ s. s.pk == k) subscriptions) [
  | none ↦ false
  | some s ↦ status_eq s.status Status.completed
]

-- A completed transaction has the gateway's identifier and belongs to a completed payment.
abbrev pub IsSettled : List Subscription → Transaction → Type 0
IsSettled subscriptions t =
    status_eq t.status Status.completed ≡ true
    → (is_completed t.subscription_id subscriptions ≡ true) × (t.transaction_id ≢ none)

pub record IsSound (l : Ledger) : Type 0 where
  pub featured : IsConsistent l.featured
  pub payments : IsKeyed (λ s. s.pk) l.next_subscription l.subscriptions
  pub rows : IsKeyed (λ t. t.pk) l.next_transaction l.transactions
  pub settled : All (IsSettled l.subscriptions) l.transactions

-- Activation writes the tables of monetization only, and keeps them consistent.
pub activate-keeps :
    (rt : Runtime) (s : Subscription) (plan : Plan) (l l' : Ledger)
    → activate rt s plan l ≡ ok l'
    → (l' ≡ record l { featured = after_activation s.business_id plan rt.now l.featured })
unfolding activate
activate-keeps rt s plan l l' h =
    elim (Option-cases (find (λ b. b.pk == s.business_id) l.featured.businesses)) [
      | inl missing ↦ absurd (ground arith)
      | inr (b, there) ↦
          let same : (b.pk == s.business_id) ≡ true =
            find-holds (λ b. b.pk == s.business_id) l.featured.businesses b there in
          ground (
            arith,
            there,
            ==→eq b.pk s.business_id same,
            activate_subscription_lem b plan rt.now l.featured,
          )
    ]

pub is_completed-save_status :
    (j k : ℕ) (status : Status) (l : Ledger)
    → is_completed j (save_status k status l).subscriptions
      ≡ elim (find (λ s. s.pk == j) l.subscriptions) [
        | none ↦ false
        | some s ↦
            if j == k
            then status_eq status Status.completed
            else status_eq s.status Status.completed
      ]
unfolding save_status
is_completed-save_status j k status l = ground (
  arith,
  find-update_where (λ (s : Subscription). s.pk) (set_status status) (λ s. refl) j k
      l.subscriptions,
)

-- a saved row keeps the keys of the table
pub save_transaction-IsKeyed :
    (id : Text) (status : Status) (s : Subscription) (l : Ledger) (t : Target)
    → IsChosen id s l t
    → IsKeyed (λ (t : Transaction). t.pk) l.next_transaction l.transactions
    → let l' = save_transaction id status t l in
      IsKeyed (λ (t : Transaction). t.pk) l'.next_transaction l'.transactions
unfolding save_transaction
save_transaction-IsKeyed id status s l t c h = elim (Bool-cases t.stored) [
  | inl stored ↦ rw stored (
      update_where-IsKeyed (λ (t : Transaction). t.pk) (λ x. x.pk == t.row.pk)
        (λ x. written id status t) (λ x hit. sym (==→eq x.pk t.row.pk hit)) l.next_transaction
        l.transactions h)
  | inr new ↦ rw new (
      append-IsKeyed (λ (t : Transaction). t.pk) l.next_transaction l.transactions
        (written id status t) h (next new c.origin))
]
  where
    next : t.stored ≡ false → Origin id s l t → t.row.pk ≡ l.next_transaction
    next new (redelivered stored there) = absurd (ground arith)
    next new (opened stored missing there) = absurd (ground arith)
    next new (fresh stored missing pk) = pk

pub save_transaction-IsSettled :
    (id : Text) (status : Status) (l : Ledger) (t : Target) (subs : List Subscription)
    → IsSettled subs (written id status t)
    → All (IsSettled subs) l.transactions
    → All (IsSettled subs) (save_transaction id status t l).transactions
unfolding save_transaction
save_transaction-IsSettled id status l t subs w h = elim (Bool-cases t.stored) [
  | inl stored ↦ rw stored (
      All-update_where (IsSettled subs) (IsSettled subs) (λ x. x.pk == t.row.pk)
        (λ x. written id status t) l.transactions (λ x p q. w) (λ x p q. p) h)
  | inr new ↦
      rw new (All-append (IsSettled subs) l.transactions (written id status t ∷ []) h (w, tt))
]

-- A payment other than `k`, and `k` itself if it was not completed, keeps its completion.
pub completed_stays :
    (j k : ℕ) (status : Status) (l : Ledger) (s : Subscription)
    → find (λ s. s.pk == k) l.subscriptions ≡ some s
    → status_eq s.status Status.completed ≡ false
    → is_completed j l.subscriptions ≡ true
    → is_completed j (save_status k status l).subscriptions ≡ true
completed_stays j k status l s there open_status h =
    rw is_completed-save_status (elim (Option-cases (find (λ s. s.pk == j) l.subscriptions)) [
      | inl missing ↦ absurd (ground (arith, missing))
      | inr (s', there') ↦ elim (Bool-cases (j == k)) [
        | inl same ↦ absurd (
            ground (
              arith,
              there,
              there',
              ap (λ (n : ℕ). find (λ (s : Subscription). s.pk == n) l.subscriptions)
                  (==→eq j k same),
            ))
        | inr other ↦ ground (arith, other, there')
      ]
    ])

pub IsSettled-stays :
    (k : ℕ) (status : Status) (l : Ledger) (s : Subscription)
    → find (λ s. s.pk == k) l.subscriptions ≡ some s
    → status_eq s.status Status.completed ≡ false
    → All (IsSettled l.subscriptions) l.transactions
    → All (IsSettled (save_status k status l).subscriptions) l.transactions
IsSettled-stays k status l s there open_status h =
    All-map (IsSettled l.subscriptions) (IsSettled (save_status k status l).subscriptions)
      l.transactions
      (λ t settled done. (
        completed_stays t.subscription_id k status l s there open_status (settled done).0,
        (settled done).1,
      ))
      h

-- a save of the payment's status leaves the transactions and the keys
pub save_status-IsKeyed :
    (k : ℕ) (status : Status) (l : Ledger)
    → IsKeyed (λ (s : Subscription). s.pk) l.next_subscription l.subscriptions
    → IsKeyed
        (λ (s : Subscription). s.pk)
        l.next_subscription
        (save_status k status l).subscriptions
unfolding save_status
save_status-IsKeyed k status l h =
    update_where-IsKeyed (λ (s : Subscription). s.pk) (λ s. s.pk == k) (set_status status)
      (λ (s : Subscription) _. refl) l.next_subscription l.subscriptions h
