-- ===== src/Payments/Webhook/Runs.antt =====
-- Any sequence of webhook deliveries (payments/webhooks.py, payments/views.py): the activations
-- in it are counted against the payment records and the subscription rows.

use cavallo_app.Monetization.Activation.{after_activation}
use cavallo_app.Payments.Webhook.Sound.{Declined-IsSound, Paid-IsSound, found-key}
use cavallo_app.Payments.Webhook.Steps.{
  process_webhook_event-Step, paid_ledger, declined, paid, quiet, Paid, Declined, Step,
}
use cavallo_app.Monetization.{
  save_new, deactivate, is_active_of, Db, Plan, sync_business_featured_flag, err, ok, Result,
}
use cavallo_app.Payments.Webhook.{
  set_status, save_transaction, save_status, record_failure, process_webhook_event, Outcome,
}
use cavallo_app.Payments.Webhook.Invariant.{activate-keeps, IsSound}
use cavallo_app.Payments.Records.{Subscription, Status, status_eq, WebhookEvent, Runtime, Ledger}
use cavallo_app.Prelude.{
  length-append, ◌==◌, count-update_where, none, false, [], ◌∷◌, ◌∙◌, ◌∙◌, true, refl, ◌≤◌, ◌≡◌,
  ◌≤◌, ◌≡◌, weight, update_where, some, arith, ◌+◌, length, count, ◌+◌, ℕ, Option, List, Bool,
}

-- The end of a delivery: a raised exception rolls the transaction back, and the gateway retries.
abbrev pub settle : Ledger → Result (Outcome × Ledger) → Option Outcome × Ledger
settle l (ok (o, l')) = (some o, l')
settle l (err _) = (none, l)

unfoldable pub deliver : Runtime → WebhookEvent → Ledger → Option Outcome × Ledger
deliver rt e l = settle l (process_webhook_event rt e l)

abbrev pub is_activation : Option Outcome → Bool
is_activation (some Outcome.activated) = true
is_activation _ = false

-- the number of activations in a run of deliveries, and the tables after it
unfoldable pub run : List (Runtime × WebhookEvent) → Ledger → ℕ × Ledger
unfolding deliver
run [] l = (0, l)
run ((rt, e) ∷ events) l =
    let (o, l') = deliver rt e l in
    let (n, last) = run events l' in (weight (is_activation o) + n, last)

abbrev pub paid_records : Ledger → ℕ
paid_records l = count (λ s. status_eq s.status Status.completed) l.subscriptions

abbrev pub featured_rows : Ledger → ℕ
featured_rows l = length l.featured.subscriptions

-- `n` activations lie between the two states.
pub record Accounts (n : ℕ) (l l' : Ledger) : Type 0 where
  pub sound : IsSound l'
  pub records : paid_records l' ≡ paid_records l + n
  pub rows : featured_rows l' ≡ featured_rows l + n
  pub size : length l'.subscriptions ≡ length l.subscriptions

Accounts-refl : (l : Ledger) → IsSound l → Accounts 0 l l
Accounts-refl l h = record { sound = h; records = omega arith; rows = omega arith; size = refl }

Accounts-trans :
    {m n : ℕ} {l l' l'' : Ledger} → Accounts m l l' → Accounts n l' l'' → Accounts (m + n) l l''
Accounts-trans a b = record {
  sound = b.sound;
  records = omega arith;
  rows = omega arith;
  size = b.size ∙ a.size;
}

length-update_where {ℓ} :
    {A : Type ℓ} (p : A → Bool) (f : A → A) (xs : List A) → length (update_where p f xs) ≡ length xs
length-update_where p f [] = refl
length-update_where p f (x ∷ xs) = omega (arith, length-update_where p f xs)

length-activated :
    (k : ℕ) (plan : Plan) (now : ℕ) (db : Db)
    → length (after_activation k plan now db).subscriptions ≡ length db.subscriptions + 1
unfolding after_activation sync_business_featured_flag
length-activated k plan now db =
    let kept = length-update_where (is_active_of k) (deactivate now) db.subscriptions in
    let grown =
      length-append (update_where (is_active_of k) (deactivate now) db.subscriptions)
        (save_new db.next_pk k plan now ∷ []) in
    omega arith

module _ (rt : Runtime) (e : WebhookEvent) (l l' : Ledger) (h : IsSound l) where
  Paid-Accounts : Paid rt e l l' → Accounts 1 l l'
  unfolding save_status save_transaction
  Paid-Accounts p =
      let same =
        activate-keeps rt p.subscription p.plan (paid_ledger e p.subscription.pk p.target l) l'
          p.active in
      let counted =
        count-update_where (λ (s : Subscription). s.pk) (set_status Status.completed)
          (λ s. status_eq s.status Status.completed) p.subscription.pk l.subscriptions
          p.subscription h.payments.distinct (found-key rt e l p.found) in
      record {
        sound = Paid-IsSound rt e l l' h p;
        records = rw same (ground (arith, counted, p.unpaid));
        rows = rw same (length-activated p.subscription.business_id p.plan rt.now l.featured);
        size = rw same (length-update_where (λ s. s.pk == p.subscription.pk) _ l.subscriptions);
      }

  Declined-Accounts : Declined rt e l l' → Accounts 0 l l'
  unfolding record_failure save_status save_transaction
  Declined-Accounts d =
      let counted =
        count-update_where (λ (s : Subscription). s.pk) (set_status Status.failed)
          (λ s. status_eq s.status Status.completed) d.subscription.pk l.subscriptions
          d.subscription h.payments.distinct (found-key rt e l d.found) in
      let kept =
        length-update_where (λ s. s.pk == d.subscription.pk) (set_status Status.failed)
          l.subscriptions in
      record {
        sound = Declined-IsSound rt e l l' h d;
        records = rw d.recorded (ground (arith, counted));
        rows = rw d.recorded (ground arith);
        size = rw d.recorded (ground (arith, kept));
      }

count-le-length {ℓ} : {A : Type ℓ} (p : A → Bool) (xs : List A) → count p xs ≤ length xs
count-le-length p [] = omega arith
count-le-length p (x ∷ xs) = ground (arith, count-le-length p xs)

deliver-Accounts :
    (rt : Runtime) (e : WebhookEvent) (l : Ledger)
    → IsSound l
    → let (o, l') = deliver rt e l in Accounts (weight (is_activation o)) l l'
unfolding deliver
deliver-Accounts rt e l h = from (process_webhook_event rt e l) refl
  where
    step :
        (o : Outcome) (l' : Ledger)
        → Step rt e l l' o
        → Accounts (weight (is_activation (some o))) l l'
    step o l' (quiet q same) =
        let none_counted : is_activation (some o) ≡ false = ground arith in
        rw (none_counted, same) (Accounts-refl l h)
    step o l' (paid is_active p) = rw is_active (Paid-Accounts rt e l l' h p)
    step o l' (declined is_failure d) = rw is_failure (Declined-Accounts rt e l l' h d)

    from :
        (r : Result (Outcome × Ledger))
        → process_webhook_event rt e l ≡ r
        → let (o, l') = settle l r in Accounts (weight (is_activation o)) l l'
    from (ok (o, l')) q = step o l' (process_webhook_event-Step rt e l l' o q)
    from (err f) q = Accounts-refl l h

run-Accounts :
    (events : List (Runtime × WebhookEvent)) (l : Ledger)
    → IsSound l
    → Accounts (run events l).0 l (run events l).1
unfolding run
run-Accounts [] l h = Accounts-refl l h
run-Accounts ((rt, e) ∷ events) l h =
    let first = deliver-Accounts rt e l h in
    Accounts-trans first (run-Accounts events (deliver rt e l).1 first.sound)

-- From a sound state, any run of deliveries, with any failures among them, ends in a sound state;
-- the activations in it are exactly the payments that became completed and exactly the subscription
-- rows that were added, so there are at most as many as there are payments.
pub run_accounts :
    (events : List (Runtime × WebhookEvent)) (l : Ledger)
    → IsSound l
    → let (n, last) = run events l in
      IsSound last
      × (paid_records last ≡ paid_records l + n)
      × (featured_rows last ≡ featured_rows l + n)
      × (n ≤ length l.subscriptions)
run_accounts events l h =
    let a = run-Accounts events l h in
    let last = (run events l).1 in
    let most = count-le-length (λ s. status_eq s.status Status.completed) last.subscriptions in
    (a.sound, a.records, a.rows, ground (arith, a.records, a.size, most))
