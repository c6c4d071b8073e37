-- ===== src/Payments/Webhook/Chosen.antt =====
-- The transaction row that `process_webhook_event` chooses, and its save (payments/webhooks.py).

use cavallo_app.Payments.Webhook.{
  is_open_row, use_row, has_id, choose_transaction, choose_open, choose_new, Target,
  save_transaction,
}
use cavallo_app.Prelude.{
  [], Bool-cases, ◌∷◌, refl, find-holds, find-append_miss, ◌==◌, update_where, inr, ◌⊎◌, ◌⊎◌,
  text_eq_refl, inl, none, false, arith, Option-cases, true, ◌≡◌, ◌≡◌, some, find, List, Bool, Text,
}
use cavallo_app.Payments.Records.{
  status_eq, Ledger, WebhookEvent, Transaction, Subscription, Status, Runtime,
}

-- Where the chosen row comes from.
pub data Origin (id : Text) (s : Subscription) (l : Ledger) (t : Target) : Type 0 where
  redelivered : t.stored ≡ true → find (has_id id) l.transactions ≡ some t.row → Origin id s l t
  opened :
      t.stored ≡ true
      → find (has_id id) l.transactions ≡ none
      → find (is_open_row s.pk) l.transactions ≡ some t.row
      → Origin id s l t
  fresh :
      t.stored ≡ false
      → find (has_id id) l.transactions ≡ none
      → t.row.pk ≡ l.next_transaction
      → Origin id s l t

pub record IsChosen (id : Text) (s : Subscription) (l : Ledger) (t : Target) : Type 0 where
  pub belongs : t.row.subscription_id ≡ s.pk
  pub open_status : status_eq t.row.status Status.completed ≡ false
  pub origin : Origin id s l t

module _ (rt : Runtime) (e : WebhookEvent) (s : Subscription) (l : Ledger) (t : Target) where
  choose_new-IsChosen :
      find (has_id e.transaction_id) l.transactions ≡ none
      → choose_new rt s l ≡ use_row t
      → IsChosen e.transaction_id s l t
  unfolding choose_new
  choose_new-IsChosen missing h = record {
    belongs = ground arith;
    open_status = ground arith;
    origin = fresh (ground arith) missing (ground arith);
  }

  choose_open-IsChosen :
      find (has_id e.transaction_id) l.transactions ≡ none
      → choose_open rt s l ≡ use_row t
      → IsChosen e.transaction_id s l t
  unfolding choose_open
  choose_open-IsChosen missing h = elim (Option-cases (find (is_open_row s.pk) l.transactions)) [
    | inl no_open ↦ choose_new-IsChosen missing (ground arith)
    | inr (row, there) ↦
        let holds = find-holds (is_open_row s.pk) l.transactions row there in
        let stored : use_row (record { stored = true; row = row }) ≡ use_row t = ground arith in
        record {
          belongs = ground arith;
          open_status = ground arith;
          origin = opened (ground arith) missing (ground arith);
        }
  ]

  pub choose_transaction-IsChosen :
      choose_transaction rt e s l ≡ use_row t → IsChosen e.transaction_id s l t
  unfolding choose_transaction
  choose_transaction-IsChosen h =
      elim (Option-cases (find (has_id e.transaction_id) l.transactions)) [
        | inl missing ↦ choose_open-IsChosen missing (ground arith)
        | inr (row, there) ↦ record {
          belongs = ground arith;
          open_status = ground arith;
          origin = redelivered (ground arith) (ground arith);
        }
      ]

abbrev pub written : Text → Status → Target → Transaction
written id status t = let row = t.row in record row { transaction_id = some id; status = status }

-- The row of `q` is written in place, and nothing before it carries the identifier.
find-rewritten :
    (id : Text) (w row : Transaction) (q : Transaction → Bool) (xs : List Transaction)
    → has_id id w ≡ true
    → w.pk ≡ row.pk
    → find q xs ≡ some row
    → (find (has_id id) xs ≡ none) ⊎ (find (has_id id) xs ≡ some row)
    → find (has_id id) (update_where (λ t. t.pk == w.pk) (λ t. w) xs) ≡ some w
find-rewritten id w row q [] good same there either = cc
find-rewritten id w row q (x ∷ xs) good same there either = elim (Bool-cases (x.pk == w.pk)) [
  | inl hit ↦ ground arith
  | inr miss ↦ ground (arith, find-rewritten id w row q xs)
]

-- After the save the identifier leads to the written row.
pub find-save_transaction :
    (id : Text) (status : Status) (s : Subscription) (l : Ledger) (t : Target)
    → IsChosen id s l t
    → find (has_id id) (save_transaction id status t l).transactions ≡ some (written id status t)
unfolding save_transaction
find-save_transaction id status s l t h = elim h.origin [
  | redelivered stored there ↦ ground (
    arith,
    stored,
    text_eq_refl id,
    find-rewritten id (written id status t) t.row (has_id id) l.transactions (text_eq_refl id) refl
        there (inr there),
  )
  | opened stored missing there ↦ ground (
    arith,
    stored,
    text_eq_refl id,
    find-rewritten id (written id status t) t.row (is_open_row s.pk) l.transactions
        (text_eq_refl id) refl there (inl missing),
  )
  | fresh stored missing next ↦ ground (
    arith,
    stored,
    find-append_miss (has_id id) l.transactions (written id status t) missing (text_eq_refl id),
  )
]
