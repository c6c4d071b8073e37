-- ===== src/Payments/Views/Parsed.antt =====
-- payments/views.py and payments/gateways/paymob.py: a callback and an inquiry about the same
-- transaction.

use cavallo_app.Payments.Paymob.Requests.{Answered, HttpAnswer, read_inquiry}
use cavallo_app.Payments.Records.{
  Status, status_eq, gateway_status, GatewayTransactionStatus, Subscription, Runtime, Ledger,
}
use cavallo_app.Payments.Webhook.Runs.{deliver}
use cavallo_app.Payments.Webhook.{
  has_id, resolve_by_reference, resolve_subscription_id, reference_prefix, process_webhook_event,
  strip_prefix, resolve_by_merchant, merchant_ref, Outcome,
}
use cavallo_app.Prelude.{
  text_eq, find_last, sym, ◌∙◌, str_nat, ap, ◌||◌, ◌==◌, true, find, digits_from-str_nat,
  str_nat-cons, none, [], ◌+◌, ◌∷◌, ◌<◌, ℕ, ◌++◌, Text, arith, text, Bool-cases, inr, inl,
  Option-cases, some, refl, ◌≡◌, Option,
}
use cavallo_app.Payments.Paymob.{
  verify_webhook_signature, merchant_reference, status_of, load_obj, flag, parse_transaction_status,
}
use cavallo_app.Payments.Reconcile.{Counts, Check, hand_over, reconcile_one, to_event}
use cavallo_app.Payments.Views.{respond, post, is_true, event_of, parse_webhook_payload}
use cavallo_app.Payments.Json.{
  dict_or_empty, str_or_empty, get, is_blank, as_dict, Json, Python, null, boolean, integer, real,
  string, array, object, Fields,
}
use mathlib.Core.Option

is_true-flag : (py : Python) (v : Json) → is_true py v ≡ flag py v
is_true-flag py null = refl
is_true-flag py (boolean b) = refl
is_true-flag py (integer n) = refl
is_true-flag py (real x) = refl
is_true-flag py (string s) = refl
is_true-flag py (array xs) = refl
is_true-flag py (object obj) = refl

event_of-status_of : (py : Python) (obj : Fields) → event_of py obj ≡ to_event (status_of py obj)
unfolding to_event
event_of-status_of py obj = simp (is_true-flag)

-- The webhook and the inquiry read the same event from the same object: what the webhook parses of
-- a body is what the parsed answer to an inquiry with the body's `obj` becomes, and neither accepts
-- what the other one refuses.
pub parse_agree :
    (py : Python) (payload : Option Json) (value : Json)
    → load_obj payload ≡ some value
    → parse_webhook_payload py payload ≡ Option.map to_event (parse_transaction_status py value)
unfolding parse_webhook_payload parse_transaction_status
parse_agree py payload value h = elim (Option-cases (as_dict value)) [
  | inl other ↦ ground (arith, h, other)
  | inr (obj, dict) ↦ elim (Bool-cases (is_blank (get (text "id") obj))) [
    | inl blank ↦ ground (arith, h, dict, blank)
    | inr given ↦ ground (arith, h, dict, given, event_of-status_of py obj)
  ]
]

respond_ledger : (d : Option Outcome × Ledger) → (respond d).1 ≡ d.1
respond_ledger (none, l) = refl
respond_ledger (some o, l) = refl

-- an event that is not final changes nothing
deliver_pending :
    (rt : Runtime) (r : GatewayTransactionStatus) (l : Ledger)
    → status_eq (gateway_status r) Status.pending ≡ true
    → (deliver rt (to_event r) l).1 ≡ l
unfolding deliver process_webhook_event gateway_status to_event
deliver_pending rt r l h = elim (Bool-cases (r.pending || r.is_voided || r.is_refunded)) [
  | inl open_ ↦ ground (arith, open_)
  | inr closed ↦ elim (Bool-cases r.success) [
    | inl won ↦ absurd (ground (arith, closed, won, h))
    | inr lost ↦ absurd (ground (arith, closed, lost, h))
  ]
]

reconcile_answer :
    (rt : Runtime) (r : GatewayTransactionStatus) (c : Counts) (l : Ledger)
    → (reconcile_one rt (Check.answer r) c l).1 ≡ (deliver rt (to_event r) l).1
unfolding reconcile_one hand_over
reconcile_answer rt r c l = elim (Bool-cases (status_eq (gateway_status r) Status.pending)) [
  | inl open_ ↦ ground (arith, open_, deliver_pending rt r l open_)
  | inr closed ↦ ground (arith, closed)
]

module _ {A : Type 0} (py : Python) (loads : A → Option Json) (hmac : Text → Text → Text) where
  -- A callback with a valid signature leaves the same tables as the daily batch does with Paymob's
  -- answer about the same transaction, whether the result is final or not.
  pub reconcile_one-post :
      (rt : Runtime) (secret : Text) (raw_body : A) (signature : Text) (data' : Json)
      (check : Check) (c : Counts) (l : Ledger)
      → verify_webhook_signature py loads hmac secret raw_body signature ≡ some true
      → load_obj (loads raw_body) ≡ some data'
      → read_inquiry py (HttpAnswer.answered 200 (some data')) ≡ Answered.value check
      → (reconcile_one rt check c l).1 ≡ (post py loads hmac rt secret raw_body signature l).1
  unfolding post
  reconcile_one-post rt secret raw_body signature data' check c l good loaded read =
      elim (Option-cases (parse_transaction_status py data')) [
        | inl bad ↦ absurd (ground (arith, bad, read))
        | inr (r, parsed) ↦
            let event : parse_webhook_payload py (loads raw_body) ≡ some (to_event r) =
              parse_agree py (loads raw_body) data' loaded ∙ ap (Option.map to_event) parsed in
            let same : check ≡ Check.answer r = ground (arith, parsed, read) in
            ap (λ k. (reconcile_one rt k c l).1) same
            ∙ reconcile_answer rt r c l
            ∙ sym (respond_ledger (deliver rt (to_event r) l))
            ∙ sym (ground (arith, good, event))
      ]

reference_given :
    (py : Python) (s : Subscription)
    → str_or_empty py (string (merchant_reference s)) ≡ merchant_reference s
unfolding merchant_reference
reference_given py s = refl

strip_prefix-append : (ps xs : Text) → strip_prefix ps (ps ++ xs) ≡ some xs
unfolding strip_prefix
strip_prefix-append [] xs = refl
strip_prefix-append (p ∷ ps) xs = ground (arith, strip_prefix-append ps xs)

merchant_ref-merchant_reference :
    (digit_value : ℕ → Option ℕ)
    → ((d : ℕ) → d < 10 → digit_value (48 + d) ≡ some d)
    → (s : Subscription) → merchant_ref digit_value (merchant_reference s) ≡ some s.pk
unfolding merchant_ref merchant_reference
merchant_ref-merchant_reference digit_value ascii s =
    let (c, cs, digits) = str_nat-cons s.pk in
    let read = digits_from-str_nat digit_value ascii s.pk in
    let stripped = strip_prefix-append reference_prefix (str_nat s.pk) in
    ground (arith, digits, read, stripped)

-- The merchant reference of a stored subscription, sent back in a callback's order whose transaction
-- is not yet known and whose order id is no stored reference, leads the webhook to that
-- subscription, where Python reads an ASCII digit as its value.
pub resolve-merchant_reference :
    (rt : Runtime) (py : Python) (obj : Fields) (s : Subscription) (l : Ledger)
    → ((d : ℕ) → d < 10 → rt.digit_value (48 + d) ≡ some d)
    → get (text "merchant_order_id") (dict_or_empty (get (text "order") obj))
      ≡ string (merchant_reference s)
    → find (has_id (event_of py obj).transaction_id) l.transactions ≡ none
    → find_last (λ t. text_eq t.gateway_reference (event_of py obj).order_id) l.subscriptions ≡ none
    → find (λ t. t.pk == s.pk) l.subscriptions ≡ some s
    → resolve_subscription_id rt (event_of py obj) l ≡ some s.pk
unfolding resolve_subscription_id resolve_by_reference resolve_by_merchant
resolve-merchant_reference rt py obj s l ascii sent new_id new_order stored =
    let read : (event_of py obj).merchant_order_id ≡ merchant_reference s =
      ap (str_or_empty py) sent ∙ reference_given py s in
    let found = merchant_ref-merchant_reference rt.digit_value ascii s in
    ground (arith, read, found, stored, new_id, new_order)
