-- ===== src/Payments/Views/Tests.antt =====
-- A sample callback, with a digest that is the key itself.

use cavallo_app.Payments.Webhook.{
  process_webhook_event, resolve_subscription_id, resolve_by_reference, process_locked,
  process_choice, choose_transaction, choose_open, apply_result, amount_matches, complete, activate,
  save_status, save_transaction,
}
use cavallo_app.Money.{to_cents, round_half_up}
use cavallo_app.Monetization.{activate_subscription}
use cavallo_app.Payments.Paymob.Started.{initiate_with_paymob, IsOrderId}
use cavallo_app.Payments.Views.Parsed.{resolve-merchant_reference, reconcile_one-post}
use cavallo_app.Payments.Views.Gate.{post_lem, IsProcessed}
use cavallo_app.Payments.Paymob.Requests.{
  Answered, read_inquiry, initiate_payment, PaymobSettings, HttpAnswer, BillingContact,
}
use mathlib.Core.Option
use cavallo_app.Payments.Webhook.Runs.{deliver}
use cavallo_app.Payments.Webhook.Runs.{deliver}
use cavallo_app.Payments.Records.{Ledger, Subscription}
use cavallo_app.Payments.Views.{
  event_of, http_200, uncaught, http_400, parse_webhook_payload, Response, post,
}
use cavallo_app.Payments.Paymob.{
  status_of, parse_transaction_status, merchant_reference, load_obj, hmac_fields, signed_text,
  verify_webhook_signature, lookup_parts, lookup,
}
use cavallo_app.Prelude.{
  find_last, inr, inl, ◌⊎◌, Option-cases, ◌+◌, arith, ◌<◌, ◌++◌, ◌≢◌, ℕ, digits_from, List, refl,
  ◌≡◌, ◌∷◌, false, digits_of, str_nat, none, [], true, text_eq, some, pos, not, Option, text, Text,
  Bool,
}
use cavallo_app.Payments.Json.{
  dict_or_empty, get, get_item, Python, Json, boolean, integer, string, object, no_fields, field,
  Fields,
}
use cavallo_app.Payments.Tests.{at, weekly, shop, payment, ledger, ascii_digit}
use cavallo_app.Payments.Reconcile.{reconcile_one, Check, no_counts}
use cavallo_app.Payments.Initiate.{
  mark_failed, create_rows, save_reference, initiate_subscription_payment, Started,
}

abbrev sample_python : Python
sample_python = record {
  lower = λ s. s;
  strip = λ s. s;
  is_digit = λ s. not (text_eq s []);
  int_of = λ s. Option.map pos (digits_from ascii_digit 0 s);
  repr = λ v. text "...";
}

abbrev paymob_order : Json
paymob_order = object (
    field (text "id") (integer (pos 777))
      (field (text "merchant_order_id") (string (text "payments-sub-1")) no_fields))

abbrev transaction : Fields
transaction = field (text "id") (integer (pos 42)) (
    field (text "success") (boolean true) (
      field (text "order") paymob_order (
        field (text "amount_cents") (integer (pos 9900))
          (field (text "currency") (string (text "EGP")) no_fields))))

-- `{"obj": ...}`, and nothing else
abbrev sample_loads : Bool → Option Json
sample_loads true = some (object (field (text "obj") (object transaction) no_fields))
sample_loads false = none

abbrev sample_hmac : Text → Text → Text
sample_hmac key signed = key

abbrev answer_to : Bool → Text → Response × Ledger
answer_to raw_body signature =
    post sample_python sample_loads sample_hmac (at 100) (text "key") raw_body signature ledger

signed_sample : signed_text sample_python transaction hmac_fields ≡ text "9900EGP42777true"
unfolding lookup lookup_parts get_item str_nat digits_of
signed_sample = refl

paid_200 : (answer_to true (text "key")).0 ≡ http_200
unfolding post verify_webhook_signature lookup lookup_parts get_item str_nat digits_of
    parse_webhook_payload deliver process_webhook_event resolve_subscription_id resolve_by_reference
    process_locked process_choice choose_transaction choose_open apply_result amount_matches
    to_cents round_half_up complete activate save_status save_transaction activate_subscription
paid_200 = refl

wrong_400 : answer_to true (text "lock") ≡ (http_400, ledger)
unfolding post verify_webhook_signature lookup lookup_parts get_item str_nat digits_of
wrong_400 = refl

-- a signature that is not ASCII raises TypeError in `compare_digest`
not_ascii_uncaught : answer_to true (233 ∷ []) ≡ (uncaught, ledger)
unfolding post verify_webhook_signature lookup lookup_parts get_item str_nat digits_of
not_ascii_uncaught = refl

-- the witnesses

accepted :
    verify_webhook_signature sample_python sample_loads sample_hmac (text "key") true (text "key")
    ≡ some true
unfolding verify_webhook_signature lookup lookup_parts get_item str_nat digits_of
accepted = refl

read_sample : load_obj (sample_loads true) ≡ some (object transaction)
unfolding get_item
read_sample = refl

post_lem_example :
    let (response, after) = answer_to true (text "key") in
    (response ≡ http_200
      → IsProcessed sample_python sample_loads sample_hmac
          (at 100)
          (text "key")
          true
          (text "key")
          ledger
          after)
    × (response ≢ http_200 → after ≡ ledger)
post_lem_example =
    post_lem sample_python sample_loads sample_hmac (at 100) (text "key") true (text "key") ledger

read_answer :
    read_inquiry sample_python (HttpAnswer.answered 200 (some (object transaction)))
    ≡ Answered.value (Check.answer (status_of sample_python transaction))
unfolding parse_transaction_status get_item
read_answer = refl

reconcile_one-post_example :
    (reconcile_one (at 100) (Check.answer (status_of sample_python transaction)) no_counts ledger).1
    ≡ (answer_to true (text "key")).1
reconcile_one-post_example =
    reconcile_one-post sample_python sample_loads sample_hmac (at 100) (text "key") true
      (text "key") (object transaction) (Check.answer (status_of sample_python transaction))
      no_counts ledger accepted read_sample read_answer

ascii_digits : (d : ℕ) → d < 10 → ascii_digit (48 + d) ≡ some d
ascii_digits d h = ground (arith, h)

-- the payment with another reference than the order id of the callback
abbrev moved_payment : Subscription
moved_payment = let s = payment in record s { gateway_reference = text "888" }

abbrev moved_ledger : Ledger
moved_ledger = let l = ledger in record l { subscriptions = moved_payment ∷ [] }

sent_back :
    get (text "merchant_order_id") (dict_or_empty (get (text "order") transaction))
    ≡ string (merchant_reference moved_payment)
unfolding merchant_reference get_item str_nat digits_of
sent_back = refl

unknown_order :
    find_last
      (λ t. text_eq t.gateway_reference (event_of sample_python transaction).order_id)
      moved_ledger.subscriptions
    ≡ none
unfolding get_item str_nat digits_of
unknown_order = refl

resolve-merchant_reference_example :
    resolve_subscription_id (at 100) (event_of sample_python transaction) moved_ledger ≡ some 1
resolve-merchant_reference_example =
    resolve-merchant_reference (at 100) sample_python transaction moved_payment moved_ledger
      ascii_digits sent_back refl unknown_order refl

abbrev sample_settings : PaymobSettings
sample_settings = record {
  secret_key = text "sk";
  public_key = text "pk";
  integration_id = text "12";
  api_key = text "ak";
  notification_url = [];
  redirection_url = [];
  checkout_base_url = text "https://pay";
}

abbrev sample_contact : BillingContact
sample_contact = record {
  first_name = [];
  last_name = [];
  email = text "a@b.c";
  business_name = text "Shop";
  phone_number = [];
  country = [];
  city = [];
  plan_name = text "Weekly";
}

abbrev created : Json → HttpAnswer
created body = HttpAnswer.answered 201 (
    some (
      object (
        field (text "client_secret") (string (text "cs"))
          (field (text "intention_order_id") (integer (pos 777)) no_fields))))

abbrev joined : List (Text × Text) → Option Text
joined [] = some []
joined ((k, v) ∷ ps) = Option.map (λ rest. k ++ text "=" ++ v ++ text "&" ++ rest) (joined ps)

joined-some : (ps : List (Text × Text)) → joined ps ≢ none
joined-some [] e = absurd (ground (arith, e))
joined-some ((k, v) ∷ ps) e = elim (Option-cases (joined ps)) [
  | inl stuck ↦ joined-some ps stuck
  | inr (rest, done) ↦ absurd (ground (arith, done, e))
]

number_given : sample_python.int_of (text "12") ≢ none
unfolding digits_from
number_given e = absurd (ground (arith, e))

created-answered : (body : Json) → created body ≢ HttpAnswer.other_exception
created-answered body e = absurd (ground (arith, e))

abbrev outcome_of_start : Started × Ledger
outcome_of_start =
    initiate_subscription_payment (at 100)
      (initiate_payment sample_python joined sample_settings created sample_contact weekly) shop
      weekly ledger

initiate_with_paymob_example :
    ((url : Text) × (reference : Text) × IsOrderId sample_python created reference
      × (outcome_of_start ≡ (
        Started.redirect url,
        save_reference 2 reference (create_rows (at 100) shop weekly ledger),
      )))
    ⊎ (outcome_of_start ≡ (
      Started.payment_gateway_error,
      mark_failed 2 2 (create_rows (at 100) shop weekly ledger),
    ))
initiate_with_paymob_example =
    initiate_with_paymob sample_python joined joined-some (at 100) sample_settings created
      sample_contact shop weekly ledger number_given created-answered
