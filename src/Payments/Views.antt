-- ===== src/Payments/Views.antt =====
-- payments/views.py: the webhook of Paymob.
pub mod Gate
pub mod Parsed
mod Tests
use cavallo_app.Payments.Webhook.Runs.{deliver}
use cavallo_app.Payments.Paymob.{verify_webhook_signature, load_obj}
use cavallo_app.Payments.Records.{Runtime, WebhookEvent, Ledger}
use cavallo_app.Payments.Webhook.{Outcome}
use cavallo_app.Payments.Json.{
  boolean, string, int_or_none, str_or_empty, str_or_none, is_blank, str, as_dict, get,
  dict_or_empty, Json, Fields, Python,
}
use cavallo_app.Prelude.{text_eq, if◌then◌else◌, false, true, text, none, some, Text, Bool, Option}

-- `_is_true`
abbrev pub is_true : Python → Json → Bool
is_true py (boolean b) = b
is_true py (string s) = text_eq (py.lower s) (text "true")
is_true py _ = false

-- the event, from a dict with a transaction id
abbrev pub event_of : Python → Fields → WebhookEvent
event_of py obj =
    let order = dict_or_empty (get (text "order") obj) in
    record {
      transaction_id = str py (get (text "id") obj);
      order_id = str_or_none py (get (text "id") order);
      merchant_order_id = str_or_empty py (get (text "merchant_order_id") order);
      success = is_true py (get (text "success") obj);
      pending = is_true py (get (text "pending") obj);
      is_voided = is_true py (get (text "is_voided") obj);
      is_refunded = is_true py (get (text "is_refunded") obj);
      amount_cents = int_or_none (get (text "amount_cents") obj);
      currency = str_or_empty py (get (text "currency") obj);
    }

-- `_parse_webhook_payload`, of the loaded body
unfoldable pub parse_webhook_payload : Python → Option Json → Option WebhookEvent
parse_webhook_payload py payload = elim (load_obj payload) [
  | none ↦ none
  | some value ↦ elim (as_dict value) [
    | none ↦ none
    | some obj ↦ if is_blank (get (text "id") obj) then none else some (event_of py obj)
  ]
]

-- The answer of the view; `uncaught` is an exception that leaves it.
pub data Response : Type 0 where
  http_200 http_400 uncaught : Response

-- the answer beside the tables, after the processing
abbrev pub respond : Option Outcome × Ledger → Response × Ledger
respond (none, l) = (uncaught, l)
respond (some _, l) = (http_200, l)

module _ {A : Type 0} (py : Python) (loads : A → Option Json) (hmac : Text → Text → Text) where
  -- the second and third steps of `PaymobWebhookView.post`
  abbrev pub post_verified : Runtime → A → Ledger → Response × Ledger
  post_verified rt raw_body ledger = elim (parse_webhook_payload py (loads raw_body)) [
    | none ↦ (http_400, ledger)
    | some event ↦ respond (deliver rt event ledger)
  ]

  -- `PaymobWebhookView.post`, with the secret of the settings
  unfoldable pub post : Runtime → Text → A → Text → Ledger → Response × Ledger
  unfolding verify_webhook_signature parse_webhook_payload deliver
  post rt secret raw_body signature ledger =
      elim (verify_webhook_signature py loads hmac secret raw_body signature) [
        | none ↦ (uncaught, ledger)
        | some true ↦ post_verified rt raw_body ledger
        | some false ↦ (http_400, ledger)
      ]
