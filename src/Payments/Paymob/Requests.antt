-- ===== src/Payments/Paymob/Requests.antt =====
-- payments/gateways/paymob.py: `initiate_payment` and `check_transaction_status`.

use cavallo_app.Payments.Records.{Subscription}
use cavallo_app.Payments.Paymob.{parse_transaction_status, merchant_reference}
use cavallo_app.Money.{amount_to_cents}
use cavallo_app.Monetization.{Plan}
use cavallo_app.Prelude.{
  pos, ◌||◌, str_nat, [], ◌∷◌, text_eq, some, none, if◌then◌else◌, List, ◌==◌, ◌++◌, ℕ, text, Text,
  Option, Bool,
}
use cavallo_app.Payments.Json.{
  str, get, Python, Json, integer, string, array, object, no_items, item, no_fields, field,
  get_item, Fields,
}
use cavallo_app.Payments.Initiate.{Initiation}
use cavallo_app.Payments.Reconcile.{Check}

-- the settings with their names, where the absent one is empty
pub record PaymobSettings : Type 0 where
  pub secret_key : Text
  pub public_key : Text
  pub integration_id : Text
  pub api_key : Text
  pub notification_url : Text
  pub redirection_url : Text
  pub checkout_base_url : Text

-- the columns of the business and of its user that go into the body, and the plan's name
pub record BillingContact : Type 0 where
  pub first_name : Text
  pub last_name : Text
  pub email : Text
  pub business_name : Text
  pub phone_number : Text
  pub country : Text
  pub city : Text
  pub plan_name : Text

-- What `requests.post` does: it raises a RequestException or another exception, or it returns a
-- status and what `response.json()` returns, `none` for a ValueError.
pub data HttpAnswer : Type 0 where
  request_error other_exception : HttpAnswer
  answered : ℕ → Option Json → HttpAnswer

-- `a or b`
abbrev pub or_text : Text → Text → Text
or_text [] b = b
or_text (c ∷ cs) b = c ∷ cs

-- `_missing_settings` is not empty
abbrev pub has_missing : PaymobSettings → Bool
has_missing s = text_eq s.secret_key [] || text_eq s.public_key [] || text_eq s.integration_id []

abbrev pub not_given : Json
not_given = string (text "NA")

-- `_billing_data`
abbrev pub billing_data : BillingContact → Fields
billing_data c = field (text "first_name") (string (or_text c.first_name c.business_name)) (
    field (text "last_name") (string (or_text c.last_name (text "NA"))) (
      field (text "email") (string c.email) (
        field (text "phone_number") (string (or_text c.phone_number (text "NA"))) (
          field (text "country") (string (or_text c.country (text "NA"))) (
            field (text "city") (string (or_text c.city (text "NA"))) (
              field (text "street") not_given (
                field (text "building") not_given (
                  field (text "floor") not_given (
                    field (text "apartment") not_given
                      (field (text "state") not_given no_fields))))))))))

-- the only item of the body
abbrev pub intention_item : BillingContact → Plan → Json
intention_item c plan = object (
    field (text "name") (string c.plan_name) (
      field (text "amount") (integer (amount_to_cents plan.price)) (
        field (text "description")
          (string (text "Featured plan: " ++ str_nat plan.duration_days ++ text " days"))
          (field (text "quantity") (integer (pos 1)) no_fields))))

-- `if url: body[key] = url`
abbrev pub optional_field : Text → Text → Fields → Fields
optional_field key [] rest = rest
optional_field key (c ∷ cs) rest = field key (string (c ∷ cs)) rest

-- `build_intention_body`: `none` for the ValueError of `int`
unfoldable pub build_intention_body :
    Python → PaymobSettings → BillingContact → Plan → Subscription → Option Json
unfolding amount_to_cents merchant_reference
build_intention_body py s c plan subscription = elim (py.int_of s.integration_id) [
  | none ↦ none
  | some integration ↦ some (
      object (
        field (text "amount") (integer (amount_to_cents plan.price)) (
          field (text "currency") (string plan.currency) (
            field (text "payment_methods") (array (item (integer integration) no_items)) (
              field (text "items") (array (item (intention_item c plan) no_items)) (
                field (text "billing_data") (object (billing_data c)) (
                  field (text "special_reference") (string (merchant_reference subscription)) (
                    optional_field (text "notification_url") s.notification_url
                      (optional_field (text "redirection_url") s.redirection_url no_fields)))))))))
]

-- the two entries that the answer must have, or KeyError or TypeError
abbrev pub intention_entries : Json → Option (Json × Json)
intention_entries (object fields) = elim (get_item (text "client_secret") fields) [
  | none ↦ none
  | some secret ↦ elim (get_item (text "intention_order_id") fields) [
    | none ↦ none
    | some order_id ↦ some (secret, order_id)
  ]
]
intention_entries _ = none

-- `response.status_code in (200, 201)`
abbrev pub is_created : ℕ → Bool
is_created status = status == 200 || status == 201

-- `urlencode`: `none` for a text that UTF-8 refuses
module _ (py : Python) (urlencode : List (Text × Text) → Option Text) where
  -- the answer of `initiate_payment`, of which the caller reads the first two entries
  abbrev pub redirect_of : PaymobSettings → Json → Json → Initiation
  redirect_of s secret order_id =
      elim (urlencode
        ((text "publicKey", s.public_key) ∷ (text "clientSecret", str py secret) ∷ [])) [
          | none ↦ Initiation.other_error
          | some query ↦
              Initiation.answer (some (s.checkout_base_url ++ text "?" ++ query))
                (some (str py order_id))
        ]

  abbrev pub read_intention : PaymobSettings → HttpAnswer → Initiation
  read_intention s request_error = Initiation.gateway_error
  read_intention s other_exception = Initiation.other_error
  read_intention s (answered status json) =
      if is_created status
      then elim json [
        | none ↦ Initiation.gateway_error
        | some value ↦ elim (intention_entries value) [
          | none ↦ Initiation.gateway_error
          | some (secret, order_id) ↦ redirect_of s secret order_id
        ]
      ]
      else Initiation.gateway_error

  -- `initiate_payment`, where `create` posts the body
  unfoldable pub initiate_payment :
      PaymobSettings → (Json → HttpAnswer) → BillingContact → Plan → Subscription → Initiation
  unfolding build_intention_body
  initiate_payment s create contact plan subscription =
      if has_missing s
      then Initiation.gateway_error
      else elim (build_intention_body py s contact plan subscription) [
        | none ↦ Initiation.other_error
        | some body ↦ read_intention s (create body)
      ]

-- What a gateway call ends in, beside a value: PaymentGatewayError, or an exception of another kind.
pub data Answered {ℓ} (A : Type ℓ) : Type ℓ where
  value : A → Answered A
  gateway_failure other_failure : Answered A

-- `response.json()["token"]`, a text that is not empty
abbrev pub token_of : Option Json → Option Text
token_of (some (object fields)) = elim (get (text "token") fields) [
  | string (c ∷ cs) ↦ some (c ∷ cs)
  | _ ↦ none
]
token_of _ = none

-- `_auth_token`, of the answer to its request
abbrev pub auth_token : HttpAnswer → Answered Text
auth_token request_error = gateway_failure
auth_token other_exception = other_failure
auth_token (answered status json) =
    if is_created status
    then elim (token_of json) [ none ↦ gateway_failure | some token ↦ value token ]
    else gateway_failure

-- the body of the inquiry: `none` for the ValueError of `int`
abbrev pub inquiry_payload : Python → Subscription → Option Json
inquiry_payload py subscription =
    let reference = py.strip subscription.gateway_reference in
    if py.is_digit reference
    then elim (py.int_of reference) [
      | none ↦ none
      | some n ↦ some (object (field (text "order_id") (integer n) no_fields))
    ]
    else some (
        object
          (field (text "merchant_order_id") (string (merchant_reference subscription)) no_fields))

-- the last steps of `check_transaction_status`
abbrev pub read_inquiry : Python → HttpAnswer → Answered Check
read_inquiry py request_error = gateway_failure
read_inquiry py other_exception = other_failure
read_inquiry py (answered status json) =
    if status == 404
    then value Check.no_transaction
    else if status == 200
    then elim json [
      | none ↦ gateway_failure
      | some data' ↦ elim (parse_transaction_status py data') [
        | none ↦ gateway_failure
        | some r ↦ value (Check.answer r)
      ]
    ]
    else gateway_failure

-- `check_transaction_status`, where `authenticate` and `inquire` are the two requests
unfoldable pub check_transaction_status :
    Python
    → PaymobSettings
    → HttpAnswer
    → (Text → Json → HttpAnswer)
    → Subscription
    → Answered Check
unfolding merchant_reference parse_transaction_status
check_transaction_status py s authenticate inquire subscription =
    if text_eq s.api_key [] then gateway_failure else elim (inquiry_payload py subscription) [
      | none ↦ other_failure
      | some payload ↦ elim (auth_token authenticate) [
        | gateway_failure ↦ gateway_failure
        | other_failure ↦ other_failure
        | value token ↦ read_inquiry py (inquire token payload)
      ]
    ]
