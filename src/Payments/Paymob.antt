-- ===== src/Payments/Paymob.antt =====
-- payments/gateways/paymob.py: the signature of a callback, the answers and the requests of Paymob.
--
-- `hmac` is the hexadecimal HMAC-SHA512 of a key and a text, and `loads` is `json.loads`, with
-- `none` for a ValueError. Its RecursionError on a deeply nested body is left out.
pub mod Requests
pub mod Started
use cavallo_app.Payments.Records.{GatewayTransactionStatus, Subscription}
use cavallo_app.Prelude.{
  false, ◌||◌, leb, text_eq, str_nat, none, any, ◌==◌, ◌&&◌, not, if◌then◌else◌, ◌++◌, ◌∷◌, text,
  some, [], Bool, ℕ, Text, Option, List,
}
use cavallo_app.Payments.Json.{
  get_item, null, boolean, integer, real, string, array, object, int_or_none, str_or_empty,
  str_or_none, str, is_blank, get, dict_or_empty, as_dict, Python, Json, Fields,
}

-- `_lookup` behind the split at the dots
unfoldable pub lookup_parts : Json → List Text → Json
lookup_parts value [] = value
lookup_parts (object fields) (part ∷ parts) = elim (get_item part fields) [
  | none ↦ null
  | some next ↦ lookup_parts next parts
]
lookup_parts _ (part ∷ parts) = null

abbrev pub put_first : ℕ → List Text → List Text
put_first c [] = (c ∷ []) ∷ []
put_first c (part ∷ parts) = (c ∷ part) ∷ parts

-- `dotted.split(".")`
abbrev pub split_dots : Text → List Text
split_dots [] = [] ∷ []
split_dots (c ∷ cs) = let parts = split_dots cs in if c == 46 then [] ∷ parts else put_first c parts

-- `_lookup`
unfoldable pub lookup : Fields → Text → Json
unfolding lookup_parts
lookup obj dotted = lookup_parts (object obj) (split_dots dotted)

abbrev pub hmac_fields : List Text
hmac_fields =
    text "amount_cents"
    ∷ text "created_at"
    ∷ text "currency"
    ∷ text "error_occured"
    ∷ text "has_parent_transaction"
    ∷ text "id"
    ∷ text "integration_id"
    ∷ text "is_3d_secure"
    ∷ text "is_auth"
    ∷ text "is_capture"
    ∷ text "is_refunded"
    ∷ text "is_standalone_payment"
    ∷ text "is_voided"
    ∷ text "order.id"
    ∷ text "owner"
    ∷ text "pending"
    ∷ text "source_data.pan"
    ∷ text "source_data.sub_type"
    ∷ text "source_data.type"
    ∷ text "success"
    ∷ []

-- `_to_signed_text`
abbrev pub to_signed_text : Python → Json → Text
to_signed_text py null = []
to_signed_text py (boolean b) = if b then text "true" else text "false"
to_signed_text py value = str py value

-- the text `signed` of `verify_webhook_signature`, of these fields
abbrev pub signed_text : Python → Fields → List Text → Text
signed_text py obj [] = []
signed_text py obj (f ∷ fs) = to_signed_text py (lookup obj f) ++ signed_text py obj fs

-- `.encode("utf-8")` refuses the surrogates
abbrev pub is_encodable : Text → Bool
is_encodable s = not (any (λ c. leb 55296 c && leb c 57343) s)

-- `hmac.compare_digest` of two `str`: `none` for its TypeError
abbrev pub compare_digest : Text → Text → Option Bool
compare_digest a b =
    if any (λ c. leb 128 c) a || any (λ c. leb 128 c) b then none else some (text_eq a b)

-- `merchant_reference`
unfoldable pub merchant_reference : Subscription → Text
merchant_reference subscription = text "payments-sub-" ++ str_nat subscription.pk

-- `_flag`
abbrev pub flag : Python → Json → Bool
flag py (boolean b) = b
flag py (string s) = text_eq (py.lower s) (text "true")
flag py _ = false

-- the answer, from a dict with a transaction id
abbrev pub status_of : Python → Fields → GatewayTransactionStatus
status_of py data' =
    let order = dict_or_empty (get (text "order") data') in
    record {
      transaction_id = str py (get (text "id") data');
      order_id = str_or_none py (get (text "id") order);
      merchant_order_id = str_or_empty py (get (text "merchant_order_id") order);
      success = flag py (get (text "success") data');
      pending = flag py (get (text "pending") data');
      is_voided = flag py (get (text "is_voided") data');
      is_refunded = flag py (get (text "is_refunded") data');
      amount_cents = int_or_none (get (text "amount_cents") data');
      currency = str_or_empty py (get (text "currency") data');
    }

-- `_parse_transaction_status`: `none` for PaymentGatewayError
unfoldable pub parse_transaction_status : Python → Json → Option GatewayTransactionStatus
parse_transaction_status py data' = elim (as_dict data') [
  | none ↦ none
  | some fields ↦ if is_blank (get (text "id") fields) then none else some (status_of py fields)
]

-- `json.loads(body)["obj"]`: `none` for ValueError, KeyError and TypeError
abbrev pub load_obj : Option Json → Option Json
load_obj (some (object fields)) = get_item (text "obj") fields
load_obj _ = none

module _ {A : Type 0} (py : Python) (loads : A → Option Json) (hmac : Text → Text → Text) where
  -- the comparison, for a dict `obj`
  abbrev pub verify_obj : Text → Fields → Text → Option Bool
  verify_obj secret obj signature =
      let signed = signed_text py obj hmac_fields in
      if is_encodable secret && is_encodable signed
      then compare_digest (hmac secret signed) (py.lower signature)
      else none

  -- `verify_webhook_signature`: `none` for an exception that leaves it
  unfoldable pub verify_webhook_signature : Text → A → Text → Option Bool
  unfolding lookup
  verify_webhook_signature secret payload signature =
      if text_eq secret [] || text_eq signature []
      then some false
      else elim (load_obj (loads payload)) [
        | none ↦ some false
        | some value ↦ elim (as_dict value) [
          | none ↦ some false
          | some obj ↦ verify_obj secret obj signature
        ]
      ]
