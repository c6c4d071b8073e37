-- ===== src/Payments/Paymob/Started.antt =====
-- payments/services.py with payments/gateways/paymob.py: the ends of an initiation with Paymob.

use mathlib.Core.Path.{subst}
use cavallo_app.Monetization.{Plan, BusinessProfile}
use cavallo_app.Payments.Paymob.Requests.{
  intention_entries, has_missing, is_created, redirect_of, read_intention, BillingContact,
  build_intention_body, HttpAnswer, initiate_payment, PaymobSettings,
}
use cavallo_app.Payments.Records.{Subscription, Runtime, Ledger}
use cavallo_app.Prelude.{
  true, ◌++◌, sym, refl, [], some, arith, ◌∷◌, inl, text, inr, Option-cases, Bool-cases, ◌⊎◌, ◌≡◌,
  none, ◌≢◌, ℕ, Text, List, Option,
}
use cavallo_app.Payments.Json.{str, Json, Python}
use cavallo_app.Payments.Initiate.{
  new_subscription, usable, create_rows, mark_failed, save_reference, initiate_subscription_payment,
  finish, Initiation, Started,
}

-- neither an exception of another kind nor something that is no dict; a reference has the property
pub data IsSettled (P : Text → Type 0) : Initiation → Type 0 where
  failed : IsSettled P Initiation.gateway_error
  answered_with :
      (url reference : Text)
      → P reference
      → IsSettled P (Initiation.answer (some url) (some reference))

usable_lem :
    (url reference u r : Text) → usable (some url) (some reference) ≡ some (u, r) → reference ≡ r
unfolding usable
usable_lem [] reference u r h = absurd (ground (arith, h))
usable_lem (c ∷ cs) [] u r h = absurd (ground (arith, h))
usable_lem (c ∷ cs) (d ∷ ds) u r h = ground (arith, h)

finish_lem :
    (P : Text → Type 0) (i : Initiation) (k t : ℕ) (l : Ledger)
    → IsSettled P i
    → ((url : Text) × (reference : Text) × P reference
        × (finish i k t l ≡ (Started.redirect url, save_reference k reference l)))
      ⊎ (finish i k t l ≡ (Started.payment_gateway_error, mark_failed k t l))
unfolding finish
finish_lem P _ k t l IsSettled.failed = inr refl
finish_lem P _ k t l (IsSettled.answered_with url reference given) =
    elim (Option-cases (usable (some url) (some reference))) [
      | inl missing ↦ inr (ground (arith, missing))
      | inr ((u, r), both) ↦
          inl (u, r, subst P (usable_lem url reference u r both) given, ground (arith, both))
    ]

-- the text of the order id in an answer, with the status of a success, to a request
pub record IsOrderId (py : Python) (create : Json → HttpAnswer) (reference : Text) : Type 0 where
  pub body : Json
  pub status : ℕ
  pub answered : Json
  pub secret : Json
  pub order_id : Json
  pub sent : create body ≡ HttpAnswer.answered status (some answered)
  pub success : is_created status ≡ true
  pub entries : intention_entries answered ≡ some (secret, order_id)
  pub is_text : reference ≡ str py order_id

module _ (py : Python) (urlencode : List (Text × Text) → Option Text)
    (encodes : (ps : List (Text × Text)) → urlencode ps ≢ none) where
  redirect_of-IsSettled :
      (P : Text → Type 0) (s : PaymobSettings) (secret order_id : Json)
      → P (str py order_id)
      → IsSettled P (redirect_of py urlencode s secret order_id)
  redirect_of-IsSettled P s secret order_id given =
      elim (Option-cases (
        urlencode ((text "publicKey", s.public_key) ∷ (text "clientSecret", str py secret) ∷ []))) [
          | inl refused ↦ absurd (encodes _ refused)
          | inr (query, encoded) ↦ subst (IsSettled P) (sym (ground (arith, encoded))) (
              IsSettled.answered_with (s.checkout_base_url ++ text "?" ++ query) (str py order_id)
                given)
        ]

  read_intention-IsSettled :
      (s : PaymobSettings) (create : Json → HttpAnswer) (body : Json) (a : HttpAnswer)
      → create body ≡ a
      → a ≢ HttpAnswer.other_exception
      → IsSettled (IsOrderId py create) (read_intention py urlencode s a)
  read_intention-IsSettled s create body HttpAnswer.request_error sent h = IsSettled.failed
  read_intention-IsSettled s create body HttpAnswer.other_exception sent h = absurd (h refl)
  read_intention-IsSettled s create body (HttpAnswer.answered status none) sent h =
      elim (Bool-cases (is_created status)) [
        | inl created ↦ rw created IsSettled.failed
        | inr other ↦ rw other IsSettled.failed
      ]
  read_intention-IsSettled s create body (HttpAnswer.answered status (some v)) sent h =
      elim (Bool-cases (is_created status)) [
        | inr other ↦ rw other IsSettled.failed
        | inl created ↦ rw created (elim (Option-cases (intention_entries v)) [
          | inl missing ↦ rw missing IsSettled.failed
          | inr ((secret, order_id), both) ↦ rw both (
              redirect_of-IsSettled (IsOrderId py create) s secret order_id (record {
                body = body;
                status = status;
                answered = v;
                secret = secret;
                order_id = order_id;
                sent = sent;
                success = created;
                entries = both;
                is_text = refl;
              }))
        ])
      ]

  initiate_payment-IsSettled :
      (s : PaymobSettings) (create : Json → HttpAnswer) (contact : BillingContact) (plan : Plan)
      (subscription : Subscription)
      → py.int_of s.integration_id ≢ none
      → ((body : Json) → create body ≢ HttpAnswer.other_exception)
      → IsSettled
          (IsOrderId py create)
          (initiate_payment py urlencode s create contact plan subscription)
  unfolding initiate_payment build_intention_body
  initiate_payment-IsSettled s create contact plan subscription number sent =
      elim (Bool-cases (has_missing s)) [
        | inl missing ↦ rw missing IsSettled.failed
        | inr complete ↦ elim (Option-cases (py.int_of s.integration_id)) [
          | inl refused ↦ absurd (number refused)
          | inr (n, integration) ↦
              rw complete
                (rw integration (read_intention-IsSettled s create _ (create _) refl (sent _)))
        ]
      ]

  -- Where the integration's number is one, the query can be encoded and the request raises no exception
  -- but a RequestException, the start of a payment with Paymob ends in one of two ways: a page to go
  -- to, with the text of the order id that Paymob's answer holds stored in the new subscription, or
  -- PaymentGatewayError, with the new subscription and its transaction failed.
  pub initiate_with_paymob :
      (rt : Runtime) (s : PaymobSettings) (create : Json → HttpAnswer) (contact : BillingContact)
      (business : BusinessProfile) (plan : Plan) (l : Ledger)
      → py.int_of s.integration_id ≢ none
      → ((body : Json) → create body ≢ HttpAnswer.other_exception)
      → let outcome =
          initiate_subscription_payment rt
            (initiate_payment py urlencode s create contact plan)
            business
            plan
            l in
        ((url : Text) × (reference : Text) × IsOrderId py create reference
          × (outcome ≡ (
            Started.redirect url,
            save_reference l.next_subscription reference (create_rows rt business plan l),
          )))
        ⊎ (outcome ≡ (
          Started.payment_gateway_error,
          mark_failed l.next_subscription l.next_transaction (create_rows rt business plan l),
        ))
  unfolding initiate_subscription_payment
  initiate_with_paymob rt s create contact business plan l number sent =
      finish_lem (IsOrderId py create) _ l.next_subscription l.next_transaction
        (create_rows rt business plan l)
        (initiate_payment-IsSettled s create contact plan (new_subscription business plan l) number
          sent)
