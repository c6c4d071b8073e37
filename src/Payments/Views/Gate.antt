-- ===== src/Payments/Views/Gate.antt =====
-- payments/views.py: nothing is written without a valid signature.

use cavallo_app.Monetization.{err, Failure, Result, ok}
use mathlib.Core.Path.{subst}
use cavallo_app.Payments.Webhook.{process_webhook_event, Outcome}
use cavallo_app.Payments.Webhook.Runs.{deliver}
use cavallo_app.Payments.Views.{
  uncaught, http_400, post_verified, Response, parse_webhook_payload, http_200, post,
}
use cavallo_app.Payments.Records.{WebhookEvent, Ledger, Runtime}
use cavallo_app.Payments.Paymob.{
  is_encodable, hmac_fields, signed_text, load_obj, verify_webhook_signature, verify_obj,
  compare_digest,
}
use cavallo_app.Prelude.{
  sym, refl, ◌⊎◌, ◌≢◌, ◌∙◌, text_eq→eq, Option-cases, inr, ◌&&◌, leb, inl, ◌||◌, any, ap,
  Bool-cases, true, false, arith, some, [], ◌≡◌, text_eq, Option, Text,
}
use cavallo_app.Payments.Json.{
  as_dict, Python, Json, null, boolean, integer, real, string, array, object, Fields,
}

as_dict-object : (value : Json) (d : Fields) → as_dict value ≡ some d → value ≡ object d
as_dict-object null d h = absurd (ground arith)
as_dict-object (boolean b) d h = absurd (ground arith)
as_dict-object (integer n) d h = absurd (ground arith)
as_dict-object (real x) d h = absurd (ground arith)
as_dict-object (string s) d h = absurd (ground arith)
as_dict-object (array xs) d h = absurd (ground arith)
as_dict-object (object fs) d h = ap object (ground arith)

Result-cases : {B : Type 0} (r : Result B) → ((e : Failure) × (r ≡ err e)) ⊎ ((b : B) × (r ≡ ok b))
Result-cases (err e) = inl (e, refl)
Result-cases (ok b) = inr (b, refl)

compare_digest-eq : (a b : Text) → compare_digest a b ≡ some true → a ≡ b
compare_digest-eq a b h = elim (Bool-cases (any (λ c. leb 128 c) a || any (λ c. leb 128 c) b)) [
  | inl out ↦ absurd (ground (arith, out, h))
  | inr ascii ↦ text_eq→eq a b (ground (arith, ascii, h))
]

module _ {A : Type 0} (py : Python) (loads : A → Option Json) (hmac : Text → Text → Text) where
  -- The body has a dict `obj`, and the signature in lower case is the HMAC of its signed fields under a
  -- secret that is not empty.
  pub record IsSigned (secret : Text) (payload : A) (signature : Text) : Type 0 where
    pub has_secret : text_eq secret [] ≡ false
    pub obj : Fields
    pub loaded : load_obj (loads payload) ≡ some (object obj)
    pub digest : hmac secret (signed_text py obj hmac_fields) ≡ py.lower signature

  verify_obj-digest :
      (secret : Text) (obj : Fields) (signature : Text)
      → verify_obj py loads hmac secret obj signature ≡ some true
      → hmac secret (signed_text py obj hmac_fields) ≡ py.lower signature
  verify_obj-digest secret obj signature h =
      elim (Bool-cases (is_encodable secret && is_encodable (signed_text py obj hmac_fields))) [
        | inl good ↦ compare_digest-eq _ _ (ground (arith, good, h))
        | inr bad ↦ absurd (ground (arith, bad, h))
      ]

  verify-IsSigned :
      (secret : Text) (payload : A) (signature : Text)
      → verify_webhook_signature py loads hmac secret payload signature ≡ some true
      → IsSigned secret payload signature
  unfolding verify_webhook_signature
  verify-IsSigned secret payload signature h =
      elim (Bool-cases (text_eq secret [] || text_eq signature [])) [
        | inl empty ↦ absurd (ground (arith, empty, h))
        | inr given ↦ elim (Option-cases (load_obj (loads payload))) [
          | inl absent ↦ absurd (ground (arith, given, absent, h))
          | inr (value, loaded) ↦ elim (Option-cases (as_dict value)) [
            | inl other ↦ absurd (ground (arith, given, loaded, other, h))
            | inr (obj, dict) ↦ record {
              has_secret = ground (arith, given);
              obj = obj;
              loaded = loaded ∙ ap some (as_dict-object value obj dict);
              digest =
                  verify_obj-digest secret obj signature (ground (arith, given, loaded, dict, h));
            }
          ]
        ]
      ]

  -- what a status of 200 says
  pub record IsProcessed (rt : Runtime) (secret : Text) (raw_body : A) (signature : Text)
      (ledger after : Ledger) : Type 0 where
    pub signed : IsSigned secret raw_body signature
    pub event : WebhookEvent
    pub parsed : parse_webhook_payload py (loads raw_body) ≡ some event
    pub outcome : Outcome
    pub processed : process_webhook_event rt event ledger ≡ ok (outcome, after)

  module _ (rt : Runtime) (secret : Text) (raw_body : A) (signature : Text) (ledger : Ledger) where
    abbrev Gated : Response × Ledger → Type 0
    Gated r =
        (r.0 ≡ http_200 → IsProcessed rt secret raw_body signature ledger r.1)
        × (r.0 ≢ http_200 → r.1 ≡ ledger)

    refused-Gated : Gated (http_400, ledger)
    refused-Gated = (λ (e : http_400 ≡ http_200). absurd (ground (arith, e)), λ _. refl)

    uncaught-Gated : Gated (uncaught, ledger)
    uncaught-Gated = (λ (e : uncaught ≡ http_200). absurd (ground (arith, e)), λ _. refl)

    post_verified-Gated :
        IsSigned secret raw_body signature → Gated (post_verified py loads hmac rt raw_body ledger)
    unfolding deliver
    post_verified-Gated signed = elim (Option-cases (parse_webhook_payload py (loads raw_body))) [
      | inl unusable ↦ subst Gated (sym (ground (arith, unusable))) refused-Gated
      | inr (event, parsed) ↦ elim (Result-cases (process_webhook_event rt event ledger)) [
        | inl (x, raised) ↦ subst Gated (sym (ground (arith, parsed, raised))) uncaught-Gated
        | inr ((outcome, after), processed) ↦
            subst Gated (sym (ground (arith, parsed, processed))) (
              λ _. record {
                signed = signed;
                event = event;
                parsed = parsed;
                outcome = outcome;
                processed = processed;
              },
              λ other. absurd (other refl),
            )
      ]
    ]

    post-Gated : Gated (post py loads hmac rt secret raw_body signature ledger)
    unfolding post
    post-Gated =
        elim (Option-cases (verify_webhook_signature py loads hmac secret raw_body signature)) [
          | inl raised ↦ subst Gated (sym (ground (arith, raised))) uncaught-Gated
          | inr (false, refused) ↦ subst Gated (sym (ground (arith, refused))) refused-Gated
          | inr (true, good) ↦
              subst Gated (sym (ground (arith, good)))
                (post_verified-Gated (verify-IsSigned secret raw_body signature good))
        ]

  -- The webhook answers 200 only for a body with a valid signature under a secret that is not empty,
  -- whose event was processed with the tables that are there afterwards. With any other answer, the
  -- tables are as they were.
  pub post_lem :
      (rt : Runtime) (secret : Text) (raw_body : A) (signature : Text) (ledger : Ledger)
      → let (response, after) = post py loads hmac rt secret raw_body signature ledger in
        (response ≡ http_200 → IsProcessed rt secret raw_body signature ledger after)
        × (response ≢ http_200 → after ≡ ledger)
  post_lem = post-Gated
