-- ===== src/Notifications/Tasks/Words.antt =====
-- The words of a row and of its messages (notifications/tasks.py, notifications/messages.py).
use mathlib.Core.Path.{subst}
use cavallo_app.Prelude.{
  text_eq_refl, text_eq→eq, ◌||◌, text_eq, if◌then◌else◌, text, sym, inr, inl, Option-cases,
  Bool-cases, none, ap, ◌∙◌, map, some, refl, arith, [], Option, ◌==◌, ◌≡◌, ◌∷◌, filter, Text, List,
  Bool, ℕ,
}
use cavallo_app.Notifications.Services.{
  client, stringify_data, message_to, Message, send_push_notification, send_each,
}
use cavallo_app.Notifications.Tasks.{push_data, localized_of}
use cavallo_app.Notifications.Records.{
  text_mem, Params, DeviceToken, Recipient, NotificationRequest, Inbox, Notification,
}
use cavallo_app.Notifications.Messages.{
  supported_languages, render_notification, render_for_all_languages, render_each, build, Localized,
  supported_or_default, localized_or, Catalogs,
}

-- the messages do not depend on which of them are sent
send_each-tried : (send : Message → Bool) (ms : List Message) → (send_each send ms).0 ≡ ms
unfolding send_each
send_each-tried send [] = refl
send_each-tried send (m ∷ ms) = ground (arith, send_each-tried send ms)

-- the devices of a user
abbrev pub devices : ℕ → Inbox → List DeviceToken
devices user_id inbox = filter (λ t. t.user_id == user_id) inbox.tokens

-- the words in a language: those of the builder of the type, in it or else in English, and the
-- request's own where it has no params or the builder gives nothing
abbrev pub words_in : Catalogs → NotificationRequest → Text → (Text × Text) → Text × Text
words_in catalogs r language default = elim r.params [
  | none ↦ default
  | some params ↦ elim (build catalogs language r.notification_type params) [
    | none ↦ default
    | some words ↦ words
  ]
]

-- the dictionary of the rendered languages, at one of them or at another text
localized_or-render_each :
    (catalogs : Catalogs) (t : Text) (params : Params) (l : Text) (default : Text × Text)
    (languages : List Text)
    → localized_or l default (render_each catalogs t params languages) ≡ (
        if text_mem l languages
        then (elim (render_notification catalogs t params l) [
          | none ↦ default
          | some words ↦ words
        ])
        else default)
unfolding localized_or render_each
localized_or-render_each catalogs t params l default [] = refl
localized_or-render_each catalogs t params l default (k ∷ languages) =
    let rest = localized_or-render_each catalogs t params l default languages in
    elim (Bool-cases (text_eq k l)) [
      | inl hit ↦
          subst
            (λ j. localized_or l default (render_each catalogs t params (j ∷ languages)) ≡ (
              if text_mem l (j ∷ languages)
              then (elim (render_notification catalogs t params l) [
                | none ↦ default
                | some words ↦ words
              ])
              else default))
            (sym (text_eq→eq k l hit))
            (elim (Option-cases (render_notification catalogs t params l)) [
              | inl nothing ↦ ground (arith, rest, nothing, text_eq_refl l)
              | inr (words, rendered) ↦ ground (arith, rest, rendered, text_eq_refl l)
            ])
      | inr miss ↦ elim (Option-cases (render_notification catalogs t params k)) [
        | inl nothing ↦ ground (arith, rest, nothing, miss)
        | inr (words, rendered) ↦ ground (arith, rest, rendered, miss)
      ]
    ]

-- each supported language is rendered, and any other text has the default
localized_of-words :
    (catalogs : Catalogs) (r : NotificationRequest) (language : Text) (default : Text × Text)
    → localized_or language default (localized_of catalogs r) ≡ (
        if text_eq (text "ar") language || text_eq (text "en") language
        then words_in catalogs r language default
        else default)
unfolding localized_of localized_or render_for_all_languages render_notification
    supported_or_default
localized_of-words catalogs r language default = elim (Option-cases r.params) [
  | inl absent ↦ ground (arith, absent)
  | inr (params, given) ↦
      let exact =
        localized_or-render_each catalogs r.notification_type params language default
          supported_languages in
      ground (arith, exact, given)
]

-- the message that a device is sent for a row: in its locale, or in the words of the row where it
-- has none that is supported
abbrev pub push_to : Catalogs → NotificationRequest → Notification → DeviceToken → Message
push_to catalogs r n t =
    let words =
      if text_eq (text "ar") t.locale || text_eq (text "en") t.locale
      then words_in catalogs r t.locale (n.title, n.body)
      else (n.title, n.body) in
    record {
      token = t.token;
      title = words.0;
      body = words.1;
      payload = stringify_data (push_data n);
    }

pub message_to-push_to :
    (catalogs : Catalogs) (r : NotificationRequest) (n : Notification) (t : DeviceToken)
    → message_to n.title n.body (stringify_data (push_data n)) (localized_of catalogs r) t
      ≡ push_to catalogs r n t
message_to-push_to catalogs r n t =
    ap
      (λ (words : Text × Text). record {
        token = t.token;
        title = words.0;
        body = words.1;
        payload = stringify_data (push_data n);
      })
      (localized_of-words catalogs r t.locale (n.title, n.body))

pub send_push-messages :
    (send : Message → Bool) (user_id : ℕ) (title body : Text) (entries : List (Text × Option Text))
    (localized : Localized) (inbox : Inbox)
    → (send_push_notification (client send) user_id title body entries localized inbox).0
      ≡ map (message_to title body (stringify_data entries) localized) (devices user_id inbox)
unfolding send_push_notification
send_push-messages send user_id title body entries localized inbox =
    send_each-tried send
      (map (message_to title body (stringify_data entries) localized) (devices user_id inbox))

-- the user's language if it is Arabic, or else English
abbrev pub language_of : Recipient → Text
language_of user = if text_eq (text "ar") user.preferred_language then text "ar" else text "en"

supported-language :
    (user : Recipient) → supported_or_default user.preferred_language ≡ language_of user
unfolding supported_or_default
supported-language user = elim (Bool-cases (text_eq (text "ar") user.preferred_language)) [
  | inl arabic ↦ ground (arith, arabic, text_eq→eq (text "ar") user.preferred_language arabic)
  | inr other ↦ elim (Bool-cases (text_eq (text "en") user.preferred_language)) [
    | inl english ↦
        ground (arith, other, english, text_eq→eq (text "en") user.preferred_language english)
    | inr neither ↦ ground (arith, other, neither)
  ]
]

pub row-words :
    (catalogs : Catalogs) (user : Recipient) (r : NotificationRequest)
    → localized_or
        (supported_or_default user.preferred_language)
        (r.title, r.body)
        (localized_of catalogs r)
      ≡ words_in catalogs r (language_of user) (r.title, r.body)
row-words catalogs user r =
    ap (λ l. localized_or l (r.title, r.body) (localized_of catalogs r)) (supported-language user)
    ∙ localized_of-words catalogs r (language_of user) (r.title, r.body)
    ∙ supported
  where
    supported :
        (if text_eq (text "ar") (language_of user) || text_eq (text "en") (language_of user)
          then words_in catalogs r (language_of user) (r.title, r.body)
          else (r.title, r.body))
        ≡ words_in catalogs r (language_of user) (r.title, r.body)
    supported = elim (Bool-cases (text_eq (text "ar") user.preferred_language)) [
      | inl arabic ↦ rw arabic refl
      | inr other ↦ rw other refl
    ]
