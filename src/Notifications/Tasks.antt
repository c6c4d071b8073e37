-- ===== src/Notifications/Tasks.antt =====
-- notifications/tasks.py: the dispatch of one request.
pub mod Words
pub mod Delivery
pub mod Accepted
use cavallo_app.Notifications.Services.{
  send_push_notification, create_notification, Message, Firebase,
}
use cavallo_app.Prelude.{
  str_nat, ◌∷◌, ◌||◌, true, text_eq, some, [], ◌==◌, text, none, if◌then◌else◌, find, Option, List,
  Bool, ℕ, Text,
}
use cavallo_app.Notifications.Records.{
  text_mem, Recipient, NotificationRequest, Inbox, NotificationPreference, Notification,
}
use cavallo_app.Notifications.Messages.{
  render_for_all_languages, supported_or_default, localized_or, Localized, Catalogs,
}

-- the three switches of a preference row
pub data Category : Type 0 where
  chat moderation social : Category

-- `NOTIFICATION_TYPE_TO_PREFERENCE_FIELD.get(notification_type)`
unfoldable pub preference_field : Text → Option Category
preference_field t =
    if text_eq t (text "chat_message")
    then some chat
    else if text_eq t (text "moderation_approved") || text_eq t (text "moderation_rejected")
    then some moderation
    else if text_mem t (
        text "new_follower"
        ∷ text "comment_on_content"
        ∷ text "new_like"
        ∷ text "new_share"
        ∷ text "new_rating"
        ∷ [])
    then some social
    else none

abbrev pub switch : Category → NotificationPreference → Bool
switch chat p = p.chat_notifications_enabled
switch moderation p = p.moderation_notifications_enabled
switch social p = p.social_notifications_enabled

-- `_is_category_enabled`: a missing row counts as enabled
unfoldable pub is_category_enabled : ℕ → Category → Inbox → Bool
is_category_enabled recipient_id category inbox =
    elim (find (λ p. p.user_id == recipient_id) inbox.preferences) [
      | none ↦ true
      | some p ↦ switch category p
    ]

-- a type without a category is always enabled
abbrev pub is_enabled : ℕ → Text → Inbox → Bool
is_enabled recipient_id t inbox = elim (preference_field t) [
  | none ↦ true
  | some category ↦ is_category_enabled recipient_id category inbox
]

pub data Dispatched : Type 0 where
  no_recipient suppressed value_error : Dispatched
  created : Notification → List Message → Dispatched

-- the wording by language, if there are params
unfoldable pub localized_of : Catalogs → NotificationRequest → Localized
localized_of catalogs r = elim r.params [
  | none ↦ []
  | some params ↦ render_for_all_languages catalogs r.notification_type params
]

-- the title and body of the row, in the recipient's language
unfoldable pub worded : Catalogs → Recipient → NotificationRequest → NotificationRequest
worded catalogs user r =
    let words =
      localized_or (supported_or_default user.preferred_language) (r.title, r.body)
        (localized_of catalogs r) in
    record r { title = words.0; body = words.1 }

-- the data of the push
abbrev pub push_data : Notification → List (Text × Option Text)
push_data n =
    (text "type", some n.notification_type)
    ∷ (text "notification_id", some (str_nat n.pk))
    ∷ (text "deep_link_type", some n.deep_link_type)
    ∷ (text "target_id", elim n.target_id [ none ↦ none | some k ↦ some (str_nat k) ])
    ∷ []

-- the push for a row that was written
unfoldable pub push_row :
    Catalogs
    → Firebase
    → Recipient
    → NotificationRequest
    → Inbox
    → Option (Notification × Inbox)
    → Dispatched × Inbox
push_row catalogs firebase user r inbox none = (value_error, inbox)
push_row catalogs firebase user r inbox (some (n, after)) = (
  created n
      (send_push_notification firebase user.pk n.title n.body (push_data n)
        (localized_of catalogs r) after).0,
  after,
)

-- the row and the push
unfoldable pub deliver_to :
    Catalogs → Firebase → Recipient → NotificationRequest → Inbox → Dispatched × Inbox
unfolding worded push_row
deliver_to catalogs firebase user r inbox =
    push_row catalogs firebase user r inbox (create_notification (worded catalogs user r) inbox)

-- `dispatch_notification`
unfoldable pub dispatch_notification :
    Catalogs → Firebase → NotificationRequest → Inbox → Dispatched × Inbox
unfolding deliver_to
dispatch_notification catalogs firebase r inbox =
    elim (find (λ u. u.pk == r.recipient_id) inbox.users) [
      | none ↦ (no_recipient, inbox)
      | some user ↦
          if is_enabled r.recipient_id r.notification_type inbox
          then deliver_to catalogs firebase user r inbox
          else (suppressed, inbox)
    ]
