-- ===== src/Notifications/Tests.antt =====
-- Runs of the dispatch on a small inbox, and the theorems at them.

use cavallo_app.Notifications.Tasks.Delivery.{dispatch_notification_lem, stored, row_of}
use cavallo_app.Notifications.Tasks.Words.{push_to, devices}
use cavallo_app.Prelude.{refl, [], ◌∷◌, true, some, false, ◌≡◌, text, none, Bool, map}
use cavallo_app.Notifications.Tasks.{
  suppressed, created, is_enabled, is_category_enabled, preference_field, dispatch_notification,
}
use cavallo_app.Notifications.Services.{unconfigured, client, is_accepted, Message}
use cavallo_app.Notifications.Records.{Recipient, NotificationRequest, Inbox}
use cavallo_app.Notifications.Messages.{build, Catalogs}

-- catalogs that translate nothing
abbrev plain : Catalogs
plain = record { gettext = λ language message. message; fill_reason = λ template reason. reason }

abbrev inbox : Inbox
inbox = record {
  users = record { pk = 9; preferred_language = text "en" } ∷ [];
  preferences =
      record {
        user_id = 9;
        chat_notifications_enabled = false;
        moderation_notifications_enabled = true;
        social_notifications_enabled = true;
      }
      ∷ [];
  tokens =
      record { user_id = 9; token = text "a"; locale = text "ar" }
      ∷ record { user_id = 8; token = text "b"; locale = text "en" }
      ∷ record { user_id = 9; token = text "c"; locale = text "fr" }
      ∷ [];
  notifications = [];
  next_notification = 1;
}

abbrev new_like : NotificationRequest
new_like = record {
  recipient_id = 9;
  notification_type = text "new_like";
  title = text "fallback";
  body = text "fallback";
  deep_link_type = some (text "post_detail");
  target_id = some 5;
  params = some [];
}

abbrev by_chat : NotificationRequest
by_chat = let r = new_like in record r { notification_type = text "chat_message" }

abbrev unlinked : NotificationRequest
unlinked = let r = new_like in record r { deep_link_type = none }

abbrev refuse : Message → Bool
refuse m = false

abbrev user : Recipient
user = record { pk = 9; preferred_language = text "en" }

like_row_runs : (row_of plain user new_like inbox).title ≡ text "New like"
unfolding build
like_row_runs = refl

suppressed_runs : dispatch_notification plain unconfigured by_chat inbox ≡ (suppressed, inbox)
unfolding dispatch_notification preference_field is_category_enabled
suppressed_runs = refl

unlinked_runs : is_accepted unlinked ≡ false
unfolding is_accepted
unlinked_runs = refl

devices_run : map (λ t. t.token) (devices 9 inbox) ≡ text "a" ∷ text "c" ∷ []
devices_run = refl

like-enabled : is_enabled 9 (text "new_like") inbox ≡ true
unfolding preference_field is_category_enabled
like-enabled = refl

like-accepted : is_accepted new_like ≡ true
unfolding is_accepted
like-accepted = refl

dispatch_notification_lem_example :
    let n = row_of plain user new_like inbox in
    (dispatch_notification plain (client refuse) new_like inbox
      ≡ (created n (map (push_to plain new_like n) (devices 9 inbox)), stored n inbox))
    × (dispatch_notification plain unconfigured new_like inbox ≡ (created n [], stored n inbox))
dispatch_notification_lem_example =
    dispatch_notification_lem plain new_like inbox user refuse refl like-enabled like-accepted
