-- ===== src/Notifications/Services.antt =====
-- notifications/services.py: the in-app row, and the push to each device.

use cavallo_app.Notifications.Messages.{localized_or, Localized}
use cavallo_app.Notifications.Records.{
  deep_link_types, notification_types, Notification, DeviceToken, text_mem, Params, Inbox,
  NotificationRequest,
}
use cavallo_app.Prelude.{
  not, ◌==◌, none, filter, ◌++◌, ◌+◌, ◌&&◌, some, map, if◌then◌else◌, ◌∷◌, true, false, [], ℕ, Text,
  Option, List, Bool,
}

-- the empty deep link counts as none
abbrev pub no_link : Option Text → Bool
no_link none = true
no_link (some []) = true
no_link (some (c ∷ cs)) = false

abbrev pub link_text : Option Text → Text
link_text none = []
link_text (some t) = t

abbrev pub has_target : Option ℕ → Bool
has_target none = false
has_target (some k) = true

-- the three tests of `create_notification`; false: it raises ValueError
unfoldable pub is_accepted : NotificationRequest → Bool
is_accepted r =
    text_mem r.notification_type notification_types
    && (if no_link r.deep_link_type
        then not (has_target r.target_id)
        else text_mem (link_text r.deep_link_type) deep_link_types)

-- `params or {}`
abbrev pub params_or_empty : Option Params → Params
params_or_empty none = []
params_or_empty (some params) = params

-- `create_notification`; `none` is a ValueError, and nothing is written
unfoldable pub create_notification : NotificationRequest → Inbox → Option (Notification × Inbox)
create_notification r inbox =
    let row : Notification = record {
      pk = inbox.next_notification;
      recipient_id = r.recipient_id;
      notification_type = r.notification_type;
      title = r.title;
      body = r.body;
      deep_link_type = link_text r.deep_link_type;
      target_id = r.target_id;
      params = params_or_empty r.params;
      is_read = false;
    } in
    if is_accepted r
    then some (
      row,
      record inbox {
        notifications = inbox.notifications ++ row ∷ [];
        next_notification = inbox.next_notification + 1;
      },
    )
    else none

-- one FCM message
pub record Message : Type 0 where
  pub token : Text
  pub title : Text
  pub body : Text
  pub payload : Params

-- the entries of the data, of which those with None are left out
unfoldable pub stringify_data : List (Text × Option Text) → Params
stringify_data [] = []
stringify_data ((k, none) ∷ rest) = stringify_data rest
stringify_data ((k, some v) ∷ rest) = (k, v) ∷ stringify_data rest

abbrev pub message_to : Text → Text → Params → Localized → DeviceToken → Message
message_to title body payload localized t =
    let words = localized_or t.locale (title, body) localized in
    record { token = t.token; title = words.0; body = words.1; payload = payload }

-- Firebase is not configured, or it is a client whose `send` succeeds or raises for a message.
pub data Firebase : Type 0 where
  unconfigured : Firebase
  client : (Message → Bool) → Firebase

-- the loop over the tokens: every message is tried, and those that were sent are counted
unfoldable pub send_each : (Message → Bool) → List Message → List Message × ℕ
send_each send [] = ([], 0)
send_each send (m ∷ ms) =
    let (tried, sent) = send_each send ms in (m ∷ tried, (if send m then 1 else 0) + sent)

-- `send_push_notification`: the messages that are tried, and the number sent
unfoldable pub send_push_notification :
    Firebase → ℕ → Text → Text → List (Text × Option Text) → Localized → Inbox → List Message × ℕ
unfolding send_each stringify_data
send_push_notification unconfigured user_id title body entries localized inbox = ([], 0)
send_push_notification (client send) user_id title body entries localized inbox = send_each send (
    map (message_to title body (stringify_data entries) localized)
      (filter (λ t. t.user_id == user_id) inbox.tokens))
