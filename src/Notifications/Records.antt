-- ===== src/Notifications/Records.antt =====
-- The rows of notifications/models.py and devices/models.py that a dispatch reads and writes, and the
-- arguments of `enqueue_notification`.

use cavallo_app.Prelude.{
  ◌||◌, some, text_eq, if◌then◌else◌, [], ◌∷◌, none, false, text, Option, Bool, ℕ, Text, List,
}

-- a dictionary of texts, in the order of its keys
abbrev pub Params : Type 0
Params = List (Text × Text)

-- `params.get(key)`
abbrev pub get : Text → Params → Option Text
get key [] = none
get key ((k, v) ∷ rest) = let later = get key rest in if text_eq k key then some v else later

-- the arguments of one call of `enqueue_notification`
pub record NotificationRequest : Type 0 where
  pub recipient_id : ℕ
  pub notification_type : Text
  pub title : Text
  pub body : Text
  pub deep_link_type : Option Text
  pub target_id : Option ℕ
  pub params : Option Params

pub record Notification : Type 0 where
  pub pk : ℕ
  pub recipient_id : ℕ
  pub notification_type : Text
  pub title : Text
  pub body : Text
  pub deep_link_type : Text
  pub target_id : Option ℕ
  pub params : Params
  pub is_read : Bool

-- `Notification.NotificationType.values`
abbrev pub notification_types : List Text
notification_types =
    text "chat_message"
    ∷ text "moderation_approved"
    ∷ text "moderation_rejected"
    ∷ text "new_follower"
    ∷ text "comment_on_content"
    ∷ text "new_like"
    ∷ text "new_share"
    ∷ text "new_rating"
    ∷ text "system_announcement"
    ∷ []

-- `Notification.DeepLinkType.values`
abbrev pub deep_link_types : List Text
deep_link_types =
    text "business_profile"
    ∷ text "post_detail"
    ∷ text "reel_detail"
    ∷ text "product_detail"
    ∷ text "chat_thread"
    ∷ []

pub record NotificationPreference : Type 0 where
  pub user_id : ℕ
  pub chat_notifications_enabled : Bool
  pub moderation_notifications_enabled : Bool
  pub social_notifications_enabled : Bool

pub record Recipient : Type 0 where
  pub pk : ℕ
  pub preferred_language : Text

pub record DeviceToken : Type 0 where
  pub user_id : ℕ
  pub token : Text
  pub locale : Text

pub record Inbox : Type 0 where
  pub users : List Recipient
  pub preferences : List NotificationPreference
  pub tokens : List DeviceToken
  pub notifications : List Notification
  pub next_notification : ℕ

-- `value in values`
abbrev pub text_mem : Text → List Text → Bool
text_mem t [] = false
text_mem t (u ∷ us) = text_eq u t || text_mem t us
