-- ===== src/Social/Responses.antt =====
-- The answers of social/views.py: an error and no change, or the new tables and at most one request
-- for `enqueue_notification`.

use cavallo_app.Notifications.Records.{NotificationRequest}
use cavallo_app.Prelude.{none, inr, ◌⊎◌, Option}
use cavallo_app.Social.Records.{SocialStore}

pub data ApiError : Type 0 where
  validation_error not_found : ApiError

-- the answer of a view: the tables, and the notification that it hands on
pub record Done : Type 0 where
  pub store : SocialStore
  pub notification : Option NotificationRequest

abbrev pub done : SocialStore → ApiError ⊎ Done
done store = inr (record { store = store; notification = none })
