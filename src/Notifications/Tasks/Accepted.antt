-- ===== src/Notifications/Tasks/Accepted.antt =====
-- Requests that `create_notification` does not refuse.

use cavallo_app.Notifications.Tasks.Delivery.{dispatch-push_row}
use cavallo_app.Notifications.Messages.{Catalogs}
use cavallo_app.Notifications.Records.{
  deep_link_types, notification_types, Inbox, text_mem, NotificationRequest,
}
use cavallo_app.Prelude.{
  Bool-cases, ap, inr, inl, Option-cases, arith, refl, [], ◌==◌, ◌∷◌, find, some, ◌≡◌, false, true,
  Text, Bool,
}
use cavallo_app.Notifications.Services.{Firebase, is_accepted}
use cavallo_app.Notifications.Tasks.{
  suppressed, no_recipient, is_enabled, value_error, push_row, dispatch_notification, Dispatched,
}

-- a known type with a known link
pub accepted-of_known :
    (r : NotificationRequest) (link : Text)
    → r.deep_link_type ≡ some link
    → text_mem r.notification_type notification_types ≡ true
    → text_mem link deep_link_types ≡ true
    → is_accepted r ≡ true
unfolding is_accepted
accepted-of_known r [] e h k = cc
accepted-of_known r (c ∷ cs) e h k = rw (e, h, k) refl

-- whether a dispatch raises
abbrev pub is_value_error : Dispatched → Bool
is_value_error value_error = true
is_value_error _ = false

pub dispatch-accepted :
    (catalogs : Catalogs) (firebase : Firebase) (r : NotificationRequest) (inbox : Inbox)
    → is_accepted r ≡ true
    → is_value_error (dispatch_notification catalogs firebase r inbox).0 ≡ false
unfolding dispatch_notification push_row
dispatch-accepted catalogs firebase r inbox a =
    elim (Option-cases (find (λ u. u.pk == r.recipient_id) inbox.users)) [
      | inl nobody ↦ raised {x = (no_recipient, inbox)} (ground (arith, nobody))
      | inr (user, found) ↦
          elim (Bool-cases (is_enabled r.recipient_id r.notification_type inbox)) [
            | inl on ↦ raised (dispatch-push_row catalogs r inbox user firebase found on a)
            | inr off ↦ raised {x = (suppressed, inbox)} (ground (arith, found, off))
          ]
    ]
  where
    raised :
        {x : Dispatched × Inbox}
        → dispatch_notification catalogs firebase r inbox ≡ x
        → is_value_error (dispatch_notification catalogs firebase r inbox).0 ≡ is_value_error x.0
    raised e = ap (λ (y : Dispatched × Inbox). is_value_error y.0) e
