-- ===== src/Notifications/Tasks/Delivery.antt =====
-- What a dispatch of notifications/tasks.py writes and pushes.
use cavallo_app.Notifications.Tasks.Words.{
  devices, words_in, push_to, message_to-push_to, send_push-messages, language_of, row-words,
}
use cavallo_app.Prelude.{
  none, ap, ◌∙◌, map, false, true, some, refl, ◌+◌, arith, [], ◌==◌, ◌≡◌, ◌∷◌, find, Text, List,
  Bool, ◌++◌,
}
use cavallo_app.Notifications.Services.{
  unconfigured, params_or_empty, client, link_text, is_accepted, Firebase, create_notification,
  Message, send_push_notification,
}
use cavallo_app.Notifications.Tasks.{
  value_error, suppressed, no_recipient, Dispatched, push_row, is_enabled, created, push_data,
  localized_of, worded, deliver_to, dispatch_notification,
}
use cavallo_app.Notifications.Records.{Recipient, NotificationRequest, Inbox, Notification}
use cavallo_app.Notifications.Messages.{Catalogs}

-- the row that a request is stored as
abbrev pub row_with : Text × Text → NotificationRequest → Inbox → Notification
row_with words r inbox = record {
  pk = inbox.next_notification;
  recipient_id = r.recipient_id;
  notification_type = r.notification_type;
  title = words.0;
  body = words.1;
  deep_link_type = link_text r.deep_link_type;
  target_id = r.target_id;
  params = params_or_empty r.params;
  is_read = false;
}

abbrev pub row_of : Catalogs → Recipient → NotificationRequest → Inbox → Notification
row_of catalogs user r inbox =
    row_with (words_in catalogs r (language_of user) (r.title, r.body)) r inbox

abbrev pub stored : Notification → Inbox → Inbox
stored n inbox = record inbox {
  notifications = inbox.notifications ++ n ∷ [];
  next_notification = inbox.next_notification + 1;
}

map-same :
    {A B : Type 0} (f g : A → B) → ((x : A) → f x ≡ g x) → (xs : List A) → map f xs ≡ map g xs
map-same f g h [] = refl
map-same f g h (x ∷ xs) = ground (arith, h x, map-same f g h xs)

module _ (catalogs : Catalogs) (r : NotificationRequest) (inbox : Inbox) (user : Recipient) where
  -- the words do not matter to the tests
  pub accepted-worded : is_accepted (worded catalogs user r) ≡ is_accepted r
  unfolding worded is_accepted
  accepted-worded = refl

  create-worded :
      is_accepted r ≡ true
      → create_notification (worded catalogs user r) inbox
        ≡ some (row_of catalogs user r inbox, stored (row_of catalogs user r inbox) inbox)
  unfolding create_notification worded
  create-worded a = rw accepted-worded (
      rw a (
        ap (λ words. some (row_with words r inbox, stored (row_with words r inbox) inbox))
          (row-words catalogs user r)))

  -- the messages of a client
  pushed :
      (send : Message → Bool) (n : Notification) (after : Inbox)
      → push_row catalogs (client send) user r inbox (some (n, after))
        ≡ (created n (map (push_to catalogs r n) (devices user.pk after)), after)
  unfolding push_row
  pushed send n after =
      ap (λ ms. (created n ms, after))
        (send_push-messages send user.pk n.title n.body (push_data n) (localized_of catalogs r)
            after
          ∙ map-same _ (push_to catalogs r n) (message_to-push_to catalogs r n)
              (devices user.pk after))

  not_pushed :
      (n : Notification) (after : Inbox)
      → push_row catalogs unconfigured user r inbox (some (n, after)) ≡ (created n [], after)
  unfolding push_row send_push_notification
  not_pushed n after = refl

  pub dispatch-push_row :
      (firebase : Firebase)
      → find (λ u. u.pk == r.recipient_id) inbox.users ≡ some user
      → is_enabled r.recipient_id r.notification_type inbox ≡ true
      → is_accepted r ≡ true
      → let n = row_of catalogs user r inbox in
        dispatch_notification catalogs firebase r inbox
        ≡ push_row catalogs firebase user r inbox (some (n, stored n inbox))
  unfolding dispatch_notification deliver_to
  dispatch-push_row firebase found enabled accepted =
      ground (arith, found, enabled, create-worded accepted)

-- A request with a known type and link, for a stored user who has not switched its category off,
-- adds one row and tries one message for each device of the user, whatever sends fail. The words of
-- the row are those of its type's builder in Arabic, if that is the user's language, or else in
-- English; those of a message are the builder's in the device's locale, if that is Arabic or English,
-- or else those of the row. Without params, or where the builder gives nothing, they are the
-- request's own, or those of the row. Without Firebase it adds the same row.
pub dispatch_notification_lem :
    (catalogs : Catalogs) (r : NotificationRequest) (inbox : Inbox) (user : Recipient)
    (send : Message → Bool)
    → find (λ u. u.pk == r.recipient_id) inbox.users ≡ some user
    → is_enabled r.recipient_id r.notification_type inbox ≡ true
    → is_accepted r ≡ true
    → let n = row_of catalogs user r inbox in
      (dispatch_notification catalogs (client send) r inbox
        ≡ (created n (map (push_to catalogs r n) (devices user.pk inbox)), stored n inbox))
      × (dispatch_notification catalogs unconfigured r inbox ≡ (created n [], stored n inbox))
dispatch_notification_lem catalogs r inbox user send found enabled accepted =
    let n = row_of catalogs user r inbox in
    (
      dispatch-push_row catalogs r inbox user (client send) found enabled accepted
          ∙ pushed catalogs r inbox user send n (stored n inbox),
      dispatch-push_row catalogs r inbox user unconfigured found enabled accepted
          ∙ not_pushed catalogs r inbox user n (stored n inbox),
    )

-- what a dispatch has done, by what it ended in
abbrev pub IsDispatched : NotificationRequest → Inbox → Dispatched × Inbox → Type 0
IsDispatched r inbox (no_recipient, after) =
    (find (λ u. u.pk == r.recipient_id) inbox.users ≡ none) × (after ≡ inbox)
IsDispatched r inbox (suppressed, after) =
    (is_enabled r.recipient_id r.notification_type inbox ≡ false) × (after ≡ inbox)
IsDispatched r inbox (value_error, after) = (is_accepted r ≡ false) × (after ≡ inbox)
IsDispatched r inbox (created n ms, after) =
    (is_enabled r.recipient_id r.notification_type inbox ≡ true)
    × (is_accepted r ≡ true)
    × (n.recipient_id ≡ r.recipient_id)
    × (after ≡ stored n inbox)
