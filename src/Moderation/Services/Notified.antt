-- ===== src/Moderation/Services/Notified.antt =====
-- The notification of a decision, as the dispatch of notifications/tasks.py takes it.

use cavallo_app.Moderation.Services.Once.{reject-cases}
use cavallo_app.Notifications.Tasks.{dispatch_notification}
use cavallo_app.Notifications.Messages.{Catalogs}
use cavallo_app.Notifications.Tasks.Accepted.{dispatch-accepted, is_value_error, accepted-of_known}
use cavallo_app.Notifications.Records.{Inbox, NotificationRequest, deep_link_types, text_mem}
use cavallo_app.Notifications.Services.{Firebase, is_accepted}
use cavallo_app.Moderation.Services.{
  reject, get_moderatable_content, lock_pending_queue_item, Decision, decide, approve,
  notify_content_owner, deep_link, content_deep_link, message_of,
}
use cavallo_app.Prelude.{
  [], false, ◌∙◌, ◌⊎◌, sym, Sum-cases, Bool, Option-cases, inr, refl, arith, none, inl, text_eq,
  text, Option, Bool-cases, true, some, ◌≡◌, ℕ, Text,
}
use cavallo_app.Moderation.Records.{Store, ModerationQueue, Action, Business, Content}

content_deep_link-known :
    (name link : Text) → content_deep_link name ≡ some link → text_mem link deep_link_types ≡ true
content_deep_link-known name link h = elim (Bool-cases (text_eq name (text "post"))) [
  | inl post ↦ let same : text "post_detail" ≡ link = ground (arith, post, h) in rw (← same) refl
  | inr no_post ↦ elim (Bool-cases (text_eq name (text "reel"))) [
    | inl reel ↦
        let same : text "reel_detail" ≡ link = ground (arith, no_post, reel, h) in rw (← same) refl
    | inr no_reel ↦ absurd (ground (arith, no_post, no_reel, h))
  ]
]

deep_link-known :
    (content : Content) (business : Business)
    → text_mem (deep_link content business).0 deep_link_types ≡ true
deep_link-known content business = by_name (content_deep_link content.model_name) refl
  where
    by_name :
        (o : Option Text)
        → content_deep_link content.model_name ≡ o
        → text_mem
            (elim o as (λ x. Text × ℕ) [
              | some deep_link_type ↦ (deep_link_type, content.pk)
              | none ↦ (text "business_profile", business.pk)
            ]).0
            deep_link_types
          ≡ true
    by_name none e = refl
    by_name (some link) e = content_deep_link-known content.model_name link e

message_of-accepted :
    (content : Content) (business : Business) (owner : ℕ) (action : Action) (reason : Text)
    → is_accepted (message_of content business owner action reason) ≡ true
unfolding message_of
message_of-accepted content business owner Action.approved reason =
    accepted-of_known (message_of content business owner Action.approved reason)
      (deep_link content business).0 refl refl (deep_link-known content business)
message_of-accepted content business owner Action.rejected reason =
    accepted-of_known (message_of content business owner Action.rejected reason)
      (deep_link content business).0 refl refl (deep_link-known content business)

notify-accepted :
    (content : Content) (action : Action) (reason : Text) (r : NotificationRequest)
    → notify_content_owner content action reason ≡ some r
    → is_accepted r ≡ true
unfolding notify_content_owner
notify-accepted content action reason r h = elim (Option-cases content.business) [
  | inl none_here ↦ absurd (ground (arith, none_here, h))
  | inr (business, here) ↦ elim (Option-cases business.user_id) [
    | inl ownerless ↦ absurd (ground (arith, here, ownerless, h))
    | inr (owner, owned) ↦
        let same : message_of content business owner action reason ≡ r =
          ground (arith, here, owned, h) in
        rw (← same) (message_of-accepted content business owner action reason)
  ]
]

decide-notification :
    (now : ℕ) (item : ModerationQueue) (reviewer : ℕ) (action : Action) (reason : Text)
    (store : Store) (d : Decision) (r : NotificationRequest)
    → decide now item reviewer action reason store ≡ inr d
    → d.notification ≡ some r
    → is_accepted r ≡ true
unfolding decide
decide-notification now item reviewer action reason store d r h k =
    elim (Sum-cases (lock_pending_queue_item item store)) [
      | inl (refusal, e) ↦ absurd (ground (arith, e, h))
      | inr (locked, e) ↦ elim (Sum-cases (get_moderatable_content locked store)) [
        | inl (refusal, f) ↦ absurd (ground (arith, e, f, h))
        | inr ((content, mixin), f) ↦
            let same : d.notification ≡ notify_content_owner content action reason =
              ground (arith, e, f, h) in
            notify-accepted content action reason r (sym same ∙ k)
      ]
    ]

-- The notification of an approval or a rejection, if there is one, is dispatched without ValueError.
pub decision_dispatched :
    (space : ℕ → Bool) (now : ℕ) (item : ModerationQueue) (reviewer : ℕ) (given : Option Text)
    (store : Store) (d : Decision) (r : NotificationRequest) (catalogs : Catalogs)
    (firebase : Firebase) (inbox : Inbox)
    → (approve now item reviewer store ≡ inr d)
      ⊎ (reject space now item reviewer given store ≡ inr d)
    → d.notification ≡ some r
    → is_value_error (dispatch_notification catalogs firebase r inbox).0 ≡ false
unfolding approve
decision_dispatched space now item reviewer given store d r catalogs firebase inbox (inl h) k =
    dispatch-accepted catalogs firebase r inbox
      (decide-notification now item reviewer Action.approved [] store d r h k)
decision_dispatched space now item reviewer given store d r catalogs firebase inbox (inr h) k =
    elim (reject-cases space now item reviewer given store) [
      | inl blank ↦ absurd (ground (arith, blank, h))
      | inr (reason, same) ↦
          dispatch-accepted catalogs firebase r inbox (
            decide-notification now item reviewer Action.rejected reason store d r (sym same ∙ h) k)
    ]
