-- ===== src/Moderation/Services.antt =====
-- moderation/services.py: the decisions on a queue item. An atomic block is one function, and an
-- exception in it is the left side of a sum, which holds no state: the block is rolled back.
pub mod Once
pub mod Audit
pub mod Decided
pub mod Published
pub mod Notified
use cavallo_app.Notifications.Records.{NotificationRequest}
use cavallo_app.Moderation.Signals.{save_content}
use cavallo_app.Prelude.{
  text, inr, ◌+◌, text_eq, some, none, inl, find, [], ◌==◌, ◌∷◌, ◌⊎◌, update_where, if◌then◌else◌,
  ◌++◌, Option, Bool, ℕ, Text,
}
use cavallo_app.Moderation.Records.{
  queue_status_eq, is_object, Store, QueueStatus, Moderatable, ContentStatus, Business,
  ModerationQueue, ModerationLog, Content, Action,
}

-- the exceptions: `ModerationQueue.DoesNotExist`, `AlreadyDecidedError` and the three uses of
-- `ValidationError`
pub data Refusal : Type 0 where
  does_not_exist no_content not_moderatable blank_reason : Refusal
  already_decided : ℕ → QueueStatus → Refusal

-- `_lock_pending_queue_item`: the status is that of the stored row
unfoldable pub lock_pending_queue_item : ModerationQueue → Store → Refusal ⊎ ModerationQueue
lock_pending_queue_item queue_item store = elim (find (λ q. q.pk == queue_item.pk) store.queue) [
  | none ↦ inl does_not_exist
  | some locked ↦
      if queue_status_eq locked.status QueueStatus.pending
      then inr locked
      else inl (already_decided locked.pk locked.status)
]

-- `_get_moderatable_content`
unfoldable pub get_moderatable_content : ModerationQueue → Store → Refusal ⊎ (Content × Moderatable)
get_moderatable_content locked store =
    elim (find (is_object locked.content_type locked.object_id) store.contents) [
      | none ↦ inl no_content
      | some content ↦ elim content.moderatable [
        | none ↦ inl not_moderatable
        | some mixin ↦ inr (content, mixin)
      ]
    ]

abbrev pub content_status : Action → ContentStatus
content_status Action.approved = ContentStatus.published
content_status Action.rejected = ContentStatus.rejected

abbrev pub queue_status : Action → QueueStatus
queue_status Action.approved = QueueStatus.approved
queue_status Action.rejected = QueueStatus.rejected

-- `locked.status = ...; locked.save()`
unfoldable pub save_queue_item : ModerationQueue → Store → Store
save_queue_item locked store = record store {
  queue = update_where (λ q. q.pk == locked.pk) (λ _. locked) store.queue;
}

-- `ModerationLog.objects.create(...)`
unfoldable pub create_log : ℕ → ℕ → ℕ → Action → Text → Store → ModerationLog × Store
create_log now queue_item reviewer action reason store =
    let log : ModerationLog = record {
      pk = store.next_log;
      queue_item = queue_item;
      reviewer = reviewer;
      action = action;
      reason = reason;
      created_at = now;
    } in
    (log, record store { logs = store.logs ++ log ∷ []; next_log = store.next_log + 1 })

-- the three writes of the atomic block
unfoldable pub write_decision :
    ℕ → ModerationQueue → Content → Moderatable → ℕ → Action → Text → Store → ModerationLog × Store
write_decision now locked content mixin reviewer action reason store =
    create_log now locked.pk reviewer action reason (
      save_content now
        (record content { moderatable = some (record mixin { status = content_status action }) })
        (save_queue_item (record locked { status = queue_status action }) store))

-- the result of a decision: the log row, the caller's object, the notification and the tables
pub record Decision : Type 0 where
  pub log : ModerationLog
  pub queue_item : ModerationQueue
  pub notification : Option NotificationRequest
  pub store : Store

-- `_CONTENT_DEEP_LINKS.get(model_name)`
abbrev pub content_deep_link : Text → Option Text
content_deep_link model_name =
    if text_eq model_name (text "post")
    then some (text "post_detail")
    else if text_eq model_name (text "reel")
    then some (text "reel_detail")
    else none

-- the kind of screen and its target
abbrev pub deep_link : Content → Business → Text × ℕ
deep_link content business = elim (content_deep_link content.model_name) [
  | some deep_link_type ↦ (deep_link_type, content.pk)
  | none ↦ (text "business_profile", business.pk)
]

unfoldable pub message_of : Content → Business → ℕ → Action → Text → NotificationRequest
message_of content business owner_id Action.approved reason = record {
  recipient_id = owner_id;
  notification_type = text "moderation_approved";
  title = text "Your " ++ content.model_name ++ text " was approved";
  body = text "Your " ++ content.model_name ++ text " is now published.";
  deep_link_type = some (deep_link content business).0;
  target_id = some (deep_link content business).1;
  params = some ((text "item", content.model_name) ∷ []);
}
message_of content business owner_id Action.rejected reason = record {
  recipient_id = owner_id;
  notification_type = text "moderation_rejected";
  title = text "Your " ++ content.model_name ++ text " was rejected";
  body = text "Reason: " ++ reason;
  deep_link_type = some (deep_link content business).0;
  target_id = some (deep_link content business).1;
  params = some ((text "item", content.model_name) ∷ (text "reason", reason) ∷ []);
}

-- `_notify_content_owner`: what it hands to `enqueue_notification`, if anything
unfoldable pub notify_content_owner : Content → Action → Text → Option NotificationRequest
notify_content_owner content action reason = elim content.business [
  | none ↦ none
  | some business ↦ elim business.user_id [
    | none ↦ none
    | some owner_id ↦ some (message_of content business owner_id action reason)
  ]
]

-- the atomic block, then the caller's object and the notification
unfoldable pub decide : ℕ → ModerationQueue → ℕ → Action → Text → Store → Refusal ⊎ Decision
decide now queue_item reviewer action reason store =
    elim (lock_pending_queue_item queue_item store) [
      | inl refusal ↦ inl refusal
      | inr locked ↦ elim (get_moderatable_content locked store) [
        | inl refusal ↦ inl refusal
        | inr (content, mixin) ↦
            let (log, written) =
              write_decision now locked content mixin reviewer action reason store in
            inr (record {
              log = log;
              queue_item = record queue_item { status = queue_status action };
              notification = notify_content_owner content action reason;
              store = written;
            })
      ]
    ]

-- `approve`
unfoldable pub approve : ℕ → ModerationQueue → ℕ → Store → Refusal ⊎ Decision
approve now queue_item reviewer store = decide now queue_item reviewer Action.approved [] store

-- `str.strip`; `space` is Python's test for a whitespace character
module _ (space : ℕ → Bool) where
  abbrev pub lstrip : Text → Text
  lstrip [] = []
  lstrip (c ∷ cs) = let rest = lstrip cs in if space c then rest else c ∷ cs

  abbrev pub rstrip : Text → Text
  rstrip [] = []
  rstrip (c ∷ cs) = elim (rstrip cs) [ [] ↦ if space c then [] else c ∷ [] | d ∷ ds ↦ c ∷ d ∷ ds ]

  abbrev pub strip : Text → Text
  strip s = rstrip (lstrip s)

  -- `reject`; a reason of `None` is the empty text
  unfoldable pub reject : ℕ → ModerationQueue → ℕ → Option Text → Store → Refusal ⊎ Decision
  reject now queue_item reviewer reason store =
      elim (strip (elim reason [ none ↦ [] | some given ↦ given ])) [
        | [] ↦ inl blank_reason
        | c ∷ cs ↦ decide now queue_item reviewer Action.rejected (c ∷ cs) store
      ]
