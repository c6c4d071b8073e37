-- ===== src/Moderation/Signals.antt =====
-- moderation/signals.py: the queue row of new content.

use cavallo_app.Moderation.Records.{is_object, QueueStatus, Store, Priority, Content}
use cavallo_app.Prelude.{
  some, ◌+◌, none, [], ◌∷◌, update_where, not, true, if◌then◌else◌, false, ◌++◌, Bool, ℕ,
}

-- `ModerationQueue.objects.create(content_type=..., object_id=..., priority=...)`
unfoldable pub create_queue_row : ℕ → Content → Priority → Store → Store
create_queue_row now instance' priority store = record store {
  queue =
      store.queue
      ++ record {
        pk = store.next_queue;
        content_type = instance'.content_type;
        object_id = instance'.pk;
        status = QueueStatus.pending;
        priority = priority;
        created_at = now;
      }
        ∷ [];
  next_queue = store.next_queue + 1;
}

-- the receiver of `post_save`; `created` tells an insert from an update
unfoldable pub enqueue_new_moderatable_content : ℕ → Content → Bool → Store → Store
enqueue_new_moderatable_content now instance' created store =
    if not created then store else elim instance'.moderatable [
      | none ↦ store
      | some mixin ↦
          if not mixin.auto_enqueue_on_create
          then store
          else create_queue_row now instance' mixin.moderation_priority store
    ]

-- `content.save()` of a stored row, with its signal
unfoldable pub save_content : ℕ → Content → Store → Store
save_content now content store = enqueue_new_moderatable_content now content false (record store {
  contents = update_where (is_object content.content_type content.pk) (λ _. content) store.contents;
})

-- the first save of a new row, with its signal
unfoldable pub create_content : ℕ → Content → Store → Store
create_content now content store =
    enqueue_new_moderatable_content now content true
      (record store { contents = store.contents ++ content ∷ [] })
