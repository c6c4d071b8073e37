-- ===== src/Content/Tasks.antt =====
-- content/tasks.py: `transcode_reel`, in the two parts before and after ffmpeg runs.
pub mod Queued
pub mod Stale
use cavallo_app.Moderation.Records.{Priority, QueueStatus, ModerationQueue}
use cavallo_app.Prelude.{
  ◌+◌, [], ◌∷◌, ◌++◌, ◌&&◌, any, ◌==◌, update_where, some, none, if◌then◌else◌, Option, Bool, ℕ,
  Text,
}
use cavallo_app.Content.Reels.{get_reel, save_reel, ReelStore, Reel, ProcessingStatus}

-- What the work on the files ends in: an exception, or the names of the two stored files and the
-- length in seconds.
pub data Pipeline : Type 0 where
  raised : Pipeline
  transcoded : Text → Text → ℕ → Pipeline

abbrev pub set_processing : ProcessingStatus → Reel → Reel
set_processing status r = record r { processing_status = status }

-- `reel.save(update_fields=["processing_status"])`
abbrev pub save_processing : ℕ → ProcessingStatus → ReelStore → ReelStore
save_processing k status store = record store {
  reels = update_where (λ r. r.pk == k) (set_processing status) store.reels;
}

-- up to the first save: the row as the task holds it, or `none` if there is none
unfoldable pub begin_transcode : ℕ → ReelStore → Option (Reel × ReelStore)
begin_transcode k store = elim (get_reel k store) [
  | none ↦ none
  | some reel ↦ some (
    set_processing ProcessingStatus.processing reel,
    save_processing reel.pk ProcessingStatus.processing store,
  )
]

abbrev pub is_queue_row : ℕ → ℕ → ModerationQueue → Bool
is_queue_row content_type k q = q.content_type == content_type && q.object_id == k

abbrev pub queue_row : ℕ → ℕ → ℕ → ℕ → ModerationQueue
queue_row now content_type k pk = record {
  pk = pk;
  content_type = content_type;
  object_id = k;
  status = QueueStatus.pending;
  priority = Priority.normal;
  created_at = now;
}

-- `ModerationQueue.objects.get_or_create(content_type=..., object_id=...)`
unfoldable pub get_or_create : ℕ → ℕ → ℕ → ReelStore → ReelStore
get_or_create now content_type k store =
    if any (is_queue_row content_type k) store.queue then store else record store {
      queue = store.queue ++ queue_row now content_type k store.next_queue ∷ [];
      next_queue = store.next_queue + 1;
    }

abbrev pub finished : Text → Text → ℕ → Reel → Reel
finished video thumbnail seconds reel = record reel {
  video = video;
  thumbnail = some thumbnail;
  duration_seconds = some seconds;
  processing_status = ProcessingStatus.ready;
}

-- from ffmpeg's end on, with the row as the task holds it
unfoldable pub end_transcode : ℕ → ℕ → Reel → Pipeline → ReelStore → ReelStore
unfolding get_or_create
end_transcode now content_type reel raised store =
    save_processing reel.pk ProcessingStatus.failed store
end_transcode now content_type reel (transcoded video thumbnail seconds) store =
    get_or_create now content_type reel.pk (save_reel (finished video thumbnail seconds reel) store)

-- `transcode_reel`, with nothing else in between
unfoldable pub transcode_reel : ℕ → ℕ → Pipeline → ℕ → ReelStore → ReelStore
unfolding begin_transcode end_transcode
transcode_reel now content_type pipeline k store = elim (begin_transcode k store) [
  | none ↦ store
  | some (reel, store') ↦ end_transcode now content_type reel pipeline store'
]
