-- ===== src/Content/Reels.antt =====
-- content/models.py `Reel` and the views of content/views.py that write it.

use cavallo_app.Moderation.Records.{ContentStatus, ModerationQueue}
use cavallo_app.Prelude.{
  ◌+◌, [], ◌∷◌, not, true, false, Bool, ◌&&◌, find, ◌++◌, none, Text, Option, ◌==◌, ℕ, update_where,
  List,
}

pub data ProcessingStatus : Type 0 where
  uploaded processing ready failed : ProcessingStatus

pub record Reel : Type 0 where
  pub pk : ℕ
  pub business_id : ℕ
  pub caption : Text
  pub video : Text
  pub thumbnail : Option Text
  pub duration_seconds : Option ℕ
  pub processing_status : ProcessingStatus
  pub status : ContentStatus
  pub is_deleted : Bool

-- the rows of reels, deleted or not, and the moderation queue
pub record ReelStore : Type 0 where
  pub reels : List Reel
  pub next_reel : ℕ
  pub queue : List ModerationQueue
  pub next_queue : ℕ

-- `Reel.objects.get(pk=...)`
abbrev pub get_reel : ℕ → ReelStore → Option Reel
get_reel k store = find (λ r. r.pk == k && not r.is_deleted) store.reels

-- `reel.save()`: all columns
abbrev pub save_reel : Reel → ReelStore → ReelStore
save_reel reel store = record store {
  reels = update_where (λ r. r.pk == reel.pk) (λ _. reel) store.reels;
}

-- `ReelListCreateView.perform_create`, without the dispatch
unfoldable pub create_reel : ℕ → Text → Text → ReelStore → ReelStore
create_reel business caption video store = record store {
  reels =
      store.reels
      ++ record {
        pk = store.next_reel;
        business_id = business;
        caption = caption;
        video = video;
        thumbnail = none;
        duration_seconds = none;
        processing_status = ProcessingStatus.uploaded;
        status = ContentStatus.pending_review;
        is_deleted = false;
      }
        ∷ [];
  next_reel = store.next_reel + 1;
}

-- `ReelDetailView.perform_update` of the owner, on the row that `get_object` has read: all columns are
-- saved, with the two fields that are written
unfoldable pub update_reel : Reel → Text → Text → ReelStore → ReelStore
update_reel reel caption video store =
    save_reel (record reel { caption = caption; video = video }) store

-- `ReelDetailView.perform_destroy` of the owner, on such a row: a soft delete, which saves all columns
unfoldable pub destroy_reel : Reel → ReelStore → ReelStore
destroy_reel reel store = save_reel (record reel { is_deleted = true }) store
