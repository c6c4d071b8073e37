-- ===== src/Content/Tasks/Queued/Runs.antt =====
-- content/tasks.py with content/views.py: runs of requests and tasks over the reels.

use cavallo_app.Content.Tasks.{is_queue_row, set_processing, save_processing, get_or_create}
use cavallo_app.Content.Reels.{ReelStore, Reel, ProcessingStatus}
use cavallo_app.Prelude.{[], any, inr, inl, arith, Bool-cases, ◌++◌, ◌∷◌, ◌≡◌, ℕ}
use cavallo_app.Content.Tasks.Queued.{Workers}

module _ (content_type : ℕ) where
  pub get_or_create-rows :
      (now k : ℕ) (store : ReelStore)
      → ((get_or_create now content_type k store).reels ≡ store.reels)
        × ((get_or_create now content_type k store).next_reel ≡ store.next_reel)
  unfolding get_or_create
  get_or_create-rows now k store =
      elim (Bool-cases (any (is_queue_row content_type k) store.queue)) [
        | inl old ↦ (ground (arith, old), ground (arith, old))
        | inr fresh ↦ (ground (arith, fresh), ground (arith, fresh))
      ]

  begun : ℕ → Reel → Workers → Workers
  begun k reel w = record w {
    store = save_processing reel.pk ProcessingStatus.processing w.store;
    reads = w.reads ++ set_processing ProcessingStatus.processing reel ∷ [];
  }
