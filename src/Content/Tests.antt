-- ===== src/Content/Tests.antt =====
-- Sample reels: one that is being transcoded while its owner deletes it.
use cavallo_app.Moderation.Records.{ContentStatus, ModerationQueue}
use cavallo_app.Content.Tasks.{
  raised, transcoded, get_or_create, end_transcode, begin_transcode, Pipeline,
}
use cavallo_app.Prelude.{
  refl, true, some, none, false, ◌≡◌, ◌∷◌, text, find, ◌==◌, map, any, [], List,
}
use cavallo_app.Content.Tasks.Queued.{
  destroy_event, open_event, end_event, begin_event, create_event, Workers, ReelEvent, happen_all,
}
use cavallo_app.Content.Tasks.Stale.{end_transcode_stale}
use cavallo_app.Content.Reels.{ProcessingStatus, ReelStore, Reel, create_reel, destroy_reel}

abbrev no_reels : ReelStore
no_reels = record { reels = []; next_reel = 1; queue = []; next_queue = 1 }

abbrev one_upload : ReelStore
one_upload = create_reel 4 (text "new shop") (text "raw.mov") no_reels

abbrev taken : Reel
taken = record {
  pk = 1;
  business_id = 4;
  caption = text "new shop";
  video = text "raw.mov";
  thumbnail = none;
  duration_seconds = none;
  processing_status = ProcessingStatus.processing;
  status = ContentStatus.pending_review;
  is_deleted = false;
}

abbrev at_work : ReelStore
at_work = record { reels = taken ∷ []; next_reel = 2; queue = []; next_queue = 1 }

abbrev files : Pipeline
files = transcoded (text "1.mp4") (text "1.jpg") 12

begin_sample : begin_transcode 1 one_upload ≡ some (taken, at_work)
unfolding begin_transcode create_reel
begin_sample = refl

deleted_meanwhile : map (λ (r : Reel). r.is_deleted) (destroy_reel taken at_work).reels ≡ true ∷ []
unfolding destroy_reel
deleted_meanwhile = refl

-- the soft delete is undone
back_again :
    map
      (λ (r : Reel). r.is_deleted)
      (end_transcode 50 9 taken files (destroy_reel taken at_work)).reels
    ≡ false ∷ []
unfolding destroy_reel end_transcode get_or_create
back_again = refl

still_stored : any (λ (r : Reel). r.pk == 1) (destroy_reel taken at_work).reels ≡ true
unfolding destroy_reel
still_stored = refl

end_transcode_stale_example :
    (row : Reel) × (find
        (λ (r : Reel). r.pk == 1)
        (end_transcode 50 9 taken files (destroy_reel taken at_work)).reels
      ≡ some row)
    × (row.is_deleted ≡ false)
    × (row.caption ≡ text "new shop")
    × (row.status ≡ ContentStatus.pending_review)
end_transcode_stale_example =
    end_transcode_stale 1 one_upload at_work (destroy_reel taken at_work) taken 50 9 (text "1.mp4")
      (text "1.jpg") 12 begin_sample still_stored

abbrev idle : Workers
idle = record { store = no_reels; edits = []; reads = [] }

abbrev busy_day : List ReelEvent
busy_day =
    create_event 4 (text "a") (text "a.mov")
    ∷ begin_event 1
    ∷ end_event 20 0 raised
    ∷ begin_event 1
    ∷ end_event 40 1 files
    ∷ end_event 41 1 files
    ∷ open_event 1
    ∷ destroy_event 0
    ∷ []

one_queue_row :
    map (λ (q : ModerationQueue). q.object_id) (happen_all 9 busy_day idle).store.queue ≡ 1 ∷ []
unfolding create_reel begin_transcode end_transcode get_or_create destroy_reel
one_queue_row = refl
