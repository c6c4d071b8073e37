-- ===== src/Content/Tasks/Stale.antt =====
-- content/tasks.py: the end of a transcoding writes the row as the task has read it.

use cavallo_app.Prelude.{
  not, refl, ◌&&◌, ◌∙◌, find-holds, [], inr, ap, ==-refl, ◌∷◌, inl, arith, update_where,
  Option-cases, find, false, true, some, ◌≡◌, Text, ◌==◌, any, ℕ, List,
}
use cavallo_app.Content.Tasks.{finished, transcoded, end_transcode, begin_transcode}
use cavallo_app.Content.Reels.{save_reel, get_reel, ReelStore, Reel}
use cavallo_app.Content.Tasks.Queued.Runs.{get_or_create-rows}

find_replaced :
    (x : Reel) (rs : List Reel)
    → any (λ r. r.pk == x.pk) rs ≡ true
    → find (λ r. r.pk == x.pk) (update_where (λ r. r.pk == x.pk) (λ _. x) rs) ≡ some x
find_replaced x [] h = absurd (ground (arith, h))
find_replaced x (r ∷ rs) h = ground (arith, h, find_replaced x rs, ==-refl x.pk)

begin_transcode-live :
    (k : ℕ) (s s1 : ReelStore) (reel : Reel)
    → begin_transcode k s ≡ some (reel, s1)
    → reel.is_deleted ≡ false
unfolding begin_transcode
begin_transcode-live k s s1 reel h = elim (Option-cases (get_reel k s)) [
  | inl missing ↦ absurd (ground (arith, missing, h))
  | inr (r, found) ↦
      let live = find-holds (λ (x : Reel). x.pk == k && not x.is_deleted) s.reels r found in
      ground (arith, found, h, live)
]

-- A task that has read a reel and ends with the two files leaves a row that is not deleted and has the
-- caption and the moderation status of the time of the read, whatever the tables are by then, as long
-- as the row is stored: a deletion, an edit or a decision in between is lost.
pub end_transcode_stale :
    (k : ℕ) (s s1 later : ReelStore) (reel : Reel) (now content_type : ℕ) (video thumbnail : Text)
    (seconds : ℕ)
    → begin_transcode k s ≡ some (reel, s1)
    → any (λ r. r.pk == reel.pk) later.reels ≡ true
    → (row : Reel) × (find
          (λ r. r.pk == reel.pk)
          (end_transcode now content_type reel (transcoded video thumbnail seconds) later).reels
        ≡ some row)
      × (row.is_deleted ≡ false)
      × (row.caption ≡ reel.caption)
      × (row.status ≡ reel.status)
unfolding end_transcode
end_transcode_stale k s s1 later reel now content_type video thumbnail seconds begun stored =
    let new = finished video thumbnail seconds reel in
    let (rows, _) = get_or_create-rows content_type now reel.pk (save_reel new later) in
    (
      new,
      ap (find (λ r. r.pk == reel.pk)) rows ∙ find_replaced new later.reels stored,
      begin_transcode-live k s s1 reel begun,
      refl,
      refl,
    )
