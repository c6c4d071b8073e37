-- ===== src/Content/Tasks/Queued.antt =====
-- content/tasks.py with content/views.py: which reels have a row in the moderation queue.
pub mod Runs
use mathlib.Core.Path.{subst}
use cavallo_app.Content.Tasks.{
  raised, save_processing, finished, transcoded, queue_row, get_or_create, end_transcode,
  is_queue_row, begin_transcode, set_processing, Pipeline,
}
use cavallo_app.Moderation.Records.{ModerationQueue}
use cavallo_app.Prelude.{
  ltb, ◌||◌, not, sym, refl, Option-cases, find-All, All-map, All-append, count_none, ==→eq,
  ==-refl, ◌∙◌, count-append, weight, inr, Bool-cases, inl, arith, ◌+◌, ◌⊎◌, any, zero, suc,
  All-update_where, ◌++◌, ◌≢◌, update_where, some, true, none, ◌≤◌, ◌≡◌, count, [], Option, ◌==◌,
  ◌∷◌, ◌<◌, Text, List, All, ℕ,
}
use cavallo_app.Content.Reels.{
  save_reel, get_reel, ProcessingStatus, destroy_reel, update_reel, Reel, create_reel, ReelStore,
}

-- What happens to the reels: requests of owners and tasks, each in two parts, in any order. The first
-- part reads a row, and the second is named by its place in the order of these reads; it may come
-- late, or twice, as after a repeated delivery.
pub data ReelEvent : Type 0 where
  create_event : ℕ → Text → Text → ReelEvent
  open_event begin_event : ℕ → ReelEvent
  update_event : ℕ → Text → Text → ReelEvent
  destroy_event : ℕ → ReelEvent
  end_event : ℕ → ℕ → Pipeline → ReelEvent

-- `edits` are the rows that requests have read, and `reads` those of the tasks
pub record Workers : Type 0 where
  pub store : ReelStore
  pub edits : List Reel
  pub reads : List Reel

abbrev pub pick : ℕ → List Reel → Option Reel
pick n [] = none
pick zero (r ∷ rs) = some r
pick (suc n) (r ∷ rs) = pick n rs

module _ (content_type : ℕ) where
  abbrev pub happen : ReelEvent → Workers → Workers
  happen (create_event business caption video) w = record w {
    store = create_reel business caption video w.store;
  }
  happen (open_event k) w = elim (get_reel k w.store) [
    | none ↦ w
    | some reel ↦ record w { edits = w.edits ++ reel ∷ [] }
  ]
  happen (update_event n caption video) w = elim (pick n w.edits) [
    | none ↦ w
    | some reel ↦ record w { store = update_reel reel caption video w.store }
  ]
  happen (destroy_event n) w = elim (pick n w.edits) [
    | none ↦ w
    | some reel ↦ record w { store = destroy_reel reel w.store }
  ]
  happen (begin_event k) w = elim (begin_transcode k w.store) [
    | none ↦ w
    | some (reel, store) ↦ record w { store = store; reads = w.reads ++ reel ∷ [] }
  ]
  happen (end_event now n pipeline) w = elim (pick n w.reads) [
    | none ↦ w
    | some reel ↦ record w { store = end_transcode now content_type reel pipeline w.store }
  ]

  abbrev pub happen_all : List ReelEvent → Workers → Workers
  happen_all [] w = w
  happen_all (e ∷ es) w = happen_all es (happen e w)

  -- the rows of the queue that are about a reel, and what its processing status says of their number
  abbrev pub queued : ℕ → List ModerationQueue → ℕ
  queued k queue = count (is_queue_row content_type k) queue

  abbrev pub IsQueued : List ModerationQueue → Reel → Type 0
  IsQueued queue r =
      (queued r.pk queue ≤ 1)
      × (r.processing_status ≡ ProcessingStatus.ready
          → (queued r.pk queue ≡ 1) × (r.thumbnail ≢ none) × (r.duration_seconds ≢ none))

  -- a queue row about a reel is about a key that is given
  abbrev pub IsTarget : ℕ → ModerationQueue → Type 0
  IsTarget n q = (not (q.content_type == content_type) || ltb q.object_id n) ≡ true

  pub record IsRight (w : Workers) : Type 0 where
    pub reels : All (IsQueued w.store.queue) w.store.reels
    pub keys : All (λ r. r.pk < w.store.next_reel) w.store.reels
    pub targets : All (IsTarget w.store.next_reel) w.store.queue
    -- a request holds a row that was stored, however old
    pub edited : All (λ (r : Reel). (r.pk < w.store.next_reel) × IsQueued w.store.queue r) w.edits
    -- a task holds a stored row, with the status it has saved
    pub held :
        All
          (λ r. (r.pk < w.store.next_reel) × (r.processing_status ≡ ProcessingStatus.processing))
          w.reads

  open-IsQueued :
      (queue : List ModerationQueue) (r : Reel)
      → queued r.pk queue ≤ 1
      → (r.processing_status ≡ ProcessingStatus.processing)
        ⊎ (r.processing_status ≡ ProcessingStatus.failed)
      → IsQueued queue r
  open-IsQueued queue r h (inl open_) =
      (h, λ (e : r.processing_status ≡ ProcessingStatus.ready). absurd (ground (arith, open_, e)))
  open-IsQueued queue r h (inr open_) =
      (h, λ (e : r.processing_status ≡ ProcessingStatus.ready). absurd (ground (arith, open_, e)))

  -- a write of one column, or of a row that is right by itself, with the queue as it was
  pub save_processing-keeps :
      (k : ℕ) (status : ProcessingStatus) (queue : List ModerationQueue) (rs : List Reel)
      → (status ≡ ProcessingStatus.processing) ⊎ (status ≡ ProcessingStatus.failed)
      → All (IsQueued queue) rs
      → All (IsQueued queue) (update_where (λ r. r.pk == k) (set_processing status) rs)
  save_processing-keeps k status queue rs open_ h =
      All-update_where (IsQueued queue) (IsQueued queue) (λ r. r.pk == k) (set_processing status) rs
        (λ r g e. open-IsQueued queue (set_processing status r) g.0 open_) (λ r g e. g) h

  pub save_reel-keeps :
      (reel : Reel) (queue : List ModerationQueue) (rs : List Reel)
      → IsQueued queue reel
      → All (IsQueued queue) rs
      → All (IsQueued queue) (update_where (λ r. r.pk == reel.pk) (λ _. reel) rs)
  save_reel-keeps reel queue rs good h =
      All-update_where (IsQueued queue) (IsQueued queue) (λ r. r.pk == reel.pk) (λ _. reel) rs
        (λ r g e. good) (λ r g e. g) h

  queued-append :
      (now j k pk : ℕ) (queue : List ModerationQueue)
      → queued k (queue ++ queue_row now content_type j pk ∷ []) ≡ queued k queue + weight (j == k)
  queued-append now j k pk queue =
      count-append (is_queue_row content_type k) queue (queue_row now content_type j pk ∷ [])
      ∙ ground (arith, ==-refl content_type)

  queued-some :
      (k : ℕ) (queue : List ModerationQueue)
      → any (is_queue_row content_type k) queue ≡ true
      → 1 ≤ queued k queue
  queued-some k [] h = ground (arith, h)
  queued-some k (q ∷ qs) h = ground (arith, h, queued-some k qs)

  finished-IsQueued :
      (video thumbnail : Text) (seconds : ℕ) (reel : Reel) (queue : List ModerationQueue)
      → queued reel.pk queue ≡ 1
      → IsQueued queue (finished video thumbnail seconds reel)
  finished-IsQueued video thumbnail seconds reel queue h = (
    omega (arith, h),
    λ _. (
      h,
      λ (e : some thumbnail ≡ none). absurd (ground (arith, e)),
      λ (e : some seconds ≡ none). absurd (ground (arith, e)),
    ),
  )

  same_key :
      (r reel : Reel) (queue : List ModerationQueue)
      → (r.pk == reel.pk) ≡ true
      → queued r.pk queue ≤ 1
      → queued reel.pk queue ≤ 1
  same_key r reel queue e h = subst (λ k. queued k queue ≤ 1) (==→eq r.pk reel.pk e) h

  other_queued :
      (r : Reel) (queue queue' : List ModerationQueue)
      → queued r.pk queue' ≡ queued r.pk queue
      → IsQueued queue r
      → IsQueued queue' r
  other_queued r queue queue' e h = (
    omega (arith, e, h.0),
    λ d. let (one, thumbnail, seconds) = h.1 d in (e ∙ one, thumbnail, seconds),
  )

  -- any row that is right stays so under the queue row of a reel
  pub get_or_create-keeps :
      (now k : ℕ) (store : ReelStore) (r : Reel)
      → IsQueued store.queue r
      → IsQueued (get_or_create now content_type k store).queue r
  unfolding get_or_create
  get_or_create-keeps now k store r h =
      elim (Bool-cases (any (is_queue_row content_type k) store.queue)) [
        | inl old ↦ rw old h
        | inr fresh ↦ rw fresh (elim (Bool-cases (k == r.pk)) [
          | inr other ↦
              other_queued r store.queue _
                (queued-append now k r.pk store.next_queue store.queue ∙ ground (arith, other)) h
          | inl same ↦
              let empty : queued r.pk store.queue ≡ 0 =
                subst (λ j. queued j store.queue ≡ 0) (==→eq k r.pk same)
                  (count_none (is_queue_row content_type k) store.queue fresh) in
              let one = queued-append now k r.pk store.next_queue store.queue in
              (
                ground (arith, one, empty, same),
                λ (e : r.processing_status ≡ ProcessingStatus.ready).
                    absurd (ground (arith, (h.1 e).0, empty)),
              )
        ])
      ]

  get_or_create-one :
      (now k : ℕ) (store : ReelStore)
      → queued k store.queue ≤ 1
      → queued k (get_or_create now content_type k store).queue ≡ 1
  unfolding get_or_create
  get_or_create-one now k store h =
      elim (Bool-cases (any (is_queue_row content_type k) store.queue)) [
        | inl old ↦ rw old (omega (arith, queued-some k store.queue old, h))
        | inr fresh ↦ rw fresh (
            queued-append now k k store.next_queue store.queue
            ∙ ground (arith, count_none (is_queue_row content_type k) store.queue fresh, ==-refl k))
      ]

  -- the end of a transcoding: the ready row, and its row in the queue
  pub finish-keeps :
      (now : ℕ) (video thumbnail : Text) (seconds : ℕ) (reel : Reel) (store : ReelStore)
      → All (IsQueued store.queue) store.reels
      → let saved = save_reel (finished video thumbnail seconds reel) store in
        All (IsQueued (get_or_create now content_type reel.pk saved).queue) saved.reels
  finish-keeps now video thumbnail seconds reel store h =
      let saved = save_reel (finished video thumbnail seconds reel) store in
      All-update_where (IsQueued store.queue)
        (IsQueued (get_or_create now content_type reel.pk saved).queue) (λ r. r.pk == reel.pk)
        (λ _. finished video thumbnail seconds reel) store.reels
        (λ r g e.
          finished-IsQueued video thumbnail seconds reel _
            (get_or_create-one now reel.pk saved (same_key r reel store.queue e g.0)))
        (λ r g e. get_or_create-keeps now reel.pk saved r g) h
