-- ===== src/Feed/Exact.antt =====
-- The tiers of feed/services.py against the sorted union of all eligible posts and reels.
use cavallo_app.Feed.Order.{
  following_rows_after_lem, backfill_rows_after_lem, following_position, backfill_position,
}
use cavallo_app.Paging.Sources.{sources-Apart, map-filter, filter-append, sources-take}
use cavallo_app.Paging.{Apart, is_behind, page}
use cavallo_app.Prelude.{
  Distinct, true, arith, refl, sym, ap, ◌∙◌, ◌&&◌, sort, take, lex_lt, ◌++◌, ◌≡◌, filter, not, none,
  mem, map, by_key, some, Bool, Option, ℕ, List,
}
use cavallo_app.Feed.{
  following_rows_after, backfill_rows_after, Phase, is_phase, following_source, backfill_source,
  fetch_following_tier, fetch_backfill_tier, newest_row, featured_row, following_sort_key,
  backfill_sort_key, rows_of, is_after, following_entry, backfill_entry, FeedStore, FeedEntry,
  FeedRow, FeedCursor, ContentType,
}

-- the rows of a table that the business test selects, as entries
abbrev pub eligible : (ContentType → FeedRow → FeedEntry) → (ℕ → Bool) → FeedStore → List FeedEntry
eligible entry selected store =
    map (entry ContentType.post) (filter (λ r. selected r.business_id) store.posts)
    ++ map (entry ContentType.reel) (filter (λ r. selected r.business_id) store.reels)

abbrev pub following_entries : List ℕ → FeedStore → List FeedEntry
following_entries ids store = eligible following_entry (λ b. mem b ids) store

abbrev pub backfill_entries : List ℕ → FeedStore → List FeedEntry
backfill_entries ids store = eligible backfill_entry (λ b. not (mem b ids)) store

-- the keys that the cursors stand for
abbrev pub position_of : (FeedCursor → List ℕ) → Option FeedCursor → Option (List ℕ)
position_of position none = none
position_of position (some c) = some (position c)

module _ (entry : ContentType → FeedRow → FeedEntry) (key : FeedEntry → List ℕ)
    (before : FeedRow → FeedRow → Bool) (position : FeedCursor → List ℕ)
    (rows_after : ContentType → FeedCursor → FeedRow → Bool)
    (same : (t : ContentType) (a b : FeedRow) → by_key key (entry t a) (entry t b) ≡ before a b)
    (strict : (t : ContentType) (c : FeedCursor) (r : FeedRow)
      → rows_after t c r ≡ lex_lt (key (entry t r)) (position c))
    (selected : ℕ → Bool) where
  abbrev source : Option FeedCursor → ℕ → FeedStore → ContentType → List FeedEntry
  source after limit store t = map (entry t) (
      take limit (
        sort before (
          filter (λ r. selected r.business_id && is_after (rows_after t) after r)
            (rows_of t store))))

  after-behind :
      (t : ContentType) (after : Option FeedCursor) (r : FeedRow)
      → is_after (rows_after t) after r ≡ is_behind key (position_of position after) (entry t r)
  after-behind t none r = refl
  after-behind t (some c) r = strict t c r

  -- what the cursor leaves of a table
  abbrev left : Option FeedCursor → FeedStore → ContentType → List FeedRow
  left after store t =
      filter (λ r. selected r.business_id && is_after (rows_after t) after r) (rows_of t store)

  left-behind :
      (after : Option FeedCursor) (store : FeedStore) (t : ContentType)
      → map (entry t) (left after store t)
        ≡ filter
            (is_behind key (position_of position after))
            (map (entry t) (filter (λ r. selected r.business_id) (rows_of t store)))
  left-behind after store t =
      map-filter (entry t) (λ r. selected r.business_id)
        (λ r. selected r.business_id && is_after (rows_after t) after r)
        (is_behind key (position_of position after))
        (λ r. ap (λ b. selected r.business_id && b) (after-behind t after r)) (rows_of t store)

  tier-page :
      (after : Option FeedCursor) (limit : ℕ) (store : FeedStore)
      → take limit (
          sort (by_key key) (
            source after limit store ContentType.post ++ source after limit store ContentType.reel))
        ≡ page key limit (position_of position after) (eligible entry selected store)
  tier-page after limit store =
      let posts = map (entry ContentType.post) (filter (λ r. selected r.business_id) store.posts) in
      let reels = map (entry ContentType.reel) (filter (λ r. selected r.business_id) store.reels) in
      let behind = is_behind key (position_of position after) in
      sources-take key (entry ContentType.post) (entry ContentType.reel) before before
        (same ContentType.post) (same ContentType.reel) limit (left after store ContentType.post)
        (left after store ContentType.reel)
      ∙ ap
          (λ es. take limit (
            sort (by_key key)
              (es ++ map (entry ContentType.reel) (left after store ContentType.reel))))
          (left-behind after store ContentType.post)
      ∙ ap (λ es. take limit (sort (by_key key) (filter behind posts ++ es)))
          (left-behind after store ContentType.reel)
      ∙ ap (λ es. take limit (sort (by_key key) es)) (sym (filter-append behind posts reels))

following_same :
    (t : ContentType) (a b : FeedRow)
    → by_key following_sort_key (following_entry t a) (following_entry t b) ≡ newest_row a b
following_same t a b = ground arith

backfill_same :
    (t : ContentType) (a b : FeedRow)
    → by_key backfill_sort_key (backfill_entry t a) (backfill_entry t b) ≡ featured_row a b
backfill_same t a b = ground arith

module _ (ids : List ℕ) (store : FeedStore) where
  pub fetch_following_tier-page :
      (after : Option FeedCursor) (limit : ℕ)
      → is_phase Phase.following after ≡ true
      → fetch_following_tier ids after limit store
        ≡ some (
            page following_sort_key limit
              (position_of following_position after)
              (following_entries ids store))
  unfolding fetch_following_tier following_source
  fetch_following_tier-page after limit h =
      let exact =
        tier-page following_entry following_sort_key newest_row following_position
          following_rows_after following_same following_rows_after_lem (λ b. mem b ids) after limit
          store in
      rw h (ap some exact)

  pub fetch_backfill_tier-page :
      (after : Option FeedCursor) (limit : ℕ)
      → is_phase Phase.backfill after ≡ true
      → fetch_backfill_tier ids after limit store
        ≡ some (
            page backfill_sort_key limit
              (position_of backfill_position after)
              (backfill_entries ids store))
  unfolding fetch_backfill_tier backfill_source
  fetch_backfill_tier-page after limit h =
      let exact =
        tier-page backfill_entry backfill_sort_key featured_row backfill_position
          backfill_rows_after backfill_same backfill_rows_after_lem (λ b. not (mem b ids)) after
          limit store in
      rw h (ap some exact)

  module _ (posts : Distinct (λ (r : FeedRow). r.pk) store.posts)
      (reels : Distinct (λ (r : FeedRow). r.pk) store.reels) where
    pub following_entries-Apart : Apart following_sort_key (following_entries ids store)
    following_entries-Apart =
        sources-Apart following_sort_key (λ (r : FeedRow). r.pk) (λ r. r.pk)
          (following_entry ContentType.post) (following_entry ContentType.reel) _ _
          (λ a b h. ground (arith, h)) (λ a b h. ground (arith, h)) (λ a b. ground arith)
          store.posts store.reels posts reels

    pub backfill_entries-Apart : Apart backfill_sort_key (backfill_entries ids store)
    backfill_entries-Apart =
        sources-Apart backfill_sort_key (λ (r : FeedRow). r.pk) (λ r. r.pk)
          (backfill_entry ContentType.post) (backfill_entry ContentType.reel) _ _
          (λ a b h. ground (arith, h)) (λ a b h. ground (arith, h)) (λ a b. ground arith)
          store.posts store.reels posts reels
