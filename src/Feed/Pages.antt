-- ===== src/Feed/Pages.antt =====
-- The pages of feed/services.py.
use cavallo_app.Feed.Order.{
  sort-IsDescending, take-IsDescending, All-sort, following_rows_after_lem, backfill_rows_after_lem,
  following_position, backfill_position, IsDescending,
}
use cavallo_app.Prelude.{
  lex_lt, by_key, All-take, All-append, length-take-le, ◌++◌, arith, refl, All-map, ◌≤◌,
  if◌then◌else◌, [], ◌∷◌, take, length, filter, false, true, sort, some, mem, map, insert, ◌≡◌, All,
  ℕ, List, Bool,
}
use cavallo_app.Feed.{
  rows_of, newest_row, following_sort_key, featured_row, backfill_sort_key, following_entry,
  backfill_entry, ContentType, following_source, fetch_following_tier, fetch_backfill_tier,
  backfill_source, FeedCursor, FeedStore, FeedRow, FeedEntry,
}
use mathlib.Core.Path.{subst}

All-map-source :
    (P : FeedEntry → Type 0) (f : FeedRow → FeedEntry) (rows : List FeedRow)
    → All (λ r. P (f r)) rows
    → All P (map f rows)
All-map-source P f [] h = tt
All-map-source P f (r ∷ rows) h = (h.0, All-map-source P f rows h.1)

All-insert_row :
    (P : FeedRow → Type 0) (before : FeedRow → FeedRow → Bool) (r : FeedRow) (rows : List FeedRow)
    → P r
    → All P rows
    → All P (insert before r rows)
All-insert_row P before r [] h k = (h, tt)
All-insert_row P before r (s ∷ rows) h k =
    by_test (All-insert_row P before r rows h k.1) (before r s)
  where
    by_test :
        All P (insert before r rows)
        → (b : Bool) → All P (if b then r ∷ s ∷ rows else s ∷ insert before r rows)
    by_test rest true = (h, k)
    by_test rest false = (k.0, rest)

All-sort_rows :
    (P : FeedRow → Type 0) (before : FeedRow → FeedRow → Bool) (rows : List FeedRow)
    → All P rows
    → All P (sort before rows)
All-sort_rows P before [] h = tt
All-sort_rows P before (r ∷ rows) h =
    All-insert_row P before r (sort before rows) h.0 (All-sort_rows P before rows h.1)

All-filter : (p : FeedRow → Bool) (rows : List FeedRow) → All (λ r. p r ≡ true) (filter p rows)
All-filter p [] = tt
All-filter p (r ∷ rows) = by_test (All-filter p rows) (p r) refl
  where
    by_test :
        All (λ r. p r ≡ true) (filter p rows)
        → (b : Bool) → p r ≡ b
        → All (λ r. p r ≡ true) (if b then r ∷ filter p rows else filter p rows)
    by_test rest true e = (e, rest)
    by_test rest false e = rest

-- what every row of a source that passes the filter gives its entry
All-source :
    (P : FeedEntry → Type 0) (f : FeedRow → FeedEntry) (before : FeedRow → FeedRow → Bool)
    (p : FeedRow → Bool) (limit : ℕ) (rows : List FeedRow)
    → ((r : FeedRow) → p r ≡ true → P (f r))
    → All P (map f (take limit (sort before (filter p rows))))
All-source P f before p limit rows holds =
    All-map-source P f (take limit (sort before (filter p rows))) (
      All-take (λ r. P (f r)) limit (sort before (filter p rows))
        (All-sort_rows (λ r. P (f r)) before (filter p rows)
          (All-map (λ r. p r ≡ true) (λ r. P (f r)) (filter p rows) holds (All-filter p rows))))

module _ (store : FeedStore) (limit : ℕ) where
  -- an entry of a page of the following tier
  abbrev pub IsFollowed : List ℕ → FeedCursor → FeedEntry → Type 0
  IsFollowed ids c e =
      (mem e.obj.business_id ids ≡ true)
      × (lex_lt (following_sort_key e) (following_position c) ≡ true)

  abbrev pub IsBackfill : List ℕ → FeedCursor → FeedEntry → Type 0
  IsBackfill ids c e =
      (mem e.obj.business_id ids ≡ false)
      × (lex_lt (backfill_sort_key e) (backfill_position c) ≡ true)

  following_source-IsFollowed :
      (ids : List ℕ) (c : FeedCursor) (t : ContentType)
      → All (IsFollowed ids c) (following_source ids (some c) limit store t)
  unfolding following_source
  following_source-IsFollowed ids c t =
      All-source (IsFollowed ids c) (following_entry t) newest_row _ limit (rows_of t store)
        (λ r e. (ground arith, ground (arith, following_rows_after_lem t c r)))

  backfill_source-IsBackfill :
      (ids : List ℕ) (c : FeedCursor) (t : ContentType)
      → All (IsBackfill ids c) (backfill_source ids (some c) limit store t)
  unfolding backfill_source
  backfill_source-IsBackfill ids c t =
      All-source (IsBackfill ids c) (backfill_entry t) featured_row _ limit (rows_of t store)
        (λ r e. (ground arith, ground (arith, backfill_rows_after_lem t c r)))

  -- Resumed from a cursor of its phase, the following tier gives at most the limit of entries, all of
  -- businesses in the list and strictly after the cursor, in descending order of their keys.
  pub fetch_following_tier_lem :
      (ids : List ℕ) (c : FeedCursor) (entries : List FeedEntry)
      → fetch_following_tier ids (some c) limit store ≡ some entries
      → (length entries ≤ limit)
        × All (IsFollowed ids c) entries
        × IsDescending following_sort_key entries
  unfolding fetch_following_tier
  fetch_following_tier_lem ids c entries h =
      let post = following_source ids (some c) limit store ContentType.post in
      let reel = following_source ids (some c) limit store ContentType.reel in
      let sorted = sort (by_key following_sort_key) (post ++ reel) in
      let same : take limit sorted ≡ entries = ground arith in
      subst
        (λ es. (length es ≤ limit) × All (IsFollowed ids c) es × IsDescending following_sort_key es)
        same
        (
          length-take-le limit sorted,
          All-take (IsFollowed ids c) limit sorted (
              All-sort following_sort_key (IsFollowed ids c) (post ++ reel) (
                All-append (IsFollowed ids c) post reel
                  (following_source-IsFollowed ids c ContentType.post)
                  (following_source-IsFollowed ids c ContentType.reel))),
          take-IsDescending following_sort_key limit sorted
              (sort-IsDescending following_sort_key (post ++ reel)),
        )

  -- Resumed from a cursor of its phase, the backfill tier gives at most the limit of entries, none of
  -- the excluded businesses and all strictly after the cursor, in descending order of their keys, so
  -- that featured ones come first.
  pub fetch_backfill_tier_lem :
      (ids : List ℕ) (c : FeedCursor) (entries : List FeedEntry)
      → fetch_backfill_tier ids (some c) limit store ≡ some entries
      → (length entries ≤ limit)
        × All (IsBackfill ids c) entries
        × IsDescending backfill_sort_key entries
  unfolding fetch_backfill_tier
  fetch_backfill_tier_lem ids c entries h =
      let post = backfill_source ids (some c) limit store ContentType.post in
      let reel = backfill_source ids (some c) limit store ContentType.reel in
      let sorted = sort (by_key backfill_sort_key) (post ++ reel) in
      let same : take limit sorted ≡ entries = ground arith in
      subst
        (λ es. (length es ≤ limit) × All (IsBackfill ids c) es × IsDescending backfill_sort_key es)
        same
        (
          length-take-le limit sorted,
          All-take (IsBackfill ids c) limit sorted (
              All-sort backfill_sort_key (IsBackfill ids c) (post ++ reel) (
                All-append (IsBackfill ids c) post reel
                  (backfill_source-IsBackfill ids c ContentType.post)
                  (backfill_source-IsBackfill ids c ContentType.reel))),
          take-IsDescending backfill_sort_key limit sorted
              (sort-IsDescending backfill_sort_key (post ++ reel)),
        )
