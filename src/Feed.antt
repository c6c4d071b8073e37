-- ===== src/Feed.antt =====
-- The feeds of feed/services.py and the positions of feed/cursor.py. A cursor is its decoded value.
pub mod Order
pub mod Pages
pub mod Exact
pub mod Rest
pub mod Walk
pub mod Whole
pub mod Home
mod Tests
use cavallo_app.Prelude.{
  lex_lt, by_key, length, ◌-◌, mem, filter, ◌++◌, sort, leb, ◌==◌, ◌&&◌, ◌||◌, take, ltb, [], ◌∷◌,
  weight, true, some, not, map, if◌then◌else◌, ℕ, none, false, Option, List, Bool,
}

pub data Phase : Type 0 where
  following backfill : Phase

pub data ContentType : Type 0 where
  post reel : ContentType

-- `CONTENT_TYPE_RANK`
abbrev pub content_type_rank : ContentType → ℕ
content_type_rank ContentType.post = 0
content_type_rank ContentType.reel = 1

abbrev pub max_page_size : ℕ
max_page_size = 50

-- `is_featured` is `none` in the following phase
pub record FeedCursor : Type 0 where
  pub phase : Phase
  pub created_at : ℕ
  pub content_type : ContentType
  pub object_id : ℕ
  pub is_featured : Option Bool

-- a row of `published_objects`, with the flag of its business joined
pub record FeedRow : Type 0 where
  pub pk : ℕ
  pub created_at : ℕ
  pub business_id : ℕ
  pub business_is_featured : Bool

pub record FeedEntry : Type 0 where
  pub content_type : ContentType
  pub obj : FeedRow
  pub is_featured : Bool

-- `FeedEntry.to_cursor`
unfoldable pub to_cursor : Phase → FeedEntry → FeedCursor
to_cursor phase entry = record {
  phase = phase;
  created_at = entry.obj.created_at;
  content_type = entry.content_type;
  object_id = entry.obj.pk;
  is_featured = elim phase [ Phase.following ↦ none | Phase.backfill ↦ some entry.is_featured ];
}

-- the two published tables, the user's follows and own business
pub record FeedStore : Type 0 where
  pub posts : List FeedRow
  pub reels : List FeedRow
  pub followed : List ℕ
  pub own_business : Option ℕ

abbrev pub rows_of : ContentType → FeedStore → List FeedRow
rows_of ContentType.post store = store.posts
rows_of ContentType.reel store = store.reels

abbrev pub following_sort_key : FeedEntry → List ℕ
following_sort_key e = e.obj.created_at ∷ content_type_rank e.content_type ∷ e.obj.pk ∷ []

abbrev pub backfill_sort_key : FeedEntry → List ℕ
backfill_sort_key e = weight e.is_featured ∷ following_sort_key e

-- `_following_rows_after`
unfoldable pub following_rows_after : ContentType → FeedCursor → FeedRow → Bool
following_rows_after content_type cursor row =
    let rank = content_type_rank content_type in
    let cursor_rank = content_type_rank cursor.content_type in
    if ltb rank cursor_rank
    then leb row.created_at cursor.created_at
    else if ltb cursor_rank rank
    then ltb row.created_at cursor.created_at
    else ltb row.created_at cursor.created_at
      || (row.created_at == cursor.created_at && ltb row.pk cursor.object_id)

-- the truth value of an optional flag
abbrev pub truthy : Option Bool → Bool
truthy none = false
truthy (some b) = b

-- `_backfill_rows_after`
unfoldable pub backfill_rows_after : ContentType → FeedCursor → FeedRow → Bool
backfill_rows_after content_type cursor row =
    let same_featured_tiebreak = following_rows_after content_type cursor row in
    if truthy cursor.is_featured
    then not row.business_is_featured || (row.business_is_featured && same_featured_tiebreak)
    else not row.business_is_featured && same_featured_tiebreak

-- `order_by("-created_at", "-id")`
abbrev pub newest_row : FeedRow → FeedRow → Bool
newest_row a b = not (lex_lt (a.created_at ∷ a.pk ∷ []) (b.created_at ∷ b.pk ∷ []))

-- `order_by("-business__is_featured", "-created_at", "-id")`
abbrev pub featured_row : FeedRow → FeedRow → Bool
featured_row a b = not (
    lex_lt (weight a.business_is_featured ∷ a.created_at ∷ a.pk ∷ [])
      (weight b.business_is_featured ∷ b.created_at ∷ b.pk ∷ []))

abbrev pub is_after : (FeedCursor → FeedRow → Bool) → Option FeedCursor → FeedRow → Bool
is_after after none row = true
is_after after (some cursor) row = after cursor row

abbrev pub following_entry : ContentType → FeedRow → FeedEntry
following_entry content_type row = record {
  content_type = content_type;
  obj = row;
  is_featured = false;
}

abbrev pub backfill_entry : ContentType → FeedRow → FeedEntry
backfill_entry content_type row = record {
  content_type = content_type;
  obj = row;
  is_featured = row.business_is_featured;
}

-- the rows of one source that the following tier reads
unfoldable pub following_source :
    List ℕ → Option FeedCursor → ℕ → FeedStore → ContentType → List FeedEntry
following_source business_ids after limit store content_type = map (following_entry content_type) (
    take limit (
      sort newest_row (
        filter
          (λ row.
            mem row.business_id business_ids
            && is_after (following_rows_after content_type) after row)
          (rows_of content_type store))))

-- the rows of one source that the backfill tier reads
unfoldable pub backfill_source :
    List ℕ → Option FeedCursor → ℕ → FeedStore → ContentType → List FeedEntry
backfill_source excluded_ids after limit store content_type = map (backfill_entry content_type) (
    take limit (
      sort featured_row (
        filter
          (λ row.
            not (mem row.business_id excluded_ids)
            && is_after (backfill_rows_after content_type) after row)
          (rows_of content_type store))))

-- the phase of the cursor, if there is one, is the tier's; otherwise ValueError
abbrev pub is_phase : Phase → Option FeedCursor → Bool
is_phase phase none = true
is_phase Phase.following (some c) = elim c.phase [ Phase.following ↦ true | Phase.backfill ↦ false ]
is_phase Phase.backfill (some c) = elim c.phase [ Phase.following ↦ false | Phase.backfill ↦ true ]

-- `fetch_following_tier`; `none` is a ValueError. A limit of zero takes no row, and an empty list
-- of businesses selects none.
unfoldable pub fetch_following_tier :
    List ℕ → Option FeedCursor → ℕ → FeedStore → Option (List FeedEntry)
fetch_following_tier business_ids after limit store =
    if not (is_phase Phase.following after)
    then none
    else some (
        take limit (
          sort (by_key following_sort_key) (
            following_source business_ids after limit store ContentType.post
            ++ following_source business_ids after limit store ContentType.reel)))

-- `fetch_backfill_tier`; a limit of zero takes no row
unfoldable pub fetch_backfill_tier :
    List ℕ → Option FeedCursor → ℕ → FeedStore → Option (List FeedEntry)
fetch_backfill_tier excluded_ids after limit store =
    if not (is_phase Phase.backfill after)
    then none
    else some (
        take limit (
          sort (by_key backfill_sort_key) (
            backfill_source excluded_ids after limit store ContentType.post
            ++ backfill_source excluded_ids after limit store ContentType.reel)))

abbrev pub last : List FeedEntry → Option FeedEntry
last [] = none
last (e ∷ es) = elim (last es) [ none ↦ some e | some f ↦ some f ]

pub record Page : Type 0 where
  pub items : List FeedEntry
  pub next_cursor : Option FeedCursor

-- the cursor of a full page: that of its last backfill item, or else of its last following item
unfoldable pub next_cursor_of : ℕ → List FeedEntry → List FeedEntry → Option FeedCursor
next_cursor_of page_size following_items backfill_items =
    if leb page_size (length (following_items ++ backfill_items))
    then elim (last backfill_items) [
      | some e ↦ some (to_cursor Phase.backfill e)
      | none ↦ elim (last following_items) [
        | some e ↦ some (to_cursor Phase.following e)
        | none ↦ none
      ]
    ]
    else none

unfoldable pub page_of : ℕ → List FeedEntry → List FeedEntry → Page
page_of page_size following_items backfill_items = record {
  items = following_items ++ backfill_items;
  next_cursor = next_cursor_of page_size following_items backfill_items;
}

abbrev pub paged : ℕ → List FeedEntry → Option (List FeedEntry) → Option Page
paged page_size following_items none = none
paged page_size following_items (some backfill_items) =
    some (page_of page_size following_items backfill_items)

abbrev pub excluded_business_ids : FeedStore → List ℕ
excluded_business_ids store = elim store.own_business [
  | none ↦ store.followed
  | some own ↦ own ∷ store.followed
]

-- the rest of a page is filled from the top of the backfill tier
unfoldable pub fill_page : ℕ → List FeedEntry → FeedStore → Option Page
fill_page page_size following_items store =
    let remaining = page_size - length following_items in
    let backfill = fetch_backfill_tier (excluded_business_ids store) none remaining store in
    if ltb 0 remaining
    then paged page_size following_items backfill
    else some (page_of page_size following_items [])

-- `get_home_feed`; `none` is a ValueError
unfoldable pub get_home_feed : Option FeedCursor → ℕ → FeedStore → Option Page
get_home_feed cursor page_size store =
    if page_size == 0 || ltb max_page_size page_size
    then none
    else if is_phase Phase.following cursor
    then (elim (fetch_following_tier store.followed cursor page_size store) [
      | none ↦ none
      | some following_items ↦ fill_page page_size following_items store
    ])
    else paged page_size []
        (fetch_backfill_tier (excluded_business_ids store) cursor page_size store)

-- `get_discover_feed`
unfoldable pub get_discover_feed : Option FeedCursor → ℕ → FeedStore → Option Page
get_discover_feed cursor page_size store =
    if page_size == 0 || ltb max_page_size page_size
    then none
    else paged page_size []
        (fetch_backfill_tier (excluded_business_ids store) cursor page_size store)
