-- ===== src/Feed/Tests.antt =====
-- Runs of the feeds on small tables, and the theorems at them.
use cavallo_app.Feed.Whole.{walk_home-take, walk_home}
use cavallo_app.Feed.Rest.{to_read}
use cavallo_app.Feed.Home.{get_home_feed_lem, IsPage}
use cavallo_app.Prelude.{
  take, arith, refl, ◌≡◌, map, true, some, none, ◌∷◌, [], false, Bool, ℕ, Option, List,
}
use cavallo_app.Feed.{
  content_type_rank, ContentType, page_of, following_rows_after, following_entry, Phase, FeedRow,
  to_cursor, following_source, fill_page, backfill_source, Page, FeedEntry, get_home_feed,
  fetch_following_tier, fetch_backfill_tier, FeedStore, FeedCursor,
}

abbrev row : ℕ → ℕ → ℕ → Bool → FeedRow
row pk created_at business_id featured = record {
  pk = pk;
  created_at = created_at;
  business_id = business_id;
  business_is_featured = featured;
}

abbrev shelf : FeedStore
shelf = record {
  posts = row 1 10 1 false ∷ row 2 30 1 false ∷ row 3 20 2 true ∷ row 4 40 3 false ∷ [];
  reels = row 1 30 1 false ∷ row 2 5 2 true ∷ [];
  followed = 1 ∷ [];
  own_business = some 9;
}

-- after the reel of time 30, which stands before the post of time 30
abbrev resume : FeedCursor
resume = to_cursor Phase.following (following_entry ContentType.reel (row 1 30 1 false))

abbrev position : Option (List FeedEntry) → List (ℕ × ℕ)
position none = []
position (some es) = map (λ e. (content_type_rank e.content_type, e.obj.pk)) es

tier_runs :
    (position (fetch_following_tier (1 ∷ []) none 2 shelf) ≡ (1, 1) ∷ (0, 2) ∷ [])
    × (position (fetch_following_tier (1 ∷ []) (some resume) 2 shelf) ≡ (0, 2) ∷ (0, 1) ∷ [])
    × (position (fetch_backfill_tier (1 ∷ []) none 3 shelf) ≡ (0, 3) ∷ (1, 2) ∷ (0, 4) ∷ [])
unfolding fetch_following_tier fetch_backfill_tier following_source backfill_source
    following_rows_after to_cursor
tier_runs = (refl, refl, refl)

abbrev items_of : Option Page → List (ℕ × ℕ)
items_of none = []
items_of (some page) = position (some page.items)

home_runs : items_of (get_home_feed none 4 shelf) ≡ (1, 1) ∷ (0, 2) ∷ (0, 1) ∷ (0, 3) ∷ []
unfolding get_home_feed fill_page page_of fetch_following_tier fetch_backfill_tier following_source
    backfill_source
home_runs = refl

get_home_feed_lem_example :
    (page : Page) × (get_home_feed (some resume) 4 shelf ≡ some page) × IsPage 4 page
get_home_feed_lem_example = get_home_feed_lem (some resume) 4 shelf (omega arith) (omega arith)

-- two pages from the start, of the tier of one followed business and then of the others
walk_home-take_example : walk_home 3 2 none shelf ≡ take 6 (to_read shelf none)
walk_home-take_example =
    walk_home-take shelf (refl, (refl, (refl, (refl, tt)))) (refl, (refl, tt)) 2 2 none
      (omega arith)

walk_runs :
    position (some (to_read shelf none)) ≡ (1, 1) ∷ (0, 2) ∷ (0, 1) ∷ (0, 3) ∷ (1, 2) ∷ (0, 4) ∷ []
walk_runs = refl
