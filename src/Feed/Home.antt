-- ===== src/Feed/Home.antt =====
-- The home page of feed/services.py as a whole.
use cavallo_app.Prelude.{
  by_key, false, length-take-le, take, refl, [], length-append, inr, ltb, arith, inl, true, sort,
  none, ◌-◌, ◌++◌, ◌⊎◌, some, leb, ◌≡◌, Bool-cases, ◌≤◌, ◌+◌, length, Option, List, ℕ,
}
use cavallo_app.Feed.{
  max_page_size, get_home_feed, ContentType, following_source, backfill_source, following_sort_key,
  backfill_sort_key, excluded_business_ids, Phase, is_phase, FeedStore, FeedCursor, FeedEntry,
  next_cursor_of, Page, page_of, fill_page, fetch_following_tier, fetch_backfill_tier,
}
use mathlib.Core.Path.{subst}

length-following :
    (ids : List ℕ) (after : Option FeedCursor) (limit : ℕ) (store : FeedStore)
    (entries : List FeedEntry)
    → fetch_following_tier ids after limit store ≡ some entries
    → length entries ≤ limit
unfolding fetch_following_tier
length-following ids after limit store entries h =
    let sorted = sort (by_key following_sort_key) (
      following_source ids after limit store ContentType.post
      ++ following_source ids after limit store ContentType.reel) in
    elim (Bool-cases (is_phase Phase.following after)) [
      | inl good ↦
          let same : take limit sorted ≡ entries = ground (arith, good, h) in
          subst (λ es. length es ≤ limit) same (length-take-le limit sorted)
      | inr bad ↦ absurd (ground (arith, bad, h))
    ]

length-backfill :
    (ids : List ℕ) (after : Option FeedCursor) (limit : ℕ) (store : FeedStore)
    → is_phase Phase.backfill after ≡ true
    → (entries : List FeedEntry) × (fetch_backfill_tier ids after limit store ≡ some entries)
      × (length entries ≤ limit)
unfolding fetch_backfill_tier
length-backfill ids after limit store good =
    let sorted = sort (by_key backfill_sort_key) (
      backfill_source ids after limit store ContentType.post
      ++ backfill_source ids after limit store ContentType.reel) in
    (take limit sorted, ground (arith, good), length-take-le limit sorted)

-- what a page promises: at most the size, and a cursor only when it is full
abbrev pub IsPage : ℕ → Page → Type 0
IsPage page_size page =
    (length page.items ≤ page_size) × ((length page.items ≡ page_size) ⊎ (page.next_cursor ≡ none))

page_of-IsPage :
    (page_size : ℕ) (xs ys : List FeedEntry)
    → length xs + length ys ≤ page_size
    → IsPage page_size (page_of page_size xs ys)
unfolding page_of next_cursor_of
page_of-IsPage page_size xs ys h = elim (Bool-cases (leb page_size (length (xs ++ ys)))) [
  | inl full ↦
      (omega (arith, length-append xs ys, h), inl (ground (arith, length-append xs ys, full, h)))
  | inr short ↦ (omega (arith, length-append xs ys, h), inr (ground (arith, short)))
]

fill_page-IsPage :
    (page_size : ℕ) (xs : List FeedEntry) (store : FeedStore)
    → length xs ≤ page_size
    → (page : Page) × (fill_page page_size xs store ≡ some page) × IsPage page_size page
unfolding fill_page
fill_page-IsPage page_size xs store h =
    let remaining = page_size - length xs in
    let (ys, found, short) =
      length-backfill (excluded_business_ids store) none remaining store refl in
    elim (Bool-cases (ltb 0 remaining)) [
      | inl some_left ↦ (
        page_of page_size xs ys,
        ground (arith, some_left, found),
        page_of-IsPage page_size xs ys (omega (arith, short, h)),
      )
      | inr full ↦ (
        page_of page_size xs [],
        ground (arith, full),
        page_of-IsPage page_size xs [] (omega (arith, h)),
      )
    ]

is_phase-other :
    (c : Option FeedCursor) → is_phase Phase.following c ≡ false → is_phase Phase.backfill c ≡ true
is_phase-other none h = absurd (ground arith)
is_phase-other (some c) h = by_phase c.phase h
  where
    by_phase :
        (p : Phase)
        → elim p [ Phase.following ↦ true | Phase.backfill ↦ false ] ≡ false
        → elim p [ Phase.following ↦ false | Phase.backfill ↦ true ] ≡ true
    by_phase Phase.following k = absurd (ground arith)
    by_phase Phase.backfill k = refl

following-found :
    (ids : List ℕ) (after : Option FeedCursor) (limit : ℕ) (store : FeedStore)
    → is_phase Phase.following after ≡ true
    → (entries : List FeedEntry) × (fetch_following_tier ids after limit store ≡ some entries)
unfolding fetch_following_tier
following-found ids after limit store good =
    let sorted = sort (by_key following_sort_key) (
      following_source ids after limit store ContentType.post
      ++ following_source ids after limit store ContentType.reel) in
    (take limit sorted, ground (arith, good))

-- For a page size from 1 to 50, a cursor of either phase or none gives a page of the home feed; it
-- has at most that many items, and it is full or has no next cursor.
pub get_home_feed_lem :
    (cursor : Option FeedCursor) (page_size : ℕ) (store : FeedStore)
    → 1 ≤ page_size
    → page_size ≤ max_page_size
    → (page : Page) × (get_home_feed cursor page_size store ≡ some page) × IsPage page_size page
unfolding get_home_feed
get_home_feed_lem cursor page_size store low high =
    elim (Bool-cases (is_phase Phase.following cursor)) [
      | inl first ↦
          let (xs, found) = following-found store.followed cursor page_size store first in
          let (page, filled, good) =
            fill_page-IsPage page_size xs store
              (length-following store.followed cursor page_size store xs found) in
          (page, ground (arith, first, found, filled, low, high), good)
      | inr resumed ↦
          let (ys, found, short) =
            length-backfill (excluded_business_ids store) cursor page_size store
              (is_phase-other cursor resumed) in
          (
            page_of page_size [] ys,
            ground (arith, resumed, found, low, high),
            page_of-IsPage page_size [] ys (omega (arith, short)),
          )
    ]
