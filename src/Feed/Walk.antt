-- ===== src/Feed/Walk.antt =====
-- feed/services.py: what a client reads that follows the home feed from page to page.
use mathlib.Core.List.{append-nil}
use mathlib.Core.Path.{subst}
use cavallo_app.Paging.Walk.{page-behind, behind-next, last_key-some}
use cavallo_app.Feed.Order.{following_position, backfill_position}
use cavallo_app.Feed.Exact.{
  fetch_following_tier-page, fetch_backfill_tier-page, following_entries-Apart,
  backfill_entries-Apart, following_entries, backfill_entries, position_of,
}
use cavallo_app.Paging.{is_behind}
use cavallo_app.Prelude.{
  leb→le, leb, drop-append_long, Bool-cases, take-append_long, drop-append_short, take-append_short,
  sym, length-append, take-all, ◌-◌, length-take, ◌+◌, ◌<◌, refl, ◌∙◌, [], inr, ap, inl, by_key,
  sort, none, drop, take, arith, length, ◌≤◌, ◌≡◌, some, suc, filter, ◌++◌, ℕ, Option, Distinct,
}
use cavallo_app.Feed.{
  paged, is_phase, max_page_size, get_home_feed, fill_page, next_cursor_of, page_of, Page,
  excluded_business_ids, Phase, last, following_sort_key, backfill_sort_key, FeedCursor, to_cursor,
  FeedEntry, FeedRow, FeedStore,
}
use cavallo_app.Feed.Rest.{
  followed_rest, backfill_rest, to_read, last-key, Reads, fill_page-short, to_read-following,
  to_read-backfill,
}

module _ (store : FeedStore) (posts : Distinct (λ (r : FeedRow). r.pk) store.posts)
    (reels : Distinct (λ (r : FeedRow). r.pk) store.reels) where
  -- what one page reads of a tier, and where the next begins
  following-next :
      (n : ℕ) (after : Option FeedCursor)
      → suc n ≤ length (followed_rest store after)
      → (e : FeedEntry) × (last (take (suc n) (followed_rest store after)) ≡ some e)
        × (followed_rest store (some (to_cursor Phase.following e))
            ≡ drop (suc n) (followed_rest store after))
  unfolding to_cursor
  following-next n after full =
      let entries = following_entries store.followed store in
      let (k, last_one) = last_key-some following_sort_key n (followed_rest store after) full in
      let (e, found, same) =
        last-key store following_sort_key (take (suc n) (followed_rest store after)) k last_one in
      (
        e,
        found,
        ap
              (λ j.
                filter (is_behind following_sort_key (some j))
                  (sort (by_key following_sort_key) entries))
              same
            ∙ behind-next following_sort_key entries
                (following_entries-Apart store.followed store posts reels) (suc n)
                (position_of following_position after) k full last_one,
      )

  backfill-next :
      (n : ℕ) (after : Option FeedCursor)
      → suc n ≤ length (backfill_rest store after)
      → (e : FeedEntry) × (last (take (suc n) (backfill_rest store after)) ≡ some e)
        × (backfill_rest store (some (to_cursor Phase.backfill e))
            ≡ drop (suc n) (backfill_rest store after))
  unfolding to_cursor
  backfill-next n after full =
      let entries = backfill_entries (excluded_business_ids store) store in
      let (k, last_one) = last_key-some backfill_sort_key n (backfill_rest store after) full in
      let (e, found, same) =
        last-key store backfill_sort_key (take (suc n) (backfill_rest store after)) k last_one in
      (
        e,
        found,
        ap
              (λ j.
                filter (is_behind backfill_sort_key (some j))
                  (sort (by_key backfill_sort_key) entries))
              same
            ∙ behind-next backfill_sort_key entries
                (backfill_entries-Apart (excluded_business_ids store) store posts reels) (suc n)
                (position_of backfill_position after) k full last_one,
      )

  -- a page of backfill entries alone
  backfill-Reads :
      (n : ℕ) (after : Option FeedCursor)
      → Reads store
          (suc n)
          (backfill_rest store after)
          (page_of (suc n) [] (take (suc n) (backfill_rest store after)))
  unfolding page_of next_cursor_of to_cursor
  backfill-Reads n after =
      let rest = backfill_rest store after in
      (
        refl,
        (λ full.
            let (e, found, next) = backfill-next n after full in
            let size = length-take (suc n) rest full in
            (to_cursor Phase.backfill e, ground (arith, size, found), next)),
        λ (short : length rest < suc n).
            let all = ap length (take-all (suc n) rest (omega (arith, short))) in
            ground (arith, all, short),
      )

  -- the followed tier fills the page
  following-Reads :
      (n : ℕ) (after : Option FeedCursor)
      → suc n ≤ length (followed_rest store after)
      → Reads store
          (suc n)
          (followed_rest store after ++ backfill_rest store none)
          (page_of (suc n) (take (suc n) (followed_rest store after)) [])
  unfolding page_of next_cursor_of to_cursor
  following-Reads n after full =
      let rest = followed_rest store after in
      let size = length-take (suc n) rest full in
      let whole = append-nil (take (suc n) rest) in
      let more = length-append rest (backfill_rest store none) in
      (
        whole ∙ sym (take-append_long (suc n) rest (backfill_rest store none) full),
        (λ _.
            let (e, found, next) = following-next n after full in
            (
              to_cursor Phase.following e,
              ground (arith, size, found, whole),
              ap (λ es. es ++ backfill_rest store none) next
                  ∙ sym (drop-append_long (suc n) rest (backfill_rest store none) full),
            )),
        λ (short : length (rest ++ backfill_rest store none) < suc n).
            absurd (omega (arith, more, full, short)),
      )

  -- the followed tier ends within the page
  both-Reads :
      (n m : ℕ) (after : Option FeedCursor)
      → length (followed_rest store after) + suc m ≡ suc n
      → Reads store
          (suc n)
          (followed_rest store after ++ backfill_rest store none)
          (page_of (suc n) (followed_rest store after) (take (suc m) (backfill_rest store none)))
  unfolding page_of next_cursor_of to_cursor
  both-Reads n m after sum =
      let xs = followed_rest store after in
      let ys = backfill_rest store none in
      let left : suc n - length xs ≡ suc m = omega (arith, sum) in
      let short_xs : length xs ≤ suc n = omega (arith, sum) in
      let size = length-append xs (take (suc m) ys) in
      let total = length-append xs ys in
      (
        sym (take-append_short (suc n) xs ys short_xs ∙ ap (λ k. xs ++ take k ys) left),
        (λ (full : suc n ≤ length (xs ++ ys)).
            let enough : suc m ≤ length ys = omega (arith, total, sum, full) in
            let (e, found, next) = backfill-next m none enough in
            let taken = length-take (suc m) ys enough in
            (
              to_cursor Phase.backfill e,
              ground (arith, size, taken, found, sum),
              next ∙ sym (drop-append_short (suc n) xs ys short_xs ∙ ap (λ k. drop k ys) left),
            )),
        λ (short : length (xs ++ ys) < suc n).
            let few : length ys ≤ suc m = omega (arith, total, sum, short) in
            let all = ap length (take-all (suc m) ys few) in
            ground (arith, all, size, total, short),
      )

  fill_page-Reads :
      (n : ℕ) (after : Option FeedCursor)
      → (p : Page) × (fill_page (suc n) (take (suc n) (followed_rest store after)) store ≡ some p)
        × Reads store (suc n) (followed_rest store after ++ backfill_rest store none) p
  unfolding fill_page
  fill_page-Reads n after = elim (Bool-cases (leb (suc n) (length (followed_rest store after)))) [
    | inl full ↦
        let enough = leb→le (suc n) (length (followed_rest store after)) full in
        let size = length-take (suc n) (followed_rest store after) enough in
        (
          page_of (suc n) (take (suc n) (followed_rest store after)) [],
          ground (arith, size),
          following-Reads n after enough,
        )
    | inr short ↦
        let few : length (followed_rest store after) ≤ suc n = ground (arith, short) in
        let all = take-all (suc n) (followed_rest store after) few in
        let m = n - length (followed_rest store after) in
        let left : suc n - length (followed_rest store after) ≡ suc m = ground (arith, short) in
        let exact =
          fetch_backfill_tier-page (excluded_business_ids store) store none (suc m) refl
          ∙ ap some (
              page-behind backfill_sort_key (backfill_entries (excluded_business_ids store) store)
                (backfill_entries-Apart (excluded_business_ids store) store posts reels) (suc m)
                none) in
        (
          page_of (suc n) (followed_rest store after) (take (suc m) (backfill_rest store none)),
          (ap (λ es. fill_page (suc n) es store) all
              ∙ fill_page-short store n m (followed_rest store after) (ground (arith, short))
              ∙ ap (paged (suc n) (followed_rest store after)) exact),
          both-Reads n m after (ground (arith, short)),
        )
  ]

  pub get_home_feed-Reads :
      (n : ℕ) (cursor : Option FeedCursor)
      → suc n ≤ max_page_size
      → (p : Page) × (get_home_feed cursor (suc n) store ≡ some p)
        × Reads store (suc n) (to_read store cursor) p
  unfolding get_home_feed
  get_home_feed-Reads n cursor size = elim (Bool-cases (is_phase Phase.following cursor)) [
    | inl first ↦
        let (p, filled, good) = fill_page-Reads n cursor in
        let found =
          fetch_following_tier-page store.followed store cursor (suc n) first
          ∙ ap some (
              page-behind following_sort_key (following_entries store.followed store)
                (following_entries-Apart store.followed store posts reels) (suc n)
                (position_of following_position cursor)) in
        (
          p,
          ground (arith, first, found, filled, size),
          subst (λ rest. Reads store (suc n) rest p) (sym (to_read-following store cursor first))
              good,
        )
    | inr resumed ↦
        let (rest, phase) = to_read-backfill store cursor resumed in
        let found =
          fetch_backfill_tier-page (excluded_business_ids store) store cursor (suc n) phase
          ∙ ap some (
              page-behind backfill_sort_key (backfill_entries (excluded_business_ids store) store)
                (backfill_entries-Apart (excluded_business_ids store) store posts reels) (suc n)
                (position_of backfill_position cursor)) in
        (
          page_of (suc n) [] (take (suc n) (backfill_rest store cursor)),
          ground (arith, resumed, found, size),
          subst
              (λ es.
                Reads store (suc n) es
                  (page_of (suc n) [] (take (suc n) (backfill_rest store cursor))))
              (sym rest) (backfill-Reads n cursor),
        )
  ]
