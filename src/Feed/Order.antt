-- ===== src/Feed/Order.antt =====
-- The filters of feed/services.py against the sort keys of its tiers, and sorting by a key.

use cavallo_app.Prelude.{
  lex_lt_asym, lex_lt_trans, lex_lt, by_key, All-take, All-map, refl, not, if◌then◌else◌, arith,
  zero, true, false, [], Bool, ◌≡◌, suc, ◌∷◌, weight, take, sort, insert, All, ℕ, List,
}
use cavallo_app.Feed.{
  following_entry, backfill_entry, following_sort_key, backfill_sort_key, truthy, content_type_rank,
  FeedRow, ContentType, following_rows_after, backfill_rows_after, FeedEntry, FeedCursor,
}

-- the position of a cursor in the order of the following tier
abbrev pub following_position : FeedCursor → List ℕ
following_position c = c.created_at ∷ content_type_rank c.content_type ∷ c.object_id ∷ []

abbrev pub backfill_position : FeedCursor → List ℕ
backfill_position c = weight (truthy c.is_featured) ∷ following_position c

-- the filter of the following tier is the strict order of its sort key
pub following_rows_after_lem :
    (t : ContentType) (c : FeedCursor) (row : FeedRow)
    → following_rows_after t c row
      ≡ lex_lt (following_sort_key (following_entry t row)) (following_position c)
unfolding following_rows_after
following_rows_after_lem t c row = ground arith

pub backfill_rows_after_lem :
    (t : ContentType) (c : FeedCursor) (row : FeedRow)
    → backfill_rows_after t c row
      ≡ lex_lt (backfill_sort_key (backfill_entry t row)) (backfill_position c)
unfolding backfill_rows_after
backfill_rows_after_lem t c row = ground (arith, following_rows_after_lem t c row)

module _ (key : FeedEntry → List ℕ) where
  -- no entry has a greater key than one in front of it
  abbrev pub IsDescending : List FeedEntry → Type 0
  IsDescending [] = Unit
  IsDescending (e ∷ es) = All (λ f. lex_lt (key e) (key f) ≡ false) es × IsDescending es

  All-insert :
      (P : FeedEntry → Type 0) (e : FeedEntry) (es : List FeedEntry)
      → P e
      → All P es
      → All P (insert (by_key key) e es)
  All-insert P e [] h k = (h, tt)
  All-insert P e (f ∷ es) h k = by_test (All-insert P e es h k.1) (by_key key e f)
    where
      by_test :
          All P (insert (by_key key) e es)
          → (b : Bool) → All P (if b then e ∷ f ∷ es else f ∷ insert (by_key key) e es)
      by_test rest true = (h, k)
      by_test rest false = (k.0, rest)

  pub All-sort :
      (P : FeedEntry → Type 0) (es : List FeedEntry) → All P es → All P (sort (by_key key) es)
  All-sort P [] h = tt
  All-sort P (e ∷ es) h = All-insert P e (sort (by_key key) es) h.0 (All-sort P es h.1)

  insert-IsDescending :
      (e : FeedEntry) (es : List FeedEntry)
      → IsDescending es
      → IsDescending (insert (by_key key) e es)
  insert-IsDescending e [] h = (tt, tt)
  insert-IsDescending e (f ∷ es) h =
      by_test (insert-IsDescending e es h.1) (lex_lt (key e) (key f)) refl
    where
      by_test :
          IsDescending (insert (by_key key) e es)
          → (b : Bool) → lex_lt (key e) (key f) ≡ b
          → IsDescending (if not b then e ∷ f ∷ es else f ∷ insert (by_key key) e es)
      by_test rest false q =
          ((q, All-map _ _ es (λ g k. lex_lt_trans (key e) (key f) (key g) q k) h.0), h)
      by_test rest true q = (
        All-insert (λ g. lex_lt (key f) (key g) ≡ false) e es (lex_lt_asym (key e) (key f) q) h.0,
        rest,
      )

  pub sort-IsDescending : (es : List FeedEntry) → IsDescending (sort (by_key key) es)
  sort-IsDescending [] = tt
  sort-IsDescending (e ∷ es) = insert-IsDescending e (sort (by_key key) es) (sort-IsDescending es)

  pub take-IsDescending : (n : ℕ) (es : List FeedEntry) → IsDescending es → IsDescending (take n es)
  take-IsDescending zero es h = tt
  take-IsDescending (suc n) [] h = tt
  take-IsDescending (suc n) (e ∷ es) h = (All-take _ n es h.0, take-IsDescending n es h.1)
