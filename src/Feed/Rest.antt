-- ===== src/Feed/Rest.antt =====
-- feed/services.py: what is left of the two tiers behind a cursor.
use cavallo_app.Feed.Order.{following_position, backfill_position}
use cavallo_app.Feed.Exact.{following_entries, backfill_entries, position_of}
use cavallo_app.Paging.{is_behind, last_key}
use cavallo_app.Prelude.{
  true, false, ◌-◌, ◌+◌, ◌<◌, refl, [], inr, inl, by_key, Option-cases, sort, none, drop, ◌∷◌, take,
  arith, length, ◌≤◌, ◌≡◌, some, suc, filter, ◌++◌, ℕ, List, Option,
}
use cavallo_app.Feed.{
  fetch_backfill_tier, paged, is_phase, fill_page, Page, excluded_business_ids, Phase, last,
  following_sort_key, backfill_sort_key, FeedCursor, FeedEntry, FeedStore,
}

module _ (store : FeedStore) where
  -- the entries of the two tiers in their orders, behind a cursor
  abbrev pub followed_rest : Option FeedCursor → List FeedEntry
  followed_rest after =
      filter (is_behind following_sort_key (position_of following_position after))
        (sort (by_key following_sort_key) (following_entries store.followed store))

  abbrev pub backfill_rest : Option FeedCursor → List FeedEntry
  backfill_rest after =
      filter (is_behind backfill_sort_key (position_of backfill_position after))
        (sort (by_key backfill_sort_key) (backfill_entries (excluded_business_ids store) store))

  -- all that is still to be read
  abbrev pub to_read : Option FeedCursor → List FeedEntry
  to_read none = followed_rest none ++ backfill_rest none
  to_read (some c) = elim c.phase [
    | Phase.following ↦ followed_rest (some c) ++ backfill_rest none
    | Phase.backfill ↦ backfill_rest (some c)
  ]

  pub last-key :
      (key : FeedEntry → List ℕ) (es : List FeedEntry) (k : List ℕ)
      → last_key key es ≡ some k
      → (e : FeedEntry) × (last es ≡ some e) × (key e ≡ k)
  last-key key [] k h = absurd (ground (arith, h))
  last-key key (e ∷ es) k h = elim (Option-cases (last_key key es)) [
    | inl ends ↦ (e, ground (arith, last-none key es ends), ground (arith, ends, h))
    | inr (j, later) ↦
        let (f, found, same) = last-key key es j later in
        (f, ground (arith, found), ground (arith, same, later, h))
  ]
    where
      last-none :
          (key : FeedEntry → List ℕ) (es : List FeedEntry) → last_key key es ≡ none → last es ≡ none
      last-none key [] h = refl
      last-none key (e ∷ es) h = elim (Option-cases (last_key key es)) [
        | inl ends ↦ absurd (ground (arith, ends, h))
        | inr (j, later) ↦ absurd (ground (arith, later, h))
      ]

  -- a page of what is to be read, and the cursor to the rest of it
  abbrev pub Reads : ℕ → List FeedEntry → Page → Type 0
  Reads n rest p =
      (p.items ≡ take n rest)
      × (n ≤ length rest
          → (c : FeedCursor) × (p.next_cursor ≡ some c) × (to_read (some c) ≡ drop n rest))
      × (length rest < n → p.next_cursor ≡ none)

  pub fill_page-short :
      (n m : ℕ) (xs : List FeedEntry)
      → length xs + suc m ≡ suc n
      → fill_page (suc n) xs store
        ≡ paged (suc n) xs (fetch_backfill_tier (excluded_business_ids store) none (suc m) store)
  unfolding fill_page
  fill_page-short n m xs sum =
      let left : suc n - length xs ≡ suc m = omega (arith, sum) in rw left (ground arith)

  pub to_read-following :
      (cursor : Option FeedCursor)
      → is_phase Phase.following cursor ≡ true
      → to_read cursor ≡ followed_rest cursor ++ backfill_rest none
  to_read-following none h = refl
  to_read-following (some c) h = by_phase c.phase h
    where
      by_phase :
          (p : Phase)
          → elim p [ Phase.following ↦ true | Phase.backfill ↦ false ] ≡ true
          → elim p [
            | Phase.following ↦ followed_rest (some c) ++ backfill_rest none
            | Phase.backfill ↦ backfill_rest (some c)
          ]
            ≡ followed_rest (some c) ++ backfill_rest none
      by_phase Phase.following h = refl
      by_phase Phase.backfill h = absurd (ground (arith, h))

  pub to_read-backfill :
      (cursor : Option FeedCursor)
      → is_phase Phase.following cursor ≡ false
      → (to_read cursor ≡ backfill_rest cursor) × (is_phase Phase.backfill cursor ≡ true)
  to_read-backfill none h = absurd (ground (arith, h))
  to_read-backfill (some c) h = by_phase c.phase h
    where
      by_phase :
          (p : Phase)
          → elim p [ Phase.following ↦ true | Phase.backfill ↦ false ] ≡ false
          → (elim p [
            | Phase.following ↦ followed_rest (some c) ++ backfill_rest none
            | Phase.backfill ↦ backfill_rest (some c)
          ]
              ≡ backfill_rest (some c))
            × (elim p [ Phase.following ↦ false | Phase.backfill ↦ true ] ≡ true)
      by_phase Phase.following h = absurd (ground (arith, h))
      by_phase Phase.backfill h = (refl, refl)
