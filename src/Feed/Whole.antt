-- ===== src/Feed/Whole.antt =====
-- feed/services.py: the home feed read to its end, each page from the cursor of the one before.
use cavallo_app.Feed.Walk.{get_home_feed-Reads}
use cavallo_app.Feed.Rest.{to_read}
use cavallo_app.Prelude.{
  refl, take-all, inr, sym, take-drop, ap, ◌∙◌, leb→le, inl, length, leb, Bool-cases, ◌+◌, arith,
  zero, ◌++◌, ◌*◌, take, some, none, ◌≡◌, [], ◌≤◌, suc, List, Option, Distinct, ℕ,
}
use cavallo_app.Feed.{max_page_size, get_home_feed, FeedEntry, Page, FeedRow, FeedCursor, FeedStore}
use mathlib.Core.List.{append-nil}

-- the items of so many pages
abbrev pub walk_home : ℕ → ℕ → Option FeedCursor → FeedStore → List FeedEntry
walk_home page_size zero cursor store = []
walk_home page_size (suc rounds) cursor store = elim (get_home_feed cursor page_size store) [
  | none ↦ []
  | some p ↦
      p.items
      ++ elim p.next_cursor [ none ↦ [] | some c ↦ walk_home page_size rounds (some c) store ]
]

module _ (store : FeedStore) where
  full_step :
      (size rounds : ℕ) (cursor : Option FeedCursor) (p : Page) (c : FeedCursor)
      → get_home_feed cursor size store ≡ some p
      → p.next_cursor ≡ some c
      → walk_home size (suc rounds) cursor store ≡ p.items ++ walk_home size rounds (some c) store
  full_step size rounds cursor p c found next = ground (arith, found, next)

  last_step :
      (size rounds : ℕ) (cursor : Option FeedCursor) (p : Page)
      → get_home_feed cursor size store ≡ some p
      → p.next_cursor ≡ none
      → walk_home size (suc rounds) cursor store ≡ p.items
  last_step size rounds cursor p found next = ground (arith, found, next, append-nil p.items)

  -- What a client reads that follows the home feed for some pages, of a size from 1 to 50, from a
  -- cursor or from the start, when no two posts and no two reels share a key: the first entries, as
  -- many as these pages hold, of all that is left behind the cursor. That is each entry of a
  -- followed business, in the order of the following tier, then each other entry but those of the
  -- user's own business, in the order of the backfill tier; none is left out or read twice.
  pub walk_home-take :
      (posts : Distinct (λ (r : FeedRow). r.pk) store.posts)
      (reels : Distinct (λ (r : FeedRow). r.pk) store.reels) (n rounds : ℕ)
      (cursor : Option FeedCursor)
      → suc n ≤ max_page_size
      → walk_home (suc n) rounds cursor store ≡ take (rounds * suc n) (to_read store cursor)
  walk_home-take posts reels n zero cursor size =
      let none_left : 0 * suc n ≡ 0 = omega arith in rw none_left refl
  walk_home-take posts reels n (suc rounds) cursor size =
      let rest = to_read store cursor in
      let count : suc rounds * suc n ≡ suc n + rounds * suc n = omega arith in
      let (p, found, (items, more, ends)) = get_home_feed-Reads store posts reels n cursor size in
      elim (Bool-cases (leb (suc n) (length rest))) [
        | inl full ↦
            let (c, next, left) = more (leb→le (suc n) (length rest) full) in
            full_step (suc n) rounds cursor p c found next
            ∙ ap (λ es. es ++ walk_home (suc n) rounds (some c) store) items
            ∙ ap (λ es. take (suc n) rest ++ es)
                (walk_home-take posts reels n rounds (some c) size
                  ∙ ap (take (rounds * suc n)) left)
            ∙ take-drop (suc n) (rounds * suc n) rest
            ∙ sym (ap (λ m. take m rest) count)
        | inr short ↦
            let few : length rest ≤ n = ground (arith, short) in
            last_step (suc n) rounds cursor p found (ends (omega (arith, few)))
            ∙ items
            ∙ take-all (suc n) rest (omega (arith, few))
            ∙ sym (take-all (suc rounds * suc n) rest (ground (arith, few, count)))
      ]
