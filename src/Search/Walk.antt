-- ===== src/Search/Walk.antt =====
-- search/services.py: the search read to its end, each page from the cursor of the one before.
use cavallo_app.Paging.Walk.{walk-take}
use cavallo_app.Search.Exact.{all_results-Apart, merged_items-page, position_of, all_results}
use cavallo_app.Paging.{next_position, is_behind, walk, page, last_key}
use cavallo_app.Prelude.{
  true, filter-always, ◌*◌, ◌⊎◌, take, sym, ap, Distinct, length, All-filter, leb, All-sort,
  Bool-cases, ◌∙◌, filter, by_key, sort, if◌then◌else◌, All-take, ◌≤◌, refl, inr, inl, Option-cases,
  zero, none, ◌++◌, pos, ◌∷◌, suc, arith, some, [], ◌≡◌, ℕ, Option, All, Text, List,
}
use cavallo_app.Search.Services.{FullText}
use mathlib.Core.Path.{subst}
use cavallo_app.Search.Wire.{Carries, decode-encode}
use cavallo_app.Search.Results.{
  page_after, search_cursor_of, mode_for, normalized_query, SearchPage, decoded_cursor,
  get_search_results,
}
use cavallo_app.Search.Cursor.{
  same_mode, encode_cursor, Mode, Wire, SearchCursor, decode_cursor, Parsed,
}
use cavallo_app.Search.Filters.{
  BusinessRow, Product, to_search_cursor, max_search_page, SearchStore, SearchFilters, SearchResult,
  sort_key,
}
use cavallo_app.Search.Results.{get_search_results, decoded_cursor, last_item}

-- the results of so many pages
abbrev pub walk_search :
    {V : Type 0}
    → FullText V
    → Wire
    → SearchFilters
    → Option Text
    → ℕ
    → ℕ
    → Option Text
    → SearchStore V
    → List SearchResult
walk_search ft w filters q page_size zero cursor store = []
walk_search ft w filters q page_size (suc rounds) cursor store =
    elim (get_search_results ft w filters q cursor (pos page_size) store) [
      | Parsed.value p ↦ p.items ++ elim p.next_cursor [
        | none ↦ []
        | some c ↦ walk_search ft w filters q page_size rounds (some c) store
      ]
      | Parsed.value_error ↦ []
      | Parsed.uncaught ↦ []
    ]

last_item-none : (es : List SearchResult) → last_key sort_key es ≡ none → last_item es ≡ none
last_item-none [] h = refl
last_item-none (e ∷ es) h = elim (Option-cases (last_key sort_key es)) [
  | inl ends ↦ absurd (ground (arith, ends, h))
  | inr (j, later) ↦ absurd (ground (arith, later, h))
]

last_item-key :
    (es : List SearchResult) (k : List ℕ)
    → last_key sort_key es ≡ some k
    → (e : SearchResult) × (last_item es ≡ some e) × (sort_key e ≡ k)
last_item-key [] k h = absurd (ground (arith, h))
last_item-key (e ∷ es) k h = elim (Option-cases (last_key sort_key es)) [
  | inl ends ↦ (e, ground (arith, last_item-none es ends), ground (arith, ends, h))
  | inr (j, later) ↦
      let (f, found, same) = last_item-key es j later in
      (f, ground (arith, found), ground (arith, same, later, h))
]

last_item-All :
    (P : SearchResult → Type 0) (es : List SearchResult) (e : SearchResult)
    → All P es
    → last_item es ≡ some e
    → P e
last_item-All P [] e h k = absurd (ground (arith, k))
last_item-All P (f ∷ es) e h k = elim (Option-cases (last_item es)) [
  | inl ends ↦ subst P (some_inj (ground (arith, ends, k))) h.0
  | inr (l, later) ↦ last_item-All P es e h.1 (ground (arith, later, k))
]
  where
    some_inj : some f ≡ some e → f ≡ e
    some_inj q = cc

decoded_cursor-value :
    (w : Wire) (token : Text) (mode : Mode) (c : SearchCursor)
    → decode_cursor w token mode ≡ Parsed.value c
    → decoded_cursor w (some token) mode ≡ Parsed.value (some c)
unfolding decode_cursor
decoded_cursor-value w [] mode c h = absurd (ground (arith, h))
decoded_cursor-value w (x ∷ xs) mode c h = ground (arith, h)

module _ {V : Type 0} (ft : FullText V) (w : Wire) (filters : SearchFilters) (q : Option Text)
    (store : SearchStore V) where
  -- all that is found
  abbrev found : List SearchResult
  found = all_results ft filters (normalized_query ft q) store

  abbrev mode : Mode
  mode = mode_for (normalized_query ft q)

  abbrev page_behind : ℕ → Option SearchCursor → SearchPage
  page_behind size after = page_after ft w filters (normalized_query ft q) after size store

  -- a result whose cursor can be sent
  abbrev pub IsSent : SearchResult → Type 0
  IsSent e = (1 ≤ e.id) × Carries w (to_search_cursor mode e)

  results-page :
      (n : ℕ) (token : Option Text) (after : Option SearchCursor)
      → suc n ≤ max_search_page
      → decoded_cursor w token mode ≡ Parsed.value after
      → get_search_results ft w filters q token (pos (suc n)) store
        ≡ Parsed.value (page_behind (suc n) after)
  unfolding get_search_results
  results-page n token after size read = ground (arith, size, read)

  sent :
      (e : SearchResult)
      → IsSent e
      → decoded_cursor w (some (encode_cursor w (to_search_cursor mode e))) mode
        ≡ Parsed.value (some (to_search_cursor mode e))
  sent e h =
      decoded_cursor-value w (encode_cursor w (to_search_cursor mode e)) mode
        (to_search_cursor mode e)
        (decode-encode w (to_search_cursor mode e) mode h.0 h.1
          ∙ same (to_search_cursor mode e) mode)
    where
      same :
          (c : SearchCursor) (m : Mode)
          → (if same_mode m m then Parsed.value c else Parsed.value_error) ≡ Parsed.value c
      same c Mode.relevance = refl
      same c Mode.recency = refl

  module _ (all_sent : All IsSent found) where
    page-IsSent : (n : ℕ) (after : Option (List ℕ)) → All IsSent (page sort_key n after found)
    page-IsSent n after =
        All-take IsSent n (sort (by_key sort_key) (filter (is_behind sort_key after) found)) (
          All-sort (by_key sort_key) IsSent (filter (is_behind sort_key after) found)
            (All-filter IsSent (is_behind sort_key after) found all_sent))

    walk_on : ℕ → ℕ → Option (List ℕ) → List SearchResult
    walk_on n rounds position = elim position [
      | none ↦ []
      | some k ↦ walk sort_key (suc n) rounds (some k) found
    ]

    full_step :
        (size rounds : ℕ) (token : Option Text) (p : SearchPage) (c : Text)
        → get_search_results ft w filters q token (pos size) store ≡ Parsed.value p
        → p.next_cursor ≡ some c
        → walk_search ft w filters q size (suc rounds) token store
          ≡ p.items ++ walk_search ft w filters q size rounds (some c) store
    full_step size rounds token p c search_answer next = ground (arith, search_answer, next)

    last_step :
        (size rounds : ℕ) (token : Option Text) (p : SearchPage)
        → get_search_results ft w filters q token (pos size) store ≡ Parsed.value p
        → p.next_cursor ≡ none
        → walk_search ft w filters q size (suc rounds) token store ≡ p.items ++ []
    last_step size rounds token p search_answer next = ground (arith, search_answer, next)

    -- the next cursor and the position it stands for
    turn :
        (n : ℕ) (es : List SearchResult)
        → All IsSent es
        → ((search_cursor_of w mode n es ≡ none) × (next_position sort_key n es ≡ none))
          ⊎ ((e : SearchResult) × (search_cursor_of w mode n es
                ≡ some (encode_cursor w (to_search_cursor mode e)))
              × (next_position sort_key n es ≡ some (sort_key e))
              × IsSent e)
    unfolding search_cursor_of
    turn n es h = elim (Bool-cases (leb n (length es))) [
      | inr short ↦ inl (ground (arith, short), ground (arith, short))
      | inl full ↦ elim (Option-cases (last_key sort_key es)) [
        | inl ends ↦ inl (ground (arith, full, last_item-none es ends), ground (arith, full, ends))
        | inr (k, last) ↦
            let (e, at_end, same) = last_item-key es k last in
            inr (
              e,
              ground (arith, full, at_end),
              ground (arith, full, last, same),
              last_item-All IsSent es e h at_end,
            )
      ]
    ]

    walk_search-walk :
        (n rounds : ℕ) (token : Option Text) (after : Option SearchCursor)
        → suc n ≤ max_search_page
        → decoded_cursor w token mode ≡ Parsed.value after
        → walk_search ft w filters q (suc n) rounds token store
          ≡ walk sort_key (suc n) rounds (position_of after) found
    unfolding walk_on
    walk_search-walk n zero token after size read = refl
    walk_search-walk n (suc rounds) token after size read =
        let items = page sort_key (suc n) (position_of after) found in
        let exact = merged_items-page ft filters (normalized_query ft q) store after (suc n) in
        let search_answer = results-page n token after size read in
        let p = page_behind (suc n) after in
        let next = ap (search_cursor_of w mode (suc n)) exact in
        elim (turn (suc n) items (page-IsSent (suc n) (position_of after))) [
          | inl (ends, stop) ↦
              last_step (suc n) rounds token p search_answer (next ∙ ends)
              ∙ ap (λ es. es ++ []) exact
              ∙ sym (ap (λ k. items ++ walk_on n rounds k) stop)
          | inr (e, more, position, is_sent) ↦
              full_step (suc n) rounds token p (encode_cursor w (to_search_cursor mode e))
                search_answer (next ∙ more)
              ∙ ap
                  (λ es.
                    es
                    ++ walk_search ft w filters q (suc n) rounds
                        (some (encode_cursor w (to_search_cursor mode e))) store)
                  exact
              ∙ ap (λ es. items ++ es)
                  (walk_search-walk n rounds (some (encode_cursor w (to_search_cursor mode e)))
                    (some (to_search_cursor mode e)) size (sent e is_sent))
              ∙ sym (ap (λ k. items ++ walk_on n rounds k) position)
        ]

  -- What a client reads that follows the search for some pages, of a size from 1 to 50, when no two
  -- businesses and no two products share a key, the keys found are positive and the wire carries
  -- their cursors: the first results, as many as these pages hold, of all rows that the filters and
  -- the query select, in the order of the featured flag, the rank or the time, the type and the
  -- key; none is left out or read twice.
  pub walk_search-take :
      Distinct (λ (b : BusinessRow V). b.pk) store.businesses
      → Distinct (λ (p : Product V). p.pk) store.products
      → All IsSent found
      → (n rounds : ℕ) → suc n ≤ max_search_page
      → walk_search ft w filters q (suc n) rounds none store
        ≡ take (rounds * suc n) (sort (by_key sort_key) found)
  walk_search-take businesses products all_sent n rounds size =
      walk_search-walk all_sent n rounds none none size refl
      ∙ walk-take sort_key found
          (all_results-Apart ft filters (normalized_query ft q) store businesses products) n rounds
          none
      ∙ ap (take (rounds * suc n))
          (filter-always (λ _. true) (sort (by_key sort_key) found) (λ _. refl))
