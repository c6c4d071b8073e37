-- ===== src/Search/Results.antt =====
-- search/services.py `get_search_results`: a page of the search.
use cavallo_app.Prelude.{
  ltb, ◌||◌, ◌++◌, length, by_key, ◌==◌, sort, pos, leb, take, negsuc, if◌then◌else◌, ℤ, ℕ, some,
  none, [], ◌∷◌, Option, Text, List,
}
use cavallo_app.Search.Services.{fetch_product_entries, fetch_business_entries, FullText}
use cavallo_app.Search.Filters.{
  SearchStore, SearchFilters, SearchResult, sort_key, to_search_cursor, max_search_page,
}
use cavallo_app.Search.Cursor.{encode_cursor, decode_cursor, SearchCursor, Parsed, Wire, Mode}

-- the page with its next cursor

pub record SearchPage : Type 0 where
  pub items : List SearchResult
  pub next_cursor : Option Text

-- the mode of a search; the recency mode has the empty query
abbrev pub mode_for : Text → Mode
mode_for [] = Mode.recency
mode_for (c ∷ cs) = Mode.relevance

abbrev pub last_item : List SearchResult → Option SearchResult
last_item [] = none
last_item (e ∷ es) = elim (last_item es) [ none ↦ some e | some l ↦ some l ]

-- an absent or empty cursor is the start
abbrev pub decoded_cursor : Wire → Option Text → Mode → Parsed (Option SearchCursor)
decoded_cursor w none mode = Parsed.value none
decoded_cursor w (some []) mode = Parsed.value none
decoded_cursor w (some (c ∷ cs)) mode = elim (decode_cursor w (c ∷ cs) mode) [
  | Parsed.value cursor ↦ Parsed.value (some cursor)
  | Parsed.value_error ↦ Parsed.value_error
  | Parsed.uncaught ↦ Parsed.uncaught
]

unfoldable pub search_cursor_of : Wire → Mode → ℕ → List SearchResult → Option Text
unfolding encode_cursor
search_cursor_of w mode page_size items =
    if leb page_size (length items)
    then (elim (last_item items) [
      | none ↦ none
      | some e ↦ some (encode_cursor w (to_search_cursor mode e))
    ])
    else none

module _ {V : Type 0} (ft : FullText V) where
  -- `q.strip() if q else ""`
  abbrev pub normalized_query : Option Text → Text
  normalized_query none = []
  normalized_query (some []) = []
  normalized_query (some (c ∷ cs)) = ft.strip (c ∷ cs)

  -- the page behind a decoded cursor
  unfoldable pub merged_items :
      SearchFilters → Text → Option SearchCursor → ℕ → SearchStore V → List SearchResult
  unfolding fetch_business_entries fetch_product_entries
  merged_items filters q cursor page_size store = take page_size (
      sort (by_key sort_key) (
        fetch_business_entries ft filters q cursor page_size store
        ++ fetch_product_entries ft filters q cursor page_size store))

module _ {V : Type 0} (ft : FullText V) (w : Wire) where
  abbrev pub page_after :
      SearchFilters → Text → Option SearchCursor → ℕ → SearchStore V → SearchPage
  page_after filters q cursor page_size store =
      let found = merged_items ft filters q cursor page_size store in
      record { items = found; next_cursor = search_cursor_of w (mode_for q) page_size found }

  -- `get_search_results`
  unfoldable pub get_search_results :
      SearchFilters → Option Text → Option Text → ℤ → SearchStore V → Parsed SearchPage
  unfolding decode_cursor merged_items search_cursor_of
  get_search_results filters q cursor (negsuc n) store = Parsed.value_error
  get_search_results filters q cursor (pos page_size) store =
      if page_size == 0 || ltb max_search_page page_size
      then Parsed.value_error
      else elim (decoded_cursor w cursor (mode_for (normalized_query ft q))) [
        | Parsed.value_error ↦ Parsed.value_error
        | Parsed.uncaught ↦ Parsed.uncaught
        | Parsed.value decoded ↦
            Parsed.value (page_after filters (normalized_query ft q) decoded page_size store)
      ]
