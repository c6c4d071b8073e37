-- ===== src/Search/Services.antt =====
-- search/services.py: the full-text query and the two sources.
use cavallo_app.Prelude.{
  leb, filter, ◌==◌, ◌||◌, weight, text, sort, not, ltb, any, true, take, none, if◌then◌else◌,
  false, by_key, ◌++◌, ◌&&◌, ◌∷◌, some, map, [], Bool, ℕ, Text, Option, List,
}
use cavallo_app.Search.Filters.{
  BusinessRow, Product, SearchStore, SearchFilters, SearchResult, build_business_queryset,
  build_product_queryset,
}
use cavallo_app.Search.Cursor.{type_rank, SearchCursor, ResultType}

-- a query of the full-text search
pub data SearchQuery : Type 0 where
  plain raw : Text → SearchQuery
  either : SearchQuery → SearchQuery → SearchQuery

-- What the code takes from Python and the database: the class `\w`, `str.strip`, the match of a
-- stored vector, the place of its rank among the floats, that of 0.0, and `icontains`.
pub record FullText (V : Type 0) : Type 0 where
  pub is_word : ℕ → Bool
  pub strip : Text → Text
  pub matches : SearchQuery → V → Bool
  pub search_rank : SearchQuery → V → ℕ
  pub zero_rank : ℕ
  pub icontains : Text → Text → Bool

-- the value of `_rows_after` at the three columns of a row
unfoldable pub rows_after : ResultType → SearchCursor → Bool → ℕ → ℕ → Bool
rows_after content_type cursor is_featured secondary id =
    let rank = type_rank content_type in
    let cursor_rank = type_rank cursor.content_type in
    let same_secondary_tiebreak =
      if ltb rank cursor_rank
      then leb secondary cursor.secondary
      else if ltb cursor_rank rank
      then ltb secondary cursor.secondary
      else ltb secondary cursor.secondary
        || (secondary == cursor.secondary && ltb id cursor.object_id) in
    if cursor.is_featured
    then not is_featured || (is_featured && same_secondary_tiebreak)
    else not is_featured && same_secondary_tiebreak

abbrev pub is_after : Option SearchCursor → ResultType → Bool → ℕ → ℕ → Bool
is_after none content_type is_featured secondary id = true
is_after (some c) content_type is_featured secondary id =
    rows_after content_type c is_featured secondary id

module _ {V : Type 0} (ft : FullText V) where
  -- a character of `[^\W_]`
  abbrev pub is_token_letter : ℕ → Bool
  is_token_letter c = ft.is_word c && not (c == 95)

  abbrev pub begins_word : Text → Bool
  begins_word [] = false
  begins_word (c ∷ cs) = is_token_letter c

  abbrev pub extend_first : ℕ → List Text → List Text
  extend_first c [] = (c ∷ []) ∷ []
  extend_first c (t ∷ ts) = (c ∷ t) ∷ ts

  -- `_tokenize`: the longest runs of these characters
  unfoldable pub tokenize : Text → List Text
  tokenize [] = []
  tokenize (c ∷ cs) =
      let rest = tokenize cs in
      if is_token_letter c
      then (if begins_word cs then extend_first c rest else (c ∷ []) ∷ rest)
      else rest

  -- `" & ".join(f"{token}:*" for token in tokens)`
  abbrev pub prefix_terms : List Text → Text
  prefix_terms [] = []
  prefix_terms (t ∷ []) = t ++ text ":*"
  prefix_terms (t ∷ u ∷ ts) = t ++ text ":* & " ++ prefix_terms (u ∷ ts)

  -- `_build_search_query`
  unfoldable pub build_search_query : Text → SearchQuery
  unfolding tokenize
  build_search_query q = elim (tokenize q) [
    | [] ↦ SearchQuery.plain q
    | t ∷ ts ↦ SearchQuery.either (SearchQuery.plain q) (SearchQuery.raw (prefix_terms (t ∷ ts)))
  ]

  abbrev pub tokens_or_text : Text → List Text
  tokens_or_text q = elim (tokenize q) [ [] ↦ q ∷ [] | t ∷ ts ↦ t ∷ ts ]

  abbrev pub each_token : List Text → List Text → Bool
  each_token [] fields = true
  each_token (t ∷ ts) fields = any (λ f. ft.icontains f t) fields && each_token ts fields

  -- `_contains_every_token` at a row with these fields
  unfoldable pub contains_every_token : Text → List Text → Bool
  unfolding tokenize
  contains_every_token q fields = each_token (tokens_or_text q) fields

  abbrev pub vector_matches : SearchQuery → Option V → Bool
  vector_matches query none = false
  vector_matches query (some v) = ft.matches query v

  -- `_rank_expression`
  abbrev pub rank_expression : SearchQuery → Option V → ℕ
  rank_expression query none = ft.zero_rank
  rank_expression query (some v) = ft.search_rank query v

  -- the query of a search, empty in the recency mode
  abbrev pub is_found : Text → Option V → List Text → Bool
  is_found [] vector fields = true
  is_found (c ∷ cs) vector fields =
      vector_matches (build_search_query (c ∷ cs)) vector || contains_every_token (c ∷ cs) fields

  -- the column of the order
  abbrev pub secondary_field : Text → Option V → ℕ → ℕ
  secondary_field [] vector created_at = created_at
  secondary_field (c ∷ cs) vector created_at = rank_expression (build_search_query (c ∷ cs)) vector

  abbrev pub business_secondary : Text → BusinessRow V → ℕ
  business_secondary q b = secondary_field q b.search_vector b.created_at

  abbrev pub product_secondary : Text → Product V → ℕ
  product_secondary q p = secondary_field q p.search_vector p.created_at

  abbrev pub business_entry : Text → BusinessRow V → SearchResult
  business_entry q b = record {
    content_type = ResultType.business;
    id = b.pk;
    is_featured = b.is_featured;
    secondary = business_secondary q b;
  }

  abbrev pub product_entry : Text → Product V → SearchResult
  product_entry q p = record {
    content_type = ResultType.product;
    id = p.pk;
    is_featured = p.business_is_featured;
    secondary = product_secondary q p;
  }

  -- the conditions on a row but that of the cursor
  abbrev pub business_selected : SearchFilters → Text → BusinessRow V → Bool
  business_selected filters q b =
      build_business_queryset filters b
      && is_found q b.search_vector (b.business_name ∷ b.description ∷ [])

  abbrev pub product_selected : SearchFilters → Text → Product V → Bool
  product_selected filters q p =
      build_product_queryset filters p && is_found q p.search_vector (p.name ∷ p.description ∷ [])

  -- `order_by("-is_featured", <the column>, "-id")`
  abbrev pub business_before : Text → BusinessRow V → BusinessRow V → Bool
  business_before q = by_key (λ b. weight b.is_featured ∷ business_secondary q b ∷ b.pk ∷ [])

  abbrev pub product_before : Text → Product V → Product V → Bool
  product_before q = by_key (λ p. weight p.business_is_featured ∷ product_secondary q p ∷ p.pk ∷ [])

  -- `_fetch_business_entries`
  unfoldable pub fetch_business_entries :
      SearchFilters → Text → Option SearchCursor → ℕ → SearchStore V → List SearchResult
  unfolding rows_after
  fetch_business_entries filters q cursor limit store = map (business_entry q) (
      take limit (
        sort (business_before q) (
          filter
            (λ b.
              business_selected filters q b
              && is_after cursor ResultType.business b.is_featured (business_secondary q b) b.pk)
            store.businesses)))

  -- `_fetch_product_entries`
  unfoldable pub fetch_product_entries :
      SearchFilters → Text → Option SearchCursor → ℕ → SearchStore V → List SearchResult
  unfolding rows_after
  fetch_product_entries filters q cursor limit store = map (product_entry q) (
      take limit (
        sort (product_before q) (
          filter
            (λ p.
              product_selected filters q p
              && is_after cursor ResultType.product p.business_is_featured (product_secondary q p)
                  p.pk)
            store.products)))
