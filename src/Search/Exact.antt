-- ===== src/Search/Exact.antt =====
-- search/services.py: a page against the sorted union of all that the filters and the query select.
use cavallo_app.Paging.Sources.{filter-append, sources-take, sources-Apart, map-filter}
use cavallo_app.Paging.{page, is_behind, Apart}
use cavallo_app.Search.Results.{merged_items}
use cavallo_app.Prelude.{
  sym, sort, take, ◌∙◌, [], refl, arith, ap, ◌∷◌, none, ◌++◌, ◌&&◌, weight, some, lex_lt, ◌≡◌, ℕ,
  map, filter, by_key, Distinct, Text, List, Bool, Option,
}
use cavallo_app.Search.Filters.{
  BusinessRow, Product, SearchStore, SearchFilters, SearchResult, sort_key,
}
use cavallo_app.Search.Cursor.{type_rank, SearchCursor, ResultType}
use cavallo_app.Search.Services.{
  product_secondary, business_secondary, product_before, fetch_product_entries, business_before,
  product_selected, product_entry, fetch_business_entries, business_selected, business_entry,
  is_after, FullText, rows_after,
}

-- the position of a cursor in the order of the results

abbrev pub position : SearchCursor → List ℕ
position c = weight c.is_featured ∷ c.secondary ∷ type_rank c.content_type ∷ c.object_id ∷ []

abbrev pub position_of : Option SearchCursor → Option (List ℕ)
position_of none = none
position_of (some c) = some (position c)

-- the filter of the cursor is the strict order of the sort key
pub rows_after_lem :
    (t : ResultType) (c : SearchCursor) (is_featured : Bool) (secondary id : ℕ)
    → rows_after t c is_featured secondary id
      ≡ lex_lt (weight is_featured ∷ secondary ∷ type_rank t ∷ id ∷ []) (position c)
unfolding rows_after
rows_after_lem t c is_featured secondary id = ground arith

is_after-behind :
    (after : Option SearchCursor) (e : SearchResult)
    → is_after after e.content_type e.is_featured e.secondary e.id
      ≡ is_behind sort_key (position_of after) e
is_after-behind none e = refl
is_after-behind (some c) e = rows_after_lem e.content_type c e.is_featured e.secondary e.id

module _ {V : Type 0} (ft : FullText V) (filters : SearchFilters) (q : Text)
    (store : SearchStore V) where
  -- all that the filters and the query select
  abbrev pub all_results : List SearchResult
  all_results =
      map (business_entry ft q) (filter (business_selected ft filters q) store.businesses)
      ++ map (product_entry ft q) (filter (product_selected ft filters q) store.products)

  business_same :
      (a b : BusinessRow V)
      → by_key sort_key (business_entry ft q a) (business_entry ft q b) ≡ business_before ft q a b
  business_same a b = ground arith

  product_same :
      (a b : Product V)
      → by_key sort_key (product_entry ft q a) (product_entry ft q b) ≡ product_before ft q a b
  product_same a b = ground arith

  businesses_left : Option SearchCursor → List (BusinessRow V)
  businesses_left after =
      filter
        (λ b.
          business_selected ft filters q b
          && is_after after ResultType.business b.is_featured (business_secondary ft q b) b.pk)
        store.businesses

  products_left : Option SearchCursor → List (Product V)
  products_left after =
      filter
        (λ p.
          product_selected ft filters q p
          && is_after after ResultType.product p.business_is_featured (product_secondary ft q p)
              p.pk)
        store.products

  businesses_behind :
      (after : Option SearchCursor)
      → map (business_entry ft q) (businesses_left after)
        ≡ filter
            (is_behind sort_key (position_of after))
            (map (business_entry ft q) (filter (business_selected ft filters q) store.businesses))
  unfolding businesses_left
  businesses_behind after =
      map-filter (business_entry ft q) (business_selected ft filters q) _
        (is_behind sort_key (position_of after))
        (λ b.
          ap (λ t. business_selected ft filters q b && t)
            (is_after-behind after (business_entry ft q b)))
        store.businesses

  products_behind :
      (after : Option SearchCursor)
      → map (product_entry ft q) (products_left after)
        ≡ filter
            (is_behind sort_key (position_of after))
            (map (product_entry ft q) (filter (product_selected ft filters q) store.products))
  unfolding products_left
  products_behind after =
      map-filter (product_entry ft q) (product_selected ft filters q) _
        (is_behind sort_key (position_of after))
        (λ p.
          ap (λ t. product_selected ft filters q p && t)
            (is_after-behind after (product_entry ft q p)))
        store.products

  pub merged_items-page :
      (after : Option SearchCursor) (limit : ℕ)
      → merged_items ft filters q after limit store
        ≡ page sort_key limit (position_of after) all_results
  unfolding merged_items fetch_business_entries fetch_product_entries businesses_left products_left
  merged_items-page after limit =
      let behind = is_behind sort_key (position_of after) in
      sources-take sort_key (business_entry ft q) (product_entry ft q) (business_before ft q)
        (product_before ft q) business_same product_same limit (businesses_left after)
        (products_left after)
      ∙ ap
          (λ es.
            take limit
              (sort (by_key sort_key) (es ++ map (product_entry ft q) (products_left after))))
          (businesses_behind after)
      ∙ ap
          (λ es. take limit (
            sort (by_key sort_key) (
              filter behind (
                map (business_entry ft q)
                  (filter (business_selected ft filters q) store.businesses))
              ++ es)))
          (products_behind after)
      ∙ ap (λ es. take limit (sort (by_key sort_key) es))
          (sym (
            filter-append behind
              (map (business_entry ft q) (filter (business_selected ft filters q) store.businesses))
              (map (product_entry ft q) (filter (product_selected ft filters q) store.products))))

  pub all_results-Apart :
      Distinct (λ (b : BusinessRow V). b.pk) store.businesses
      → Distinct (λ (p : Product V). p.pk) store.products
      → Apart sort_key all_results
  all_results-Apart businesses products =
      sources-Apart sort_key (λ (b : BusinessRow V). b.pk) (λ (p : Product V). p.pk)
        (business_entry ft q) (product_entry ft q) _ _ (λ a b h. ground (arith, h))
        (λ a b h. ground (arith, h)) (λ a b. ground arith) store.businesses store.products
        businesses products
