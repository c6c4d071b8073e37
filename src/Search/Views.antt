-- ===== src/Search/Views.antt =====
-- search/views.py: the endpoint of the search.
use cavallo_app.Money.{Decimal}
use cavallo_app.Prelude.{
  true, ◌||◌, [], ◌∷◌, text_eq, pos, none, if◌then◌else◌, false, ℤ, text, some, Bool, ℕ, Text,
  Option,
}
use cavallo_app.Search.Services.{FullText}
use cavallo_app.Search.Cursor.{Wire, Parsed}
use cavallo_app.Search.Filters.{SearchStore, SearchFilters}
use cavallo_app.Search.Results.{SearchPage, get_search_results}

pub record QueryParams : Type 0 where
  pub q : Option Text
  pub category : Option Text
  pub country : Option Text
  pub city : Option Text
  pub business_type : Option Text
  pub min_rating : Option Text
  pub featured_only : Option Text
  pub min_price : Option Text
  pub max_price : Option Text
  pub cursor : Option Text
  pub page_size : Option Text

-- a `Decimal`, which may be an infinity or not a number
pub data Amount : Type 0 where
  finite : Decimal → Amount
  not_finite : Amount

-- What the code takes from Python: `int` and `Decimal` of a text, with `none` for the exceptions
-- that it catches, and `str.lower`.
pub record Readers : Type 0 where
  pub int_of : Text → Option ℤ
  pub decimal_of : Text → Option Amount
  pub lower : Text → Text

-- a 400 names the parameter; a 500 is an exception that nothing catches
pub data SearchResponse : Type 0 where
  http_200 : SearchPage → SearchResponse
  http_400 : Text → SearchResponse
  http_500 : SearchResponse

abbrev pub default_page_size : ℕ
default_page_size = 20

-- `params.get(name) or None`
abbrev pub or_none : Option Text → Option Text
or_none none = none
or_none (some []) = none
or_none (some (c ∷ cs)) = some (c ∷ cs)

-- an absent or empty parameter is `None`, and any other is read
abbrev pub read_optional : {A : Type 0} → (Text → Option A) → Option Text → Option (Option A)
read_optional read none = some none
read_optional read (some []) = some none
read_optional read (some (c ∷ cs)) = elim (read (c ∷ cs)) [ none ↦ none | some a ↦ some (some a) ]

-- the ValidationError of a parameter that is not read
abbrev pub validated : {A : Type 0} → Text → Option A → (A → SearchResponse) → SearchResponse
validated name none next = SearchResponse.http_400 name
validated name (some a) next = next a

-- the bound of a query, if it is finite
abbrev pub bound_of : Option Amount → Option Decimal
bound_of (some (finite d)) = some d
bound_of _ = none

abbrev pub is_unfit : Option Amount → Bool
is_unfit (some not_finite) = true
is_unfit _ = false

abbrev pub or_false : Option Bool → Bool
or_false none = false
or_false (some b) = b

module _ {V : Type 0} (ft : FullText V) (w : Wire) (py : Readers) where
  -- `_parse_bool`
  abbrev pub parse_bool : Text → Option Bool
  parse_bool raw =
      let normalized = py.lower (ft.strip raw) in
      if text_eq normalized (text "true") || text_eq normalized (text "1")
      then some true
      else if text_eq normalized (text "false") || text_eq normalized (text "0")
      then some false
      else none

  -- the page size, read unless it is absent
  abbrev pub read_page_size : Option Text → Option ℤ
  read_page_size none = some (pos default_page_size)
  read_page_size (some raw) = py.int_of raw

  -- The end of `SearchView.get`. A decimal column takes no bound that is not finite: with an unfit
  -- one the queries, built after the page size and the cursor have been read, raise a
  -- ValidationError of Django's forms, which is no ValueError.
  unfoldable pub search_answer :
      QueryParams → SearchStore V → SearchFilters → Bool → ℤ → SearchResponse
  search_answer params store filters unfit page_size =
      elim (get_search_results ft w filters (or_none params.q) (or_none params.cursor) page_size
        store) [
          | Parsed.value page ↦
              if unfit then SearchResponse.http_500 else SearchResponse.http_200 page
          | Parsed.value_error ↦ SearchResponse.http_400 (text "detail")
          | Parsed.uncaught ↦ SearchResponse.http_500
        ]

  -- `SearchView.get`
  unfoldable pub search_view : QueryParams → SearchStore V → SearchResponse
  unfolding search_answer
  search_view params store =
      validated (text "category") (read_optional py.int_of params.category) (λ category_id.
        validated (text "min_rating") (read_optional py.decimal_of params.min_rating) (λ min_rating.
          validated (text "featured_only") (read_optional parse_bool params.featured_only)
            (λ featured_only.
              validated (text "min_price") (read_optional py.decimal_of params.min_price)
                (λ min_price.
                  validated (text "max_price") (read_optional py.decimal_of params.max_price)
                    (λ max_price.
                      validated (text "page_size") (read_page_size params.page_size) (λ page_size.
                        search_answer params store
                          record {
                            category_id = category_id;
                            country = or_none params.country;
                            city = or_none params.city;
                            business_type = or_none params.business_type;
                            min_rating = bound_of min_rating;
                            featured_only = or_false featured_only;
                            min_price = bound_of min_price;
                            max_price = bound_of max_price;
                          }
                          (is_unfit min_rating || is_unfit min_price || is_unfit max_price)
                          page_size))))))
