-- ===== src/Search/Filters.antt =====
-- search/services.py: the rows, the results and the filters on them.
use cavallo_app.Money.{Decimal}
use cavallo_app.Prelude.{
  ◌^◌, ◌*◌, pos, leb, ◌||◌, text_eq, none, int_eq, ◌==◌, ◌∷◌, ℤ, weight, true, some, if◌then◌else◌,
  false, [], ◌&&◌, ℕ, Text, Option, List, Bool,
}
use cavallo_app.Search.Cursor.{type_rank, SearchCursor, ResultType, Mode}

-- the filters as the view has read them; an amount is finite
pub record SearchFilters : Type 0 where
  pub category_id : Option ℤ
  pub country : Option Text
  pub city : Option Text
  pub business_type : Option Text
  pub min_rating : Option Decimal
  pub featured_only : Bool
  pub min_price : Option Decimal
  pub max_price : Option Decimal

-- a row of `BusinessProfile.objects`; the rating is in hundredths
pub record BusinessRow (V : Type 0) : Type 0 where
  pub pk : ℕ
  pub business_name : Text
  pub description : Text
  pub business_type : Text
  pub country : Text
  pub city : Text
  pub category_id : Option ℕ
  pub average_rating : ℕ
  pub is_featured : Bool
  pub created_at : ℕ
  pub search_vector : Option V

-- a row of `Product.objects`, with the columns of its business joined; the price is in cents
pub record Product (V : Type 0) : Type 0 where
  pub pk : ℕ
  pub name : Text
  pub description : Text
  pub category_id : ℕ
  pub price : ℕ
  pub is_active : Bool
  pub created_at : ℕ
  pub search_vector : Option V
  pub business_country : Text
  pub business_city : Text
  pub business_is_featured : Bool

pub record SearchStore (V : Type 0) : Type 0 where
  pub businesses : List (BusinessRow V)
  pub products : List (Product V)

-- `obj` is named by its type and key
pub record SearchResult : Type 0 where
  pub content_type : ResultType
  pub id : ℕ
  pub is_featured : Bool
  pub secondary : ℕ

abbrev pub max_search_page : ℕ
max_search_page = 50

-- `SearchResult.to_search_cursor`
abbrev pub to_search_cursor : Mode → SearchResult → SearchCursor
to_search_cursor mode entry = record {
  mode = mode;
  is_featured = entry.is_featured;
  secondary = entry.secondary;
  content_type = entry.content_type;
  object_id = entry.id;
}

-- `_sort_key`
abbrev pub sort_key : SearchResult → List ℕ
sort_key e = weight e.is_featured ∷ e.secondary ∷ type_rank e.content_type ∷ e.id ∷ []

-- a condition on a value that may be absent
abbrev pub unless_none {ℓ} : {A : Type ℓ} → Option A → (A → Bool) → Bool
unless_none none test = true
unless_none (some a) test = test a

-- a condition on a text, which the empty text leaves out as well
abbrev pub unless_empty : Option Text → (Text → Bool) → Bool
unless_empty none test = true
unless_empty (some []) test = true
unless_empty (some (c ∷ cs)) test = test (c ∷ cs)

-- hundredths against an amount
abbrev pub at_least : ℕ → Decimal → Bool
at_least n d = d.negative || leb (d.digits * 100) (n * 10 ^ d.places)

abbrev pub at_most : ℕ → Decimal → Bool
at_most n d =
    if d.negative then n == 0 && d.digits == 0 else leb (n * 10 ^ d.places) (d.digits * 100)

abbrev pub id_eq : Option ℕ → ℤ → Bool
id_eq none k = false
id_eq (some n) k = int_eq (pos n) k

abbrev pub flag_if : Bool → Bool → Bool
flag_if wanted flag = if wanted then flag else true

module _ {V : Type 0} where
  -- the condition of `build_business_queryset`
  abbrev pub build_business_queryset : SearchFilters → BusinessRow V → Bool
  build_business_queryset filters b =
      unless_none filters.category_id (id_eq b.category_id)
      && unless_empty filters.country (text_eq b.country)
      && unless_empty filters.city (text_eq b.city)
      && unless_empty filters.business_type (text_eq b.business_type)
      && unless_none filters.min_rating (at_least b.average_rating)
      && flag_if filters.featured_only b.is_featured

  -- the condition of `build_product_queryset`
  abbrev pub build_product_queryset : SearchFilters → Product V → Bool
  build_product_queryset filters p =
      p.is_active
      && unless_none filters.category_id (id_eq (some p.category_id))
      && unless_empty filters.country (text_eq p.business_country)
      && unless_empty filters.city (text_eq p.business_city)
      && unless_none filters.min_price (at_least p.price)
      && unless_none filters.max_price (at_most p.price)
      && flag_if filters.featured_only p.business_is_featured
