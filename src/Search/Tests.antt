-- ===== src/Search/Tests.antt =====
-- Runs of the search on small tables, and the theorems at them.
use cavallo_app.Search.Views.{
  Amount, SearchResponse, search_answer, search_view, Readers, QueryParams,
}
use cavallo_app.Search.Services.{
  contains_every_token, fetch_product_entries, SearchQuery, fetch_business_entries,
  build_search_query, tokenize, product_entry, FullText,
}
use cavallo_app.Prelude.{
  length, by_key, text_eq, sort, refl, leb, true, take, if◌then◌else◌, arith, ◌==◌, ◌+◌, ◌≡◌, ◌∷◌,
  text, pos, not, map, [], Option, Bool, ◌≤◌, ℕ, some, none, false, Text, String, List, All,
}
use cavallo_app.Payments.Json.{
  no_items, no_fields, array, get_item, get, Json, integer, real, string, object,
}
use cavallo_app.Payments.Json.{field}
use cavallo_app.Search.Cursor.{
  decode_payload, type_rank, Mode, ResultType, Wire, Parsed, cursor_payload, decode_cursor,
  encode_cursor,
}
use cavallo_app.Search.Filters.{
  BusinessRow, Product, SearchStore, SearchFilters, SearchResult, sort_key, to_search_cursor,
}
use cavallo_app.Search.Results.{get_search_results, merged_items}
use cavallo_app.Search.Walk.{walk_search, walk_search-take, IsSent}
use cavallo_app.Search.Wire.{Carries, decode-encode}
use cavallo_app.Search.Exact.{all_results}

abbrev engine : FullText ℕ
engine = record {
  is_word = λ c. not (c == 32);
  strip = λ s. s;
  matches = λ q v. leb 1 v;
  search_rank = λ q v. v;
  zero_rank = 0;
  icontains = λ f token. text_eq f token;
}

abbrev shop : ℕ → ℕ → Bool → BusinessRow ℕ
shop pk created_at featured = record {
  pk = pk;
  business_name = text "shop";
  description = [];
  business_type = text "retail";
  country = text "EG";
  city = text "Giza";
  category_id = some 1;
  average_rating = 450;
  is_featured = featured;
  created_at = created_at;
  search_vector = none;
}

abbrev ware : ℕ → ℕ → ℕ → Bool → Product ℕ
ware pk created_at price featured = record {
  pk = pk;
  name = text "ware";
  description = [];
  category_id = 1;
  price = price;
  is_active = true;
  created_at = created_at;
  search_vector = some pk;
  business_country = text "EG";
  business_city = text "Giza";
  business_is_featured = featured;
}

abbrev market : SearchStore ℕ
market = record {
  businesses = shop 1 10 false ∷ shop 2 20 true ∷ [];
  products = ware 1 10 999 false ∷ ware 2 30 2000 false ∷ [];
}

abbrev everything : SearchFilters
everything = record {
  category_id = none;
  country = none;
  city = none;
  business_type = none;
  min_rating = none;
  featured_only = false;
  min_price = none;
  max_price = none;
}

abbrev cheap : SearchFilters
cheap = record everything { max_price = some record { negative = false; digits = 10; places = 0 } }

abbrev names : List SearchResult → List (ℕ × ℕ)
names es = map (λ e. (type_rank e.content_type, e.id)) es

abbrev tokens_of : String → List Text
tokens_of s = tokenize engine (text s)

query_runs :
    (tokens_of "red  shoe " ≡ text "red" ∷ text "shoe" ∷ [])
    × (build_search_query engine (text "red shoe")
        ≡ SearchQuery.either
            (SearchQuery.plain (text "red shoe"))
            (SearchQuery.raw (text "red:* & shoe:*")))
unfolding tokenize build_search_query
query_runs = (refl, refl)

-- by time, by rank, and with a price
page_runs :
    (names (merged_items engine everything [] none 3 market) ≡ (0, 2) ∷ (1, 2) ∷ (1, 1) ∷ [])
    × (names (merged_items engine everything (text "ware") none 3 market) ≡ (1, 2) ∷ (1, 1) ∷ [])
    × (names (merged_items engine cheap [] none 9 market) ≡ (0, 2) ∷ (1, 1) ∷ (0, 1) ∷ [])
unfolding merged_items fetch_business_entries fetch_product_entries build_search_query
    contains_every_token tokenize
page_runs = (refl, refl, refl)

-- a token for each small key, and the payloads that are read back
abbrev letter : Json → ℕ
letter (integer (pos n)) = 97 + n
letter _ = 120

abbrev name_of : Json → Text
name_of (string s) = s
name_of _ = []

abbrev short_token : Json → Text
short_token (object dict) = letter (get (text "id") dict) ∷ name_of (get (text "t") dict)
short_token _ = []

abbrev only : Text → Parsed ℕ
only (n ∷ []) = Parsed.value n
only _ = Parsed.value_error

abbrev number : Json → Parsed ℕ
number (real x) = only x.printed
number _ = Parsed.uncaught

abbrev known_json : List Json → Text → Option Json
known_json [] token = none
known_json (j ∷ js) token = if text_eq (short_token j) token then some j else known_json js token

abbrev wire : List Json → Wire
wire known = record {
  dumps = short_token;
  loads = known_json known;
  real_of = λ n. record { printed = n ∷ []; is_zero = false };
  float_of = number;
  isoformat = λ n. n ∷ [];
  fromisoformat = only;
}

abbrev dict_at : ResultType → ℕ → ℕ → Bool → Json
dict_at t id time featured = object (
    cursor_payload (wire []) record {
      mode = Mode.recency;
      is_featured = featured;
      secondary = time;
      content_type = t;
      object_id = id;
    })

abbrev market_wire : Wire
market_wire = wire (
    dict_at ResultType.business 1 10 false
    ∷ dict_at ResultType.business 2 20 true
    ∷ dict_at ResultType.product 1 10 false
    ∷ dict_at ResultType.product 2 30 false
    ∷ [])

carried :
    (1 ≤ 2)
    × Carries market_wire
        (to_search_cursor Mode.recency (product_entry engine [] (ware 2 30 2000 false)))
unfolding encode_cursor get_item
carried = (
  omega arith,
  record { short = omega arith; letters = refl; reads = refl; float = refl; time = refl },
)

decode-encode_example :
    decode_cursor market_wire
      (encode_cursor market_wire
        (to_search_cursor Mode.recency (product_entry engine [] (ware 2 30 2000 false))))
      Mode.relevance
    ≡ Parsed.value_error
decode-encode_example =
    decode-encode market_wire
      (to_search_cursor Mode.recency (product_entry engine [] (ware 2 30 2000 false)))
      Mode.relevance carried.0 carried.1

all_carried :
    All (IsSent engine market_wire everything none market) (all_results engine everything [] market)
unfolding encode_cursor get_item
all_carried = (
  (
    omega arith,
    record { short = omega arith; letters = refl; reads = refl; float = refl; time = refl },
  ),
  (
    (
      omega arith,
      record { short = omega arith; letters = refl; reads = refl; float = refl; time = refl },
    ),
    (
      (
        omega arith,
        record { short = omega arith; letters = refl; reads = refl; float = refl; time = refl },
      ),
      (
        (
          omega arith,
          record { short = omega arith; letters = refl; reads = refl; float = refl; time = refl },
        ),
        tt,
      ),
    ),
  ),
)

walk_search-take_example :
    walk_search engine market_wire everything none 3 2 none market
    ≡ take 6 (sort (by_key sort_key) (all_results engine everything [] market))
walk_search-take_example =
    walk_search-take engine market_wire everything none market (refl, (refl, tt)) (refl, (refl, tt))
      all_carried 2 2 (omega arith)

abbrev silent : QueryParams
silent = record {
  q = none;
  category = none;
  country = none;
  city = none;
  business_type = none;
  min_rating = none;
  featured_only = none;
  min_price = none;
  max_price = none;
  cursor = none;
  page_size = none;
}

-- of these the text "NaN" alone is an amount
abbrev amount_of : Text → Option Amount
amount_of s = if text_eq s (text "NaN") then some Amount.not_finite else none

abbrev readers : Readers
readers = record { int_of = λ s. some (pos (length s)); decimal_of = amount_of; lower = λ s. s }

-- a payload whose mode is a list
abbrev forged : Json
forged = object (
    field (text "ft") (integer (pos 0)) (
      field (text "id") (integer (pos 1)) (
        field (text "m") (array no_items) (
          field (text "sec") (string (text "x")) (
            field (text "t") (string (text "business"))
              (field (text "v") (integer (pos 1)) no_fields))))))

abbrev forged_wire : Wire
forged_wire = wire (forged ∷ [])

abbrev forged_params : QueryParams
forged_params = record silent { cursor = some (text "bbusiness") }

-- a price that is no amount, one that is not finite, a page that is too large, and the start
view_runs :
    (search_view engine market_wire readers (record silent { min_price = some (text "x") }) market
      ≡ SearchResponse.http_400 (text "min_price"))
    × (search_view engine market_wire readers
          (record silent { max_price = some (text "NaN") })
          market
        ≡ SearchResponse.http_500)
    × (search_view engine market_wire readers
          (record silent {
            page_size = some (text "123456789012345678901234567890123456789012345678901");
          })
          market
        ≡ SearchResponse.http_400 (text "detail"))
unfolding search_view search_answer get_search_results
view_runs = (refl, refl, refl)

forged_runs : search_view engine forged_wire readers forged_params market ≡ SearchResponse.http_500
unfolding search_view search_answer get_search_results decode_cursor decode_payload get_item
forged_runs = refl
