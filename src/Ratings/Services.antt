-- ===== src/Ratings/Services.antt =====
-- ratings/models.py and ratings/services.py.

use cavallo_app.Prelude.{
  ◌++◌, true, false, update_where, any, [], ◌+◌, ◌&&◌, ◌∷◌, if◌then◌else◌, count, Text, ◌==◌, ℕ,
  List, Bool,
}

pub record Rating : Type 0 where
  pub customer : ℕ
  pub business : ℕ
  pub score : ℕ
  pub review_text : Text

-- `A` is the type of the column `average_rating`.
pub record RatedBusiness (A : Type 0) : Type 0 where
  pub pk : ℕ
  pub average_rating : A
  pub ratings_count : ℕ

pub record RatingStore (A : Type 0) : Type 0 where
  pub ratings : List Rating
  pub businesses : List (RatedBusiness A)

abbrev pub is_rating : ℕ → ℕ → Rating → Bool
is_rating customer business r = r.customer == customer && r.business == business

abbrev pub rates : ℕ → Rating → Bool
rates business r = r.business == business

-- the sum of the scores of a business
abbrev pub total : ℕ → List Rating → ℕ
total business [] = 0
total business (r ∷ rs) = (if rates business r then r.score else 0) + total business rs

-- `Rating.objects.update_or_create(...)`: whether the row was created
unfoldable pub update_or_create : Rating → List Rating → Bool × List Rating
update_or_create new ratings =
    if any (is_rating new.customer new.business) ratings
    then (false, update_where (is_rating new.customer new.business) (λ _. new) ratings)
    else (true, ratings ++ new ∷ [])

-- the answer of `rate_business`, beside the tables
pub record Rated (A : Type 0) : Type 0 where
  pub created : Bool
  pub average_rating : A
  pub ratings_count : ℕ
  pub store : RatingStore A

-- The database's `Avg` of a sum and a positive number of scores, as the column stores it, and the
-- column's zero.
module _ {A : Type 0} (avg : ℕ → ℕ → A) (zero_rating : A) where
  -- `aggregates["avg"] or 0`
  abbrev pub average_of : ℕ → ℕ → A
  average_of sum number = if number == 0 then zero_rating else avg sum number

  abbrev pub set_aggregate : A → ℕ → RatedBusiness A → RatedBusiness A
  set_aggregate average number b = record b { average_rating = average; ratings_count = number }

  -- `rate_business`, with a validated score
  unfoldable pub rate_business : Rating → RatingStore A → Rated A
  rate_business new store =
      let (created, ratings) = update_or_create new store.ratings in
      let number = count (rates new.business) ratings in
      let average = average_of (total new.business ratings) number in
      record {
        created = created;
        average_rating = average;
        ratings_count = number;
        store = record {
          ratings = ratings;
          businesses =
              update_where (λ b. b.pk == new.business) (set_aggregate average number)
                store.businesses;
        };
      }

  -- one call after another
  abbrev pub rate_all : List Rating → RatingStore A → RatingStore A
  rate_all [] store = store
  rate_all (r ∷ rs) store = rate_all rs (rate_business r store).store
