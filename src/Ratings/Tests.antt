-- ===== src/Ratings/Tests.antt =====
-- Sample ratings, with the pair of the sum and the count as average.

use cavallo_app.Ratings.Latest.{rate_all-latest, put_all, latest}
use cavallo_app.Ratings.Services.{
  update_or_create, Rating, RatedBusiness, rate_business, rate_all, RatingStore,
}
use cavallo_app.Prelude.{refl, ◌∷◌, ◌≡◌, [], ℕ, List}
use cavallo_app.Ratings.Aggregates.{IsAggregated, rate_all-IsAggregated}

abbrev as_pair : ℕ → ℕ → ℕ × ℕ
as_pair sum number = (sum, number)

abbrev rated : ℕ → ℕ → ℕ → Rating
rated customer business score = record {
  customer = customer;
  business = business;
  score = score;
  review_text = [];
}

abbrev unrated : ℕ → RatedBusiness (ℕ × ℕ)
unrated k = record { pk = k; average_rating = (0, 0); ratings_count = 0 }

abbrev empty_store : RatingStore (ℕ × ℕ)
empty_store = record { ratings = []; businesses = unrated 7 ∷ unrated 8 ∷ [] }

abbrev several : List Rating
several = rated 1 7 5 ∷ rated 2 7 3 ∷ rated 1 8 2 ∷ rated 1 7 1 ∷ []

-- the second rating of customer 1 replaces the first
several_businesses :
    (rate_all as_pair (0, 0) several empty_store).businesses
    ≡ record { pk = 7; average_rating = (4, 2); ratings_count = 2 }
      ∷ record { pk = 8; average_rating = (2, 1); ratings_count = 1 }
      ∷ []
unfolding rate_business update_or_create
several_businesses = refl

empty_store-IsAggregated : IsAggregated as_pair (0, 0) empty_store
empty_store-IsAggregated = record { agreed = ((refl, refl), ((refl, refl), tt)); scored = tt }

rate_all-latest_example :
    latest (rate_all as_pair (0, 0) several empty_store).ratings 1 7
    ≡ put_all several (latest []) 1 7
rate_all-latest_example = rate_all-latest as_pair (0, 0) several empty_store 1 7

rate_all-IsAggregated_example :
    IsAggregated as_pair (0, 0) (rate_all as_pair (0, 0) several empty_store)
rate_all-IsAggregated_example =
    rate_all-IsAggregated as_pair (0, 0) several empty_store (refl, (refl, (refl, (refl, tt))))
      empty_store-IsAggregated
