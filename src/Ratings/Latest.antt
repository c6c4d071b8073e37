-- ===== src/Ratings/Latest.antt =====
-- The table of ratings refines a map from customer and business to the latest rating.

use cavallo_app.Ratings.Services.{
  rate_all, RatingStore, update_or_create, rate_business, is_rating, Rating,
}
use cavallo_app.Prelude.{
  refl, ◌∙◌, inr, inl, Bool-cases, none, arith, update_where, some, ◌++◌, false, ◌&&◌, ◌≡◌, [],
  ◌==◌, ◌∷◌, if◌then◌else◌, find, any, Option, ℕ, List,
}

-- the abstract view of the table
abbrev pub latest : List Rating → ℕ → ℕ → Option Rating
latest ratings customer business = find (is_rating customer business) ratings

-- the abstract write
abbrev pub put : Rating → (ℕ → ℕ → Option Rating) → ℕ → ℕ → Option Rating
put new m customer business =
    if new.customer == customer && new.business == business then some new else m customer business

abbrev pub put_all : List Rating → (ℕ → ℕ → Option Rating) → ℕ → ℕ → Option Rating
put_all [] m = m
put_all (r ∷ rs) m = put_all rs (put r m)

latest-append :
    (new : Rating) (customer business : ℕ) (rs : List Rating)
    → any (is_rating new.customer new.business) rs ≡ false
    → latest (rs ++ new ∷ []) customer business ≡ put new (latest rs) customer business
latest-append new customer business [] h = ground arith
latest-append new customer business (r ∷ rs) h =
    ground (arith, h, latest-append new customer business rs)

latest-update_where :
    (new : Rating) (customer business : ℕ) (rs : List Rating)
    → latest (update_where (is_rating new.customer new.business) (λ _. new) rs) customer business
      ≡ (if new.customer == customer && new.business == business
          then (if any (is_rating new.customer new.business) rs then some new else none)
          else latest rs customer business)
latest-update_where new customer business [] = ground arith
latest-update_where new customer business (r ∷ rs) =
    ground (arith, latest-update_where new customer business rs)

latest-update_or_create :
    (new : Rating) (customer business : ℕ) (rs : List Rating)
    → latest (update_or_create new rs).1 customer business ≡ put new (latest rs) customer business
unfolding update_or_create
latest-update_or_create new customer business rs =
    elim (Bool-cases (any (is_rating new.customer new.business) rs)) [
      | inl old ↦ ground (arith, old, latest-update_where new customer business rs)
      | inr fresh ↦ ground (arith, fresh, latest-append new customer business rs fresh)
    ]

put_all-same :
    (rs : List Rating) (m n : ℕ → ℕ → Option Rating)
    → ((c b : ℕ) → m c b ≡ n c b)
    → (c b : ℕ) → put_all rs m c b ≡ put_all rs n c b
put_all-same [] m n h c b = h c b
put_all-same (r ∷ rs) m n h c b =
    put_all-same rs (put r m) (put r n) (λ x y. ground (arith, h x y)) c b

-- Any run of ratings is, seen as a map from customer and business to a rating, the run of writes to
-- that map: a customer's rating of a business is the latest one, and no other write changes it.
pub rate_all-latest :
    {A : Type 0} (avg : ℕ → ℕ → A) (zero_rating : A) (rs : List Rating) (store : RatingStore A)
    (customer business : ℕ)
    → latest (rate_all avg zero_rating rs store).ratings customer business
      ≡ put_all rs (latest store.ratings) customer business
unfolding rate_business
rate_all-latest avg zero_rating [] store customer business = refl
rate_all-latest avg zero_rating (r ∷ rs) store customer business =
    rate_all-latest avg zero_rating rs (rate_business avg zero_rating r store).store customer
      business
    ∙ put_all-same rs _ _ (λ c b. latest-update_or_create r c b store.ratings) customer business
