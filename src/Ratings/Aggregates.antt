-- ===== src/Ratings/Aggregates.antt =====
-- The aggregate columns of a business are those of its ratings.

use cavallo_app.Prelude.{
  sym, ap, ◌∙◌, ==→eq, refl, [], All-append, ◌++◌, inr, arith, ◌∷◌, inl, update_where, any, count,
  Bool-cases, All-update_where, true, false, ◌&&◌, ◌≡◌, leb, All, ◌==◌, List, Bool, ℕ,
}
use cavallo_app.Ratings.Services.{
  rate_all, is_rating, set_aggregate, rates, total, average_of, RatedBusiness, rate_business,
  RatingStore, update_or_create, Rating,
}

module _ (new : Rating) where
  other_business :
      (k : ℕ) (rs : List Rating)
      → (k == new.business) ≡ false
      → (count (rates k) (update_or_create new rs).1 ≡ count (rates k) rs)
        × (total k (update_or_create new rs).1 ≡ total k rs)
  unfolding update_or_create
  other_business k rs other = elim (Bool-cases (any (is_rating new.customer new.business) rs)) [
    | inl old ↦ (rw old (replaced_count rs), rw old (replaced_total rs))
    | inr fresh ↦ (rw fresh (added_count rs), rw fresh (added_total rs))
  ]
    where
      replaced_count :
          (xs : List Rating)
          → count (rates k) (update_where (is_rating new.customer new.business) (λ _. new) xs)
            ≡ count (rates k) xs
      replaced_count [] = refl
      replaced_count (x ∷ xs) = ground (arith, replaced_count xs, other)

      replaced_total :
          (xs : List Rating)
          → total k (update_where (is_rating new.customer new.business) (λ _. new) xs) ≡ total k xs
      replaced_total [] = refl
      replaced_total (x ∷ xs) = ground (arith, replaced_total xs, other)

      added_count : (xs : List Rating) → count (rates k) (xs ++ new ∷ []) ≡ count (rates k) xs
      added_count [] = ground (arith, other)
      added_count (x ∷ xs) = ground (arith, added_count xs)

      added_total : (xs : List Rating) → total k (xs ++ new ∷ []) ≡ total k xs
      added_total [] = ground (arith, other)
      added_total (x ∷ xs) = ground (arith, added_total xs)

-- a validated score
abbrev pub is_score : Rating → Bool
is_score r = leb 1 r.score && leb r.score 5

update_or_create-scores :
    (new : Rating) (rs : List Rating)
    → is_score new ≡ true
    → All (λ r. is_score r ≡ true) rs
    → All (λ r. is_score r ≡ true) (update_or_create new rs).1
unfolding update_or_create
update_or_create-scores new rs good h =
    elim (Bool-cases (any (is_rating new.customer new.business) rs)) [
      | inl old ↦ rw old (All-update_where _ _ _ (λ _. new) rs (λ r k e. good) (λ r k e. k) h)
      | inr fresh ↦ rw fresh (All-append _ rs _ h (good, tt))
    ]

module _ {A : Type 0} (avg : ℕ → ℕ → A) (zero_rating : A) where
  -- the columns of a business against its ratings
  abbrev pub Agrees : List Rating → RatedBusiness A → Type 0
  Agrees rs b =
      (b.average_rating ≡ average_of avg zero_rating (total b.pk rs) (count (rates b.pk) rs))
      × (b.ratings_count ≡ count (rates b.pk) rs)

  agreed_hit :
      (new : Rating) (b : RatedBusiness A) (rs : List Rating)
      → (b.pk == new.business) ≡ true
      → Agrees rs (
          set_aggregate avg zero_rating
            (average_of avg zero_rating (total new.business rs) (count (rates new.business) rs))
            (count (rates new.business) rs)
            b)
  agreed_hit new b rs e =
      let same = ==→eq b.pk new.business e in
      (
        ap (λ k. average_of avg zero_rating (total k rs) (count (rates k) rs)) (sym same),
        ap (λ k. count (rates k) rs) (sym same),
      )

  agreed_miss :
      (new : Rating) (b : RatedBusiness A) (rs : List Rating)
      → (b.pk == new.business) ≡ false
      → Agrees rs b
      → Agrees (update_or_create new rs).1 b
  agreed_miss new b rs e h =
      let (counts, totals) = other_business new b.pk rs e in
      (
        h.0
            ∙ ap (λ t. average_of avg zero_rating t (count (rates b.pk) rs)) (sym totals)
            ∙ ap (average_of avg zero_rating (total b.pk (update_or_create new rs).1)) (sym counts),
        h.1 ∙ sym counts,
      )

  pub record IsAggregated (s : RatingStore A) : Type 0 where
    pub agreed : All (Agrees s.ratings) s.businesses
    pub scored : All (λ r. is_score r ≡ true) s.ratings

  rate_business-IsAggregated :
      (new : Rating) (s : RatingStore A)
      → is_score new ≡ true
      → IsAggregated s
      → IsAggregated (rate_business avg zero_rating new s).store
  unfolding rate_business
  rate_business-IsAggregated new s good h = record {
    agreed =
        All-update_where (Agrees s.ratings) (Agrees (update_or_create new s.ratings).1)
          (λ b. b.pk == new.business) (set_aggregate avg zero_rating _ _) s.businesses
          (λ b k e. agreed_hit new b _ e) (λ b k e. agreed_miss new b s.ratings e k) h.agreed;
    scored = update_or_create-scores new s.ratings good h.scored;
  }

  -- After any run of ratings with scores from 1 to 5, from tables whose columns are right, the count
  -- of every business is the number of its ratings, its average is the one of the sum of its scores,
  -- or zero if it has none, and all stored scores are from 1 to 5.
  pub rate_all-IsAggregated :
      (rs : List Rating) (s : RatingStore A)
      → All (λ r. is_score r ≡ true) rs
      → IsAggregated s
      → IsAggregated (rate_all avg zero_rating rs s)
  rate_all-IsAggregated [] s good h = h
  rate_all-IsAggregated (r ∷ rs) s good h =
      rate_all-IsAggregated rs (rate_business avg zero_rating r s).store good.1
        (rate_business-IsAggregated r s good.0 h)
