-- ===== src/Monetization/Mirror.antt =====
-- `is_featured` mirrors the subscription table (`_sync_business_featured_flag` of
-- monetization/services.py).
use cavallo_app.Prelude.{
  refl, filter-always, update_where-never, ℕ, ◌≡◌, ◌⊎◌, true, false, not, ◌&&◌, List, [], ◌∷◌,
  arith, update_where, mem, All,
}
use cavallo_app.Monetization.{
  FeaturedSubscription, BusinessProfile, Db, has_active, featured_ids, set_featured,
  sync_business_featured_flag,
}

abbrev pub Mirrors : List FeaturedSubscription → BusinessProfile → Type 0
Mirrors subscriptions b = b.is_featured ≡ has_active b.pk subscriptions

-- Every stored flag says whether the business has an active subscription.
abbrev pub IsMirrored : Db → Type 0
IsMirrored db = All (Mirrors db.subscriptions) db.businesses

-- The selected keys are those among `ids` with an active subscription.
pub mem-featured_ids :
    (k : ℕ) (ids : List ℕ) (subs : List FeaturedSubscription)
    → mem k (featured_ids ids subs) ≡ (mem k ids && has_active k subs)
unfolding featured_ids
mem-featured_ids k ids [] = ground arith
mem-featured_ids k ids (s ∷ subs) = ground (arith, mem-featured_ids k ids subs)

-- Only businesses outside `ids` need a right flag before.
pub sync-IsMirrored :
    (ids : List ℕ) (now : ℕ) (db : Db)
    → All (λ b. (mem b.pk ids ≡ true) ⊎ Mirrors db.subscriptions b) db.businesses
    → IsMirrored (sync_business_featured_flag ids now db)
unfolding sync_business_featured_flag
sync-IsMirrored ids now db h = go db.businesses h
  where
    go :
        (bs : List BusinessProfile)
        → All (λ b. (mem b.pk ids ≡ true) ⊎ Mirrors db.subscriptions b) bs
        → All (Mirrors db.subscriptions) (
            update_where
              (λ b. mem b.pk ids && not (mem b.pk (featured_ids ids db.subscriptions)))
              (set_featured false now)
              (update_where
                (λ b. mem b.pk (featured_ids ids db.subscriptions))
                (set_featured true now)
                bs))
    go [] h = tt
    go (b ∷ bs) h = (ground (arith, h.0, mem-featured_ids b.pk ids db.subscriptions), go bs h.1)

-- The early return for an empty set of businesses.
pub sync-nil : (now : ℕ) (db : Db) → sync_business_featured_flag [] now db ≡ db
unfolding sync_business_featured_flag
sync-nil now db =
    rw
      (
        update_where-never (λ (b : BusinessProfile). mem b.pk (featured_ids [] db.subscriptions))
            (set_featured true now) db.businesses (λ b. mem-featured_ids b.pk [] db.subscriptions),
        update_where-never
            (λ (b : BusinessProfile).
              mem b.pk [] && not (mem b.pk (featured_ids [] db.subscriptions)))
            (set_featured false now) db.businesses (λ b. refl),
        filter-always (λ k. not (mem k [])) db.cached_profiles (λ k. refl),
      )
      refl
