-- ===== src/Monetization/Tests.antt =====
-- Runs of monetization/services.py and tasks.py on small tables.

use cavallo_app.Monetization.Expiry.{
  deactivate_subscriptions-spares, deactivate_subscriptions-IsConsistent,
  expire_featured_subscriptions_sweeps,
}
use cavallo_app.Prelude.{refl, [], ◌∷◌, ◌==◌, ◌≤◌, text, ◌≡◌, true, false, count, arith, any, ℕ}
use cavallo_app.Monetization.Activation.{
  activate_subscription-replaces, IsReplaced, after_activation, IsConsistent,
}
use cavallo_app.Monetization.{
  ok, is_expired, is_active_of, sync_business_featured_flag, deactivate_subscriptions, has_active,
  expire_featured_subscriptions, activate_subscription, Plan, FeaturedSubscription, Db,
  BusinessProfile,
}

abbrev weekly : Plan
weekly = record {
  pk = 1;
  duration_days = 7;
  price = record { negative = false; digits = 9900; places = 2 };
  currency = text "EGP";
}

abbrev shop : BusinessProfile
shop = record { pk = 1; is_featured = false; updated_at = 0 }

abbrev factory : BusinessProfile
factory = record { pk = 2; is_featured = true; updated_at = 0 }

-- the factory's row runs out at 500
abbrev old_row : FeaturedSubscription
old_row = record {
  pk = 1;
  business_id = 2;
  plan_id = 1;
  starts_at = 0;
  expires_at = 500;
  is_active = true;
  updated_at = 0;
}

abbrev sample : Db
sample = record {
  businesses = shop ∷ factory ∷ [];
  subscriptions = old_row ∷ [];
  next_pk = 2;
  cached_profiles = 1 ∷ 2 ∷ 3 ∷ [];
}

sample-IsUnique : (k : ℕ) → count (is_active_of k) sample.subscriptions ≤ 1
sample-IsUnique k = ground arith

sample-IsConsistent : IsConsistent sample
sample-IsConsistent = record {
  mirrored = (refl, (refl, tt));
  unique = sample-IsUnique;
  keyed = record { distinct = (refl, tt); below = (omega arith, tt) };
}

sweep_runs :
    (expire_featured_subscriptions 499 sample ≡ (0, sample))
    × ((expire_featured_subscriptions 500 sample).0 ≡ 1)
    × ((expire_featured_subscriptions 500 sample).1.cached_profiles ≡ 1 ∷ 3 ∷ [])
unfolding expire_featured_subscriptions
sweep_runs = (refl, refl, refl)

activation_runs : (after_activation 1 weekly 100 sample).cached_profiles ≡ 2 ∷ 3 ∷ []
unfolding after_activation sync_business_featured_flag
activation_runs = refl

deactivate_subscriptions-IsConsistent_example :
    IsConsistent (deactivate_subscriptions (λ s. s.business_id == 2) 600 sample).1
deactivate_subscriptions-IsConsistent_example =
    deactivate_subscriptions-IsConsistent (λ s. s.business_id == 2) 600 sample sample-IsConsistent

deactivate_subscriptions-spares_example :
    has_active 2 (deactivate_subscriptions (λ s. s.pk == 7) 600 sample).1.subscriptions ≡ true
deactivate_subscriptions-spares_example =
    deactivate_subscriptions-spares (λ s. s.pk == 7) 600 2 sample sample-IsConsistent

expire_featured_subscriptions_sweeps_example :
    let swept_state = (expire_featured_subscriptions 500 sample).1 in
    (any (is_expired 500) swept_state.subscriptions ≡ false)
    × (expire_featured_subscriptions 500 swept_state ≡ (0, swept_state))
expire_featured_subscriptions_sweeps_example =
    expire_featured_subscriptions_sweeps 500 sample sample-IsConsistent

activate_subscription-replaces_example :
    (row : FeaturedSubscription) × (instance_ : BusinessProfile) × (after : Db)
    × (activate_subscription shop weekly 100 sample ≡ ok ((row, instance_), after))
    × IsReplaced 1 weekly 100 sample row after
activate_subscription-replaces_example =
    activate_subscription-replaces shop shop weekly 100 sample sample-IsConsistent refl
