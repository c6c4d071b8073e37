-- ===== src/Monetization.antt =====
-- Featured subscriptions: monetization/models.py, services.py and tasks.py.
--
-- The tables are lists of rows in key order; a function on `Db` is one `transaction.atomic()`
-- block, which the row locks of the source serialise. Times are seconds.
pub mod Mirror
pub mod Activation
pub mod Expiry
mod Tests
use cavallo_app.Prelude.{
  ℕ, zero, suc, ◌+◌, ◌*◌, Bool, true, false, not, ◌&&◌, Option, none, some, List, [], ◌∷◌, ◌++◌,
  map, ◌==◌, leb, if◌then◌else◌, length, filter, any, find, count, update_where, mem, Text,
}
use cavallo_app.Money.{Decimal}

pub record Plan : Type 0 where
  pub pk : ℕ
  pub duration_days : ℕ
  pub price : Decimal
  pub currency : Text

pub record FeaturedSubscription : Type 0 where
  pub pk : ℕ
  pub business_id : ℕ
  pub plan_id : ℕ
  pub starts_at : ℕ
  pub expires_at : ℕ
  pub is_active : Bool
  pub updated_at : ℕ

-- the columns of `BusinessProfile` that this app reads and writes
pub record BusinessProfile : Type 0 where
  pub pk : ℕ
  pub is_featured : Bool
  pub updated_at : ℕ

-- `cached_profiles`: the keys for which the public profile response is in the cache
pub record Db : Type 0 where
  pub businesses : List BusinessProfile
  pub subscriptions : List FeaturedSubscription
  pub next_pk : ℕ
  pub cached_profiles : List ℕ

-- `BusinessProfile.DoesNotExist`, and the `IntegrityError` of `uniq_active_featured_per_biz`
pub data Failure : Type 0 where
  does_not_exist integrity_error : Failure

pub data Result (A : Type 0) : Type 0 where
  ok : A → Result A
  err : Failure → Result A

abbrev pub day : ℕ
day = 86400

abbrev pub is_active_of : ℕ → FeaturedSubscription → Bool
is_active_of k s = s.business_id == k && s.is_active

abbrev pub has_active : ℕ → List FeaturedSubscription → Bool
has_active k subscriptions = any (is_active_of k) subscriptions

abbrev pub deactivate : ℕ → FeaturedSubscription → FeaturedSubscription
deactivate now s = record s { is_active = false; updated_at = now }

abbrev pub set_featured : Bool → ℕ → BusinessProfile → BusinessProfile
set_featured flag now b = record b { is_featured = flag; updated_at = now }

-- `FeaturedSubscription.save()` of a row that is being added and has no dates yet, where the end of
-- the plan is within the range of dates
unfoldable pub save_new : ℕ → ℕ → Plan → ℕ → FeaturedSubscription
save_new pk business_id plan now = record {
  pk = pk;
  business_id = business_id;
  plan_id = plan.pk;
  starts_at = now;
  expires_at = now + plan.duration_days * day;
  is_active = true;
  updated_at = now;
}

-- `FeaturedSubscription.objects.create(...)` for a stored plan, with the database's constraint
unfoldable pub create : ℕ → Plan → ℕ → Db → Result (FeaturedSubscription × Db)
unfolding save_new
create business_id plan now db =
    let row = save_new db.next_pk business_id plan now in
    if has_active business_id db.subscriptions
    then err integrity_error
    else ok
        (row, record db { subscriptions = db.subscriptions ++ row ∷ []; next_pk = db.next_pk + 1 })

-- the keys of the businesses among `ids` that have an active row
unfoldable pub featured_ids : List ℕ → List FeaturedSubscription → List ℕ
featured_ids ids subscriptions =
    map (λ s. s.business_id) (filter (λ s. mem s.business_id ids && s.is_active) subscriptions)

-- `_sync_business_featured_flag`; the cache keys go when the transaction commits
unfoldable pub sync_business_featured_flag : List ℕ → ℕ → Db → Db
unfolding featured_ids
sync_business_featured_flag ids now db =
    let featured = featured_ids ids db.subscriptions in
    record db {
      businesses =
          update_where (λ b. mem b.pk ids && not (mem b.pk featured)) (set_featured false now)
            (update_where (λ b. mem b.pk featured) (set_featured true now) db.businesses);
      cached_profiles = filter (λ k. not (mem k ids)) db.cached_profiles;
    }

-- Steps 2 to 4 of `activate_subscription`, once the business row is locked.
unfoldable pub activate_locked :
    BusinessProfile → Plan → ℕ → Db → Result ((FeaturedSubscription × BusinessProfile) × Db)
unfolding create sync_business_featured_flag
activate_locked business plan now db =
    let superseded = record db {
      subscriptions = update_where (is_active_of business.pk) (deactivate now) db.subscriptions;
    } in
    elim (create business.pk plan now superseded) [
      | err e ↦ err e
      | ok (row, created) ↦ ok (
        (row, record business { is_featured = true }),
        sync_business_featured_flag (business.pk ∷ []) now created,
      )
    ]

-- `activate_subscription`: the new row, the caller's instance as it is left, and the database.
unfoldable pub activate_subscription :
    BusinessProfile → Plan → ℕ → Db → Result ((FeaturedSubscription × BusinessProfile) × Db)
unfolding activate_locked
activate_subscription business plan now db = elim (find (λ b. b.pk == business.pk) db.businesses) [
  | none ↦ err does_not_exist
  | some _ ↦ activate_locked business plan now db
]

-- `deactivate_subscriptions` from the rows that it has read: `if not rows: return 0`, the bulk
-- update by key of those that are still active, and the sync of their businesses
unfoldable pub deactivate_rows : List FeaturedSubscription → ℕ → Db → ℕ × Db
unfolding sync_business_featured_flag
deactivate_rows [] now db = (0, db)
deactivate_rows (row ∷ rows) now db =
    let subscription_ids = map (λ s. s.pk) (row ∷ rows) in
    let hit = λ (s : FeaturedSubscription). mem s.pk subscription_ids && s.is_active in
    (
      count hit db.subscriptions,
      sync_business_featured_flag (map (λ s. s.business_id) (row ∷ rows)) now
          (record db { subscriptions = update_where hit (deactivate now) db.subscriptions }),
    )

-- `deactivate_subscriptions`, of the queryset that `selected` describes
unfoldable pub deactivate_subscriptions : (FeaturedSubscription → Bool) → ℕ → Db → ℕ × Db
unfolding deactivate_rows
deactivate_subscriptions selected now db =
    deactivate_rows (filter (λ s. s.is_active && selected s) db.subscriptions) now db

-- `FeaturedSubscription.objects.filter(is_active=True, expires_at__lte=now)`
abbrev pub is_expired : ℕ → FeaturedSubscription → Bool
is_expired now s = s.is_active && leb s.expires_at now

-- `expire_featured_subscriptions` of monetization/tasks.py
unfoldable pub expire_featured_subscriptions : ℕ → Db → ℕ × Db
unfolding deactivate_subscriptions
expire_featured_subscriptions now db = deactivate_subscriptions (is_expired now) now db
