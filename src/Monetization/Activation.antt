-- ===== src/Monetization/Activation.antt =====
-- `activate_subscription` of monetization/services.py.
use cavallo_app.Paging.Sources.{filter-append}
use mathlib.Core.List.{append-nil}
use cavallo_app.Prelude.{
  ap, ◌∙◌, filter, ◌*◌, refl, ℕ, ◌+◌, ◌≤◌, ◌≡◌, ◌⊎◌, true, false, List, [], ◌∷◌, ◌++◌, arith, ◌==◌,
  if◌then◌else◌, count, find, none, some, update_where, mem, All-map, any-append, count-append,
  IsKeyed, append-IsKeyed, update_where-IsKeyed,
}
use cavallo_app.Monetization.{
  Plan, FeaturedSubscription, BusinessProfile, Db, ok, err, does_not_exist, has_active,
  is_active_of, deactivate, save_new, sync_business_featured_flag, activate_locked,
  activate_subscription,
}
use cavallo_app.Monetization.Mirror.{Mirrors, IsMirrored, sync-IsMirrored}

-- No business has two active subscriptions.
abbrev pub IsUnique : Db → Type 0
IsUnique db = (k : ℕ) → count (is_active_of k) db.subscriptions ≤ 1

pub record IsConsistent (db : Db) : Type 0 where
  pub mirrored : IsMirrored db
  pub unique : IsUnique db
  pub keyed : IsKeyed (λ s. s.pk) db.next_pk db.subscriptions

module _ (k now : ℕ) where
  -- superseding leaves `k` without an active row and every other business as it was
  has_active-supersede :
      (j : ℕ) (subs : List FeaturedSubscription)
      → has_active j (update_where (is_active_of k) (deactivate now) subs)
        ≡ (if j == k then false else has_active j subs)
  has_active-supersede j [] = ground arith
  has_active-supersede j (s ∷ subs) = ground (arith, has_active-supersede j subs)

  count-supersede :
      (j : ℕ) (subs : List FeaturedSubscription)
      → count (is_active_of j) (update_where (is_active_of k) (deactivate now) subs)
        ≡ (if j == k then 0 else count (is_active_of j) subs)
  count-supersede j [] = ground arith
  count-supersede j (s ∷ subs) = ground (arith, count-supersede j subs)

module _ (k now : ℕ) where
  active-supersede :
      (j : ℕ) (subs : List FeaturedSubscription)
      → filter (is_active_of j) (update_where (is_active_of k) (deactivate now) subs)
        ≡ (if j == k then [] else filter (is_active_of j) subs)
  active-supersede j [] = ground arith
  active-supersede j (s ∷ subs) = ground (arith, active-supersede j subs)

-- The database after `activate_subscription` of business `k`.
unfoldable pub after_activation : ℕ → Plan → ℕ → Db → Db
after_activation k plan now db = sync_business_featured_flag (k ∷ []) now (record db {
  subscriptions =
      update_where (is_active_of k) (deactivate now) db.subscriptions
      ++ save_new db.next_pk k plan now ∷ [];
  next_pk = db.next_pk + 1;
})

-- The constraint never fires: the activation of a stored business succeeds.
pub activate_locked_lem :
    (business : BusinessProfile) (plan : Plan) (now : ℕ) (db : Db)
    → activate_locked business plan now db
      ≡ ok (
        (save_new db.next_pk business.pk plan now, record business { is_featured = true }),
        after_activation business.pk plan now db,
      )
unfolding activate_locked after_activation
activate_locked_lem business plan now db =
    ground (arith, has_active-supersede business.pk now business.pk db.subscriptions)

after_activation-IsMirrored :
    (k : ℕ) (plan : Plan) (now : ℕ) (db : Db)
    → IsMirrored db
    → IsMirrored (after_activation k plan now db)
unfolding after_activation save_new
after_activation-IsMirrored k plan now db h =
    sync-IsMirrored (k ∷ []) now _
      (All-map (Mirrors db.subscriptions) _ db.businesses (λ b m. outside b m) h)
  where
    outside :
        (b : BusinessProfile)
        → Mirrors db.subscriptions b
        → (mem b.pk (k ∷ []) ≡ true)
          ⊎ Mirrors
              (update_where (is_active_of k) (deactivate now) db.subscriptions
                ++ save_new db.next_pk k plan now ∷ [])
              b
    outside b m = ground (
      arith,
      m,
      has_active-supersede k now b.pk db.subscriptions,
      any-append (is_active_of b.pk)
          (update_where (is_active_of k) (deactivate now) db.subscriptions)
          (save_new db.next_pk k plan now ∷ []),
    )

after_activation-IsUnique :
    (k : ℕ) (plan : Plan) (now : ℕ) (db : Db)
    → IsUnique db
    → IsUnique (after_activation k plan now db)
unfolding after_activation sync_business_featured_flag save_new
after_activation-IsUnique k plan now db h j = ground (
  arith,
  h j,
  count-supersede k now j db.subscriptions,
  count-append (is_active_of j) (update_where (is_active_of k) (deactivate now) db.subscriptions)
      (save_new db.next_pk k plan now ∷ []),
)

after_activation-IsKeyed :
    (k : ℕ) (plan : Plan) (now : ℕ) (db : Db)
    → IsKeyed (λ (s : FeaturedSubscription). s.pk) db.next_pk db.subscriptions
    → IsKeyed
        (λ (s : FeaturedSubscription). s.pk)
        (after_activation k plan now db).next_pk
        (after_activation k plan now db).subscriptions
unfolding after_activation sync_business_featured_flag save_new
after_activation-IsKeyed k plan now db h =
    append-IsKeyed (λ s. s.pk) db.next_pk _ (save_new db.next_pk k plan now)
      (update_where-IsKeyed (λ s. s.pk) (is_active_of k) (deactivate now)
        (λ (s : FeaturedSubscription) _. refl) db.next_pk db.subscriptions h)
      refl

-- The locked row decides: without it the call raises, with it the call succeeds.
pub activate_subscription_lem :
    (business : BusinessProfile) (plan : Plan) (now : ℕ) (db : Db)
    → activate_subscription business plan now db
      ≡ elim (find (λ b. b.pk == business.pk) db.businesses) [
        | none ↦ err does_not_exist
        | some _ ↦ ok (
          (save_new db.next_pk business.pk plan now, record business { is_featured = true }),
          after_activation business.pk plan now db,
        )
      ]
unfolding activate_subscription
activate_subscription_lem business plan now db =
    ground (arith, activate_locked_lem business plan now db)

pub after_activation-IsConsistent :
    (k : ℕ) (plan : Plan) (now : ℕ) (db : Db)
    → IsConsistent db
    → IsConsistent (after_activation k plan now db)
after_activation-IsConsistent k plan now db h = record {
  mirrored = after_activation-IsMirrored k plan now db h.mirrored;
  unique = after_activation-IsUnique k plan now db h.unique;
  keyed = after_activation-IsKeyed k plan now db h.keyed;
}

-- After the activation of `k` it has an active row, and no other business gains or loses one.
pub has_active-after_activation :
    (k j : ℕ) (plan : Plan) (now : ℕ) (db : Db)
    → has_active j (after_activation k plan now db).subscriptions
      ≡ (if j == k then true else has_active j db.subscriptions)
unfolding after_activation save_new sync_business_featured_flag
has_active-after_activation k j plan now db = ground (
  arith,
  has_active-supersede k now j db.subscriptions,
  any-append (is_active_of j) (update_where (is_active_of k) (deactivate now) db.subscriptions)
      (save_new db.next_pk k plan now ∷ []),
)

-- What an activation leaves: one active row of the business, which starts now and ends after the days
-- of the plan.
pub record IsReplaced (k : ℕ) (plan : Plan) (now : ℕ) (db : Db) (row : FeaturedSubscription)
    (after : Db) : Type 0 where
  pub business_id : row.business_id ≡ k
  pub plan_id : row.plan_id ≡ plan.pk
  pub starts_at : row.starts_at ≡ now
  pub expires_at : row.expires_at ≡ now + plan.duration_days * 86400
  pub active : filter (is_active_of k) after.subscriptions ≡ row ∷ []
  pub others :
      (j : ℕ)
      → (j == k) ≡ false
      → filter (is_active_of j) after.subscriptions ≡ filter (is_active_of j) db.subscriptions
  pub consistent : IsConsistent after

after_activation-IsReplaced :
    (k : ℕ) (plan : Plan) (now : ℕ) (db : Db)
    → IsConsistent db
    → IsReplaced k plan now db (save_new db.next_pk k plan now) (after_activation k plan now db)
unfolding after_activation save_new sync_business_featured_flag
after_activation-IsReplaced k plan now db h = record {
  business_id = refl;
  plan_id = refl;
  starts_at = refl;
  expires_at = refl;
  active = ground (arith, rows k, active-supersede k now k db.subscriptions);
  others = others_lem;
  consistent = after_activation-IsConsistent k plan now db h;
}
  where
    rows :
        (j : ℕ)
        → filter (is_active_of j) (
            update_where (is_active_of k) (deactivate now) db.subscriptions
            ++ save_new db.next_pk k plan now ∷ [])
          ≡ filter
              (is_active_of j)
              (update_where (is_active_of k) (deactivate now) db.subscriptions)
            ++ filter (is_active_of j) (save_new db.next_pk k plan now ∷ [])
    rows j = filter-append (is_active_of j) _ _

    others_lem :
        (j : ℕ)
        → (j == k) ≡ false
        → filter (is_active_of j) (
            update_where (is_active_of k) (deactivate now) db.subscriptions
            ++ save_new db.next_pk k plan now ∷ [])
          ≡ filter (is_active_of j) db.subscriptions
    others_lem j other =
        let nothing : filter (is_active_of j) (save_new db.next_pk k plan now ∷ []) ≡ [] =
          ground (arith, other) in
        let kept : filter (is_active_of j)
              (update_where (is_active_of k) (deactivate now) db.subscriptions)
            ≡ filter (is_active_of j) db.subscriptions =
          active-supersede k now j db.subscriptions ∙ ground (arith, other) in
        rows j
        ∙ ap
            (λ ys.
              filter (is_active_of j)
                (update_where (is_active_of k) (deactivate now) db.subscriptions)
              ++ ys)
            nothing
        ∙ append-nil _
        ∙ kept

-- In a consistent state the activation of a stored business succeeds. It returns a row of the business
-- and the plan that starts now and ends after the plan's number of days, this row is then the only
-- active one of the business, the active rows of every other business are as before, and the state is
-- consistent.
pub activate_subscription-replaces :
    (business stored : BusinessProfile) (plan : Plan) (now : ℕ) (db : Db)
    → IsConsistent db
    → find (λ b. b.pk == business.pk) db.businesses ≡ some stored
    → (row : FeaturedSubscription) × (instance_ : BusinessProfile) × (after : Db)
      × (activate_subscription business plan now db ≡ ok ((row, instance_), after))
      × IsReplaced business.pk plan now db row after
activate_subscription-replaces business stored plan now db h found = (
  save_new db.next_pk business.pk plan now,
  record business { is_featured = true },
  after_activation business.pk plan now db,
  ground (arith, found, activate_subscription_lem business plan now db),
  after_activation-IsReplaced business.pk plan now db h,
)
