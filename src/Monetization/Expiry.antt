-- ===== src/Monetization/Expiry.antt =====
-- `deactivate_subscriptions` of monetization/services.py and the daily sweep of
-- monetization/tasks.py.
use cavallo_app.Monetization.Mirror.{Mirrors, sync-IsMirrored, IsMirrored, sync-nil}
use cavallo_app.Monetization.Activation.{IsConsistent}
use cavallo_app.Prelude.{
  ◌∙◌, inr, inl, Bool-cases, ◌⊎◌, true, update_where-IsKeyed, All-map, count-Reselects,
  update_where-Reselects, Distinct-Reselects, sym, Reselects, All, not, ℕ, ◌≤◌, ◌≡◌, refl, Bool,
  false, ◌&&◌, List, [], ◌∷◌, arith, ◌==◌, any, count, filter, map, update_where, mem,
}
use cavallo_app.Monetization.{
  is_expired, expire_featured_subscriptions, BusinessProfile, deactivate_rows,
  sync_business_featured_flag, deactivate_subscriptions, Db, FeaturedSubscription, has_active,
  is_active_of, deactivate,
}

module _ (hit : FeaturedSubscription → Bool) (now : ℕ) where
  count-deactivate :
      (j : ℕ) (subs : List FeaturedSubscription)
      → count (is_active_of j) (update_where hit (deactivate now) subs)
        ≤ count (is_active_of j) subs
  count-deactivate j [] = omega arith
  count-deactivate j (s ∷ subs) = ground (arith, count-deactivate j subs)

module _ (selected : FeaturedSubscription → Bool) where
  abbrev doomed : FeaturedSubscription → Bool
  doomed s = s.is_active && selected s

  abbrev spared : ℕ → FeaturedSubscription → Bool
  spared j s = s.business_id == j && (s.is_active && not (selected s))

  -- The subscriptions after the call: the selected active rows are deactivated, the others kept.
  abbrev pub swept : ℕ → List FeaturedSubscription → List FeaturedSubscription
  swept now subs = update_where (λ s. doomed s && s.is_active) (deactivate now) subs

  mem-business_ids :
      (j : ℕ) (subs : List FeaturedSubscription)
      → mem j (map (λ s. s.business_id) (filter doomed subs))
        ≡ any (λ s. s.business_id == j && (s.is_active && (doomed s && s.is_active))) subs
  mem-business_ids j [] = refl
  mem-business_ids j (s ∷ subs) = ground (arith, mem-business_ids j subs)

  pub has_active-swept :
      (now j : ℕ) (subs : List FeaturedSubscription)
      → has_active j (swept now subs) ≡ any (spared j) subs
  has_active-swept now j [] = refl
  has_active-swept now j (s ∷ subs) = ground (arith, has_active-swept now j subs)

  pub count-doomed_again :
      (now : ℕ) (subs : List FeaturedSubscription) → filter doomed (swept now subs) ≡ []
  count-doomed_again now [] = refl
  count-doomed_again now (s ∷ subs) = ground (arith, count-doomed_again now subs)

  swept-nothing :
      (now : ℕ) (subs : List FeaturedSubscription) → filter doomed subs ≡ [] → swept now subs ≡ subs
  swept-nothing now [] h = refl
  swept-nothing now (s ∷ subs) h = ground (arith, swept-nothing now subs)

  count-nothing :
      (subs : List FeaturedSubscription)
      → filter doomed subs ≡ []
      → count (λ s. doomed s && s.is_active) subs ≡ 0
  count-nothing [] h = refl
  count-nothing (s ∷ subs) h = ground (arith, count-nothing subs)

  -- The database after the call.
  abbrev pub swept_db : ℕ → Db → Db
  swept_db now db =
      sync_business_featured_flag (map (λ s. s.business_id) (filter doomed db.subscriptions)) now
        (record db { subscriptions = swept now db.subscriptions })

  deactivate_rows_lem :
      (rows : List FeaturedSubscription) (now : ℕ) (db : Db)
      → rows ≡ filter doomed db.subscriptions
      → All (Reselects (λ s. s.pk) doomed (map (λ s. s.pk) rows)) db.subscriptions
      → deactivate_rows rows now db
        ≡ (count (λ s. doomed s && s.is_active) db.subscriptions, swept_db now db)
  unfolding deactivate_rows
  deactivate_rows_lem [] now db e h =
      rw
        (
          ← e,
          swept-nothing now db.subscriptions (sym e),
          sync-nil now db,
          count-nothing db.subscriptions (sym e),
        )
        refl
  deactivate_rows_lem (row ∷ rows) now db e h =
      rw
        (
          ← e,
          update_where-Reselects (λ s. s.pk) doomed (λ s. s.is_active) (deactivate now)
              (map (λ s. s.pk) (row ∷ rows)) db.subscriptions h,
          count-Reselects (λ s. s.pk) doomed (λ s. s.is_active) (map (λ s. s.pk) (row ∷ rows))
              db.subscriptions h,
        )
        refl

  -- The selected active rows are deactivated and counted, by key as the source does it.
  pub deactivate_subscriptions_lem :
      (now : ℕ) (db : Db)
      → IsConsistent db
      → deactivate_subscriptions selected now db
        ≡ (count (λ s. doomed s && s.is_active) db.subscriptions, swept_db now db)
  unfolding deactivate_subscriptions
  deactivate_subscriptions_lem now db h =
      deactivate_rows_lem (filter doomed db.subscriptions) now db refl
        (Distinct-Reselects (λ s. s.pk) doomed db.subscriptions h.keyed.distinct)

  has_active-untouched :
      (now k : ℕ) (subs : List FeaturedSubscription)
      → mem k (map (λ s. s.business_id) (filter doomed subs)) ≡ false
      → has_active k (swept now subs) ≡ has_active k subs
  has_active-untouched now k [] m = refl
  has_active-untouched now k (s ∷ subs) m = ground (arith, has_active-untouched now k subs)

  swept_db-IsMirrored : (now : ℕ) (db : Db) → IsMirrored db → IsMirrored (swept_db now db)
  swept_db-IsMirrored now db h =
      sync-IsMirrored ids now (record db { subscriptions = swept now db.subscriptions })
        (All-map (Mirrors db.subscriptions) _ db.businesses outside h)
    where
      ids : List ℕ
      ids = map (λ s. s.business_id) (filter doomed db.subscriptions)

      outside :
          (b : BusinessProfile)
          → Mirrors db.subscriptions b
          → (mem b.pk ids ≡ true) ⊎ Mirrors (swept now db.subscriptions) b
      outside b m = elim (Bool-cases (mem b.pk ids)) [
        | inl e ↦ inl e
        | inr e ↦ inr (m ∙ sym (has_active-untouched now b.pk db.subscriptions e))
      ]

  -- Whatever is selected, the mirror and the uniqueness of active rows are kept.
  pub swept_db-IsConsistent : (now : ℕ) (db : Db) → IsConsistent db → IsConsistent (swept_db now db)
  unfolding sync_business_featured_flag
  swept_db-IsConsistent now db h = record {
    mirrored = swept_db-IsMirrored now db h.mirrored;
    unique = λ k.
        let below = count-deactivate (λ s. doomed s && s.is_active) now k db.subscriptions in
        let old = h.unique k in omega arith;
    keyed =
        update_where-IsKeyed (λ s. s.pk) (λ s. doomed s && s.is_active) (deactivate now)
          (λ (s : FeaturedSubscription) _. refl) db.next_pk db.subscriptions h.keyed;
  }

  -- In a consistent database any bulk deactivation keeps the mirror, the uniqueness of active
  -- rows and the keys.
  pub deactivate_subscriptions-IsConsistent :
      (now : ℕ) (db : Db)
      → IsConsistent db
      → IsConsistent (deactivate_subscriptions selected now db).1
  deactivate_subscriptions-IsConsistent now db h =
      rw (deactivate_subscriptions_lem now db h) (swept_db-IsConsistent now db h)

  -- In a consistent database, afterwards a business has an active subscription exactly if it had
  -- one that was not selected.
  pub deactivate_subscriptions-spares :
      (now j : ℕ) (db : Db)
      → IsConsistent db
      → has_active j (deactivate_subscriptions selected now db).1.subscriptions
        ≡ any (spared j) db.subscriptions
  unfolding sync_business_featured_flag
  deactivate_subscriptions-spares now j db h =
      rw (deactivate_subscriptions_lem now db h) (has_active-swept now j db.subscriptions)

  deactivate_subscriptions-none :
      (now : ℕ) (db : Db)
      → filter doomed db.subscriptions ≡ []
      → deactivate_subscriptions selected now db ≡ (0, db)
  unfolding deactivate_subscriptions
  deactivate_subscriptions-none now db e = rw e refl

any-expired-swept :
    (now : ℕ) (subs : List FeaturedSubscription)
    → any (is_expired now) (swept (is_expired now) now subs) ≡ false
any-expired-swept now [] = refl
any-expired-swept now (s ∷ subs) = ground (arith, any-expired-swept now subs)

pub expire_featured_subscriptions_lem :
    (now : ℕ) (db : Db)
    → IsConsistent db
    → expire_featured_subscriptions now db ≡ (
      count (λ s. doomed (is_expired now) s && s.is_active) db.subscriptions,
      swept_db (is_expired now) now db,
    )
unfolding expire_featured_subscriptions
expire_featured_subscriptions_lem now db h = deactivate_subscriptions_lem (is_expired now) now db h

expire_featured_subscriptions-none :
    (now : ℕ) (db : Db)
    → filter (doomed (is_expired now)) db.subscriptions ≡ []
    → expire_featured_subscriptions now db ≡ (0, db)
unfolding expire_featured_subscriptions
expire_featured_subscriptions-none now db e =
    deactivate_subscriptions-none (is_expired now) now db e

-- In a consistent database, after the daily sweep at `now` no active subscription has an expiry
-- at or before `now`, and a second sweep at the same time deactivates nothing and changes nothing.
pub expire_featured_subscriptions_sweeps :
    (now : ℕ) (db : Db)
    → IsConsistent db
    → let swept_state = (expire_featured_subscriptions now db).1 in
      (any (is_expired now) swept_state.subscriptions ≡ false)
      × (expire_featured_subscriptions now swept_state ≡ (0, swept_state))
unfolding sync_business_featured_flag
expire_featured_subscriptions_sweeps now db h = rw (expire_featured_subscriptions_lem now db h) (
  any-expired-swept now db.subscriptions,
  expire_featured_subscriptions-none now (swept_db (is_expired now) now db)
      (count-doomed_again (is_expired now) now db.subscriptions),
)
