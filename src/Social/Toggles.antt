-- ===== src/Social/Toggles.antt =====
-- The toggles of social/views.py: repeating one changes nothing.

use cavallo_app.Social.Responses.{done, Done}
use cavallo_app.Social.Records.{is_follow, FollowedBusiness, SocialStore}
use cavallo_app.Prelude.{
  ◌∙◌, if◌then◌else◌, [], ◌∷◌, find-update_where, refl, inl, any-filter-not, any-append, not, false,
  arith, Option-cases, Bool-cases, true, some, filter, filter_none, ◌==◌, inr, find, ap, any, ◌≡◌,
  ℕ,
}
use cavallo_app.Social.Follows.{
  add_follower, insert_follow, follow_atomic, invalidate_home_feed_cache, follow,
}

module _ (user business : ℕ) (s : SocialStore) where
  followed : any (is_follow user business) (follow_atomic user business s).1.follows ≡ true
  unfolding follow_atomic insert_follow
  followed = ground (
    arith,
    any-append (is_follow user business) s.follows
        (record { follower = user; business = business } ∷ []),
  )

  -- a follow that is there is found
  follow_atomic-old :
      any (is_follow user business) s.follows ≡ true → follow_atomic user business s ≡ (false, s)
  unfolding follow_atomic
  follow_atomic-old h = rw h refl

  -- the business is still found, under its key
  found_again :
      (pk : ℕ) (b : FollowedBusiness)
      → find (λ c. c.pk == pk) s.businesses ≡ some b
      → (c : FollowedBusiness) × (find
            (λ d. d.pk == pk)
            (follow_atomic user business s).1.businesses
          ≡ some c)
        × (c.pk ≡ b.pk)
  unfolding follow_atomic insert_follow
  found_again pk b h = elim (Bool-cases (any (is_follow user business) s.follows)) [
    | inl old ↦ (b, ground (arith, old, h), refl)
    | inr fresh ↦
        let moved =
          find-update_where (λ (c : FollowedBusiness). c.pk) add_follower (λ c. refl) pk business
            s.businesses in
        (
          if pk == business then add_follower b else b,
          ground (arith, fresh, moved, h),
          ground arith,
        )
  ]

-- dropping the cached page again changes nothing
invalidate_twice :
    (user : ℕ) (s : SocialStore)
    → invalidate_home_feed_cache user (invalidate_home_feed_cache user s)
      ≡ invalidate_home_feed_cache user s
unfolding invalidate_home_feed_cache
invalidate_twice user s =
    ap (λ feeds. record s { cached_feeds = feeds })
      (filter_none (λ u. u == user) (filter (λ u. not (u == user)) s.cached_feeds)
        (any-filter-not (λ u. u == user) s.cached_feeds))

repeated :
    (user pk : ℕ) (s : SocialStore) (b : FollowedBusiness)
    → find (λ c. c.pk == pk) s.businesses ≡ some b
    → any (is_follow user b.pk) s.follows ≡ true
    → follow user pk s ≡ done (invalidate_home_feed_cache user s)
unfolding follow
repeated user pk s b found old = ground (arith, found, follow_atomic-old user b.pk s old)

again :
    (user pk : ℕ) (t : SocialStore) (k : ℕ) (c : FollowedBusiness)
    → find (λ d. d.pk == pk) t.businesses ≡ some c
    → c.pk ≡ k
    → any (is_follow user k) t.follows ≡ true
    → follow user pk (invalidate_home_feed_cache user t) ≡ done (invalidate_home_feed_cache user t)
unfolding invalidate_home_feed_cache
again user pk t k c there same old =
    let here : any (is_follow user c.pk) t.follows ≡ true = simp same old in
    repeated user pk (invalidate_home_feed_cache user t) c there here
    ∙ ap (λ x. done x) (invalidate_twice user t)

-- Following a business again, with nothing in between, changes no table and sends no second
-- notification.
pub follow_twice :
    (user pk : ℕ) (s : SocialStore) (d : Done)
    → follow user pk s ≡ inr d
    → follow user pk d.store ≡ done d.store
unfolding follow
follow_twice user pk s d h = elim (Option-cases (find (λ b. b.pk == pk) s.businesses)) [
  | inl missing ↦ absurd (ground (arith, missing, h))
  | inr (b, found) ↦
      let t = (follow_atomic user b.pk s).1 in
      let after : invalidate_home_feed_cache user t ≡ d.store = ground (arith, found, h) in
      let (c, there, same) = found_again user b.pk s pk b found in
      rw (← after) (again user pk t b.pk c there same (followed user b.pk s))
]
