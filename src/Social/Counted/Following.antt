-- ===== src/Social/Counted/Following.antt =====
-- A follow and an unfollow keep the counters.

use cavallo_app.Social.Counted.{followed_by, follows_business, IsCounted}
use cavallo_app.Social.Records.{Follower, FollowedBusiness, is_follow, SocialStore}
use cavallo_app.Prelude.{
  count_none, [], ◌∷◌, not, count-filter-le, count-append, remove-tallied, refl, true,
  insert-tallied, arith, if◌then◌else◌, false, ◌≡◌, ◌==◌, count, any, Bool, ℕ,
}
use cavallo_app.Social.Follows.{
  drop_following, add_following, drop_follower, add_follower, unfollow_atomic, remove_follow,
  insert_follow, follow_atomic, invalidate_home_feed_cache,
}

module _ (user business : ℕ) (s : SocialStore) (h : IsCounted s) where
  insert_follow-IsCounted :
      any (is_follow user business) s.follows ≡ false → IsCounted (insert_follow user business s)
  unfolding insert_follow
  insert_follow-IsCounted fresh = record {
    followers =
        insert-tallied (λ (b : FollowedBusiness). b.follower_count) follows_business
          (λ b. b.pk == business) add_follower _ s.businesses s.follows (λ b. ground arith)
          (λ b. refl) (λ b. refl) h.followers;
    following =
        insert-tallied (λ (u : Follower). u.following_count) followed_by (λ u. u.pk == user)
          add_following _ s.users s.follows (λ u. ground arith) (λ u. refl) (λ u. refl) h.following;
    liked = h.liked;
    commented = h.commented;
    shared = h.shared;
    follow_once = λ u k. ground (
      arith,
      h.follow_once u k,
      count-append (is_follow u k) s.follows (record { follower = user; business = business } ∷ []),
      count_none (is_follow user business) s.follows fresh,
    );
    like_once = h.like_once;
    save_once = h.save_once;
  }

  remove_follow-IsCounted :
      (count (is_follow user business) s.follows == 0) ≡ false
      → IsCounted (remove_follow user business s)
  unfolding remove_follow
  remove_follow-IsCounted there =
      let one : count (is_follow user business) s.follows ≡ 1 =
        ground (arith, there, h.follow_once user business) in
      record {
        followers =
            remove-tallied (λ (b : FollowedBusiness). b.follower_count) follows_business
              (λ b. b.pk == business) drop_follower (is_follow user business) s.businesses s.follows
              one (λ b f x y. ground arith) (λ b f x y. ground arith) (λ b. refl) (λ b. refl)
              h.followers;
        following =
            remove-tallied (λ (u : Follower). u.following_count) followed_by (λ u. u.pk == user)
              drop_following (is_follow user business) s.users s.follows one
              (λ u f x y. ground arith) (λ u f x y. ground arith) (λ u. refl) (λ u. refl)
              h.following;
        liked = h.liked;
        commented = h.commented;
        shared = h.shared;
        follow_once = λ u k. omega (
          arith,
          count-filter-le (is_follow u k) (λ f. not (is_follow user business f)) s.follows,
          h.follow_once u k,
        );
        like_once = h.like_once;
        save_once = h.save_once;
      }

  pub follow_atomic-IsCounted : IsCounted (follow_atomic user business s).1
  unfolding follow_atomic
  follow_atomic-IsCounted = by_test (any (is_follow user business) s.follows) refl
    where
      by_test :
          (b : Bool)
          → any (is_follow user business) s.follows ≡ b
          → IsCounted
              (if◌then◌else◌ {A = Bool × SocialStore} b
                (false, s)
                (true, insert_follow user business s)).1
      by_test true old = h
      by_test false fresh = insert_follow-IsCounted fresh

  pub unfollow_atomic-IsCounted : IsCounted (unfollow_atomic user business s)
  unfolding unfollow_atomic
  unfollow_atomic-IsCounted = by_test (count (is_follow user business) s.follows == 0) refl
    where
      by_test :
          (b : Bool)
          → (count (is_follow user business) s.follows == 0) ≡ b
          → IsCounted (if b then s else remove_follow user business s)
      by_test true nothing = h
      by_test false there = remove_follow-IsCounted there

-- the feed cache is no table
pub invalidate-IsCounted :
    (user : ℕ) (s : SocialStore) → IsCounted s → IsCounted (invalidate_home_feed_cache user s)
unfolding invalidate_home_feed_cache
invalidate-IsCounted user s h = record {
  followers = h.followers;
  following = h.following;
  liked = h.liked;
  commented = h.commented;
  shared = h.shared;
  follow_once = h.follow_once;
  like_once = h.like_once;
  save_once = h.save_once;
}
