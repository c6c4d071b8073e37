-- ===== src/Social/Follows.antt =====
-- Following a business (`FollowToggleView` of social/views.py).

use cavallo_app.Social.Responses.{done, not_found, Done, ApiError}
use cavallo_app.Notifications.Records.{NotificationRequest}
use cavallo_app.Prelude.{
  inr, ltb, inl, true, none, ◌&&◌, update_where, find, false, [], ◌==◌, ◌⊎◌, ◌∷◌, some, not, count,
  any, text, if◌then◌else◌, filter, Bool, ◌++◌, ◌-◌, ◌+◌, ℕ,
}
use cavallo_app.Social.Records.{is_follow, SocialStore, Follower, FollowedBusiness}

-- `_invalidate_home_feed_cache`
unfoldable pub invalidate_home_feed_cache : ℕ → SocialStore → SocialStore
invalidate_home_feed_cache user store = record store {
  cached_feeds = filter (λ u. not (u == user)) store.cached_feeds;
}

abbrev pub add_follower : FollowedBusiness → FollowedBusiness
add_follower b = record b { follower_count = b.follower_count + 1 }

abbrev pub drop_follower : FollowedBusiness → FollowedBusiness
drop_follower b = record b { follower_count = b.follower_count - 1 }

abbrev pub add_following : Follower → Follower
add_following u = record u { following_count = u.following_count + 1 }

abbrev pub drop_following : Follower → Follower
drop_following u = record u { following_count = u.following_count - 1 }

-- a new follow with both counters
unfoldable pub insert_follow : ℕ → ℕ → SocialStore → SocialStore
insert_follow user business store = record store {
  follows = store.follows ++ record { follower = user; business = business } ∷ [];
  businesses = update_where (λ b. b.pk == business) add_follower store.businesses;
  users = update_where (λ u. u.pk == user) add_following store.users;
}

-- the atomic block of a follow: `get_or_create`, and the counters if it created the row
unfoldable pub follow_atomic : ℕ → ℕ → SocialStore → Bool × SocialStore
follow_atomic user business store =
    if any (is_follow user business) store.follows
    then (false, store)
    else (true, insert_follow user business store)

unfoldable pub follow_request : FollowedBusiness → NotificationRequest
follow_request business = record {
  recipient_id = business.user_id;
  notification_type = text "new_follower";
  title = text "New follower";
  body = text "Someone started following your business.";
  deep_link_type = some (text "business_profile");
  target_id = some business.pk;
  params = some [];
}

-- `FollowToggleView.post`
unfoldable pub follow : ℕ → ℕ → SocialStore → ApiError ⊎ Done
follow user pk store = elim (find (λ b. b.pk == pk) store.businesses) [
  | none ↦ inl not_found
  | some business ↦
      let (created, after) = follow_atomic user business.pk store in
      inr (record {
        store = invalidate_home_feed_cache user after;
        notification =
            if created && not (business.user_id == user)
            then some (follow_request business)
            else none;
      })
]

-- the removed follow with both counters, where they are positive
unfoldable pub remove_follow : ℕ → ℕ → SocialStore → SocialStore
remove_follow user business store = record store {
  follows = filter (λ f. not (is_follow user business f)) store.follows;
  businesses =
      update_where (λ b. b.pk == business && ltb 0 b.follower_count) drop_follower store.businesses;
  users = update_where (λ u. u.pk == user && ltb 0 u.following_count) drop_following store.users;
}

-- the atomic block of an unfollow: the counters only if a row was deleted
unfoldable pub unfollow_atomic : ℕ → ℕ → SocialStore → SocialStore
unfollow_atomic user business store =
    if count (is_follow user business) store.follows == 0
    then store
    else remove_follow user business store

-- `FollowToggleView.delete`
unfoldable pub unfollow : ℕ → ℕ → SocialStore → ApiError ⊎ Done
unfollow user pk store = elim (find (λ b. b.pk == pk) store.businesses) [
  | none ↦ inl not_found
  | some business ↦ done (invalidate_home_feed_cache user (unfollow_atomic user business.pk store))
]
