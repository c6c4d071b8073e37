-- ===== src/Social/Tests.antt =====
-- Runs of the social views on small tables, and the theorems at them.

use cavallo_app.Social.Comments.{comment_atomic, create_comment}
use cavallo_app.Social.Toggles.{follow_twice}
use cavallo_app.Social.Counted.Runs.{
  post_share, post_comment, delete_like, post_like, serve_all-IsCounted, post_follow, serve_all,
  SocialRequest,
}
use cavallo_app.Social.Marks.{share_atomic, unlike_atomic, unlike, like_atomic, create_share, like}
use cavallo_app.Social.Follows.{
  invalidate_home_feed_cache, insert_follow, follow_request, unfollow, follow_atomic, follow,
}
use cavallo_app.Social.Targets.{allowed_kind, resolve_target, resolve_body, TargetBody}
use cavallo_app.Prelude.{map, inl, inr, refl, true, text, [], ◌≡◌, ◌∷◌, ℕ, some, arith, List}
use cavallo_app.Social.Counted.{IsCounted}
use cavallo_app.Social.Records.{ContentKind, SocialStore, SocialContent, FollowedBusiness}
use cavallo_app.Social.Responses.{not_found, validation_error, done, Done}

abbrev shop : FollowedBusiness
shop = record { pk = 1; user_id = 4; follower_count = 0 }

abbrev post : SocialContent
post = record {
  kind = ContentKind.post;
  pk = 5;
  owner_id = some 4;
  is_published = true;
  likes_count = 0;
  comments_count = 0;
  shares_count = 0;
}

abbrev sample : SocialStore
sample = record {
  businesses = shop ∷ [];
  users = record { pk = 4; following_count = 0 } ∷ record { pk = 7; following_count = 0 } ∷ [];
  contents = post ∷ [];
  follows = [];
  likes = [];
  saves = [];
  shares = [];
  comments = [];
  next_comment = 1;
  cached_feeds = 4 ∷ 7 ∷ [];
}

abbrev on_post : TargetBody
on_post = record { content_type = some (text "post"); object_id = some 5 }

abbrev on_story : TargetBody
on_story = record { content_type = some (text "story"); object_id = some 5 }

abbrev requests : List SocialRequest
requests =
    post_follow 7 1
    ∷ post_follow 7 1
    ∷ post_like 7 on_post
    ∷ post_like 4 on_post
    ∷ delete_like 4 on_post
    ∷ delete_like 4 on_post
    ∷ post_comment 7 (text "post") 5 (text "nice")
    ∷ post_share 7 (text "post") 5
    ∷ post_share 7 (text "post") 5
    ∷ []

abbrev counters : SocialContent → ℕ × ℕ × ℕ
counters c = (c.likes_count, c.comments_count, c.shares_count)

serve_all_runs :
    (map counters (serve_all requests sample).contents ≡ (1, 1, 2) ∷ [])
    × (map (λ b. b.follower_count) (serve_all requests sample).businesses ≡ 1 ∷ [])
    × (map (λ u. u.following_count) (serve_all requests sample).users ≡ 0 ∷ 1 ∷ [])
    × ((serve_all requests sample).cached_feeds ≡ 4 ∷ [])
unfolding follow follow_atomic insert_follow invalidate_home_feed_cache like like_atomic unlike
    unlike_atomic create_comment comment_atomic create_share share_atomic resolve_body
    resolve_target allowed_kind
serve_all_runs = (refl, refl, refl, refl)

errors :
    (like 7 on_story sample ≡ inl validation_error)
    × (unfollow 7 2 sample ≡ inl not_found)
    × (create_share 7 (text "reel") 5 sample ≡ inl not_found)
unfolding like unfollow create_share resolve_body resolve_target allowed_kind
errors = (refl, refl, refl)

sample-IsCounted : IsCounted sample
sample-IsCounted = record {
  followers = (refl, tt);
  following = (refl, (refl, tt));
  liked = (refl, tt);
  commented = (refl, tt);
  shared = (refl, tt);
  follow_once = λ u k. omega arith;
  like_once = λ u k i. omega arith;
  save_once = λ u k i. omega arith;
}

serve_all-IsCounted_example : IsCounted (serve_all requests sample)
serve_all-IsCounted_example = serve_all-IsCounted requests sample sample-IsCounted

abbrev followed_store : SocialStore
followed_store = record {
  businesses = record { pk = 1; user_id = 4; follower_count = 1 } ∷ [];
  users = record { pk = 4; following_count = 0 } ∷ record { pk = 7; following_count = 1 } ∷ [];
  contents = post ∷ [];
  follows = record { follower = 7; business = 1 } ∷ [];
  likes = [];
  saves = [];
  shares = [];
  comments = [];
  next_comment = 1;
  cached_feeds = 4 ∷ [];
}

abbrev followed_once : Done
followed_once = record { store = followed_store; notification = some (follow_request shop) }

follow_runs : follow 7 1 sample ≡ inr followed_once
unfolding follow follow_atomic insert_follow invalidate_home_feed_cache
follow_runs = refl

follow_twice_example : follow 7 1 followed_store ≡ done followed_store
follow_twice_example = follow_twice 7 1 sample followed_once follow_runs
