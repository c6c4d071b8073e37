-- ===== src/Social/Counted.antt =====
-- The counters of businesses, users and content are the numbers of rows that they stand for.
pub mod Following
pub mod Marking
pub mod Runs
use cavallo_app.Social.Follows.{
  drop_following, add_following, drop_follower, add_follower, remove_follow, insert_follow,
}
use cavallo_app.Prelude.{
  count_none, [], ◌∷◌, count-append, remove-tallied, insert-tallied, ◌≤◌, refl, false, true, arith,
  ◌==◌, ◌&&◌, ◌≡◌, count, any, Tallies, Bool, All, ℕ,
}
use cavallo_app.Social.Records.{
  is_mark, is_follow, kind_eq, Mark, Follow, Comment, SocialStore, SocialContent, Follower,
  FollowedBusiness, ContentKind,
}

-- the marks of a content row
abbrev pub marks : SocialContent → Mark → Bool
marks c m = kind_eq m.kind c.kind && m.object_id == c.pk

abbrev pub comments_on : SocialContent → Comment → Bool
comments_on c m = kind_eq m.kind c.kind && m.object_id == c.pk

abbrev pub follows_business : FollowedBusiness → Follow → Bool
follows_business b f = f.business == b.pk

abbrev pub followed_by : Follower → Follow → Bool
followed_by u f = f.follower == u.pk

-- Every counter is the number of its rows; no user follows a business twice, or likes or saves a
-- content row twice.
pub record IsCounted (s : SocialStore) : Type 0 where
  pub followers : All (Tallies (λ b. b.follower_count) follows_business s.follows) s.businesses
  pub following : All (Tallies (λ u. u.following_count) followed_by s.follows) s.users
  pub liked : All (Tallies (λ c. c.likes_count) marks s.likes) s.contents
  pub commented : All (Tallies (λ c. c.comments_count) comments_on s.comments) s.contents
  pub shared : All (Tallies (λ c. c.shares_count) marks s.shares) s.contents
  pub follow_once : (u k : ℕ) → count (is_follow u k) s.follows ≤ 1
  pub like_once : (u : ℕ) (k : ContentKind) (i : ℕ) → count (is_mark u k i) s.likes ≤ 1
  pub save_once : (u : ℕ) (k : ContentKind) (i : ℕ) → count (is_mark u k i) s.saves ≤ 1
