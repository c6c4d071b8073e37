-- ===== src/Social/Records.antt =====
-- The rows of social/models.py, with the columns of businesses, users, posts, reels and products that
-- the views read or write. A table holds the rows that the model's default manager sees.

use cavallo_app.Prelude.{false, true, Text, Option, ◌==◌, ◌&&◌, ℕ, List, Bool}

pub data ContentKind : Type 0 where
  post reel product : ContentKind

abbrev pub kind_eq : ContentKind → ContentKind → Bool
kind_eq ContentKind.post ContentKind.post = true
kind_eq ContentKind.reel ContentKind.reel = true
kind_eq ContentKind.product ContentKind.product = true
kind_eq _ _ = false

pub record FollowedBusiness : Type 0 where
  pub pk : ℕ
  pub user_id : ℕ
  pub follower_count : ℕ

pub record Follower : Type 0 where
  pub pk : ℕ
  pub following_count : ℕ

-- a post, reel or product; `owner_id` is `content.business.user_id`
pub record SocialContent : Type 0 where
  pub kind : ContentKind
  pub pk : ℕ
  pub owner_id : Option ℕ
  pub is_published : Bool
  pub likes_count : ℕ
  pub comments_count : ℕ
  pub shares_count : ℕ

pub record Follow : Type 0 where
  pub follower : ℕ
  pub business : ℕ

-- a row that relates a user to a post, reel or product: `Like`, `Save` and `Share`
pub record Mark : Type 0 where
  pub user : ℕ
  pub kind : ContentKind
  pub object_id : ℕ

pub record Comment : Type 0 where
  pub pk : ℕ
  pub user : ℕ
  pub kind : ContentKind
  pub object_id : ℕ
  pub body : Text
  pub reports_count : ℕ
  pub is_hidden : Bool

-- the tables, and the users whose first feed page is cached
pub record SocialStore : Type 0 where
  pub businesses : List FollowedBusiness
  pub users : List Follower
  pub contents : List SocialContent
  pub follows : List Follow
  pub likes : List Mark
  pub saves : List Mark
  pub shares : List Mark
  pub comments : List Comment
  pub next_comment : ℕ
  pub cached_feeds : List ℕ

abbrev pub is_follow : ℕ → ℕ → Follow → Bool
is_follow user business f = f.follower == user && f.business == business

abbrev pub is_mark : ℕ → ContentKind → ℕ → Mark → Bool
is_mark user kind object_id m = m.user == user && (kind_eq m.kind kind && m.object_id == object_id)

-- the content row of a kind and a key
abbrev pub is_content : ContentKind → ℕ → SocialContent → Bool
is_content kind pk c = kind_eq c.kind kind && c.pk == pk
