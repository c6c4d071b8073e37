-- ===== src/Social/Counted/Runs.antt =====
-- Runs of the views of social/views.py.

use cavallo_app.Social.Counted.Marking.{
  unsave_atomic-IsCounted, unlike_atomic-IsCounted, share_atomic-IsCounted, save_atomic-IsCounted,
  like_atomic-IsCounted, comment_atomic-IsCounted,
}
use cavallo_app.Social.Counted.Following.{
  unfollow_atomic-IsCounted, follow_atomic-IsCounted, invalidate-IsCounted,
}
use cavallo_app.Social.Comments.{create_comment}
use cavallo_app.Social.Marks.{create_share, unsave, save, unlike, like}
use cavallo_app.Social.Follows.{unfollow, follow}
use cavallo_app.Social.Targets.{
  resolve_save_target, resolve_like_target, allowed_kind, resolve_target, resolve_body, TargetBody,
}
use cavallo_app.Social.Counted.{IsCounted}
use cavallo_app.Social.Responses.{Done, ApiError}
use cavallo_app.Social.Records.{SocialStore}
use cavallo_app.Prelude.{Sum-cases, Option-cases, ◌==◌, inr, find, inl, [], ◌⊎◌, Text, ◌∷◌, ℕ, List}

-- the requests that write
pub data SocialRequest : Type 0 where
  post_follow delete_follow : ℕ → ℕ → SocialRequest
  post_like delete_like post_save delete_save : ℕ → TargetBody → SocialRequest
  post_comment : ℕ → Text → ℕ → Text → SocialRequest
  post_share : ℕ → Text → ℕ → SocialRequest

abbrev pub answer : SocialRequest → SocialStore → ApiError ⊎ Done
answer (post_follow user pk) s = follow user pk s
answer (delete_follow user pk) s = unfollow user pk s
answer (post_like user body) s = like user body s
answer (delete_like user body) s = unlike user body s
answer (post_save user body) s = save user body s
answer (delete_save user body) s = unsave user body s
answer (post_comment user content_type object_id body) s =
    create_comment user content_type object_id body s
answer (post_share user content_type object_id) s = create_share user content_type object_id s

-- an error changes nothing
abbrev pub store_after : SocialStore → ApiError ⊎ Done → SocialStore
store_after s (inl error) = s
store_after s (inr d) = d.store

abbrev pub serve : SocialRequest → SocialStore → SocialStore
serve r s = store_after s (answer r s)

abbrev pub serve_all : List SocialRequest → SocialStore → SocialStore
serve_all [] s = s
serve_all (r ∷ rs) s = serve_all rs (serve r s)

module _ (s : SocialStore) (h : IsCounted s) where
  follow-IsCounted : (user pk : ℕ) → IsCounted (store_after s (follow user pk s))
  unfolding follow
  follow-IsCounted user pk = elim (Option-cases (find (λ b. b.pk == pk) s.businesses)) [
    | inl e ↦ rw (e, store_after) h
    | inr (b, e) ↦
        rw (e, store_after) (invalidate-IsCounted user _ (follow_atomic-IsCounted user b.pk s h))
  ]

  unfollow-IsCounted : (user pk : ℕ) → IsCounted (store_after s (unfollow user pk s))
  unfolding unfollow
  unfollow-IsCounted user pk = elim (Option-cases (find (λ b. b.pk == pk) s.businesses)) [
    | inl e ↦ rw (e, store_after) h
    | inr (b, e) ↦
        rw (e, store_after) (invalidate-IsCounted user _ (unfollow_atomic-IsCounted user b.pk s h))
  ]

  like-IsCounted : (user : ℕ) (body : TargetBody) → IsCounted (store_after s (like user body s))
  unfolding like
  like-IsCounted user body = elim (Sum-cases (resolve_body resolve_like_target body s)) [
    | inl (error, e) ↦ rw (e, store_after) h
    | inr (c, e) ↦ rw (e, store_after) (like_atomic-IsCounted user c.kind c.pk s h)
  ]

  unlike-IsCounted : (user : ℕ) (body : TargetBody) → IsCounted (store_after s (unlike user body s))
  unfolding unlike
  unlike-IsCounted user body = elim (Sum-cases (resolve_body resolve_like_target body s)) [
    | inl (error, e) ↦ rw (e, store_after) h
    | inr (c, e) ↦ rw (e, store_after) (unlike_atomic-IsCounted user c.kind c.pk s h)
  ]

  save-IsCounted : (user : ℕ) (body : TargetBody) → IsCounted (store_after s (save user body s))
  unfolding save
  save-IsCounted user body = elim (Sum-cases (resolve_body resolve_save_target body s)) [
    | inl (error, e) ↦ rw (e, store_after) h
    | inr (c, e) ↦ rw (e, store_after) (save_atomic-IsCounted user c.kind c.pk s h)
  ]

  unsave-IsCounted : (user : ℕ) (body : TargetBody) → IsCounted (store_after s (unsave user body s))
  unfolding unsave
  unsave-IsCounted user body = elim (Sum-cases (resolve_body resolve_save_target body s)) [
    | inl (error, e) ↦ rw (e, store_after) h
    | inr (c, e) ↦ rw (e, store_after) (unsave_atomic-IsCounted user c.kind c.pk s h)
  ]

  create_comment-IsCounted :
      (user : ℕ) (content_type : Text) (object_id : ℕ) (body : Text)
      → IsCounted (store_after s (create_comment user content_type object_id body s))
  unfolding create_comment
  create_comment-IsCounted user content_type object_id body =
      elim (Sum-cases
        (resolve_target allowed_kind (λ c. c.is_published) content_type object_id s)) [
          | inl (error, e) ↦ rw (e, store_after) h
          | inr (c, e) ↦ rw (e, store_after) (comment_atomic-IsCounted user c.kind c.pk s h body)
        ]

  create_share-IsCounted :
      (user : ℕ) (content_type : Text) (object_id : ℕ)
      → IsCounted (store_after s (create_share user content_type object_id s))
  unfolding create_share
  create_share-IsCounted user content_type object_id =
      elim (Sum-cases
        (resolve_target allowed_kind (λ c. c.is_published) content_type object_id s)) [
          | inl (error, e) ↦ rw (e, store_after) h
          | inr (c, e) ↦ rw (e, store_after) (share_atomic-IsCounted user c.kind c.pk s h)
        ]

  pub serve-IsCounted : (r : SocialRequest) → IsCounted (serve r s)
  serve-IsCounted (post_follow user pk) = follow-IsCounted user pk
  serve-IsCounted (delete_follow user pk) = unfollow-IsCounted user pk
  serve-IsCounted (post_like user body) = like-IsCounted user body
  serve-IsCounted (delete_like user body) = unlike-IsCounted user body
  serve-IsCounted (post_save user body) = save-IsCounted user body
  serve-IsCounted (delete_save user body) = unsave-IsCounted user body
  serve-IsCounted (post_comment user content_type object_id body) =
      create_comment-IsCounted user content_type object_id body
  serve-IsCounted (post_share user content_type object_id) =
      create_share-IsCounted user content_type object_id

-- After any run of requests from tables whose counters are right, the counters are right: each is the
-- number of its follows, likes, comments or shares, and no user follows a business, or likes or saves
-- a content row, twice.
pub serve_all-IsCounted :
    (rs : List SocialRequest) (s : SocialStore) → IsCounted s → IsCounted (serve_all rs s)
serve_all-IsCounted [] s h = h
serve_all-IsCounted (r ∷ rs) s h = serve_all-IsCounted rs (serve r s) (serve-IsCounted s h r)
