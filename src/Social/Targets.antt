-- ===== src/Social/Targets.antt =====
-- The target of a like, save, comment or share (social/views.py).

use cavallo_app.Social.Responses.{not_found, validation_error, ApiError}
use cavallo_app.Social.Records.{is_content, SocialStore, SocialContent, ContentKind}
use cavallo_app.Prelude.{
  inr, [], ◌&&◌, true, ◌∷◌, find, inl, some, none, ◌⊎◌, text, text_eq, Bool, if◌then◌else◌, ℕ, Text,
  Option,
}

-- the key of the body's `content_type` in `ALLOWED_CONTENT_TYPES`, and in the equal whitelists of
-- comments and shares
unfoldable pub allowed_kind : Text → Option ContentKind
allowed_kind t =
    if text_eq t (text "post")
    then some ContentKind.post
    else if text_eq t (text "reel")
    then some ContentKind.reel
    else none

-- `SAVE_ALLOWED_CONTENT_TYPES`
unfoldable pub save_allowed_kind : Text → Option ContentKind
save_allowed_kind t =
    if text_eq t (text "product") then some ContentKind.product else allowed_kind t

-- the body of a toggle: both fields are required, and an empty `content_type` counts as none
pub record TargetBody : Type 0 where
  pub content_type : Option Text
  pub object_id : Option ℕ

-- `_resolve_like_target` and the others of its shape: `visible` is the manager's condition
unfoldable pub resolve_target :
    (Text → Option ContentKind)
    → (SocialContent → Bool)
    → Text
    → ℕ
    → SocialStore
    → ApiError ⊎ SocialContent
resolve_target whitelist visible content_type object_id store = elim (whitelist content_type) [
  | none ↦ inl validation_error
  | some kind ↦ elim (find (λ c. is_content kind object_id c && visible c) store.contents) [
    | none ↦ inl not_found
    | some content ↦ inr content
  ]
]

-- `_resolve_like_target`: the default manager, and posts and reels
abbrev pub resolve_like_target : Text → ℕ → SocialStore → ApiError ⊎ SocialContent
resolve_like_target content_type object_id store =
    resolve_target allowed_kind (λ _. true) content_type object_id store

-- `_resolve_save_target`: the default manager, and products too
abbrev pub resolve_save_target : Text → ℕ → SocialStore → ApiError ⊎ SocialContent
resolve_save_target content_type object_id store =
    resolve_target save_allowed_kind (λ _. true) content_type object_id store

-- `_resolve_comment_target`: only published posts and reels
abbrev pub resolve_comment_target : Text → ℕ → SocialStore → ApiError ⊎ SocialContent
resolve_comment_target content_type object_id store =
    resolve_target allowed_kind (λ c. c.is_published) content_type object_id store

-- `_resolve_share_target`: only published posts and reels
abbrev pub resolve_share_target : Text → ℕ → SocialStore → ApiError ⊎ SocialContent
resolve_share_target content_type object_id store =
    resolve_target allowed_kind (λ c. c.is_published) content_type object_id store

-- the two required fields, then the target
unfoldable pub resolve_body :
    (Text → ℕ → SocialStore → ApiError ⊎ SocialContent)
    → TargetBody
    → SocialStore
    → ApiError ⊎ SocialContent
resolve_body resolve body store = elim body.content_type [
  | none ↦ inl validation_error
  | some [] ↦ inl validation_error
  | some (c ∷ cs) ↦ elim body.object_id [
    | none ↦ inl validation_error
    | some object_id ↦ resolve (c ∷ cs) object_id store
  ]
]
