-- ===== src/Social/Marks.antt =====
-- Likes, saves and shares (social/views.py).

use cavallo_app.Social.Targets.{
  resolve_share_target, resolve_save_target, resolve_like_target, TargetBody, resolve_body,
}
use cavallo_app.Social.Responses.{done, Done, ApiError}
use cavallo_app.Prelude.{
  ltb, inr, inl, ◌&&◌, update_where, ◌==◌, [], ◌⊎◌, ◌∷◌, not, count, any, if◌then◌else◌, filter,
  ◌++◌, Text, ◌-◌, ◌+◌, ℕ,
}
use cavallo_app.Social.Records.{is_content, is_mark, SocialStore, Mark, ContentKind, SocialContent}

abbrev pub add_like : SocialContent → SocialContent
add_like c = record c { likes_count = c.likes_count + 1 }

abbrev pub drop_like : SocialContent → SocialContent
drop_like c = record c { likes_count = c.likes_count - 1 }

abbrev pub mark_of : ℕ → ContentKind → ℕ → Mark
mark_of user kind pk = record { user = user; kind = kind; object_id = pk }

-- the atomic block of a like
unfoldable pub like_atomic : ℕ → ContentKind → ℕ → SocialStore → SocialStore
like_atomic user kind pk store =
    if any (is_mark user kind pk) store.likes then store else record store {
      likes = store.likes ++ mark_of user kind pk ∷ [];
      contents = update_where (is_content kind pk) add_like store.contents;
    }

-- `LikeToggleView.post`
unfoldable pub like : ℕ → TargetBody → SocialStore → ApiError ⊎ Done
like user body store = elim (resolve_body resolve_like_target body store) [
  | inl error ↦ inl error
  | inr content ↦ done (like_atomic user content.kind content.pk store)
]

-- the atomic block of an unlike
unfoldable pub unlike_atomic : ℕ → ContentKind → ℕ → SocialStore → SocialStore
unlike_atomic user kind pk store =
    if count (is_mark user kind pk) store.likes == 0 then store else record store {
      likes = filter (λ m. not (is_mark user kind pk m)) store.likes;
      contents =
          update_where (λ c. is_content kind pk c && ltb 0 c.likes_count) drop_like store.contents;
    }

-- `LikeToggleView.delete`
unfoldable pub unlike : ℕ → TargetBody → SocialStore → ApiError ⊎ Done
unlike user body store = elim (resolve_body resolve_like_target body store) [
  | inl error ↦ inl error
  | inr content ↦ done (unlike_atomic user content.kind content.pk store)
]

-- `get_or_create` of a save, which has no counter
unfoldable pub save_atomic : ℕ → ContentKind → ℕ → SocialStore → SocialStore
save_atomic user kind pk store =
    if any (is_mark user kind pk) store.saves
    then store
    else record store { saves = store.saves ++ mark_of user kind pk ∷ [] }

-- `SaveToggleView.post`
unfoldable pub save : ℕ → TargetBody → SocialStore → ApiError ⊎ Done
save user body store = elim (resolve_body resolve_save_target body store) [
  | inl error ↦ inl error
  | inr content ↦ done (save_atomic user content.kind content.pk store)
]

unfoldable pub unsave_atomic : ℕ → ContentKind → ℕ → SocialStore → SocialStore
unsave_atomic user kind pk store = record store {
  saves = filter (λ m. not (is_mark user kind pk m)) store.saves;
}

-- `SaveToggleView.delete`
unfoldable pub unsave : ℕ → TargetBody → SocialStore → ApiError ⊎ Done
unsave user body store = elim (resolve_body resolve_save_target body store) [
  | inl error ↦ inl error
  | inr content ↦ done (unsave_atomic user content.kind content.pk store)
]

abbrev pub add_share : SocialContent → SocialContent
add_share c = record c { shares_count = c.shares_count + 1 }

-- the atomic block of a share: every call adds a row
unfoldable pub share_atomic : ℕ → ContentKind → ℕ → SocialStore → SocialStore
share_atomic user kind pk store = record store {
  shares = store.shares ++ mark_of user kind pk ∷ [];
  contents = update_where (is_content kind pk) add_share store.contents;
}

-- `ShareCreateView.post`, with the validated body
unfoldable pub create_share : ℕ → Text → ℕ → SocialStore → ApiError ⊎ Done
create_share user content_type object_id store =
    elim (resolve_share_target content_type object_id store) [
      | inl error ↦ inl error
      | inr content ↦ done (share_atomic user content.kind content.pk store)
    ]
