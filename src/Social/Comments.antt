-- ===== src/Social/Comments.antt =====
-- Comments (social/views.py) and their auto-hide (social/services.py).

use cavallo_app.Social.Targets.{resolve_comment_target}
use cavallo_app.Social.Responses.{Done, ApiError}
use cavallo_app.Notifications.Records.{NotificationRequest}
use cavallo_app.Prelude.{
  if◌then◌else◌, none, filter, inr, inl, [], ◌∷◌, leb, List, ◌⊎◌, ◌||◌, update_where, some, false,
  ◌&&◌, take, not, any, ◌==◌, ◌++◌, true, text, Bool, ◌+◌, ℕ, Text,
}
use cavallo_app.Social.Records.{
  kind_eq, is_content, SocialStore, SocialContent, ContentKind, Comment,
}

abbrev pub add_comment : SocialContent → SocialContent
add_comment c = record c { comments_count = c.comments_count + 1 }

abbrev pub comment_row : ℕ → ContentKind → ℕ → Text → SocialStore → Comment
comment_row user kind pk body store = record {
  pk = store.next_comment;
  user = user;
  kind = kind;
  object_id = pk;
  body = body;
  reports_count = 0;
  is_hidden = false;
}

-- the atomic block of a new comment
unfoldable pub comment_atomic : ℕ → ContentKind → ℕ → Text → SocialStore → SocialStore
comment_atomic user kind pk body store = record store {
  comments = store.comments ++ comment_row user kind pk body store ∷ [];
  next_comment = store.next_comment + 1;
  contents = update_where (is_content kind pk) add_comment store.contents;
}

-- `{"post": "post_detail", "reel": "reel_detail"}[...]`
abbrev pub detail_link : ContentKind → Text
detail_link ContentKind.reel = text "reel_detail"
detail_link _ = text "post_detail"

unfoldable pub comment_request : ℕ → SocialContent → Text → NotificationRequest
comment_request owner_id content body = record {
  recipient_id = owner_id;
  notification_type = text "comment_on_content";
  title = text "New comment";
  body = take 100 body;
  deep_link_type = some (detail_link content.kind);
  target_id = some content.pk;
  params = some ((text "text", take 100 body) ∷ []);
}

-- `CommentCreateView.post`, with the validated body
unfoldable pub create_comment : ℕ → Text → ℕ → Text → SocialStore → ApiError ⊎ Done
create_comment user content_type object_id body store =
    elim (resolve_comment_target content_type object_id store) [
      | inl error ↦ inl error
      | inr content ↦ inr (record {
        store = comment_atomic user content.kind content.pk body store;
        notification = elim content.owner_id [
          | none ↦ none
          | some owner_id ↦
              if owner_id == user then none else some (comment_request owner_id content body)
        ];
      })
    ]

-- who reads: a visitor, a user, or a holder of can_moderate_content
pub data Viewer : Type 0 where
  anonymous moderator : Viewer
  authenticated : ℕ → Viewer

abbrev pub may_see : Viewer → Comment → Bool
may_see anonymous c = not c.is_hidden
may_see moderator c = true
may_see (authenticated user) c = not c.is_hidden || c.user == user

-- `CommentListView.get_queryset`
unfoldable pub list_comments : Viewer → Text → ℕ → SocialStore → ApiError ⊎ List Comment
list_comments viewer content_type object_id store =
    elim (resolve_comment_target content_type object_id store) [
      | inl error ↦ inl error
      | inr content ↦ inr (
          filter (λ c. kind_eq c.kind content.kind && c.object_id == content.pk && may_see viewer c)
            store.comments)
    ]

abbrev pub comment_auto_hide_threshold : ℕ
comment_auto_hide_threshold = 5

abbrev pub hide : Comment → Comment
hide c = record c { is_hidden = true }

-- the rows of the conditional update
abbrev pub is_over_threshold : ℕ → Comment → Bool
is_over_threshold pk c =
    c.pk == pk && (not c.is_hidden && leb comment_auto_hide_threshold c.reports_count)

-- `check_and_hide_if_threshold_exceeded`: whether this call hid the comment
unfoldable pub check_and_hide_if_threshold_exceeded : ℕ → SocialStore → Bool × SocialStore
check_and_hide_if_threshold_exceeded pk store = (
  any (is_over_threshold pk) store.comments,
  record store { comments = update_where (is_over_threshold pk) hide store.comments },
)
