-- ===== src/Stories/Services.antt =====
-- stories/models.py, stories/views.py and stories/tasks.py.

use cavallo_app.Moderation.Records.{is_published, ContentStatus}
use cavallo_app.Prelude.{
  ltb, leb, [], ◌∷◌, true, ◌&&◌, update_where, some, not, find, filter, false, any, ◌==◌, ◌+◌, none,
  if◌then◌else◌, count, Option, Bool, ◌++◌, ℕ, List,
}

pub record Story : Type 0 where
  pub pk : ℕ
  pub business_id : ℕ
  pub published_at : ℕ
  pub expires_at : ℕ
  pub archived_at : Option ℕ
  pub status : ContentStatus
  pub is_deleted : Bool

pub record StoryView : Type 0 where
  pub story_id : ℕ
  pub viewer_id : ℕ

-- `owner` is `business.user_id`
pub record StoryStore : Type 0 where
  pub stories : List Story
  pub next_story : ℕ
  pub views : List StoryView
  pub owner : ℕ → ℕ

-- 24 hours in seconds
abbrev pub story_lifetime : ℕ
story_lifetime = 86400

-- `Story.save` of a new row without times
unfoldable pub save_story : ℕ → ℕ → StoryStore → StoryStore
save_story now business store = record store {
  stories =
      store.stories
      ++ record {
        pk = store.next_story;
        business_id = business;
        published_at = now;
        expires_at = now + story_lifetime;
        archived_at = none;
        status = ContentStatus.pending_review;
        is_deleted = false;
      }
        ∷ [];
  next_story = store.next_story + 1;
}

-- `Story.save` of a stored row, with the status that a moderator has set, or as deleted
abbrev pub save_decided : ℕ → ContentStatus → Bool → StoryStore → StoryStore
save_decided k status deleted store = record store {
  stories =
      update_where (λ s. s.pk == k) (λ s. record s { status = status; is_deleted = deleted })
        store.stories;
}

-- the filters of `StoryPublicListView.get_queryset`
abbrev pub is_public : ℕ → Option ℕ → Story → Bool
is_public now business s =
    not s.is_deleted
    && is_published s.status
    && ltb now s.expires_at
    && elim business [ none ↦ true | some b ↦ s.business_id == b ]

unfoldable pub public_stories : ℕ → Option ℕ → StoryStore → List Story
public_stories now business store = filter (is_public now business) store.stories

-- `_get_story_or_404`
abbrev pub get_story : ℕ → StoryStore → Option Story
get_story k store = find (λ s. s.pk == k && not s.is_deleted) store.stories

abbrev pub is_view : ℕ → ℕ → StoryView → Bool
is_view story viewer v = v.story_id == story && v.viewer_id == viewer

-- `StoryView.objects.get_or_create(story=..., viewer=...)`
abbrev pub add_view : ℕ → ℕ → List StoryView → List StoryView
add_view story viewer views =
    if any (is_view story viewer) views
    then views
    else views ++ record { story_id = story; viewer_id = viewer } ∷ []

-- `StoryViewRecordView.post`: `false` for a 404
unfoldable pub record_view : ℕ → ℕ → StoryStore → Bool × StoryStore
record_view viewer k store = elim (get_story k store) [
  | none ↦ (false, store)
  | some s ↦ (true, record store { views = add_view s.pk viewer store.views })
]

pub data CountAnswer : Type 0 where
  not_found permission_denied : CountAnswer
  view_count : ℕ → CountAnswer

-- `StoryViewCountView.get`
unfoldable pub count_views : ℕ → ℕ → StoryStore → CountAnswer
count_views user k store = elim (get_story k store) [
  | none ↦ not_found
  | some s ↦
      if store.owner s.business_id == user
      then view_count (count (λ v. v.story_id == s.pk) store.views)
      else permission_denied
]

-- the filter of the sweep
abbrev pub is_stale : ℕ → Story → Bool
is_stale now s =
    not s.is_deleted && leb s.expires_at now && elim s.archived_at [ none ↦ true | some _ ↦ false ]

-- `expire_stale_stories`: the number of archived rows
unfoldable pub expire_stale_stories : ℕ → StoryStore → ℕ × StoryStore
expire_stale_stories now store = (
  count (is_stale now) store.stories,
  record store {
    stories = update_where (is_stale now) (λ s. record s { archived_at = some now }) store.stories;
  },
)
