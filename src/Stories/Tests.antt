-- ===== src/Stories/Tests.antt =====
-- Sample stories.

use cavallo_app.Moderation.Records.{ContentStatus}
use cavallo_app.Prelude.{
  false, ◌≤◌, refl, count, ◌≡◌, ℕ, ◌∷◌, none, ◌<◌, ◌+◌, map, arith, [], List, All,
}
use cavallo_app.Stories.Day.{
  sweep, view, decide, publish, sweeps_invisible, public_for_a_day, occur_all, sweep_all,
  StoryEvent, IsDated,
}
use cavallo_app.Stories.Services.{
  permission_denied, is_view, view_count, expire_stale_stories, record_view, save_story, Story,
  public_stories, count_views, StoryStore,
}

abbrev no_stories : StoryStore
no_stories = record { stories = []; next_story = 1; views = []; owner = λ b. b + 100 }

abbrev events : List StoryEvent
events =
    publish 10 4
    ∷ publish 20 5
    ∷ decide 1 ContentStatus.published false
    ∷ decide 2 ContentStatus.published false
    ∷ view 7 1
    ∷ view 7 1
    ∷ view 8 1
    ∷ sweep 86410
    ∷ []

abbrev later : StoryStore
later = occur_all events no_stories

shown_later : map (λ (s : Story). s.pk) (public_stories 86410 none later) ≡ 2 ∷ []
unfolding public_stories save_story record_view expire_stale_stories
shown_later = refl

counted : (count_views 104 1 later ≡ view_count 2) × (count_views 105 1 later ≡ permission_denied)
unfolding count_views save_story record_view expire_stale_stories
counted = (refl, refl)

no_stories-IsDated : IsDated no_stories
no_stories-IsDated = record { timed = tt; once = λ a b. omega arith }

public_for_a_day_example :
    All (λ (x : Story). 86410 < x.published_at + 86400) (public_stories 86410 none later)
    × ((story viewer : ℕ) → count (is_view story viewer) later.views ≤ 1)
public_for_a_day_example = public_for_a_day events no_stories 86410 none no_stories-IsDated

sweeps_invisible_example :
    map (λ (x : Story). x.pk) (public_stories 50 none (sweep_all (90000 ∷ 99999 ∷ []) later))
    ≡ map (λ (x : Story). x.pk) (public_stories 50 none later)
sweeps_invisible_example = sweeps_invisible (90000 ∷ 99999 ∷ []) later 50 none
