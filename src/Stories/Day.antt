-- ===== src/Stories/Day.antt =====
-- stories/: a story is public for a day at most, whether or not the sweep runs.

use mathlib.Core.Path.{subst}
use cavallo_app.Moderation.Records.{ContentStatus}
use cavallo_app.Stories.Services.{
  get_story, public_stories, is_stale, add_view, is_public, story_lifetime, is_view, record_view,
  save_decided, expire_stale_stories, StoryView, save_story, StoryStore, Story,
}
use cavallo_app.Prelude.{
  true, count-append, ◌∙◌, sym, ltb, ap, Option-cases, ◌<◌, count_none, ==→eq, ◌&&◌, inr, inl, refl,
  any, ◌==◌, Bool-cases, All-update_where, update_where, arith, ◌≤◌, some, none, filter, [], map,
  count, Bool, All-append, ◌+◌, ◌∷◌, ◌≡◌, Option, All, ℕ, List,
}

pub data StoryEvent : Type 0 where
  publish view : ℕ → ℕ → StoryEvent
  decide : ℕ → ContentStatus → Bool → StoryEvent
  sweep : ℕ → StoryEvent

abbrev pub occur : StoryEvent → StoryStore → StoryStore
occur (publish now business) s = save_story now business s
occur (decide k status deleted) s = save_decided k status deleted s
occur (view viewer k) s = (record_view viewer k s).1
occur (sweep now) s = (expire_stale_stories now s).1

abbrev pub occur_all : List StoryEvent → StoryStore → StoryStore
occur_all [] s = s
occur_all (e ∷ es) s = occur_all es (occur e s)

abbrev pub IsTimed : Story → Type 0
IsTimed s =
    (s.expires_at ≡ s.published_at + story_lifetime)
    × ((t : ℕ) → s.archived_at ≡ some t → s.expires_at ≤ t)

pub record IsDated (store : StoryStore) : Type 0 where
  pub timed : All IsTimed store.stories
  pub once : (story viewer : ℕ) → count (is_view story viewer) store.views ≤ 1

add_view-once :
    (story viewer k u : ℕ) (views : List StoryView)
    → count (is_view k u) views ≤ 1
    → count (is_view k u) (add_view story viewer views) ≤ 1
add_view-once story viewer k u views h = elim (Bool-cases (any (is_view story viewer) views)) [
  | inl old ↦ rw old h
  | inr fresh ↦ rw fresh (elim (Bool-cases (story == k && viewer == u)) [
    | inl same ↦
        let same_story : story ≡ k = ==→eq story k (ground (arith, same)) in
        let same_viewer : viewer ≡ u = ==→eq viewer u (ground (arith, same)) in
        let none_yet = count_none (is_view story viewer) views fresh in
        let moved : count (is_view k u) views ≡ 0 =
          ap (λ a. count (is_view a u) views) (sym same_story)
          ∙ ap (λ b. count (is_view story b) views) (sym same_viewer)
          ∙ none_yet in
        ground (
          arith,
          count-append (is_view k u) views (record { story_id = story; viewer_id = viewer } ∷ []),
          moved,
        )
    | inr other ↦ ground (
      arith,
      count-append (is_view k u) views (record { story_id = story; viewer_id = viewer } ∷ []),
      other,
      h,
    )
  ])
]

view-IsDated : (viewer k : ℕ) (s : StoryStore) → IsDated s → IsDated (record_view viewer k s).1
unfolding record_view
view-IsDated viewer k s h = elim (Option-cases (get_story k s)) [
  | inl missing ↦ subst IsDated (sym (ground (arith, missing))) h
  | inr (story, found) ↦ subst IsDated (sym (ground (arith, found))) (viewed story.pk)
]
  where
    viewed : (j : ℕ) → IsDated (record s { views = add_view j viewer s.views })
    viewed j = record {
      timed = h.timed;
      once = λ a b. add_view-once j viewer a b s.views (h.once a b);
    }

occur-IsDated : (e : StoryEvent) (s : StoryStore) → IsDated s → IsDated (occur e s)
unfolding save_story expire_stale_stories
occur-IsDated (publish now business) s h = record {
  timed =
      All-append IsTimed s.stories _ h.timed
        ((refl, λ t (e : none ≡ some t). absurd (ground (arith, e))), tt);
  once = h.once;
}
occur-IsDated (decide k status deleted) s h = record {
  timed =
      All-update_where IsTimed IsTimed (λ x. x.pk == k) _ s.stories (λ x g e. g) (λ x g e. g)
        h.timed;
  once = h.once;
}
occur-IsDated (view viewer k) s h = view-IsDated viewer k s h
occur-IsDated (sweep now) s h = record {
  timed =
      All-update_where IsTimed IsTimed (is_stale now) _ s.stories
        (λ x g e. (g.0, λ t (k : some now ≡ some t). ground (arith, k, e))) (λ x g e. g) h.timed;
  once = h.once;
}

occur_all-IsDated : (es : List StoryEvent) (s : StoryStore) → IsDated s → IsDated (occur_all es s)
occur_all-IsDated [] s h = h
occur_all-IsDated (e ∷ es) s h = occur_all-IsDated es (occur e s) (occur-IsDated e s h)

public-within :
    (t : ℕ) (business : Option ℕ) (rs : List Story)
    → All IsTimed rs
    → All (λ x. t < x.published_at + story_lifetime) (filter (is_public t business) rs)
public-within t business [] h = tt
public-within t business (r ∷ rs) h = elim (Bool-cases (is_public t business r)) [
  | inl shown ↦ rw shown (
      let young : ltb t r.expires_at ≡ true = ground (arith, shown) in
      (ground (arith, young, h.0.0), public-within t business rs h.1))
  | inr hidden ↦ rw hidden (public-within t business rs h.1)
]

-- After any run of uploads, moderators' decisions, deletions, views and sweeps from tables whose
-- times and views are right, the public stories of any time were published less than 24 hours
-- before, and no user is counted twice among the views of a story.
pub public_for_a_day :
    (es : List StoryEvent) (s : StoryStore) (t : ℕ) (business : Option ℕ)
    → IsDated s
    → All (λ x. t < x.published_at + story_lifetime) (public_stories t business (occur_all es s))
      × ((story viewer : ℕ) → count (is_view story viewer) (occur_all es s).views ≤ 1)
unfolding public_stories
public_for_a_day es s t business h =
    let dated = occur_all-IsDated es s h in
    (public-within t business (occur_all es s).stories dated.timed, dated.once)

sweep-public :
    (now t : ℕ) (business : Option ℕ) (rs : List Story)
    → map
        (λ (s : Story). s.pk)
        (filter
          (is_public t business)
          (update_where (is_stale now) (λ s. record s { archived_at = some now }) rs))
      ≡ map (λ (s : Story). s.pk) (filter (is_public t business) rs)
sweep-public now t business [] = refl
sweep-public now t business (s ∷ rs) = ground (arith, sweep-public now t business rs)

abbrev pub sweep_all : List ℕ → StoryStore → StoryStore
sweep_all [] s = s
sweep_all (now ∷ times) s = sweep_all times (expire_stale_stories now s).1

-- Sweeps at any times change nothing in which stories are public at any time, nor in their order.
pub sweeps_invisible :
    (times : List ℕ) (s : StoryStore) (t : ℕ) (business : Option ℕ)
    → map (λ (x : Story). x.pk) (public_stories t business (sweep_all times s))
      ≡ map (λ (x : Story). x.pk) (public_stories t business s)
unfolding public_stories expire_stale_stories
sweeps_invisible [] s t business = refl
sweeps_invisible (now ∷ times) s t business =
    sweeps_invisible times (expire_stale_stories now s).1 t business
    ∙ sweep-public now t business s.stories
