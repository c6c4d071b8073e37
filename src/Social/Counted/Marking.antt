-- ===== src/Social/Counted/Marking.antt =====
-- Likes, saves, comments and shares keep the counters.

use cavallo_app.Social.Comments.{add_comment, comment_atomic}
use cavallo_app.Social.Marks.{
  drop_like, add_share, unsave_atomic, unlike_atomic, share_atomic, save_atomic, add_like, mark_of,
  like_atomic,
}
use cavallo_app.Social.Counted.{marks, comments_on, IsCounted}
use cavallo_app.Prelude.{
  remove-tallied, inl, ltb, inr, count-filter-le, Bool-cases, ◌&&◌, not, count_none, filter,
  count-append, ◌≤◌, ◌==◌, count, Text, List, refl, false, true, insert-tallied, [], ◌∷◌,
  All-update_where, update_where, ◌++◌, if◌then◌else◌, All, any, Tallies, Bool, arith, ◌≡◌, ℕ,
}
use cavallo_app.Social.Records.{
  Mark, is_content, is_mark, SocialContent, kind_eq, SocialStore, ContentKind,
}

kind_eq_comm : (a b : ContentKind) → kind_eq a b ≡ kind_eq b a
kind_eq_comm ContentKind.post b = ground arith
kind_eq_comm ContentKind.reel b = ground arith
kind_eq_comm ContentKind.product b = ground arith

kind_eq→eq : (a b : ContentKind) → kind_eq a b ≡ true → a ≡ b
kind_eq→eq ContentKind.post ContentKind.post h = refl
kind_eq→eq ContentKind.reel ContentKind.reel h = refl
kind_eq→eq ContentKind.product ContentKind.product h = refl
kind_eq→eq ContentKind.post ContentKind.reel h = cc
kind_eq→eq ContentKind.post ContentKind.product h = cc
kind_eq→eq ContentKind.reel ContentKind.post h = cc
kind_eq→eq ContentKind.reel ContentKind.product h = cc
kind_eq→eq ContentKind.product ContentKind.post h = cc
kind_eq→eq ContentKind.product ContentKind.reel h = cc

-- a mark that was not there is there once
append_once :
    (user : ℕ) (kind : ContentKind) (pk : ℕ) (ms : List Mark) (u : ℕ) (k : ContentKind) (i : ℕ)
    → any (is_mark user kind pk) ms ≡ false
    → count (is_mark u k i) ms ≤ 1
    → count (is_mark u k i) (ms ++ mark_of user kind pk ∷ []) ≤ 1
append_once user kind pk ms u k i fresh once =
    let more = count-append (is_mark u k i) ms (mark_of user kind pk ∷ []) in
    let zero_there = count_none (is_mark user kind pk) ms fresh in
    elim (Bool-cases (is_mark u k i (mark_of user kind pk))) [
      | inr other ↦ ground (arith, more, other, once)
      | inl same ↦
          let same_user : user ≡ u = ground (arith, same) in
          let same_kind : kind ≡ k = kind_eq→eq kind k (ground (arith, same)) in
          let same_pk : pk ≡ i = ground (arith, same) in
          let none_there : count (is_mark u k i) ms ≡ 0 =
            rw (← same_user, ← same_kind, ← same_pk) zero_there in
          ground (arith, more, none_there, same)
    ]

removed_once :
    (q : Mark → Bool) (ms : List Mark) (u : ℕ) (k : ContentKind) (i : ℕ)
    → count (is_mark u k i) ms ≤ 1
    → count (is_mark u k i) (filter (λ m. not (q m)) ms) ≤ 1
removed_once q ms u k i once =
    omega (arith, count-filter-le (is_mark u k i) (λ m. not (q m)) ms, once)

in_content :
    (kind : ContentKind) (pk user : ℕ) (c : SocialContent) (m : Mark)
    → is_content kind pk c ≡ true
    → is_mark user kind pk m ≡ true
    → marks c m ≡ true
in_content kind pk user c m x y =
    let left : c.kind ≡ kind = kind_eq→eq c.kind kind (ground (arith, x)) in
    rw left (ground (arith, x, y))

out_of_content :
    (kind : ContentKind) (pk user : ℕ) (c : SocialContent) (m : Mark)
    → is_content kind pk c ≡ false
    → is_mark user kind pk m ≡ true
    → marks c m ≡ false
out_of_content kind pk user c m x y =
    let same : m.kind ≡ kind = kind_eq→eq m.kind kind (ground (arith, y)) in
    rw same (ground (arith, x, y, kind_eq_comm c.kind kind))

module _ (user : ℕ) (kind : ContentKind) (pk : ℕ) (s : SocialStore) (h : IsCounted s) where
  -- an update that leaves a counter and its key alone
  kept_commented :
      (p : SocialContent → Bool) (f : SocialContent → SocialContent)
      → ((c : SocialContent)
          → Tallies (λ c. c.comments_count) comments_on s.comments c
          → Tallies (λ c. c.comments_count) comments_on s.comments (f c))
      → All (Tallies (λ c. c.comments_count) comments_on s.comments) (update_where p f s.contents)
  kept_commented p f keep =
      All-update_where _ _ p f s.contents (λ c k e. keep c k) (λ c k e. k) h.commented

  kept_shared :
      (p : SocialContent → Bool) (f : SocialContent → SocialContent)
      → ((c : SocialContent)
          → Tallies (λ c. c.shares_count) marks s.shares c
          → Tallies (λ c. c.shares_count) marks s.shares (f c))
      → All (Tallies (λ c. c.shares_count) marks s.shares) (update_where p f s.contents)
  kept_shared p f keep =
      All-update_where _ _ p f s.contents (λ c k e. keep c k) (λ c k e. k) h.shared

  kept_liked :
      (p : SocialContent → Bool) (f : SocialContent → SocialContent)
      → ((c : SocialContent)
          → Tallies (λ c. c.likes_count) marks s.likes c
          → Tallies (λ c. c.likes_count) marks s.likes (f c))
      → All (Tallies (λ c. c.likes_count) marks s.likes) (update_where p f s.contents)
  kept_liked p f keep = All-update_where _ _ p f s.contents (λ c k e. keep c k) (λ c k e. k) h.liked

  pub like_atomic-IsCounted : IsCounted (like_atomic user kind pk s)
  unfolding like_atomic
  like_atomic-IsCounted = by_test (any (is_mark user kind pk) s.likes) refl
    where
      by_test :
          (b : Bool)
          → any (is_mark user kind pk) s.likes ≡ b
          → IsCounted (
              if b then s else record s {
                likes = s.likes ++ mark_of user kind pk ∷ [];
                contents = update_where (is_content kind pk) add_like s.contents;
              })
      by_test true old = h
      by_test false fresh = record {
        followers = h.followers;
        following = h.following;
        liked =
            insert-tallied (λ (c : SocialContent). c.likes_count) marks (is_content kind pk)
              add_like _ s.contents s.likes (λ c. ground (arith, kind_eq_comm c.kind kind))
              (λ c. refl) (λ c. refl) h.liked;
        commented = kept_commented (is_content kind pk) add_like (λ c k. k);
        shared = kept_shared (is_content kind pk) add_like (λ c k. k);
        follow_once = h.follow_once;
        like_once = λ u k i. append_once user kind pk s.likes u k i fresh (h.like_once u k i);
        save_once = h.save_once;
      }

  pub unlike_atomic-IsCounted : IsCounted (unlike_atomic user kind pk s)
  unfolding unlike_atomic
  unlike_atomic-IsCounted = by_test (count (is_mark user kind pk) s.likes == 0) refl
    where
      by_test :
          (b : Bool)
          → (count (is_mark user kind pk) s.likes == 0) ≡ b
          → IsCounted (
              if b then s else record s {
                likes = filter (λ m. not (is_mark user kind pk m)) s.likes;
                contents =
                    update_where
                      (λ c. is_content kind pk c && ltb 0 c.likes_count)
                      drop_like
                      s.contents;
              })
      by_test true nothing = h
      by_test false there = record {
        followers = h.followers;
        following = h.following;
        liked =
            remove-tallied (λ (c : SocialContent). c.likes_count) marks (is_content kind pk)
              drop_like (is_mark user kind pk) s.contents s.likes
              (ground (arith, there, h.like_once user kind pk))
              (λ c m x y. in_content kind pk user c m x y)
              (λ c m x y. out_of_content kind pk user c m x y) (λ c. refl) (λ c. refl) h.liked;
        commented =
            kept_commented (λ c. is_content kind pk c && ltb 0 c.likes_count) drop_like (λ c k. k);
        shared =
            kept_shared (λ c. is_content kind pk c && ltb 0 c.likes_count) drop_like (λ c k. k);
        follow_once = h.follow_once;
        like_once = λ u k i. removed_once (is_mark user kind pk) s.likes u k i (h.like_once u k i);
        save_once = h.save_once;
      }

  pub save_atomic-IsCounted : IsCounted (save_atomic user kind pk s)
  unfolding save_atomic
  save_atomic-IsCounted = by_test (any (is_mark user kind pk) s.saves) refl
    where
      by_test :
          (b : Bool)
          → any (is_mark user kind pk) s.saves ≡ b
          → IsCounted (if b then s else record s { saves = s.saves ++ mark_of user kind pk ∷ [] })
      by_test true old = h
      by_test false fresh = record {
        followers = h.followers;
        following = h.following;
        liked = h.liked;
        commented = h.commented;
        shared = h.shared;
        follow_once = h.follow_once;
        like_once = h.like_once;
        save_once = λ u k i. append_once user kind pk s.saves u k i fresh (h.save_once u k i);
      }

  pub unsave_atomic-IsCounted : IsCounted (unsave_atomic user kind pk s)
  unfolding unsave_atomic
  unsave_atomic-IsCounted = record {
    followers = h.followers;
    following = h.following;
    liked = h.liked;
    commented = h.commented;
    shared = h.shared;
    follow_once = h.follow_once;
    like_once = h.like_once;
    save_once = λ u k i. removed_once (is_mark user kind pk) s.saves u k i (h.save_once u k i);
  }

  pub share_atomic-IsCounted : IsCounted (share_atomic user kind pk s)
  unfolding share_atomic
  share_atomic-IsCounted = record {
    followers = h.followers;
    following = h.following;
    liked = kept_liked (is_content kind pk) add_share (λ c k. k);
    commented = kept_commented (is_content kind pk) add_share (λ c k. k);
    shared =
        insert-tallied (λ (c : SocialContent). c.shares_count) marks (is_content kind pk) add_share
          _ s.contents s.shares (λ c. ground (arith, kind_eq_comm c.kind kind)) (λ c. refl)
          (λ c. refl) h.shared;
    follow_once = h.follow_once;
    like_once = h.like_once;
    save_once = h.save_once;
  }

  pub comment_atomic-IsCounted : (body : Text) → IsCounted (comment_atomic user kind pk body s)
  unfolding comment_atomic
  comment_atomic-IsCounted body = record {
    followers = h.followers;
    following = h.following;
    liked = kept_liked (is_content kind pk) add_comment (λ c k. k);
    commented =
        insert-tallied (λ (c : SocialContent). c.comments_count) comments_on (is_content kind pk)
          add_comment _ s.contents s.comments (λ c. ground (arith, kind_eq_comm c.kind kind))
          (λ c. refl) (λ c. refl) h.commented;
    shared = kept_shared (is_content kind pk) add_comment (λ c k. k);
    follow_once = h.follow_once;
    like_once = h.like_once;
    save_once = h.save_once;
  }
