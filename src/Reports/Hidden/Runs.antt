-- ===== src/Reports/Hidden/Runs.antt =====
-- Runs of new comments and reports.

use cavallo_app.Social.Targets.{allowed_kind, resolve_target}
use cavallo_app.Social.Comments.{
  comment_row, comment_auto_hide_threshold, create_comment, comment_atomic,
  check_and_hide_if_threshold_exceeded,
}
use cavallo_app.Social.Responses.{Done, ApiError}
use cavallo_app.Reports.Hidden.{
  is_over, below_after, hidden_after, counted_hidden, reports_on, row, names_given, IsModerated,
}
use cavallo_app.Social.Records.{ContentKind, Comment}
use cavallo_app.Prelude.{
  ap, Tallies, Option-cases, find-All, Sum-cases, leb, All-map, ◌⊎◌, some, find, ◌∙◌, sym, inl,
  refl, inr, Bool-cases, All-append, count_none, not, count-append, append-tallied, Bool, ◌∷◌, ◌&&◌,
  ◌≤◌, ◌==◌, ◌++◌, count, arith, ◌<◌, true, false, [], All, ◌≡◌, any, Text, List, ℕ,
}
use cavallo_app.Reports.Services.{
  report_kind, resolve_report_target, post_report, count_report, is_reportable, affect_target,
  submit_report, is_report, report_kind_eq, ReportStore, Report, Reason, ReportKind,
}

kind-eq_of : (a b : ReportKind) → report_kind_eq a b ≡ true → a ≡ b
kind-eq_of ReportKind.comment b h = ground arith
kind-eq_of ReportKind.post b h = ground arith
kind-eq_of ReportKind.reel b h = ground arith
kind-eq_of ReportKind.story b h = ground arith
kind-eq_of ReportKind.product b h = ground arith
kind-eq_of ReportKind.business b h = ground arith

module _ (reporter pk : ℕ) (kind : ReportKind) (new : Report) (rs : List Report)
    (fresh : any (is_report reporter kind pk) rs ≡ false) (its_user : new.reporter ≡ reporter)
    (its_kind : new.kind ≡ kind) (its_pk : new.object_id ≡ pk) where
  append_once :
      (u : ℕ) (k : ReportKind) (i : ℕ)
      → count (is_report u k i) rs ≤ 1
      → count (is_report u k i) (rs ++ new ∷ []) ≤ 1
  append_once u k i once =
      let more = count-append (is_report u k i) rs (new ∷ []) in
      let zero_there = count_none (is_report reporter kind pk) rs fresh in
      elim (Bool-cases (is_report u k i new)) [
        | inr other ↦ ground (arith, more, other, once)
        | inl same ↦
            let same_user : reporter ≡ u = ground (arith, same, its_user) in
            let that_kind : new.kind ≡ k = kind-eq_of new.kind k (ground (arith, same)) in
            let same_kind : kind ≡ k = sym its_kind ∙ that_kind in
            let same_pk : pk ≡ i = ground (arith, same, its_pk) in
            let none_there : count (is_report u k i) rs ≡ 0 =
              rw (← same_user, ← same_kind, ← same_pk) zero_there in
            ground (arith, more, none_there, same)
      ]

-- a comment that is found has a key that was given
given :
    (pk next : ℕ) (comments : List Comment)
    → All (λ c. c.pk < next) comments
    → any (λ c. c.pk == pk && not c.is_hidden) comments ≡ true
    → pk < next
given pk next [] h k = absurd (ground arith)
given pk next (c ∷ comments) h k = ground (arith, h.0, given pk next comments h.1)

-- whatever is reported, the target was there
abbrev IsGiven : ReportKind → ℕ → ReportStore → Type 0
IsGiven kind pk s =
    names_given s.social.next_comment
      (record { reporter = 0; kind = kind; object_id = pk; reason = Reason.other; details = [] })
    ≡ true

other-IsModerated :
    (new : Report) (s : ReportStore)
    → IsModerated s
    → report_kind_eq new.kind ReportKind.comment ≡ false
    → ((u : ℕ) (k : ReportKind) (i : ℕ) → count (is_report u k i) (s.reports ++ new ∷ []) ≤ 1)
    → IsModerated (record s { reports = s.reports ++ new ∷ [] })
other-IsModerated new s h other once = record {
  counted =
      append-tallied (λ (c : Comment). c.reports_count) reports_on new s.social.comments s.reports
        (λ c. ground (arith, other)) h.counted;
  hidden = h.hidden;
  once = once;
  named = All-append _ s.reports _ h.named (ground (arith, other), tt);
  below = h.below;
}

module _ (reporter : ℕ) (reason : Reason) (details : Text) (s : ReportStore)
    (h : IsModerated s) where
  abbrev new_row : ReportKind → ℕ → Report
  new_row kind pk = row reporter pk reason details s h kind

  once_more :
      (kind : ReportKind) (pk : ℕ)
      → any (is_report reporter kind pk) s.reports ≡ false
      → (u : ℕ) (k : ReportKind) (i : ℕ)
      → count (is_report u k i) (s.reports ++ new_row kind pk ∷ []) ≤ 1
  once_more kind pk fresh u k i =
      append_once reporter pk kind (new_row kind pk) s.reports fresh refl refl refl u k i
        (h.once u k i)

  recorded-IsModerated :
      (kind : ReportKind) (pk : ℕ)
      → IsGiven kind pk s
      → any (is_report reporter kind pk) s.reports ≡ false
      → IsModerated (record s {
        reports = s.reports ++ new_row kind pk ∷ [];
        social = affect_target kind pk s.social;
      })
  unfolding affect_target check_and_hide_if_threshold_exceeded count_report
  recorded-IsModerated ReportKind.comment pk there fresh = record {
    counted = counted_hidden reporter pk reason details s h;
    hidden = hidden_after reporter pk reason details s h;
    once = once_more ReportKind.comment pk fresh;
    named = All-append _ s.reports _ h.named (there, tt);
    below = below_after reporter pk reason details s h;
  }
  recorded-IsModerated ReportKind.post pk there fresh =
      other-IsModerated (new_row ReportKind.post pk) s h refl (once_more ReportKind.post pk fresh)
  recorded-IsModerated ReportKind.reel pk there fresh =
      other-IsModerated (new_row ReportKind.reel pk) s h refl (once_more ReportKind.reel pk fresh)
  recorded-IsModerated ReportKind.story pk there fresh =
      other-IsModerated (new_row ReportKind.story pk) s h refl (once_more ReportKind.story pk fresh)
  recorded-IsModerated ReportKind.product pk there fresh =
      other-IsModerated (new_row ReportKind.product pk) s h refl
        (once_more ReportKind.product pk fresh)
  recorded-IsModerated ReportKind.business pk there fresh =
      other-IsModerated (new_row ReportKind.business pk) s h refl
        (once_more ReportKind.business pk fresh)

  submit-IsModerated :
      (kind : ReportKind) (pk : ℕ)
      → IsGiven kind pk s
      → IsModerated (submit_report reporter kind pk reason details s).1
  unfolding submit_report
  submit-IsModerated kind pk there =
      elim (Bool-cases (any (is_report reporter kind pk) s.reports)) [
        | inl old ↦ rw old h
        | inr fresh ↦ rw fresh (recorded-IsModerated kind pk there fresh)
      ]

  -- a target that is resolved was there
  reportable-IsGiven :
      (now : ℕ) (kind : ReportKind) (pk : ℕ)
      → is_reportable now kind pk s ≡ true
      → IsGiven kind pk s
  unfolding is_reportable
  reportable-IsGiven now ReportKind.comment pk e =
      ground (arith, given pk s.social.next_comment s.social.comments h.below e)
  reportable-IsGiven now ReportKind.post pk e = refl
  reportable-IsGiven now ReportKind.reel pk e = refl
  reportable-IsGiven now ReportKind.story pk e = refl
  reportable-IsGiven now ReportKind.product pk e = refl
  reportable-IsGiven now ReportKind.business pk e = refl

-- the requests: a new comment, and a report
pub data ReportRequest : Type 0 where
  new_comment : ℕ → Text → ℕ → Text → ReportRequest
  new_report : ℕ → ℕ → Text → ℕ → Reason → Text → ReportRequest

-- the tables after an answer; an error changes nothing
abbrev pub commented : ReportStore → ApiError ⊎ Done → ReportStore
commented s (inl error) = s
commented s (inr d) = record s { social = d.store }

abbrev pub reported : ReportStore → ApiError ⊎ (Bool × ReportStore) → ReportStore
reported s (inl error) = s
reported s (inr (created, after)) = after

abbrev pub handle : ReportRequest → ReportStore → ReportStore
handle (new_comment user t pk body) s = commented s (create_comment user t pk body s.social)
handle (new_report now reporter t pk reason details) s =
    reported s (post_report now reporter t pk reason details s)

abbrev pub handle_all : List ReportRequest → ReportStore → ReportStore
handle_all [] s = s
handle_all (r ∷ rs) s = handle_all rs (handle r s)

-- no report names a key to come
unreported :
    (next : ℕ) (c : Comment) (rs : List Report)
    → c.pk ≡ next
    → All (λ r. names_given next r ≡ true) rs
    → count (reports_on c) rs ≡ 0
unreported next c [] e h = refl
unreported next c (r ∷ rs) e h = ground (arith, e, h.0, unreported next c rs e h.1)

module _ (s : ReportStore) (h : IsModerated s) where
  comment-IsModerated :
      (user : ℕ) (kind : ContentKind) (pk : ℕ) (body : Text)
      → IsModerated (record s { social = comment_atomic user kind pk body s.social })
  unfolding comment_atomic
  comment-IsModerated user kind pk body = record {
    counted = All-append _ s.social.comments _ h.counted (
      sym (
          unreported s.social.next_comment (comment_row user kind pk body s.social) s.reports refl
            h.named),
      tt,
    );
    hidden = All-append _ s.social.comments _ h.hidden (refl, tt);
    once = h.once;
    named = All-map _ _ s.reports (λ r k. ground (arith, k)) h.named;
    below =
        All-append _ s.social.comments _
          (All-map _ _ s.social.comments (λ c k. omega arith) h.below) (omega arith, tt);
  }

  handle-IsModerated : (r : ReportRequest) → IsModerated (handle r s)
  unfolding create_comment post_report resolve_report_target
  handle-IsModerated (new_comment user t pk body) =
      elim (Sum-cases (resolve_target allowed_kind (λ c. c.is_published) t pk s.social)) [
        | inl (error, e) ↦ rw (e, commented) h
        | inr (c, e) ↦ rw (e, commented) (comment-IsModerated user c.kind c.pk body)
      ]
  handle-IsModerated (new_report now reporter t pk reason details) =
      elim (Option-cases (report_kind t)) [
        | inl unknown ↦ rw (unknown, reported) h
        | inr (kind, known) ↦ elim (Bool-cases (is_reportable now kind pk s)) [
          | inr missing ↦ rw (known, missing, reported) h
          | inl there ↦
              rw (known, there, reported)
                (submit-IsModerated reporter reason details s h kind pk
                  (reportable-IsGiven reporter reason details s h now kind pk there))
        ]
      ]

handle_all-IsModerated :
    (rs : List ReportRequest) (s : ReportStore) → IsModerated s → IsModerated (handle_all rs s)
handle_all-IsModerated [] s h = h
handle_all-IsModerated (r ∷ rs) s h =
    handle_all-IsModerated rs (handle r s) (handle-IsModerated s h r)

-- After any run of comments and reports from a right state, a comment is hidden exactly if it has at
-- least as many reports as the threshold, and no user has reported it twice, so that no user hides it
-- alone.
pub hidden_by_reports :
    (rs : List ReportRequest) (s : ReportStore) (p : Comment → Bool) (c : Comment) (user : ℕ)
    → IsModerated s
    → find p (handle_all rs s).social.comments ≡ some c
    → let last = handle_all rs s in
      (c.is_hidden ≡ leb comment_auto_hide_threshold (count (reports_on c) last.reports))
      × (count (is_report user ReportKind.comment c.pk) last.reports ≤ 1)
hidden_by_reports rs s p c user h found =
    let last = handle_all rs s in
    let m = handle_all-IsModerated rs s h in
    let hid =
      find-All (λ c. c.is_hidden ≡ is_over c.reports_count) p last.social.comments m.hidden c
        found in
    let tally =
      find-All (Tallies (λ c. c.reports_count) reports_on last.reports) p last.social.comments
        m.counted c found in
    (hid ∙ ap is_over tally, m.once user ReportKind.comment c.pk)
