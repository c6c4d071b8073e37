-- ===== src/Reports/Hidden.antt =====
-- A comment is hidden exactly when five users have reported it (reports/services.py with
-- social/services.py).
pub mod Runs
use cavallo_app.Social.Comments.{hide, is_over_threshold, comment_auto_hide_threshold}
use cavallo_app.Prelude.{
  refl, ◌≤◌, insert-tallied, arith, [], ◌∷◌, update_where, true, ltb, count, ◌==◌, ◌&&◌, ◌≡◌, List,
  All-update_where, ◌<◌, ◌++◌, ◌||◌, leb, Text, Tallies, not, Bool, All, ℕ,
}
use cavallo_app.Reports.Services.{
  is_report, add_report, ReportKind, report_kind_eq, Report, Reason, ReportStore,
}
use cavallo_app.Social.Records.{Comment}

-- the reports of a comment
abbrev pub reports_on : Comment → Report → Bool
reports_on c r = report_kind_eq r.kind ReportKind.comment && r.object_id == c.pk

abbrev pub is_over : ℕ → Bool
is_over n = leb comment_auto_hide_threshold n

-- a report of a comment names a key that has been given
abbrev pub names_given : ℕ → Report → Bool
names_given next r = not (report_kind_eq r.kind ReportKind.comment) || ltb r.object_id next

-- A comment's counter is the number of its reports, it is hidden exactly if that is at least the
-- threshold, no user has reported anything twice, and keys are given in order.
pub record IsModerated (s : ReportStore) : Type 0 where
  pub counted : All (Tallies (λ c. c.reports_count) reports_on s.reports) s.social.comments
  pub hidden : All (λ c. c.is_hidden ≡ is_over c.reports_count) s.social.comments
  pub once : (u : ℕ) (k : ReportKind) (i : ℕ) → count (is_report u k i) s.reports ≤ 1
  pub named : All (λ r. names_given s.social.next_comment r ≡ true) s.reports
  pub below : All (λ c. c.pk < s.social.next_comment) s.social.comments

-- between the increment and the conditional update
abbrev Between : ℕ → Comment → Type 0
Between pk c =
    ((not c.is_hidden || is_over c.reports_count) ≡ true)
    × ((c.is_hidden || (c.pk == pk || not (is_over c.reports_count))) ≡ true)

-- the target of a report, where it is a comment
module _ (reporter pk : ℕ) (reason : Reason) (details : Text) (s : ReportStore)
    (h : IsModerated s) where
  abbrev pub row : ReportKind → Report
  row kind = record {
    reporter = reporter;
    kind = kind;
    object_id = pk;
    reason = reason;
    details = details;
  }

  abbrev pub counted_comments : List Comment
  counted_comments = update_where (λ c. c.pk == pk) add_report s.social.comments

  counted_once :
      All
        (Tallies (λ c. c.reports_count) reports_on (s.reports ++ row ReportKind.comment ∷ []))
        counted_comments
  counted_once =
      insert-tallied (λ (c : Comment). c.reports_count) reports_on (λ c. c.pk == pk) add_report
        (row ReportKind.comment) s.social.comments s.reports (λ c. ground arith) (λ c. refl)
        (λ c. refl) h.counted

  pub counted_hidden :
      All
        (Tallies (λ c. c.reports_count) reports_on (s.reports ++ row ReportKind.comment ∷ []))
        (update_where (is_over_threshold pk) hide counted_comments)
  counted_hidden =
      All-update_where _ _ (is_over_threshold pk) hide counted_comments (λ c k e. k) (λ c k e. k)
        counted_once

  half : All (Between pk) counted_comments
  half =
      All-update_where (λ c. c.is_hidden ≡ is_over c.reports_count) (Between pk) (λ c. c.pk == pk)
        add_report s.social.comments (λ c k e. ground (arith, k, e)) (λ c k e. ground (arith, k, e))
        h.hidden

  pub hidden_after :
      All
        (λ c. c.is_hidden ≡ is_over c.reports_count)
        (update_where (is_over_threshold pk) hide counted_comments)
  hidden_after =
      All-update_where (Between pk) (λ c. c.is_hidden ≡ is_over c.reports_count)
        (is_over_threshold pk) hide counted_comments (λ c k e. ground (arith, k, e))
        (λ c k e. ground (arith, k, e)) half

  pub below_after :
      All
        (λ c. c.pk < s.social.next_comment)
        (update_where (is_over_threshold pk) hide counted_comments)
  below_after =
      All-update_where _ _ (is_over_threshold pk) hide counted_comments (λ c k e. k) (λ c k e. k)
        (All-update_where _ _ (λ c. c.pk == pk) add_report s.social.comments (λ c k e. k)
          (λ c k e. k) h.below)
