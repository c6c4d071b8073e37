-- ===== src/Reports/Tests.antt =====
-- Runs of comments and reports on small tables, and the theorem at one.

use cavallo_app.Social.Targets.{allowed_kind, resolve_target}
use cavallo_app.Reports.Hidden.Runs.{
  hidden_by_reports, new_report, new_comment, ReportRequest, handle_all,
}
use cavallo_app.Social.Comments.{
  check_and_hide_if_threshold_exceeded, comment_auto_hide_threshold, comment_atomic, create_comment,
}
use cavallo_app.Reports.Services.{
  count_report, affect_target, submit_report, is_reportable, ReportKind, report_kind, is_report,
  resolve_report_target, post_report, Reason, ReportStore,
}
use cavallo_app.Prelude.{
  refl, some, find, ◌==◌, ◌≤◌, count, ◌∷◌, true, text, none, leb, ◌≡◌, arith, [], ℕ, List,
}
use cavallo_app.Reports.Hidden.{reports_on, IsModerated}
use cavallo_app.Social.Records.{ContentKind, SocialStore, Comment}

abbrev social : SocialStore
social = record {
  businesses = [];
  users = [];
  contents =
      record {
        kind = ContentKind.post;
        pk = 5;
        owner_id = none;
        is_published = true;
        likes_count = 0;
        comments_count = 0;
        shares_count = 0;
      }
      ∷ [];
  follows = [];
  likes = [];
  saves = [];
  shares = [];
  comments = [];
  next_comment = 1;
  cached_feeds = [];
}

abbrev sample : ReportStore
sample = record { social = social; stories = []; products = []; reports = [] }

abbrev by : ℕ → ReportRequest
by user = new_report 0 user (text "comment") 1 Reason.spam []

-- the second report of user 2 does not count, and the sixth reporter finds a hidden comment
abbrev requests : List ReportRequest
requests =
    new_comment 7 (text "post") 5 (text "rude")
    ∷ by 1
    ∷ by 2
    ∷ by 2
    ∷ by 3
    ∷ by 4
    ∷ by 5
    ∷ by 6
    ∷ []

abbrev rude : Comment
rude = record {
  pk = 1;
  user = 7;
  kind = ContentKind.post;
  object_id = 5;
  body = text "rude";
  reports_count = 5;
  is_hidden = true;
}

requests_run : find (λ c. c.pk == 1) (handle_all requests sample).social.comments ≡ some rude
unfolding create_comment comment_atomic resolve_target allowed_kind post_report
    resolve_report_target report_kind is_reportable submit_report affect_target count_report
    check_and_hide_if_threshold_exceeded
requests_run = refl

sample-IsModerated : IsModerated sample
sample-IsModerated = record {
  counted = tt;
  hidden = tt;
  once = λ u k i. omega arith;
  named = tt;
  below = tt;
}

hidden_by_reports_example :
    let last = handle_all requests sample in
    (rude.is_hidden ≡ leb comment_auto_hide_threshold (count (reports_on rude) last.reports))
    × (count (is_report 2 ReportKind.comment rude.pk) last.reports ≤ 1)
hidden_by_reports_example =
    hidden_by_reports requests sample (λ c. c.pk == 1) rude 2 sample-IsModerated requests_run
