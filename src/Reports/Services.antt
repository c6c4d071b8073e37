-- ===== src/Reports/Services.antt =====
-- reports/targets.py and reports/services.py.

use cavallo_app.Social.Comments.{check_and_hide_if_threshold_exceeded}
use cavallo_app.Social.Responses.{not_found, validation_error, ApiError}
use cavallo_app.Social.Records.{ContentKind, is_content, SocialStore, Comment}
use cavallo_app.Prelude.{
  ltb, [], ◌∷◌, some, inr, text, not, none, inl, ◌++◌, ◌⊎◌, text_eq, false, ◌&&◌, update_where,
  true, if◌then◌else◌, any, Option, List, ◌==◌, ◌+◌, ℕ, Text, Bool,
}

-- the keys of `REPORT_TARGETS`
pub data ReportKind : Type 0 where
  comment post reel story product business : ReportKind

abbrev pub report_kind_eq : ReportKind → ReportKind → Bool
report_kind_eq ReportKind.comment ReportKind.comment = true
report_kind_eq ReportKind.post ReportKind.post = true
report_kind_eq ReportKind.reel ReportKind.reel = true
report_kind_eq ReportKind.story ReportKind.story = true
report_kind_eq ReportKind.product ReportKind.product = true
report_kind_eq ReportKind.business ReportKind.business = true
report_kind_eq _ _ = false

pub data Reason : Type 0 where
  spam inappropriate misleading other : Reason

-- `status` is not written by the code that is modelled
pub record Report : Type 0 where
  pub reporter : ℕ
  pub kind : ReportKind
  pub object_id : ℕ
  pub reason : Reason
  pub details : Text

pub record ReportedStory : Type 0 where
  pub pk : ℕ
  pub is_published : Bool
  pub expires_at : ℕ

pub record ReportedProduct : Type 0 where
  pub pk : ℕ
  pub is_active : Bool

pub record ReportStore : Type 0 where
  pub social : SocialStore
  pub stories : List ReportedStory
  pub products : List ReportedProduct
  pub reports : List Report

abbrev pub is_report : ℕ → ReportKind → ℕ → Report → Bool
is_report reporter kind object_id r =
    r.reporter == reporter && (report_kind_eq r.kind kind && r.object_id == object_id)

-- `REPORT_TARGETS.get(content_type)`
unfoldable pub report_kind : Text → Option ReportKind
report_kind t =
    if text_eq t (text "comment")
    then some ReportKind.comment
    else if text_eq t (text "post")
    then some ReportKind.post
    else if text_eq t (text "reel")
    then some ReportKind.reel
    else if text_eq t (text "story")
    then some ReportKind.story
    else if text_eq t (text "product")
    then some ReportKind.product
    else if text_eq t (text "business")
    then some ReportKind.business
    else none

-- whether the queryset of a kind has the key: what the reporter could have seen
unfoldable pub is_reportable : ℕ → ReportKind → ℕ → ReportStore → Bool
is_reportable now ReportKind.comment pk s =
    any (λ c. c.pk == pk && not c.is_hidden) s.social.comments
is_reportable now ReportKind.post pk s =
    any (λ c. is_content ContentKind.post pk c && c.is_published) s.social.contents
is_reportable now ReportKind.reel pk s =
    any (λ c. is_content ContentKind.reel pk c && c.is_published) s.social.contents
is_reportable now ReportKind.story pk s =
    any (λ t. t.pk == pk && (t.is_published && ltb now t.expires_at)) s.stories
is_reportable now ReportKind.product pk s = any (λ p. p.pk == pk && p.is_active) s.products
is_reportable now ReportKind.business pk s = any (λ b. b.pk == pk) s.social.businesses

-- `resolve_report_target`
unfoldable pub resolve_report_target : ℕ → Text → ℕ → ReportStore → ApiError ⊎ ReportKind
resolve_report_target now content_type object_id s = elim (report_kind content_type) [
  | none ↦ inl validation_error
  | some kind ↦ if is_reportable now kind object_id s then inr kind else inl not_found
]

abbrev pub add_report : Comment → Comment
add_report c = record c { reports_count = c.reports_count + 1 }

-- the increment of a comment's counter
unfoldable pub count_report : ℕ → SocialStore → SocialStore
count_report pk social = record social {
  comments = update_where (λ c. c.pk == pk) add_report social.comments;
}

-- what a new report does to its target
unfoldable pub affect_target : ReportKind → ℕ → SocialStore → SocialStore
affect_target ReportKind.comment pk social =
    (check_and_hide_if_threshold_exceeded pk (count_report pk social)).1
affect_target _ pk social = social

-- `submit_report`: whether a row was created
unfoldable pub submit_report : ℕ → ReportKind → ℕ → Reason → Text → ReportStore → Bool × ReportStore
submit_report reporter kind pk reason details s =
    if any (is_report reporter kind pk) s.reports then (false, s) else (
      true,
      record s {
        reports =
            s.reports
            ++ record {
              reporter = reporter;
              kind = kind;
              object_id = pk;
              reason = reason;
              details = details;
            }
              ∷ [];
        social = affect_target kind pk s.social;
      },
    )

-- the view: the target, then the report
unfoldable pub post_report :
    ℕ → ℕ → Text → ℕ → Reason → Text → ReportStore → ApiError ⊎ (Bool × ReportStore)
post_report now reporter content_type pk reason details s =
    elim (resolve_report_target now content_type pk s) [
      | inl error ↦ inl error
      | inr kind ↦ inr (submit_report reporter kind pk reason details s)
    ]
