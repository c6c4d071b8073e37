-- ===== src/Moderation/Tests.antt =====
-- Runs of the moderation operations on small tables, and the theorems at them.

use cavallo_app.Moderation.Services.Notified.{decision_dispatched}
use cavallo_app.Notifications.Services.{unconfigured}
use cavallo_app.Notifications.Tasks.{dispatch_notification}
use cavallo_app.Notifications.Tasks.Accepted.{is_value_error}
use cavallo_app.Notifications.Records.{NotificationRequest, Inbox}
use cavallo_app.Notifications.Messages.{Catalogs}
use cavallo_app.Moderation.Sla.Detection.{IsAlert, check_moderation_sla_lem}
use cavallo_app.Moderation.Services.Once.{decided_once, IsRefused}
use cavallo_app.Moderation.Services.Published.{published_was_approved, run}
use cavallo_app.Moderation.Signals.{
  save_content, create_queue_row, enqueue_new_moderatable_content, create_content,
}
use cavallo_app.Moderation.Sla.{
  normal_sla, fast_path_sla, is_breach, breaches, check_moderation_sla,
}
use cavallo_app.Prelude.{
  false, inr, count, ◌||◌, ◌&&◌, true, refl, none, inl, ◌≡◌, ◌==◌, ◌∷◌, text, some, find, any, [],
  Bool, ℕ, List,
}
use cavallo_app.Moderation.Services.Audit.{
  rejection, decisions, approval, upload, approves, Operation, IsAudited,
}
use cavallo_app.Moderation.Services.{
  message_of, notify_content_owner, save_queue_item, create_log, write_decision, blank_reason,
  get_moderatable_content, lock_pending_queue_item, decide, strip, reject, approve, Decision,
}
use cavallo_app.Moderation.Records.{
  ContentStatus, Priority, Action, Store, QueueStatus, ModerationQueue, ModerationLog, Content,
  Business,
}

abbrev blank : ℕ → Bool
blank c = c == 32

abbrev owner : Business
owner = record { pk = 4; user_id = some 9 }

abbrev post : Content
post = record {
  content_type = 1;
  pk = 5;
  model_name = text "post";
  moderatable = some (record {
    status = ContentStatus.pending_review;
    auto_enqueue_on_create = true;
    moderation_priority = Priority.normal;
  });
  business = some owner;
}

abbrev empty : Store
empty = record { queue = []; next_queue = 1; logs = []; next_log = 1; contents = [] }

abbrev row : ModerationQueue
row = record {
  pk = 1;
  content_type = 1;
  object_id = 5;
  status = QueueStatus.pending;
  priority = Priority.normal;
  created_at = 100;
}

abbrev waiting : Store
waiting = record { queue = row ∷ []; next_queue = 2; logs = []; next_log = 1; contents = post ∷ [] }

abbrev log : ModerationLog
log = record {
  pk = 1;
  queue_item = 1;
  reviewer = 7;
  action = Action.approved;
  reason = [];
  created_at = 200;
}

abbrev approved_store : Store
approved_store = record {
  queue = (let r = row in record r { status = QueueStatus.approved }) ∷ [];
  next_queue = 2;
  logs = log ∷ [];
  next_log = 2;
  contents =
      (let p = post in
        record p {
          moderatable = some (record {
            status = ContentStatus.published;
            auto_enqueue_on_create = true;
            moderation_priority = Priority.normal;
          });
        })
      ∷ [];
}

abbrev decision : Decision
decision = record {
  log = log;
  queue_item = let r = row in record r { status = QueueStatus.approved };
  notification = some (record {
    recipient_id = 9;
    notification_type = text "moderation_approved";
    title = text "Your post was approved";
    body = text "Your post is now published.";
    deep_link_type = some (text "post_detail");
    target_id = some 5;
    params = some ((text "item", text "post") ∷ []);
  });
  store = approved_store;
}

upload_runs : create_content 100 post empty ≡ waiting
unfolding create_content enqueue_new_moderatable_content create_queue_row
upload_runs = refl

approve_runs : approve 200 row 7 waiting ≡ inr decision
unfolding approve decide lock_pending_queue_item get_moderatable_content write_decision create_log
    save_content save_queue_item enqueue_new_moderatable_content notify_content_owner message_of
approve_runs = refl

strip_runs : strip blank (text "  bad taste ") ≡ text "bad taste"
strip_runs = refl

blank_runs : reject blank 200 row 7 (some (text "   ")) waiting ≡ inl blank_reason
unfolding reject
blank_runs = refl

sla_runs :
    ((check_moderation_sla 14500 waiting).normal_breaches ≡ 0)
    × ((check_moderation_sla 14501 waiting).normal_breaches ≡ 1)
unfolding check_moderation_sla breaches
sla_runs = (refl, refl)

empty-IsAudited : IsAudited empty
empty-IsAudited = record {
  keyed = record { distinct = tt; below = tt };
  logged = tt;
  known = tt;
  published = tt;
}

abbrev operations : List Operation
operations = upload 100 post ∷ approval 200 row 7 ∷ rejection 300 row 8 (some (text "no")) ∷ []

run-operations : run blank operations empty ≡ approved_store
unfolding create_content enqueue_new_moderatable_content create_queue_row approve reject decide
    lock_pending_queue_item get_moderatable_content write_decision create_log save_content
    save_queue_item
run-operations = refl

published_was_approved_example :
    let last = run blank operations empty in
    (q : ModerationQueue) × (find (approves post) last.queue ≡ some q)
    × (decisions q.pk Action.approved last.logs ≡ 1)
    × (decisions q.pk Action.rejected last.logs ≡ 0)
published_was_approved_example =
    published_was_approved blank operations empty (λ c. c.pk == 5)
      (let p = post in
        record p {
          moderatable = some (record {
            status = ContentStatus.published;
            auto_enqueue_on_create = true;
            moderation_priority = Priority.normal;
          });
        })
      empty-IsAudited (rw run-operations refl) refl

decided_once_example :
    (status : QueueStatus) × IsRefused blank 300 row 8 (some (text "no")) status decision.store
decided_once_example =
    decided_once blank 200 row 7 none waiting decision 300 row 8 (some (text "no")) refl
      (inl approve_runs)

check_moderation_sla_lem_example :
    let report = check_moderation_sla 14501 waiting in
    (any (λ line. line.queue_item_id == 1) report.lines ≡ (
      any (λ i. is_breach 14501 fast_path_sla Priority.fast_path i && i.pk == 1) waiting.queue
      || any (λ i. is_breach 14501 normal_sla Priority.normal i && i.pk == 1) waiting.queue))
    × (report.fast_path_breaches
        ≡ count (is_breach 14501 fast_path_sla Priority.fast_path) waiting.queue)
    × (report.normal_breaches ≡ count (is_breach 14501 normal_sla Priority.normal) waiting.queue)
    × IsAlert 14501 waiting Priority.fast_path report.fast_path_breaches report.fast_path_alert
    × IsAlert 14501 waiting Priority.normal report.normal_breaches report.normal_alert
check_moderation_sla_lem_example = check_moderation_sla_lem 14501 waiting 1

abbrev request : NotificationRequest
request = record {
  recipient_id = 9;
  notification_type = text "moderation_approved";
  title = text "Your post was approved";
  body = text "Your post is now published.";
  deep_link_type = some (text "post_detail");
  target_id = some 5;
  params = some ((text "item", text "post") ∷ []);
}

abbrev plain : Catalogs
plain = record { gettext = λ language message. message; fill_reason = λ template reason. reason }

abbrev inbox : Inbox
inbox = record {
  users = record { pk = 9; preferred_language = text "ar" } ∷ [];
  preferences = [];
  tokens = [];
  notifications = [];
  next_notification = 1;
}

decision_dispatched_example :
    is_value_error (dispatch_notification plain unconfigured request inbox).0 ≡ false
decision_dispatched_example =
    decision_dispatched blank 200 row 7 none waiting decision request plain unconfigured inbox
      (inl approve_runs) refl
