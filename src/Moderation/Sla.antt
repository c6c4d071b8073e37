-- ===== src/Moderation/Sla.antt =====
-- moderation/tasks.py: the alerts on queue items that wait too long. Times are in seconds.
pub mod Detection
use cavallo_app.Moderation.Records.{
  priority_eq, QueueStatus, queue_status_eq, Store, Priority, ModerationQueue,
}
use cavallo_app.Prelude.{
  take, length, ◌&&◌, some, filter, ◌++◌, sort, none, map, ltb, leb, [], ◌∷◌, if◌then◌else◌, Option,
  Bool, ◌-◌, ◌*◌, ℕ, List,
}

abbrev pub fast_path_sla : ℕ
fast_path_sla = 30 * 60

abbrev pub normal_sla : ℕ
normal_sla = 4 * 3600

abbrev pub sentry_max_item_ids : ℕ
sentry_max_item_ids = 20

-- pending, of the tier, and created before the cutoff; a cutoff before the epoch selects nothing
abbrev pub is_breach : ℕ → ℕ → Priority → ModerationQueue → Bool
is_breach now threshold priority item =
    queue_status_eq item.status QueueStatus.pending
    && (priority_eq item.priority priority && ltb item.created_at (now - threshold))

-- `ordering = ["-created_at"]`
abbrev pub newest_first : ModerationQueue → ModerationQueue → Bool
newest_first a b = leb b.created_at a.created_at

unfoldable pub breaches : ℕ → ℕ → Priority → Store → List ModerationQueue
breaches now threshold priority store =
    sort newest_first (filter (is_breach now threshold priority) store.queue)

pub data Severity : Type 0 where
  urgent warning : Severity

-- one line of the log
pub record SlaLine : Type 0 where
  pub severity : Severity
  pub queue_item_id : ℕ
  pub priority : Priority
  pub age_seconds : ℕ
  pub threshold : ℕ

abbrev pub sla_line : ℕ → Severity → ℕ → ModerationQueue → SlaLine
sla_line now severity threshold item = record {
  severity = severity;
  queue_item_id = item.pk;
  priority = item.priority;
  age_seconds = now - item.created_at;
  threshold = threshold;
}

-- one aggregated event for Sentry
pub record Alert : Type 0 where
  pub priority : Priority
  pub breach_count : ℕ
  pub oldest_age_seconds : ℕ
  pub queue_item_ids : List ℕ

abbrev pub max : ℕ → ℕ → ℕ
max a b = if ltb a b then b else a

abbrev pub oldest_age : ℕ → List ModerationQueue → ℕ
oldest_age now [] = 0
oldest_age now (item ∷ items) = max (now - item.created_at) (oldest_age now items)

-- `_alert_sla_breach`
unfoldable pub alert_sla_breach : List ModerationQueue → ℕ → Priority → Option Alert
alert_sla_breach [] now priority = none
alert_sla_breach (item ∷ items) now priority = some (record {
  priority = priority;
  breach_count = length (item ∷ items);
  oldest_age_seconds = oldest_age now (item ∷ items);
  queue_item_ids = map (λ i. i.pk) (take sentry_max_item_ids (item ∷ items));
})

pub record SlaReport : Type 0 where
  pub lines : List SlaLine
  pub fast_path_alert : Option Alert
  pub normal_alert : Option Alert
  pub fast_path_breaches : ℕ
  pub normal_breaches : ℕ

-- `check_moderation_sla`: it reads the tables and writes none
unfoldable pub check_moderation_sla : ℕ → Store → SlaReport
check_moderation_sla now store =
    let fast = breaches now fast_path_sla Priority.fast_path store in
    let slow = breaches now normal_sla Priority.normal store in
    record {
      lines =
          map (sla_line now Severity.urgent fast_path_sla) fast
          ++ map (sla_line now Severity.warning normal_sla) slow;
      fast_path_alert = alert_sla_breach fast now Priority.fast_path;
      normal_alert = alert_sla_breach slow now Priority.normal;
      fast_path_breaches = length fast;
      normal_breaches = length slow;
    }
