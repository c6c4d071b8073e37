-- ===== src/Moderation/Records.antt =====
-- The tables of moderation/models.py, with the content rows that they are about. The tables are in
-- key order, and a content row is found by its content type and its key.

use cavallo_app.Prelude.{false, ◌&&◌, true, Text, Option, ◌==◌, ℕ, List, Bool}

pub data QueueStatus : Type 0 where
  pending approved rejected : QueueStatus

abbrev pub queue_status_eq : QueueStatus → QueueStatus → Bool
queue_status_eq QueueStatus.pending QueueStatus.pending = true
queue_status_eq QueueStatus.approved QueueStatus.approved = true
queue_status_eq QueueStatus.rejected QueueStatus.rejected = true
queue_status_eq _ _ = false

pub data Priority : Type 0 where
  normal fast_path : Priority

abbrev pub priority_eq : Priority → Priority → Bool
priority_eq Priority.normal Priority.normal = true
priority_eq Priority.fast_path Priority.fast_path = true
priority_eq _ _ = false

-- `content_type` and `object_id` are the two halves of the generic foreign key
pub record ModerationQueue : Type 0 where
  pub pk : ℕ
  pub content_type : ℕ
  pub object_id : ℕ
  pub status : QueueStatus
  pub priority : Priority
  pub created_at : ℕ

pub data ContentStatus : Type 0 where
  pending_review published rejected : ContentStatus

abbrev pub is_published : ContentStatus → Bool
is_published ContentStatus.published = true
is_published _ = false

-- what a content class takes from the mixin: the column and the two class attributes
pub record Moderatable : Type 0 where
  pub status : ContentStatus
  pub auto_enqueue_on_create : Bool
  pub moderation_priority : Priority

pub record Business : Type 0 where
  pub pk : ℕ
  pub user_id : Option ℕ

-- a row of any model: `moderatable` is `none` where its class does not inherit the mixin, and
-- `business` where it has no such attribute or the attribute is None
pub record Content : Type 0 where
  pub content_type : ℕ
  pub pk : ℕ
  pub model_name : Text
  pub moderatable : Option Moderatable
  pub business : Option Business

pub data Action : Type 0 where
  approved rejected : Action

abbrev pub action_eq : Action → Action → Bool
action_eq Action.approved Action.approved = true
action_eq Action.rejected Action.rejected = true
action_eq _ _ = false

pub record ModerationLog : Type 0 where
  pub pk : ℕ
  pub queue_item : ℕ
  pub reviewer : ℕ
  pub action : Action
  pub reason : Text
  pub created_at : ℕ

pub record Store : Type 0 where
  pub queue : List ModerationQueue
  pub next_queue : ℕ
  pub logs : List ModerationLog
  pub next_log : ℕ
  pub contents : List Content

-- the row that a generic foreign key points at
abbrev pub is_object : ℕ → ℕ → Content → Bool
is_object content_type object_id c = c.content_type == content_type && c.pk == object_id
