-- ===== src/Moderation/Services/Audit.antt =====
-- Runs of the moderation operations: the audit trail agrees with the queue, and nothing is published
-- but by an approval.

use cavallo_app.Moderation.Signals.{
  enqueue_new_moderatable_content, create_queue_row, create_content,
}
use cavallo_app.Moderation.Services.{Decision, Refusal}
use cavallo_app.Prelude.{
  not, any-append, refl, inr, All-map, inl, arith, All-append, ◌&&◌, append-IsKeyed, any, [], Text,
  ◌==◌, ◌<◌, ◌⊎◌, ◌∷◌, weight, true, some, if◌then◌else◌, false, count, Option, All, ◌≡◌, none,
  IsKeyed, Bool, ◌++◌, ℕ, List,
}
use cavallo_app.Moderation.Records.{
  Moderatable, action_eq, is_published, QueueStatus, ContentStatus, queue_status_eq, Priority,
  ModerationQueue, ModerationLog, Action, Store, Content,
}

-- what changes the tables: new content, the deferred queue row of content (content/tasks.py), and
-- the two decisions
pub data Operation : Type 0 where
  upload : ℕ → Content → Operation
  enqueue : ℕ → Content → Priority → Operation
  approval : ℕ → ModerationQueue → ℕ → Operation
  rejection : ℕ → ModerationQueue → ℕ → Option Text → Operation

-- new content has the column's default
abbrev pub fresh : Content → Content
fresh content = record content {
  moderatable = elim content.moderatable [
    | none ↦ none
    | some mixin ↦ some (record mixin { status = ContentStatus.pending_review })
  ];
}

-- a refused decision is rolled back
abbrev pub settled : Store → Refusal ⊎ Decision → Store
settled store (inl refusal) = store
settled store (inr d) = d.store

-- the log rows of a queue row with an action
abbrev pub decisions : ℕ → Action → List ModerationLog → ℕ
decisions k action logs = count (λ l. l.queue_item == k && action_eq l.action action) logs

-- a row's status tells its log
abbrev pub IsLogged : List ModerationLog → ModerationQueue → Type 0
IsLogged logs q =
    (decisions q.pk Action.approved logs ≡ weight (queue_status_eq q.status QueueStatus.approved))
    × (decisions q.pk Action.rejected logs ≡ weight (queue_status_eq q.status QueueStatus.rejected))

-- an approved queue row of the content
abbrev pub approves : Content → ModerationQueue → Bool
approves c q =
    queue_status_eq q.status QueueStatus.approved
    && (q.content_type == c.content_type && q.object_id == c.pk)

abbrev pub is_live : Content → Bool
is_live c = elim c.moderatable [ none ↦ false | some mixin ↦ is_published mixin.status ]

abbrev pub vetted : List ModerationQueue → Content → Bool
vetted queue c = if is_live c then any (approves c) queue else true

-- The queue has distinct keys, every row's log rows are those that its status tells, no log row is
-- about a row to come, and published content has an approved row.
pub record IsAudited (store : Store) : Type 0 where
  pub keyed : IsKeyed (λ (q : ModerationQueue). q.pk) store.next_queue store.queue
  pub logged : All (IsLogged store.logs) store.queue
  pub known : All (λ l. l.queue_item < store.next_queue) store.logs
  pub published : All (λ c. vetted store.queue c ≡ true) store.contents

-- a row with a new key has no log
decisions-new :
    (k : ℕ) (action : Action) (logs : List ModerationLog)
    → All (λ l. l.queue_item < k) logs
    → decisions k action logs ≡ 0
decisions-new k action [] h = refl
decisions-new k action (l ∷ logs) h = ground (arith, h.0, decisions-new k action logs h.1)

vetted-append :
    (queue rows : List ModerationQueue) (c : Content)
    → vetted queue c ≡ true
    → vetted (queue ++ rows) c ≡ true
vetted-append queue rows c h = ground (arith, any-append (approves c) queue rows)

module _ (now : ℕ) (store : Store) (h : IsAudited store) where
  -- a row added to the queue is pending
  pub create_queue_row-IsAudited :
      (c : Content) (p : Priority) → IsAudited (create_queue_row now c p store)
  unfolding create_queue_row
  create_queue_row-IsAudited c p = record {
    keyed =
        append-IsKeyed (λ (q : ModerationQueue). q.pk) store.next_queue store.queue _ h.keyed refl;
    logged = All-append (IsLogged store.logs) store.queue _ h.logged (
      (
        decisions-new store.next_queue Action.approved store.logs h.known,
        decisions-new store.next_queue Action.rejected store.logs h.known,
      ),
      tt,
    );
    known = All-map _ _ store.logs (λ l below. omega arith) h.known;
    published = All-map _ _ store.contents (vetted-append store.queue _) h.published;
  }

  pub enqueue_new_moderatable_content-IsAudited :
      (c : Content) (created : Bool)
      → IsAudited (enqueue_new_moderatable_content now c created store)
  unfolding enqueue_new_moderatable_content
  enqueue_new_moderatable_content-IsAudited c false = h
  enqueue_new_moderatable_content-IsAudited c true = mixed c.moderatable
    where
      gate :
          (p : Priority) (auto : Bool)
          → IsAudited (if not auto then store else create_queue_row now c p store)
      gate p true = create_queue_row-IsAudited c p
      gate p false = h

      mixed :
          (m : Option Moderatable)
          → IsAudited (elim m [
            | none ↦ store
            | some mixin ↦
                if not mixin.auto_enqueue_on_create
                then store
                else create_queue_row now c mixin.moderation_priority store
          ])
      mixed none = h
      mixed (some mixin) = gate mixin.moderation_priority mixin.auto_enqueue_on_create

vetted-fresh : (queue : List ModerationQueue) (c : Content) → vetted queue (fresh c) ≡ true
vetted-fresh queue c = ground arith

-- new content is not published
pub create_content-IsAudited :
    (now : ℕ) (c : Content) (store : Store)
    → IsAudited store
    → IsAudited (create_content now (fresh c) store)
unfolding create_content
create_content-IsAudited now c store h =
    enqueue_new_moderatable_content-IsAudited now
      (record store { contents = store.contents ++ fresh c ∷ [] })
      (record {
        keyed = h.keyed;
        logged = h.logged;
        known = h.known;
        published =
            All-append (λ x. vetted store.queue x ≡ true) store.contents _ h.published
              (vetted-fresh store.queue c, tt);
      })
      (fresh c) true
