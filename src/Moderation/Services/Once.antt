-- ===== src/Moderation/Services/Once.antt =====
-- The state that a decision of moderation/services.py leaves, and that it is taken once.

use cavallo_app.Moderation.Signals.{enqueue_new_moderatable_content, save_content}
use cavallo_app.Moderation.Services.{
  strip, save_queue_item, get_moderatable_content, create_log, blank_reason, already_decided,
  write_decision, queue_status, lock_pending_queue_item, decide, Decision, reject, approve,
}
use cavallo_app.Prelude.{
  none, ==-refl, ◌∷◌, ◌∙◌, sym, Bool-cases, ◌⊎◌, update_where, arith, [], Option-cases, some, inr,
  find-holds, false, refl, inl, ==→eq, ◌==◌, true, find, Text, Option, ◌≡◌, List, Bool, ℕ,
}
use cavallo_app.Moderation.Records.{
  is_object, Moderatable, Content, Store, Action, queue_status_eq, ModerationQueue, QueueStatus,
}

-- What a decision was taken on and what it wrote.
pub record Taken (now : ℕ) (item : ModerationQueue) (reviewer : ℕ) (action : Action) (reason : Text)
    (store last : Store) : Type 0 where
  pub locked : ModerationQueue
  pub content : Content
  pub mixin : Moderatable
  pub found : find (λ q. q.pk == item.pk) store.queue ≡ some locked
  pub waiting : locked.status ≡ QueueStatus.pending
  pub object : find (is_object locked.content_type locked.object_id) store.contents ≡ some content
  pub written : last ≡ (write_decision now locked content mixin reviewer action reason store).1

queue_status_eq→eq :
    (a : QueueStatus) → queue_status_eq a QueueStatus.pending ≡ true → a ≡ QueueStatus.pending
queue_status_eq→eq QueueStatus.pending h = refl
queue_status_eq→eq QueueStatus.approved h = cc
queue_status_eq→eq QueueStatus.rejected h = cc

module _ (now : ℕ) (item : ModerationQueue) (reviewer : ℕ) (action : Action) (reason : Text)
    (store : Store) (d : Decision) where
  taken_on :
      (locked : ModerationQueue) (content : Content) (mixin : Moderatable)
      → find (λ q. q.pk == item.pk) store.queue ≡ some locked
      → queue_status_eq locked.status QueueStatus.pending ≡ true
      → find (is_object locked.content_type locked.object_id) store.contents ≡ some content
      → content.moderatable ≡ some mixin
      → decide now item reviewer action reason store ≡ inr d
      → d.store ≡ (write_decision now locked content mixin reviewer action reason store).1
  unfolding decide lock_pending_queue_item get_moderatable_content
  taken_on locked content mixin found waiting object moderated h = ground arith

  -- A decision that is not refused was taken on a pending row with live content.
  pub decide-Taken :
      decide now item reviewer action reason store ≡ inr d
      → Taken now item reviewer action reason store d.store
  unfolding decide lock_pending_queue_item get_moderatable_content
  decide-Taken h = elim (Option-cases (find (λ q. q.pk == item.pk) store.queue)) [
    | inl missing ↦ absurd (ground arith)
    | inr (locked, found) ↦ elim (Bool-cases (queue_status_eq locked.status QueueStatus.pending)) [
      | inr decided ↦ absurd (ground arith)
      | inl waiting ↦
          elim (Option-cases
            (find (is_object locked.content_type locked.object_id) store.contents)) [
              | inl gone ↦ absurd (ground arith)
              | inr (content, object) ↦ elim (Option-cases content.moderatable) [
                | inl other ↦ absurd (ground arith)
                | inr (mixin, moderated) ↦ record {
                  locked = locked;
                  content = content;
                  mixin = mixin;
                  found = found;
                  waiting = queue_status_eq→eq locked.status waiting;
                  object = object;
                  written = taken_on locked content mixin found waiting object moderated h;
                }
              ]
            ]
    ]
  ]

-- the row found by a key after it was replaced
find-replaced :
    (k : ℕ) (row old : ModerationQueue) (xs : List ModerationQueue)
    → row.pk ≡ k
    → find (λ q. q.pk == k) xs ≡ some old
    → find (λ q. q.pk == k) (update_where (λ q. q.pk == row.pk) (λ _. row) xs) ≡ some row
find-replaced k row old [] e h = cc
find-replaced k row old (x ∷ xs) e h = elim (Bool-cases (x.pk == k)) [
  | inl hit ↦ ground (arith, ==-refl k)
  | inr miss ↦ ground (arith, find-replaced k row old xs e)
]

module _ (now : ℕ) (item : ModerationQueue) (reviewer : ℕ) (action : Action) (reason : Text)
    (store last : Store) (t : Taken now item reviewer action reason store last) where
  found_key : t.locked.pk ≡ item.pk
  found_key =
      ==→eq t.locked.pk item.pk
        (find-holds (λ (q : ModerationQueue). q.pk == item.pk) store.queue t.locked t.found)

  -- the queue row that the decision leaves
  found_after :
      find (λ q. q.pk == item.pk) last.queue
      ≡ some (let q = t.locked in record q { status = queue_status action })
  unfolding write_decision create_log save_content save_queue_item enqueue_new_moderatable_content
  found_after = rw t.written (
      find-replaced item.pk (let q = t.locked in record q { status = queue_status action }) t.locked
        store.queue found_key t.found)

  decided_after :
      (action : Action) → queue_status_eq (queue_status action) QueueStatus.pending ≡ false
  decided_after Action.approved = refl
  decided_after Action.rejected = refl

  -- The row is locked and refused afterwards.
  pub lock-taken :
      (stale : ModerationQueue)
      → stale.pk ≡ item.pk
      → lock_pending_queue_item stale last ≡ inl (already_decided stale.pk (queue_status action))
  unfolding lock_pending_queue_item
  lock-taken stale e = rw e (ground (arith, found_after, decided_after action, found_key, e))

  pub decide-taken :
      (later : ℕ) (stale : ModerationQueue) (other : ℕ) (second : Action) (why : Text)
      → stale.pk ≡ item.pk
      → decide later stale other second why last
        ≡ inl (already_decided stale.pk (queue_status action))
  unfolding decide
  decide-taken later stale other second why e = ground (arith, lock-taken stale e)

module _ (space : ℕ → Bool) where
  -- A rejection is refused for its reason, or decides with the stripped reason.
  pub reject-cases :
      (now : ℕ) (item : ModerationQueue) (reviewer : ℕ) (given : Option Text) (store : Store)
      → (reject space now item reviewer given store ≡ inl blank_reason)
        ⊎ ((reason : Text) × (reject space now item reviewer given store
              ≡ decide now item reviewer Action.rejected reason store))
  unfolding reject
  reject-cases now item reviewer given store =
      from (strip space (elim given [ none ↦ [] | some t ↦ t ])) refl
    where
      from :
          (s : Text)
          → strip space (elim given [ none ↦ [] | some t ↦ t ]) ≡ s
          → (reject space now item reviewer given store ≡ inl blank_reason)
            ⊎ ((reason : Text) × (reject space now item reviewer given store
                  ≡ decide now item reviewer Action.rejected reason store))
      from [] e = inl (ground arith)
      from (c ∷ cs) e = inr (c ∷ cs, ground arith)

  module _ (later : ℕ) (stale : ModerationQueue) (other : ℕ) (reason : Option Text) where
    -- what both decisions answer for an item that has been decided
    abbrev pub IsRefused : QueueStatus → Store → Type 0
    IsRefused status store =
        (approve later stale other store ≡ inl (already_decided stale.pk status))
        × ((reject space later stale other reason store ≡ inl blank_reason)
            ⊎ (reject space later stale other reason store ≡ inl (already_decided stale.pk status)))

    decide-IsRefused :
        (now : ℕ) (item : ModerationQueue) (reviewer : ℕ) (action : Action) (why : Text)
        (store : Store) (d : Decision)
        → stale.pk ≡ item.pk
        → decide now item reviewer action why store ≡ inr d
        → IsRefused (queue_status action) d.store
    unfolding approve
    decide-IsRefused now item reviewer action why store d e h =
        let t = decide-Taken now item reviewer action why store d h in
        let refused = decide-taken now item reviewer action why store d.store t later stale other in
        (
          refused Action.approved [] e,
          elim (reject-cases later stale other reason d.store) [
            | inl blank ↦ inl blank
            | inr (given, same) ↦ inr (same ∙ refused Action.rejected given e)
          ],
        )

  -- Once an item has been approved or rejected, it can be neither approved nor rejected again, by
  -- whatever object stands for its key: an approval is refused as already decided, a rejection as
  -- already decided or for a blank reason.
  pub decided_once :
      (now : ℕ) (item : ModerationQueue) (reviewer : ℕ) (given : Option Text) (store : Store)
      (d : Decision) (later : ℕ) (stale : ModerationQueue) (other : ℕ) (reason : Option Text)
      → stale.pk ≡ item.pk
      → (approve now item reviewer store ≡ inr d)
        ⊎ (reject space now item reviewer given store ≡ inr d)
      → (status : QueueStatus) × IsRefused later stale other reason status d.store
  unfolding approve
  decided_once now item reviewer given store d later stale other reason e (inl approved) = (
    _,
    decide-IsRefused later stale other reason now item reviewer Action.approved [] store d e
        approved,
  )
  decided_once now item reviewer given store d later stale other reason e (inr rejected) =
      elim (reject-cases now item reviewer given store) [
        | inl blank ↦ absurd (ground (arith, blank, rejected))
        | inr (why, same) ↦ (
          _,
          decide-IsRefused later stale other reason now item reviewer Action.rejected why store d e
              (sym same ∙ rejected),
        )
      ]
