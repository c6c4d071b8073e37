-- ===== src/Moderation/Services/Decided.antt =====
-- A decision of moderation/services.py keeps the audit trail.

use cavallo_app.Moderation.Signals.{enqueue_new_moderatable_content, save_content}
use cavallo_app.Moderation.Services.{
  save_queue_item, create_log, write_decision, content_status, queue_status,
}
use cavallo_app.Moderation.Services.Once.{Taken}
use cavallo_app.Moderation.Services.Audit.{vetted, approves, IsAudited, decisions, IsLogged}
use cavallo_app.Moderation.Records.{
  is_object, action_eq, Store, ModerationLog, Action, ModerationQueue, Content,
}
use cavallo_app.Prelude.{
  find-All, ◌<◌, All-append, All-update_where, sym, update_where-IsKeyed, refl, find-holds, ==-refl,
  count-append, ◌&&◌, weight, inr, ==→eq, inl, ◌+◌, update_where, false, [], Bool-cases, ◌∷◌, true,
  arith, some, any, ◌++◌, ◌≡◌, ◌==◌, find, Text, All, List, ℕ, Bool,
}

-- replacing a row that has no approval keeps what the queue approves
any-replaced :
    (c : Content) (row : ModerationQueue) (logs : List ModerationLog) (queue : List ModerationQueue)
    → All (IsLogged logs) queue
    → decisions row.pk Action.approved logs ≡ 0
    → any (approves c) queue ≡ true
    → any (approves c) (update_where (λ q. q.pk == row.pk) (λ _. row) queue) ≡ true
any-replaced c row logs [] h none_yet k = k
any-replaced c row logs (q ∷ queue) h none_yet k = elim (Bool-cases (q.pk == row.pk)) [
  | inl hit ↦
      let same = ==→eq q.pk row.pk hit in
      ground (arith, hit, h.0.0, none_yet, same, any-replaced c row logs queue h.1 none_yet)
  | inr miss ↦ ground (arith, miss, any-replaced c row logs queue h.1 none_yet)
]

-- the replaced row itself is in the queue
any-found :
    (p : ModerationQueue → Bool) (row old : ModerationQueue) (queue : List ModerationQueue)
    → find (λ q. q.pk == row.pk) queue ≡ some old
    → p row ≡ true
    → any p (update_where (λ q. q.pk == row.pk) (λ _. row) queue) ≡ true
any-found p row old [] h k = absurd (ground arith)
any-found p row old (q ∷ queue) h k = elim (Bool-cases (q.pk == row.pk)) [
  | inl hit ↦ ground (arith, hit, k)
  | inr miss ↦ ground (arith, miss, any-found p row old queue)
]

-- what one more log row adds
decisions-append :
    (k : ℕ) (action : Action) (logs : List ModerationLog) (l : ModerationLog)
    → decisions k action (logs ++ l ∷ [])
      ≡ decisions k action logs + weight (l.queue_item == k && action_eq l.action action)
decisions-append k action logs l =
    ground (arith, count-append (λ l. l.queue_item == k && action_eq l.action action) logs (l ∷ []))

module _ (now : ℕ) (item : ModerationQueue) (reviewer : ℕ) (action : Action) (reason : Text)
    (store last : Store) (h : IsAudited store)
    (t : Taken now item reviewer action reason store last) where
  abbrev row : ModerationQueue
  row = let q = t.locked in record q { status = queue_status action }

  abbrev log : ModerationLog
  log = record {
    pk = store.next_log;
    queue_item = t.locked.pk;
    reviewer = reviewer;
    action = action;
    reason = reason;
    created_at = now;
  }

  locked-IsLogged : IsLogged store.logs t.locked
  locked-IsLogged = find-All (IsLogged store.logs) _ store.queue h.logged t.locked t.found

  unlogged : (a : Action) → decisions t.locked.pk a store.logs ≡ 0
  unlogged Action.approved = ground (arith, locked-IsLogged.0, t.waiting)
  unlogged Action.rejected = ground (arith, locked-IsLogged.1, t.waiting)

  logged_now :
      (a : Action) → decisions t.locked.pk a (store.logs ++ log ∷ []) ≡ weight (action_eq action a)
  logged_now a =
      ground (arith, decisions-append t.locked.pk a store.logs log, unlogged a, ==-refl t.locked.pk)

  row-IsLogged : IsLogged (store.logs ++ log ∷ []) row
  row-IsLogged = by_action action (logged_now Action.approved) (logged_now Action.rejected)
    where
      by_action :
          (b : Action)
          → decisions t.locked.pk Action.approved (store.logs ++ log ∷ [])
            ≡ weight (action_eq b Action.approved)
          → decisions t.locked.pk Action.rejected (store.logs ++ log ∷ [])
            ≡ weight (action_eq b Action.rejected)
          → IsLogged
              (store.logs ++ log ∷ [])
              (let q = t.locked in record q { status = queue_status b })
      by_action Action.approved x y = (x, y)
      by_action Action.rejected x y = (x, y)

  other-IsLogged :
      (q : ModerationQueue)
      → IsLogged store.logs q
      → (q.pk == row.pk) ≡ false
      → IsLogged (store.logs ++ log ∷ []) q
  other-IsLogged q k miss = (
    ground (arith, k.0, decisions-append q.pk Action.approved store.logs log),
    ground (arith, k.1, decisions-append q.pk Action.rejected store.logs log),
  )

  abbrev queue : List ModerationQueue
  queue = update_where (λ q. q.pk == row.pk) (λ _. row) store.queue

  -- content that was vetted stays so
  vetted-kept : (c : Content) → vetted store.queue c ≡ true → vetted queue c ≡ true
  vetted-kept c v =
      ground (arith, any-replaced c row store.logs store.queue h.logged (unlogged Action.approved))

  locked_key : t.locked.pk ≡ item.pk
  locked_key =
      ==→eq t.locked.pk item.pk
        (find-holds (λ (q : ModerationQueue). q.pk == item.pk) store.queue t.locked t.found)

  abbrev saved : Content
  saved =
      let content = t.content in
      let mixin = t.mixin in
      record content { moderatable = some (record mixin { status = content_status action }) }

  found_row : find (λ q. q.pk == row.pk) store.queue ≡ some t.locked
  found_row = ground (arith, t.found, locked_key)

  approves-row : action ≡ Action.approved → approves saved row ≡ true
  approves-row e =
      let at =
        find-holds (is_object t.locked.content_type t.locked.object_id) store.contents t.content
          t.object in
      ground (arith, e, at)

  -- the content that was decided is published only if its row is approved
  vetted-saved : vetted queue saved ≡ true
  vetted-saved = by_action action refl
    where
      by_action : (b : Action) → action ≡ b → vetted queue saved ≡ true
      by_action Action.rejected e = ground (arith, e)
      by_action Action.approved e =
          let hit =
            any-found (approves saved) row t.locked store.queue found_row (approves-row e) in
          ground (arith, hit)

  written-IsAudited :
      IsAudited (write_decision now t.locked t.content t.mixin reviewer action reason store).1
  unfolding write_decision create_log save_content save_queue_item enqueue_new_moderatable_content
  written-IsAudited = record {
    keyed =
        update_where-IsKeyed (λ (q : ModerationQueue). q.pk) (λ q. q.pk == row.pk) (λ _. row)
          (λ x e. sym (==→eq x.pk row.pk e)) store.next_queue store.queue h.keyed;
    logged =
        All-update_where (IsLogged store.logs) (IsLogged (store.logs ++ log ∷ [])) _ (λ _. row)
          store.queue (λ x k e. row-IsLogged) (λ x k e. other-IsLogged x k e) h.logged;
    known =
        All-append (λ l. l.queue_item < store.next_queue) store.logs _ h.known
          (
            find-All (λ q. q.pk < store.next_queue) _ store.queue h.keyed.below t.locked t.found,
            tt,
          );
    published =
        All-update_where (λ c. vetted store.queue c ≡ true) (λ c. vetted queue c ≡ true) _
          (λ _. saved) store.contents (λ x k e. vetted-saved) (λ x k e. vetted-kept x k)
          h.published;
  }

  pub decided-IsAudited : IsAudited last
  decided-IsAudited = rw t.written written-IsAudited
