-- ===== src/Moderation/Services/Published.antt =====
-- Runs of the moderation operations.

use cavallo_app.Moderation.Services.Decided.{decided-IsAudited}
use cavallo_app.Moderation.Services.Once.{decide-Taken, reject-cases}
use cavallo_app.Moderation.Signals.{create_queue_row, create_content}
use cavallo_app.Moderation.Services.{Decision, Refusal, reject, decide, approve}
use cavallo_app.Moderation.Services.Audit.{
  vetted, rejection, decisions, is_live, approval, create_queue_row-IsAudited, approves, fresh,
  enqueue, settled, create_content-IsAudited, IsLogged, upload, IsAudited, Operation,
}
use cavallo_app.Moderation.Records.{Store, ModerationLog, Action, ModerationQueue, Content}
use cavallo_app.Prelude.{
  find-All, refl, Bool-cases, arith, inr, ◌⊎◌, true, inl, some, ◌≡◌, any, find, [], ◌∷◌, Text, All,
  Option, List, Bool, ℕ,
}

module _ (space : ℕ → Bool) where
  -- one operation; a refused decision is rolled back
  abbrev pub perform : Operation → Store → Store
  perform (upload now c) store = create_content now (fresh c) store
  perform (enqueue now c p) store = create_queue_row now c p store
  perform (approval now item reviewer) store = settled store (approve now item reviewer store)
  perform (rejection now item reviewer reason) store =
      settled store (reject space now item reviewer reason store)

  abbrev pub run : List Operation → Store → Store
  run [] store = store
  run (op ∷ ops) store = run ops (perform op store)

  decide-IsAudited :
      (now : ℕ) (item : ModerationQueue) (reviewer : ℕ) (action : Action) (reason : Text)
      (store : Store)
      → IsAudited store
      → IsAudited (settled store (decide now item reviewer action reason store))
  decide-IsAudited now item reviewer action reason store h =
      from (decide now item reviewer action reason store) refl
    where
      from :
          (r : Refusal ⊎ Decision)
          → decide now item reviewer action reason store ≡ r
          → IsAudited (settled store r)
      from (inl refusal) e = h
      from (inr d) e =
          decided-IsAudited now item reviewer action reason store d.store h
            (decide-Taken now item reviewer action reason store d e)

  reject-IsAudited :
      (now : ℕ) (item : ModerationQueue) (reviewer : ℕ) (given : Option Text) (store : Store)
      → IsAudited store
      → IsAudited (settled store (reject space now item reviewer given store))
  reject-IsAudited now item reviewer given store h =
      elim (reject-cases space now item reviewer given store) [
        | inl blank ↦ rw blank h
        | inr (reason, same) ↦
            rw same (decide-IsAudited now item reviewer Action.rejected reason store h)
      ]

  perform-IsAudited :
      (op : Operation) (store : Store) → IsAudited store → IsAudited (perform op store)
  unfolding approve
  perform-IsAudited (upload now c) store h = create_content-IsAudited now c store h
  perform-IsAudited (enqueue now c p) store h = create_queue_row-IsAudited now store h c p
  perform-IsAudited (approval now item reviewer) store h =
      decide-IsAudited now item reviewer Action.approved [] store h
  perform-IsAudited (rejection now item reviewer reason) store h =
      reject-IsAudited now item reviewer reason store h

  run-IsAudited :
      (ops : List Operation) (store : Store) → IsAudited store → IsAudited (run ops store)
  run-IsAudited [] store h = h
  run-IsAudited (op ∷ ops) store h =
      run-IsAudited ops (perform op store) (perform-IsAudited op store h)

  -- an approved row is there, and its log has one approval and no rejection
  any-logged :
      (c : Content) (logs : List ModerationLog) (queue : List ModerationQueue)
      → All (IsLogged logs) queue
      → any (approves c) queue ≡ true
      → (q : ModerationQueue) × (find (approves c) queue ≡ some q)
        × (decisions q.pk Action.approved logs ≡ 1)
        × (decisions q.pk Action.rejected logs ≡ 0)
  any-logged c logs [] h k = absurd (ground arith)
  any-logged c logs (q ∷ queue) h k = elim (Bool-cases (approves c q)) [
    | inl hit ↦ (q, ground (arith, hit), ground (arith, hit, h.0.0), ground (arith, hit, h.0.1))
    | inr miss ↦
        let (r, found, ones, zeros) = any-logged c logs queue h.1 (ground (arith, miss, k)) in
        (r, ground (arith, miss, found), ones, zeros)
  ]

  -- After any run of uploads, deferred enqueues, approvals and rejections from an audited state,
  -- with any of them refused, every row of content that is published has an approved queue row, whose
  -- log has exactly one approval and no rejection.
  pub published_was_approved :
      (ops : List Operation) (store : Store) (p : Content → Bool) (c : Content)
      → IsAudited store
      → find p (run ops store).contents ≡ some c
      → is_live c ≡ true
      → let last = run ops store in
        (q : ModerationQueue) × (find (approves c) last.queue ≡ some q)
        × (decisions q.pk Action.approved last.logs ≡ 1)
        × (decisions q.pk Action.rejected last.logs ≡ 0)
  published_was_approved ops store p c h found live =
      let last = run ops store in
      let a = run-IsAudited ops store h in
      let v = find-All (λ x. vetted last.queue x ≡ true) p last.contents a.published c found in
      any-logged c last.logs last.queue a.logged (ground (arith, v, live))
