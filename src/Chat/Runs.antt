-- ===== src/Chat/Runs.antt =====
-- chat/views.py and chat/consumers.py: what any run of sends, frames and connections leaves of the
-- messages.
use cavallo_app.Chat.Records.{has_participant}
use cavallo_app.Prelude.{
  update_where-IsKeyed, refl, [], ◌==◌, ◌∷◌, update_where, not, ◌||◌, append-IsKeyed, inr, inl,
  arith, ◌≤◌, none, mem, find, Text, true, some, Option-cases, Bool-cases, Bool, ◌≡◌, ℕ, sym,
  Option, IsKeyed,
}
use mathlib.Core.Path.{subst}
use cavallo_app.Chat.Forward.{
  Forward-marked, Forward-append, Forward-trans, Forward-refl, Forward, marked, progress,
}
use cavallo_app.Chat.Messages.{
  new_message, Thread, ChatMessage, MessageStatus, ChatResponse, Frame, send, receive, connect,
  disconnect, acknowledge, apply_status_transition, is_acked, guarded, allowed_transition,
  status_eq,
}

-- one request, frame, connection or its end
pub data Step (t u : Thread) : Type 0 where
  sends :
      (now : ℕ) (fails : Bool) (conversation_id user : ℕ) (content : Option Text)
      → u ≡ (send now fails conversation_id user content t).1
      → Step t u
  receives :
      (now conversation_id user : ℕ) (frame : Frame)
      → u ≡ (receive now conversation_id user frame t).1
      → Step t u
  connects :
      (now conversation_id : ℕ) (user : Option ℕ)
      → u ≡ (connect now conversation_id user t).1
      → Step t u
  disconnects : (user : Option ℕ) → u ≡ disconnect user t → Step t u

pub data Reach (t : Thread) : Thread → Type 0 where
  here : Reach t t
  next : {u v : Thread} → Reach t u → Step u v → Reach t v

-- the keys are good, and the messages are those of before or further
abbrev pub HasKeys : Thread → Type 0
HasKeys t = IsKeyed (λ (m : ChatMessage). m.pk) t.next_message t.messages

abbrev Goes : Thread → Thread → Type 0
Goes t u = HasKeys u × Forward t.messages u.messages

Goes-refl : (t : Thread) → HasKeys t → Goes t t
Goes-refl t h = (h, Forward-refl t.messages)

guarded-Goes :
    {A : Type 0} (conversation_id user : ℕ) (t : Thread) (r : (ChatResponse A) × Thread)
    → HasKeys t
    → Goes t (r.1)
    → Goes t ((guarded conversation_id user t r).1)
guarded-Goes conversation_id user t r h k =
    elim (Bool-cases (mem conversation_id t.conversations)) [
      | inr missing ↦ rw missing (Goes-refl t h)
      | inl there ↦ elim (Bool-cases (has_participant t.participants user conversation_id)) [
        | inr foreign ↦ rw there (rw foreign (Goes-refl t h))
        | inl allowed ↦ rw there (rw allowed k)
      ]
    ]

send-Goes :
    (now : ℕ) (fails : Bool) (conversation_id user : ℕ) (content : Option Text) (t : Thread)
    → HasKeys t
    → Goes t ((send now fails conversation_id user content t).1)
unfolding send
send-Goes now fails conversation_id user none t h =
    guarded-Goes conversation_id user t (ChatResponse.http_400, t) h (Goes-refl t h)
send-Goes now fails conversation_id user (some c) t h =
    let message = new_message conversation_id user c t in
    guarded-Goes conversation_id user t _ h (
      append-IsKeyed (λ (m : ChatMessage). m.pk) t.next_message t.messages message h refl,
      Forward-append t.messages (message ∷ []),
    )

allowed-progress :
    (s target : MessageStatus) → allowed_transition s target ≡ true → progress s ≤ progress target
allowed-progress MessageStatus.sent target h = omega arith
allowed-progress MessageStatus.delivered MessageStatus.read h = omega arith
allowed-progress MessageStatus.delivered MessageStatus.sent h = absurd (ground (arith, h))
allowed-progress MessageStatus.delivered MessageStatus.delivered h = omega arith
allowed-progress MessageStatus.read target h = absurd (ground (arith, h))

apply_status_transition-Goes :
    (conversation_id user message_id : ℕ) (target : MessageStatus) (t : Thread)
    → HasKeys t
    → Goes t ((apply_status_transition conversation_id user message_id target t).1)
unfolding apply_status_transition
apply_status_transition-Goes conversation_id user message_id target t h =
    elim (Option-cases (find (is_acked conversation_id user message_id) t.messages)) [
      | inl missing ↦
          let same : apply_status_transition conversation_id user message_id target t ≡ (none, t) =
            ground (arith, missing) in
          subst (λ r. Goes t (r.1)) (sym same) (Goes-refl t h)
      | inr (m, found) ↦
          elim (Bool-cases
            (status_eq m.status target || not (allowed_transition m.status target))) [
              | inl refused ↦
                  let same : apply_status_transition conversation_id user message_id target t
                      ≡ (none, t) =
                    ground (arith, found, refused) in
                  subst (λ r. Goes t (r.1)) (sym same) (Goes-refl t h)
              | inr applied ↦
                  let allowed : allowed_transition m.status target ≡ true =
                    ground (arith, applied) in
                  let same : apply_status_transition conversation_id user message_id target t ≡ (
                    some target,
                    record t {
                      messages = update_where (λ n. n.pk == m.pk) (marked target) t.messages;
                    },
                  ) =
                    ground (arith, found, applied) in
                  subst (λ r. Goes t (r.1)) (sym same)
                    (
                      update_where-IsKeyed (λ (n : ChatMessage). n.pk) (λ n. n.pk == m.pk)
                          (marked target) (λ n k. refl) t.next_message t.messages h,
                      Forward-marked (is_acked conversation_id user message_id) t.messages m target
                          h.distinct found (allowed-progress m.status target allowed),
                    )
            ]
    ]

acknowledge-Goes :
    (conversation_id user : ℕ) (id : Option ℕ) (target : MessageStatus) (t : Thread)
    → HasKeys t
    → Goes t ((acknowledge conversation_id user id target t).1)
acknowledge-Goes conversation_id user none target t h = Goes-refl t h
acknowledge-Goes conversation_id user (some id) target t h =
    apply_status_transition-Goes conversation_id user id target t h

receive-Goes :
    (now conversation_id user : ℕ) (frame : Frame) (t : Thread)
    → HasKeys t
    → Goes t ((receive now conversation_id user frame t).1)
unfolding receive
receive-Goes now conversation_id user Frame.heartbeat t h = Goes-refl t h
receive-Goes now conversation_id user (Frame.typing none) t h = Goes-refl t h
receive-Goes now conversation_id user (Frame.typing (some b)) t h = Goes-refl t h
receive-Goes now conversation_id user (Frame.mark_delivered id) t h =
    acknowledge-Goes conversation_id user id MessageStatus.delivered t h
receive-Goes now conversation_id user (Frame.mark_read id) t h =
    acknowledge-Goes conversation_id user id MessageStatus.read t h
receive-Goes now conversation_id user Frame.ignored t h = Goes-refl t h

connect-Goes :
    (now conversation_id : ℕ) (user : Option ℕ) (t : Thread)
    → HasKeys t
    → Goes t ((connect now conversation_id user t).1)
unfolding connect
connect-Goes now conversation_id none t h = Goes-refl t h
connect-Goes now conversation_id (some user) t h =
    elim (Bool-cases (has_participant t.participants user conversation_id)) [
      | inl allowed ↦ rw allowed (Goes-refl t h)
      | inr foreign ↦ rw foreign (Goes-refl t h)
    ]

disconnect-Goes : (user : Option ℕ) (t : Thread) → HasKeys t → Goes t (disconnect user t)
unfolding disconnect
disconnect-Goes none t h = Goes-refl t h
disconnect-Goes (some user) t h = Goes-refl t h

Step-Goes : {t u : Thread} → Step t u → HasKeys t → Goes t u
Step-Goes {t} (Step.sends now fails c user content e) h =
    subst (Goes t) (sym e) (send-Goes now fails c user content t h)
Step-Goes {t} (Step.receives now c user frame e) h =
    subst (Goes t) (sym e) (receive-Goes now c user frame t h)
Step-Goes {t} (Step.connects now c user e) h = subst (Goes t) (sym e) (connect-Goes now c user t h)
Step-Goes {t} (Step.disconnects user e) h = subst (Goes t) (sym e) (disconnect-Goes user t h)

-- From messages with good keys, after any run of sends, frames, connections and their ends, each
-- message is still there with the same key, conversation, sender and content, and its state is the
-- same or further on the way from sent over delivered to read; the keys are good again.
pub Reach-Forward :
    {t u : Thread} → Reach t u → HasKeys t → HasKeys u × Forward t.messages u.messages
Reach-Forward {t} here h = Goes-refl t h
Reach-Forward {t} (next {u} {v} run step) h =
    let (keyed, before) = Reach-Forward run h in
    let (still, after) = Step-Goes step keyed in
    (still, Forward-trans t.messages u.messages v.messages before after)
