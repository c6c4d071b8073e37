-- ===== src/Chat/Messages.antt =====
-- chat/views.py and chat/consumers.py: messages, their states, and who is online.
use cavallo_app.Prelude.{
  update_where, pos, mem, ltb, [], ◌∷◌, ◌||◌, not, negsuc, false, ◌++◌, ◌&&◌, ℤ, true, some, none,
  if◌then◌else◌, find, filter, any, Text, ◌==◌, ◌+◌, ℕ, Option, List, Bool,
}
use cavallo_app.Chat.Records.{Participant, has_participant}

pub data MessageStatus : Type 0 where
  sent delivered read : MessageStatus

-- `content` stands for the text, the media and the shared object
pub record ChatMessage : Type 0 where
  pub pk : ℕ
  pub conversation_id : ℕ
  pub sender_id : ℕ
  pub content : Text
  pub status : MessageStatus

-- the messages, the rows that say who takes part, and the presence keys with the times they expire
pub record Thread : Type 0 where
  pub conversations : List ℕ
  pub participants : List Participant
  pub messages : List ChatMessage
  pub next_message : ℕ
  pub presence : List (ℕ × ℕ)

abbrev pub presence_ttl_seconds : ℕ
presence_ttl_seconds = 60

-- `cache.get(presence_cache_key(user_id)) is not None`
abbrev pub is_online : ℕ → ℕ → Thread → Bool
is_online now user_id t = any (λ k. k.0 == user_id && ltb now (k.1)) t.presence

-- `ChatConsumer._set_online`
abbrev pub set_online : ℕ → ℕ → Thread → Thread
set_online now user_id t = record t {
  presence = (user_id, now + presence_ttl_seconds) ∷ filter (λ k. not (k.0 == user_id)) t.presence;
}

-- `ChatConsumer._clear_online`
abbrev pub clear_online : ℕ → Thread → Thread
clear_online user_id t = record t { presence = filter (λ k. not (k.0 == user_id)) t.presence }

pub data ChatResponse (A : Type 0) : Type 0 where
  http_200 http_201 : A → ChatResponse A
  http_400 http_403 http_404 : ChatResponse A

-- `_get_conversation_or_404` and `_require_participant`
abbrev pub guarded :
    {A : Type 0} → ℕ → ℕ → Thread → (ChatResponse A) × Thread → (ChatResponse A) × Thread
guarded conversation_id user t allowed =
    if not (mem conversation_id t.conversations)
    then (ChatResponse.http_404, t)
    else if not (has_participant t.participants user conversation_id)
    then (ChatResponse.http_403, t)
    else allowed

-- the participants of a conversation but one
abbrev pub other_participant : ℕ → ℕ → Thread → Option Participant
other_participant conversation_id user t =
    find (λ (p : Participant). p.conversation_id == conversation_id && not (p.user_id == user))
      t.participants

abbrev pub new_message : ℕ → ℕ → Text → Thread → ChatMessage
new_message conversation_id user content t = record {
  pk = t.next_message;
  conversation_id = conversation_id;
  sender_id = user;
  content = content;
  status = MessageStatus.sent;
}

-- what a send has done beside the answer: the task that was queued
pub record Sent : Type 0 where
  pub message : ChatMessage
  pub pushed : Option ℕ

-- `notify_offline_recipient.delay(message.id)`, unless nobody else takes part or they are online; a
-- failure of the cache or of the queue is logged and dropped
abbrev pub offline_push : ℕ → Bool → ChatMessage → ℕ → Thread → Option ℕ
offline_push now fails message user t = elim (other_participant message.conversation_id user t) [
  | none ↦ none
  | some p ↦ if fails || is_online now p.user_id t then none else some message.pk
]

-- `MessageSendView.post`; `content` is what the serializer has accepted, `none` for its
-- ValidationError. The broadcast changes nothing that is modelled, whether it fails or not.
unfoldable pub send : ℕ → Bool → ℕ → ℕ → Option Text → Thread → (ChatResponse Sent) × Thread
send now fails conversation_id user content t = guarded conversation_id user t (elim content [
  | none ↦ (ChatResponse.http_400, t)
  | some c ↦
      let message = new_message conversation_id user c t in
      (
        ChatResponse.http_201
            record { message = message; pushed = offline_push now fails message user t },
        record t { messages = t.messages ++ message ∷ []; next_message = t.next_message + 1 },
      )
])

-- `MessageFetchSinceView.get`; `since` is read by `int`, with `none` where it is absent or none
unfoldable pub fetch_since : ℕ → ℕ → Option ℤ → Thread → (ChatResponse (List ChatMessage)) × Thread
fetch_since conversation_id user since t = guarded conversation_id user t (elim since [
  | none ↦ (ChatResponse.http_400, t)
  | some k ↦ (
    ChatResponse.http_200
        (filter (λ m. m.conversation_id == conversation_id && is_later k m.pk) t.messages),
    t,
  )
])
  where
    is_later : ℤ → ℕ → Bool
    is_later (negsuc n) pk = true
    is_later (pos n) pk = ltb n pk

abbrev pub status_eq : MessageStatus → MessageStatus → Bool
status_eq MessageStatus.sent MessageStatus.sent = true
status_eq MessageStatus.delivered MessageStatus.delivered = true
status_eq MessageStatus.read MessageStatus.read = true
status_eq _ _ = false

-- `ALLOWED_TRANSITIONS`
abbrev pub allowed_transition : MessageStatus → MessageStatus → Bool
allowed_transition MessageStatus.sent MessageStatus.delivered = true
allowed_transition MessageStatus.sent MessageStatus.read = true
allowed_transition MessageStatus.delivered MessageStatus.read = true
allowed_transition _ _ = false

-- the message of an acknowledgment: in the conversation, and not the user's own
abbrev pub is_acked : ℕ → ℕ → ℕ → ChatMessage → Bool
is_acked conversation_id user message_id m =
    m.pk == message_id && m.conversation_id == conversation_id && not (m.sender_id == user)

-- `ChatConsumer._apply_status_transition`
unfoldable pub apply_status_transition :
    ℕ → ℕ → ℕ → MessageStatus → Thread → Option MessageStatus × Thread
apply_status_transition conversation_id user message_id target t =
    elim (find (is_acked conversation_id user message_id) t.messages) [
      | none ↦ (none, t)
      | some m ↦
          if status_eq m.status target || not (allowed_transition m.status target)
          then (none, t)
          else (
            some target,
            record t {
              messages =
                  update_where (λ n. n.pk == m.pk) (λ n. record n { status = target }) t.messages;
            },
          )
    ]

-- a frame that the consumer receives, with the key of its message, if it has one
pub data Frame : Type 0 where
  heartbeat : Frame
  typing : Option Bool → Frame
  mark_delivered mark_read : Option ℕ → Frame
  ignored : Frame

-- what is sent to the group
pub data GroupEvent : Type 0 where
  status_update : ℕ → MessageStatus → GroupEvent
  typing_indicator : Bool → GroupEvent

-- an acknowledgment
abbrev pub acknowledge : ℕ → ℕ → Option ℕ → MessageStatus → Thread → Option GroupEvent × Thread
acknowledge conversation_id user none target t = (none, t)
acknowledge conversation_id user (some message_id) target t =
    let applied = apply_status_transition conversation_id user message_id target t in
    (
      elim (applied.0) [ none ↦ none | some s ↦ some (GroupEvent.status_update message_id s) ],
      applied.1,
    )

-- `ChatConsumer.receive`, at a frame that is read
unfoldable pub receive : ℕ → ℕ → ℕ → Frame → Thread → Option GroupEvent × Thread
unfolding apply_status_transition
receive now conversation_id user Frame.heartbeat t = (none, set_online now user t)
receive now conversation_id user (Frame.typing none) t = (none, t)
receive now conversation_id user (Frame.typing (some b)) t =
    (some (GroupEvent.typing_indicator b), t)
receive now conversation_id user (Frame.mark_delivered id) t =
    acknowledge conversation_id user id MessageStatus.delivered t
receive now conversation_id user (Frame.mark_read id) t =
    acknowledge conversation_id user id MessageStatus.read t
receive now conversation_id user Frame.ignored t = (none, t)

pub data Connection : Type 0 where
  accepted : Connection
  closed : ℕ → Connection

-- `ChatConsumer.connect`; the user is none if the token was not accepted
unfoldable pub connect : ℕ → ℕ → Option ℕ → Thread → Connection × Thread
connect now conversation_id none t = (Connection.closed 4001, t)
connect now conversation_id (some user) t =
    if has_participant t.participants user conversation_id
    then (Connection.accepted, set_online now user t)
    else (Connection.closed 4003, t)

-- `ChatConsumer.disconnect`
unfoldable pub disconnect : Option ℕ → Thread → Thread
disconnect none t = t
disconnect (some user) t = clear_online user t
