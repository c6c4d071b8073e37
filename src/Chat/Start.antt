-- ===== src/Chat/Start.antt =====
-- chat/views.py `ConversationStartView`: a conversation is found or begun.
use cavallo_app.Prelude.{
  pos, int_eq, ◌+◌, str_nat, not, [], ◌∷◌, text_eq, find, any, ◌==◌, ◌&&◌, ℤ, text, some, none,
  if◌then◌else◌, find_last, Bool, ◌++◌, ℕ, Option,
}
use cavallo_app.Chat.Records.{User, OwnedBusiness, has_participant, ChatStore}
use cavallo_app.Payments.Json.{Json, Fields, Python, get, is_truthy, str}

-- What the code takes from Python and Django: `str` of a value, `int` of a value, with `none` for the
-- exceptions that are caught, and the key that a filter reads from a value, with `none` for its
-- exception.
pub record Keys : Type 0 where
  pub python : Python
  pub int_of_value : Json → Option ℤ
  pub key_of_value : Json → Option ℤ

pub data StartResponse : Type 0 where
  http_200 http_201 : ℕ → StartResponse
  http_400 http_404 http_500 : StartResponse

abbrev pub user_by_key : ChatStore → ℤ → Option ℕ
user_by_key chat k = elim (find (λ (u : User). int_eq (pos u.pk) k) chat.users) [
  | none ↦ none
  | some u ↦ some u.pk
]

abbrev pub is_active_user : ChatStore → ℕ → Bool
is_active_user chat k = any (λ (u : User). u.pk == k && u.is_active) chat.users

-- the owner of a business, whose account is active
abbrev pub active_owner : ChatStore → ℤ → Option ℕ
active_owner chat k =
    elim (find (λ (b : OwnedBusiness). int_eq (pos b.pk) k && is_active_user chat b.user_id)
      chat.businesses) [ none ↦ none | some b ↦ some b.user_id ]

-- `ConversationParticipant.objects.create`, with `none` for the IntegrityError of a row that is there
abbrev pub add_participant : ℕ → ℕ → ChatStore → Option ChatStore
add_participant conversation_id user_id chat =
    if has_participant chat.participants user_id conversation_id
    then none
    else some record chat {
      participants =
          chat.participants ++ record { conversation_id = conversation_id; user_id = user_id } ∷ [];
    }

-- the atomic block: the conversation and its two participants, with `none` for an IntegrityError
unfoldable pub begin : ℕ → ℕ → ChatStore → Option ChatStore
begin user recipient chat =
    let conversation = chat.next_conversation in
    elim (add_participant conversation user record chat {
      conversations = chat.conversations ++ conversation ∷ [];
      next_conversation = conversation + 1;
    }) [ none ↦ none | some added ↦ add_participant conversation recipient added ]

-- the newest conversation in which both take part
unfoldable pub existing : ℕ → ℕ → ChatStore → Option ℕ
existing user recipient chat =
    find_last
      (λ c.
        has_participant chat.participants user c && has_participant chat.participants recipient c)
      chat.conversations

-- the conversation with a recipient
unfoldable pub open_with : ℕ → ℕ → ChatStore → StartResponse × ChatStore
unfolding begin existing
open_with user recipient chat = elim (existing user recipient chat) [
  | some c ↦ (StartResponse.http_200 c, chat)
  | none ↦ elim (begin user recipient chat) [
    | none ↦ (StartResponse.http_500, chat)
    | some begun ↦ (StartResponse.http_201 chat.next_conversation, begun)
  ]
]

module _ (py : Keys) where
  -- the recipient that is named by `recipient_id`
  abbrev pub start_with_user : Json → ℕ → ChatStore → StartResponse × ChatStore
  start_with_user recipient_id user chat =
      if text_eq (str py.python recipient_id) (str_nat user)
      then (StartResponse.http_400, chat)
      else elim (py.key_of_value recipient_id) [
        | none ↦ (StartResponse.http_500, chat)
        | some k ↦ elim (user_by_key chat k) [
          | none ↦ (StartResponse.http_404, chat)
          | some recipient ↦ open_with user recipient chat
        ]
      ]

  -- the recipient that is the owner of a business
  abbrev pub start_with_business : Json → ℕ → ChatStore → StartResponse × ChatStore
  start_with_business business_id user chat = elim (py.int_of_value business_id) [
    | none ↦ (StartResponse.http_400, chat)
    | some k ↦ elim (active_owner chat k) [
      | none ↦ (StartResponse.http_404, chat)
      | some recipient ↦
          if recipient == user
          then (StartResponse.http_400, chat)
          else open_with user recipient chat
    ]
  ]

  -- `ConversationStartView.post`
  unfoldable pub start : Fields → ℕ → ChatStore → StartResponse × ChatStore
  unfolding open_with
  start body user chat =
      let recipient_id = get (text "recipient_id") body in
      let business_id = get (text "business_id") body in
      if is_truthy recipient_id && is_truthy business_id
      then (StartResponse.http_400, chat)
      else if not (is_truthy recipient_id) && not (is_truthy business_id)
      then (StartResponse.http_400, chat)
      else if is_truthy business_id
      then start_with_business business_id user chat
      else start_with_user recipient_id user chat
