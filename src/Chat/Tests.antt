-- ===== src/Chat/Tests.antt =====
-- Runs of starts on small tables, and the theorems at them.
use cavallo_app.Chat.Messages.{
  Thread, MessageStatus, ChatResponse, Frame, Connection, send, receive, connect, fetch_since,
  apply_status_transition,
}
use cavallo_app.Chat.Forward.{Forward, progress}
use cavallo_app.Chat.Runs.{Reach, Step, Reach-Forward, HasKeys}
use cavallo_app.Prelude.{
  map, false, List, Bool, refl, ◌-◌, ◌⊎◌, str_nat, some, ◌≡◌, ℤ, pos, none, [], ◌∷◌, ℕ, true, text,
  arith, Option,
}
use cavallo_app.Payments.Json.{get_item, Json, Fields, Python, integer, string, no_fields, field}
use cavallo_app.Chat.Records.{ChatStore, User}
use cavallo_app.Chat.Start.{begin, start, open_with, existing, StartResponse, Keys}
use cavallo_app.Chat.Paired.{IsPaired}
use cavallo_app.Chat.Started.{start_all, start_all-IsPaired, open_with_again}

abbrev account : ℕ → User
account pk = record { pk = pk; is_active = true }

abbrev village : ChatStore
village = record {
  users = account 1 ∷ account 2 ∷ account 3 ∷ [];
  businesses = record { pk = 7; user_id = 2 } ∷ [];
  conversations = [];
  next_conversation = 1;
  participants = [];
}

-- the key of an int or of a digit behind a zero
abbrev key_read : Json → Option ℤ
key_read (integer n) = some n
key_read (string (a ∷ b ∷ [])) = some (pos (b - 48))
key_read _ = none

abbrev plain_python : Python
plain_python = record {
  lower = λ s. s;
  strip = λ s. s;
  is_digit = λ s. true;
  int_of = λ s. none;
  repr = λ v. [];
}

abbrev plain_keys : Keys
plain_keys = record { python = plain_python; int_of_value = key_read; key_of_value = key_read }

abbrev to_user : Json → Fields
to_user v = field (text "recipient_id") v no_fields

abbrev to_business : ℕ → Fields
to_business n = field (text "business_id") (integer (pos n)) no_fields

abbrev answer_of : Fields → ℕ → ChatStore → StartResponse
answer_of body user chat = (start plain_keys body user chat).0

-- a start, the same by the other one, oneself, and oneself with a zero in front
start_runs :
    (answer_of (to_business 7) 1 village ≡ StartResponse.http_201 1)
    × (answer_of (to_user (integer (pos 1))) 2 ((start plain_keys (to_business 7) 1 village).1)
        ≡ StartResponse.http_200 1)
    × (answer_of (to_user (integer (pos 1))) 1 village ≡ StartResponse.http_400)
    × (answer_of (to_user (string (text "01"))) 1 village ≡ StartResponse.http_500)
unfolding start open_with begin existing get_item str_nat
start_runs = (refl, refl, refl, refl)

village-IsPaired : IsPaired village
village-IsPaired = record { old = tt; rows_old = tt; pairs = tt; once = λ u v other. omega arith }

start_all-IsPaired_example : IsPaired (
    start_all plain_keys
      ((to_business 7, 1) ∷ (to_user (integer (pos 3)), 2) ∷ (to_user (integer (pos 1)), 2) ∷ [])
      village)
start_all-IsPaired_example =
    start_all-IsPaired plain_keys
      ((to_business 7, 1) ∷ (to_user (integer (pos 3)), 2) ∷ (to_user (integer (pos 1)), 2) ∷ [])
      village village-IsPaired

open_with_again_example :
    (c : ℕ) × (later : ChatStore) × ((open_with 1 2 village ≡ (StartResponse.http_200 c, later))
      ⊎ (open_with 1 2 village ≡ (StartResponse.http_201 c, later)))
    × (open_with 1 2 later ≡ (StartResponse.http_200 c, later))
    × (open_with 2 1 later ≡ (StartResponse.http_200 c, later))
open_with_again_example = open_with_again 1 2 village village-IsPaired refl

-- two accounts, and a message from 1 to 2
abbrev room : Thread
room = record {
  conversations = 5 ∷ [];
  participants =
      record { conversation_id = 5; user_id = 1 }
      ∷ record { conversation_id = 5; user_id = 2 }
      ∷ [];
  messages =
      record {
        pk = 1;
        conversation_id = 5;
        sender_id = 1;
        content = text "hello";
        status = MessageStatus.sent;
      }
      ∷ [];
  next_message = 2;
  presence = [];
}

abbrev seen : Thread
seen = (receive 100 5 2 (Frame.mark_read (some 1)) room).1

abbrev late : Thread
late = (receive 101 5 2 (Frame.mark_delivered (some 1)) seen).1

abbrev progresses : Thread → List ℕ
progresses t = map (λ m. progress m.status) t.messages

abbrev pushed_of : Bool → Thread → Option (Option ℕ)
pushed_of fails t = elim ((send 100 fails 5 1 (some (text "again")) t).0) [
  | ChatResponse.http_201 s ↦ some s.pushed
  | _ ↦ none
]

-- a late acknowledgment, that of the sender, pushes to someone offline and online, and a stranger
message_runs :
    (progresses seen ≡ 2 ∷ [])
    × (progresses late ≡ 2 ∷ [])
    × (progresses ((receive 100 5 1 (Frame.mark_read (some 1)) room).1) ≡ 0 ∷ [])
    × (pushed_of false room ≡ some (some 2))
    × (pushed_of true room ≡ some none)
    × (pushed_of false ((connect 50 5 (some 2) room).1) ≡ some none)
    × (pushed_of false ((connect 30 5 (some 2) room).1) ≡ some (some 2))
    × ((connect 100 5 (some 3) room).0 ≡ Connection.closed 4003)
    × ((fetch_since 5 3 (some (pos 0)) room).0 ≡ ChatResponse.http_403)
unfolding receive send connect fetch_since apply_status_transition
message_runs = (refl, refl, refl, refl, refl, refl, refl, refl, refl)

Reach-Forward_example : HasKeys late × Forward room.messages late.messages
Reach-Forward_example =
    Reach-Forward
      (Reach.next (Reach.next Reach.here (Step.receives 100 5 2 (Frame.mark_read (some 1)) refl))
        (Step.receives 101 5 2 (Frame.mark_delivered (some 1)) refl))
      (record { distinct = (refl, tt); below = (omega arith, tt) })
