-- ===== src/Chat/Started.antt =====
-- chat/views.py: runs of starts, and a start that is repeated.
use cavallo_app.Prelude.{
  not, ◌&&◌, text, ◌∙◌, refl, Bool-cases, inl, [], ==-refl, ◌∷◌, ◌⊎◌, ℤ, sym, arith, ◌++◌, true,
  some, none, inr, find_last, false, ◌≡◌, if◌then◌else◌, Option-cases, Option, ◌==◌, ℕ, List, Bool,
}
use mathlib.Core.Path.{subst}
use cavallo_app.Payments.Json.{is_truthy, get, Json, Fields}
use cavallo_app.Chat.Records.{ChatStore}
use cavallo_app.Chat.Start.{
  start, open_with, existing, StartResponse, Keys, user_by_key, active_owner, start_with_user,
  start_with_business,
}
use cavallo_app.Chat.Paired.{IsPaired, begin_lem, begun-IsPaired, begun, both, both-two_rows_new}

abbrev Keeps : StartResponse × ChatStore → Type 0
Keeps r = IsPaired (r.1)

if-Keeps :
    (b : Bool) (r s : StartResponse × ChatStore) → Keeps r → Keeps s → Keeps (if b then r else s)
if-Keeps true r s h k = h
if-Keeps false r s h k = k

open_with-new :
    (user recipient : ℕ) (chat : ChatStore)
    → IsPaired chat
    → existing user recipient chat ≡ none
    → open_with user recipient chat ≡ (
        if user == recipient
        then (StartResponse.http_500, chat)
        else (StartResponse.http_201 chat.next_conversation, begun user recipient chat))
unfolding open_with
open_with-new user recipient chat h absent = ground (arith, absent, begin_lem user recipient chat h)

open_with-found :
    (user recipient c : ℕ) (chat : ChatStore)
    → existing user recipient chat ≡ some c
    → open_with user recipient chat ≡ (StartResponse.http_200 c, chat)
unfolding open_with
open_with-found user recipient c chat found = ground (arith, found)

open_with-IsPaired :
    (user recipient : ℕ) (chat : ChatStore) → IsPaired chat → Keeps (open_with user recipient chat)
open_with-IsPaired user recipient chat h = elim (Option-cases (existing user recipient chat)) [
  | inr (c, found) ↦ subst Keeps (sym (open_with-found user recipient c chat found)) h
  | inl absent ↦
      subst Keeps (sym (open_with-new user recipient chat h absent))
        (elim (Bool-cases (user == recipient)) [
          | inl same ↦ rw same h
          | inr two ↦ rw two (begun-IsPaired user recipient chat h two absent)
        ])
]

module _ (py : Keys) where
  start_with_user-IsPaired :
      (id : Json) (user : ℕ) (chat : ChatStore)
      → IsPaired chat
      → Keeps (start_with_user py id user chat)
  start_with_user-IsPaired id user chat h =
      if-Keeps _ (StartResponse.http_400, chat) _ h (by_key (py.key_of_value id))
    where
      by_user :
          (u : Option ℕ)
          → Keeps (elim u [
            | none ↦ (StartResponse.http_404, chat)
            | some recipient ↦ open_with user recipient chat
          ])
      by_user none = h
      by_user (some recipient) = open_with-IsPaired user recipient chat h

      by_key :
          (k : Option ℤ)
          → Keeps (elim k [
            | none ↦ (StartResponse.http_500, chat)
            | some k ↦ elim (user_by_key chat k) [
              | none ↦ (StartResponse.http_404, chat)
              | some recipient ↦ open_with user recipient chat
            ]
          ])
      by_key none = h
      by_key (some k) = by_user (user_by_key chat k)

  start_with_business-IsPaired :
      (id : Json) (user : ℕ) (chat : ChatStore)
      → IsPaired chat
      → Keeps (start_with_business py id user chat)
  start_with_business-IsPaired id user chat h = by_key (py.int_of_value id)
    where
      by_owner :
          (u : Option ℕ)
          → Keeps (elim u [
            | none ↦ (StartResponse.http_404, chat)
            | some recipient ↦
                if recipient == user
                then (StartResponse.http_400, chat)
                else open_with user recipient chat
          ])
      by_owner none = h
      by_owner (some recipient) =
          if-Keeps _ (StartResponse.http_400, chat) _ h (open_with-IsPaired user recipient chat h)

      by_key :
          (k : Option ℤ)
          → Keeps (elim k [
            | none ↦ (StartResponse.http_400, chat)
            | some k ↦ elim (active_owner chat k) [
              | none ↦ (StartResponse.http_404, chat)
              | some recipient ↦
                  if recipient == user
                  then (StartResponse.http_400, chat)
                  else open_with user recipient chat
            ]
          ])
      by_key none = h
      by_key (some k) = by_owner (active_owner chat k)

  start-IsPaired :
      (body : Fields) (user : ℕ) (chat : ChatStore)
      → IsPaired chat
      → Keeps (start py body user chat)
  unfolding start
  start-IsPaired body user chat h =
      let r = get (text "recipient_id") body in
      let b = get (text "business_id") body in
      let with_user = start_with_user py r user chat in
      let with_business = start_with_business py b user chat in
      let refused : StartResponse × ChatStore = (StartResponse.http_400, chat) in
      let named =
        if-Keeps (is_truthy b) with_business with_user (start_with_business-IsPaired b user chat h)
          (start_with_user-IsPaired r user chat h) in
      if-Keeps (is_truthy r && is_truthy b) refused
        (if not (is_truthy r) && not (is_truthy b)
          then refused
          else if is_truthy b
          then with_business
          else with_user)
        h
        (if-Keeps (not (is_truthy r) && not (is_truthy b)) refused
          (if is_truthy b then with_business else with_user) h named)

  -- requests of one account after the other
  abbrev pub start_all : List (Fields × ℕ) → ChatStore → ChatStore
  start_all [] chat = chat
  start_all ((body, user) ∷ rest) chat = start_all rest ((start py body user chat).1)

  -- From tables in which each conversation has two participants, not the same, and any two accounts
  -- share one conversation at most, any run of requests to start one leads to such tables.
  pub start_all-IsPaired :
      (requests : List (Fields × ℕ)) (chat : ChatStore)
      → IsPaired chat
      → IsPaired (start_all requests chat)
  start_all-IsPaired [] chat h = h
  start_all-IsPaired ((body, user) ∷ rest) chat h =
      start_all-IsPaired rest ((start py body user chat).1) (start-IsPaired body user chat h)

existing-swap : (u v : ℕ) (chat : ChatStore) → existing u v chat ≡ existing v u chat
unfolding existing
existing-swap u v chat = same chat.conversations
  where
    same :
        (cs : List ℕ)
        → find_last (both chat.participants u v) cs ≡ find_last (both chat.participants v u) cs
    same [] = refl
    same (c ∷ cs) = ground (arith, same cs)

find_last-append :
    (p : ℕ → Bool) (cs : List ℕ) (n : ℕ) → p n ≡ true → find_last p (cs ++ n ∷ []) ≡ some n
find_last-append p [] n h = ground (arith, h)
find_last-append p (c ∷ cs) n h = ground (arith, find_last-append p cs n h)

existing-begun :
    (user recipient : ℕ) (chat : ChatStore)
    → IsPaired chat
    → existing user recipient (begun user recipient chat) ≡ some chat.next_conversation
unfolding existing
existing-begun user recipient chat h =
    find_last-append (both (begun user recipient chat).participants user recipient)
      chat.conversations chat.next_conversation
      (ground (
        arith,
        both-two_rows_new chat.next_conversation user recipient user recipient chat.participants
            h.rows_old,
        ==-refl user,
        ==-refl recipient,
      ))

-- Two accounts that are not the same, in tables in which each conversation has two participants, not
-- the same, and any two accounts share one at most, get a conversation; a second start by either of
-- them, with nothing in between, answers 200 with the same one and changes nothing.
pub open_with_again :
    (user recipient : ℕ) (chat : ChatStore)
    → IsPaired chat
    → (user == recipient) ≡ false
    → (c : ℕ) × (later : ChatStore) × ((open_with user recipient chat
          ≡ (StartResponse.http_200 c, later))
        ⊎ (open_with user recipient chat ≡ (StartResponse.http_201 c, later)))
      × (open_with user recipient later ≡ (StartResponse.http_200 c, later))
      × (open_with recipient user later ≡ (StartResponse.http_200 c, later))
open_with_again user recipient chat h two = elim (Option-cases (existing user recipient chat)) [
  | inr (c, found) ↦
      let again = open_with-found user recipient c chat found in
      (
        c,
        chat,
        inl again,
        again,
        open_with-found recipient user c chat (existing-swap recipient user chat ∙ found),
      )
  | inl absent ↦
      let begun_now = begun user recipient chat in
      let found = existing-begun user recipient chat h in
      (
        chat.next_conversation,
        begun_now,
        inr (ground (arith, open_with-new user recipient chat h absent, two)),
        open_with-found user recipient chat.next_conversation begun_now found,
        open_with-found recipient user chat.next_conversation begun_now
            (existing-swap recipient user begun_now ∙ found),
      )
]
