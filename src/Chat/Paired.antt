-- ===== src/Chat/Paired.antt =====
-- chat/views.py: each conversation has two participants, and two accounts have one conversation.
use mathlib.Core.List.{append-nil}
use mathlib.Core.Path.{subst}
use cavallo_app.Chat.Start.{existing, begin}
use cavallo_app.Prelude.{
  count-append, ◌∙◌, sym, ==→eq, Bool-cases, All-map, ◌⊎◌, some, All-append, true, ◌+◌, inr, inl,
  Option-cases, ◌≤◌, refl, none, any-append, ◌∷◌, ◌||◌, if◌then◌else◌, find_last, filter, false,
  arith, [], ◌==◌, ◌&&◌, ◌≡◌, map, count, Bool, ◌<◌, ◌++◌, ℕ, List, All,
}
use cavallo_app.Chat.Records.{ChatStore, Participant, has_participant, is_row}

-- the participants of a conversation
abbrev pub members : ℕ → List Participant → List ℕ
members c rows = map (λ p. p.user_id) (filter (λ p. p.conversation_id == c) rows)

abbrev pub both : List Participant → ℕ → ℕ → ℕ → Bool
both rows u v c = has_participant rows u c && has_participant rows v c

-- two participants, not the same
abbrev pub IsPair : List ℕ → Type 0
IsPair (a ∷ b ∷ []) = (a == b) ≡ false
IsPair _ = ⊥

pub record IsPaired (chat : ChatStore) : Type 0 where
  pub old : All (λ c. c < chat.next_conversation) chat.conversations
  pub rows_old :
      All (λ (p : Participant). p.conversation_id < chat.next_conversation) chat.participants
  pub pairs : All (λ c. IsPair (members c chat.participants)) chat.conversations
  pub once :
      (u v : ℕ) → (u == v) ≡ false → count (both chat.participants u v) chat.conversations ≤ 1

-- a conversation that is not begun has no participant
has_participant-new :
    (u n : ℕ) (rows : List Participant)
    → All (λ p. p.conversation_id < n) rows
    → has_participant rows u n ≡ false
has_participant-new u n [] h = refl
has_participant-new u n (p ∷ rows) h = ground (arith, h.0, has_participant-new u n rows h.1)

members-new :
    (n : ℕ) (rows : List Participant) → All (λ p. p.conversation_id < n) rows → members n rows ≡ []
members-new n [] h = refl
members-new n (p ∷ rows) h = ground (arith, h.0, members-new n rows h.1)

-- the two rows of a new conversation
abbrev pub row_of : ℕ → ℕ → Participant
row_of c u = record { conversation_id = c; user_id = u }

abbrev pub two_rows : ℕ → ℕ → ℕ → List Participant → List Participant
two_rows n a b rows = (rows ++ row_of n a ∷ []) ++ row_of n b ∷ []

has_participant-two_rows :
    (n a b u c : ℕ) (rows : List Participant)
    → has_participant (two_rows n a b rows) u c
      ≡ (has_participant rows u c || (n == c && (a == u || b == u)))
has_participant-two_rows n a b u c rows = ground (
  arith,
  any-append (is_row c u) (rows ++ row_of n a ∷ []) (row_of n b ∷ []),
  any-append (is_row c u) rows (row_of n a ∷ []),
)

members-two_rows :
    (n a b c : ℕ) (rows : List Participant)
    → members c (two_rows n a b rows) ≡ members c rows ++ (if n == c then a ∷ b ∷ [] else [])
members-two_rows n a b c [] = ground arith
members-two_rows n a b c (p ∷ rows) = ground (arith, members-two_rows n a b c rows)

both-two_rows_old :
    (n a b u v c : ℕ) (rows : List Participant)
    → c < n
    → both (two_rows n a b rows) u v c ≡ both rows u v c
both-two_rows_old n a b u v c rows h =
    ground
      (arith, h, has_participant-two_rows n a b u c rows, has_participant-two_rows n a b v c rows)

pub both-two_rows_new :
    (n a b u v : ℕ) (rows : List Participant)
    → All (λ p. p.conversation_id < n) rows
    → both (two_rows n a b rows) u v n ≡ ((a == u || b == u) && (a == v || b == v))
both-two_rows_new n a b u v rows h = ground (
  arith,
  has_participant-two_rows n a b u n rows,
  has_participant-two_rows n a b v n rows,
  has_participant-new u n rows h,
  has_participant-new v n rows h,
)

count-two_rows :
    (n a b u v : ℕ) (rows : List Participant) (cs : List ℕ)
    → All (λ c. c < n) cs
    → count (both (two_rows n a b rows) u v) cs ≡ count (both rows u v) cs
count-two_rows n a b u v rows [] h = refl
count-two_rows n a b u v rows (c ∷ cs) h =
    ground (arith, both-two_rows_old n a b u v c rows h.0, count-two_rows n a b u v rows cs h.1)

find_last-none : (p : ℕ → Bool) (cs : List ℕ) → find_last p cs ≡ none → count p cs ≡ 0
find_last-none p [] h = refl
find_last-none p (c ∷ cs) h = elim (Option-cases (find_last p cs)) [
  | inl absent ↦ ground (arith, absent, h, find_last-none p cs absent)
  | inr (d, found) ↦ absurd (ground (arith, found, h))
]

count-both_swap :
    (u v : ℕ) (rows : List Participant) (cs : List ℕ)
    → count (both rows u v) cs ≡ count (both rows v u) cs
count-both_swap u v rows [] = refl
count-both_swap u v rows (c ∷ cs) = ground (arith, count-both_swap u v rows cs)

same_pair :
    (a b u v : ℕ)
    → (u == v) ≡ false
    → ((a == u || b == u) && (a == v || b == v)) ≡ true
    → ((a ≡ u) × (b ≡ v)) ⊎ ((a ≡ v) × (b ≡ u))
same_pair a b u v h k = elim (Bool-cases (a == u)) [
  | inl e ↦ inl (==→eq a u e, ==→eq b v (ground (arith, h, k, e)))
  | inr e ↦ inr (==→eq a v (ground (arith, h, k, e)), ==→eq b u (ground (arith, h, k, e)))
]

abbrev pub begun : ℕ → ℕ → ChatStore → ChatStore
begun a b chat = record chat {
  conversations = chat.conversations ++ chat.next_conversation ∷ [];
  next_conversation = chat.next_conversation + 1;
  participants = two_rows chat.next_conversation a b chat.participants;
}

-- the block succeeds for two accounts, and fails for one
pub begin_lem :
    (a b : ℕ) (chat : ChatStore)
    → IsPaired chat
    → begin a b chat ≡ (if a == b then none else some (begun a b chat))
unfolding begin
begin_lem a b chat h = ground (
  arith,
  has_participant-new a chat.next_conversation chat.participants h.rows_old,
  has_participant-new b chat.next_conversation chat.participants h.rows_old,
  any-append (is_row chat.next_conversation b) chat.participants
      (row_of chat.next_conversation a ∷ []),
)

pairs-old :
    (n a b : ℕ) (rows : List Participant) (cs : List ℕ)
    → All (λ c. c < n) cs
    → All (λ c. IsPair (members c rows)) cs
    → All (λ c. IsPair (members c (two_rows n a b rows))) cs
pairs-old n a b rows [] h k = tt
pairs-old n a b rows (c ∷ cs) h k =
    let other : (n == c) ≡ false = ground (arith, h.0) in
    let same : members c rows ≡ members c (two_rows n a b rows) =
      ground (arith, other, members-two_rows n a b c rows, append-nil (members c rows)) in
    (subst IsPair same k.0, pairs-old n a b rows cs h.1 k.1)

begun-once :
    (a b u v : ℕ) (chat : ChatStore)
    → IsPaired chat
    → existing a b chat ≡ none
    → (u == v) ≡ false
    → ((a == u || b == u) && (a == v || b == v)) ≡ true
    → count (both chat.participants u v) chat.conversations ≡ 0
unfolding existing
begun-once a b u v chat h absent other new =
    let rows = chat.participants in
    let cs = chat.conversations in
    let empty = find_last-none (both rows a b) cs absent in
    elim (same_pair a b u v other new) [
      | inl (e, f) ↦
          subst (λ x. count (both rows x v) cs ≡ 0) e
            (subst (λ y. count (both rows a y) cs ≡ 0) f empty)
      | inr (e, f) ↦
          count-both_swap u v rows cs
          ∙ subst (λ x. count (both rows x u) cs ≡ 0) e
              (subst (λ y. count (both rows a y) cs ≡ 0) f empty)
    ]

pub begun-IsPaired :
    (a b : ℕ) (chat : ChatStore)
    → IsPaired chat
    → (a == b) ≡ false
    → existing a b chat ≡ none
    → IsPaired (begun a b chat)
begun-IsPaired a b chat h two absent =
    let n = chat.next_conversation in
    let rows = chat.participants in
    let cs = chat.conversations in
    let rows_old =
      All-append (λ (p : Participant). p.conversation_id < n + 1) (rows ++ row_of n a ∷ [])
        (row_of n b ∷ [])
        (All-append (λ (p : Participant). p.conversation_id < n + 1) rows (row_of n a ∷ [])
          (All-map _ _ rows (λ p k. omega (arith, k)) h.rows_old) (omega arith, tt))
        (omega arith, tt) in
    let new : members n (two_rows n a b rows) ≡ a ∷ b ∷ [] =
      ground (arith, members-two_rows n a b n rows, members-new n rows h.rows_old) in
    record {
      old =
          All-append (λ c. c < n + 1) cs (n ∷ []) (All-map _ _ cs (λ c k. omega (arith, k)) h.old)
            (omega arith, tt);
      rows_old = rows_old;
      pairs =
          All-append (λ c. IsPair (members c (two_rows n a b rows))) cs (n ∷ [])
            (pairs-old n a b rows cs h.old h.pairs) (subst IsPair (sym new) two, tt);
      once = λ u v other. elim (Bool-cases ((a == u || b == u) && (a == v || b == v))) [
        | inl in_new ↦ ground (
          arith,
          count-append (both (two_rows n a b rows) u v) cs (n ∷ []),
          count-two_rows n a b u v rows cs h.old,
          begun-once a b u v chat h absent other in_new,
        )
        | inr not_new ↦ ground (
          arith,
          count-append (both (two_rows n a b rows) u v) cs (n ∷ []),
          count-two_rows n a b u v rows cs h.old,
          both-two_rows_new n a b u v rows h.rows_old,
          not_new,
          h.once u v other,
        )
      ];
    }
