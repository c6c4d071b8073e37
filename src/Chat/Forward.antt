-- ===== src/Chat/Forward.antt =====
-- chat/models.py: messages that are kept, with states that only go forward.
use cavallo_app.Prelude.{
  update_where-absent, ==→eq, ==-refl, sym, ap, inr, inl, Bool-cases, true, false, keys, ◌==◌,
  update_where, refl, mem, ◌∙◌, some, arith, [], ◌∷◌, ◌≤◌, find, Distinct, ◌++◌, ◌≡◌, ℕ, List, Bool,
}
use mathlib.Core.Path.{subst}
use cavallo_app.Chat.Messages.{ChatMessage, MessageStatus}

abbrev pub progress : MessageStatus → ℕ
progress MessageStatus.sent = 0
progress MessageStatus.delivered = 1
progress MessageStatus.read = 2

-- the same message, of a state that is not behind
abbrev pub IsLater : ChatMessage → ChatMessage → Type 0
IsLater m n =
    (n.pk ≡ m.pk)
    × (n.conversation_id ≡ m.conversation_id)
    × (n.sender_id ≡ m.sender_id)
    × (n.content ≡ m.content)
    × (progress m.status ≤ progress n.status)

-- each message of the first list is there in the second, at the same place
abbrev pub Forward : List ChatMessage → List ChatMessage → Type 0
Forward [] ns = Unit
Forward (m ∷ ms) [] = ⊥
Forward (m ∷ ms) (n ∷ ns) = IsLater m n × Forward ms ns

pub Forward-refl : (ms : List ChatMessage) → Forward ms ms
Forward-refl [] = tt
Forward-refl (m ∷ ms) = ((refl, refl, refl, refl, omega arith), Forward-refl ms)

pub Forward-append : (ms more : List ChatMessage) → Forward ms (ms ++ more)
Forward-append [] more = tt
Forward-append (m ∷ ms) more = ((refl, refl, refl, refl, omega arith), Forward-append ms more)

pub Forward-trans : (ms ns os : List ChatMessage) → Forward ms ns → Forward ns os → Forward ms os
Forward-trans [] ns os h k = tt
Forward-trans (m ∷ ms) [] os h k = absurd h
Forward-trans (m ∷ ms) (n ∷ ns) [] h k = absurd k
Forward-trans (m ∷ ms) (n ∷ ns) (o ∷ os) ((a, b, c, d, e), h) ((a', b', c', d', e'), k) =
    ((a' ∙ a, b' ∙ b, c' ∙ c, d' ∙ d, omega (arith, e, e')), Forward-trans ms ns os h k)

find-mem_key :
    (p : ChatMessage → Bool) (ms : List ChatMessage) (m : ChatMessage)
    → find p ms ≡ some m
    → mem m.pk (keys (λ n. n.pk) ms) ≡ true
find-mem_key p [] m h = absurd (ground (arith, h))
find-mem_key p (n ∷ ms) m h = elim (Bool-cases (p n)) [
  | inl found ↦
      let same : n ≡ m = ground (arith, found, h) in
      ground (arith, ap (λ x. x.pk) same, ==-refl m.pk)
  | inr other ↦ ground (arith, find-mem_key p ms m (ground (arith, other, h)))
]

abbrev pub marked : MessageStatus → ChatMessage → ChatMessage
marked target n = record n { status = target }

pub Forward-marked :
    (p : ChatMessage → Bool) (ms : List ChatMessage) (m : ChatMessage) (target : MessageStatus)
    → Distinct (λ (n : ChatMessage). n.pk) ms
    → find p ms ≡ some m
    → progress m.status ≤ progress target
    → Forward ms (update_where (λ n. n.pk == m.pk) (marked target) ms)
Forward-marked p [] m target d h le = tt
Forward-marked p (n ∷ ms) m target d h le = elim (Bool-cases (p n)) [
  | inl found ↦
      let same : m ≡ n = ground (arith, found, h) in
      let pk = ap (λ x. x.pk) same in
      let rest = update_where-absent (λ (x : ChatMessage). x.pk) (marked target) n.pk ms d.0 in
      let whole : update_where (λ x. x.pk == n.pk) (marked target) (n ∷ ms) ≡ marked target n ∷ ms =
        ground (arith, ==-refl n.pk, rest) in
      subst (λ x. Forward (n ∷ ms) (update_where (λ y. y.pk == x.pk) (marked target) (n ∷ ms)))
        (sym same)
        (subst (Forward (n ∷ ms)) (sym whole) (
          (refl, refl, refl, refl, subst (λ x. progress x.status ≤ progress target) same le),
          Forward-refl ms,
        ))
  | inr other ↦
      let later : find p ms ≡ some m = ground (arith, other, h) in
      let present = find-mem_key p ms m later in
      let apart : (n.pk == m.pk) ≡ false = keys_apart n.pk m.pk ms d.0 present in
      let rest = Forward-marked p ms m target d.1 later le in
      rw apart ((refl, refl, refl, refl, omega arith), rest)
]
  where
    keys_apart :
        (j k : ℕ) (ms : List ChatMessage)
        → mem j (keys (λ x. x.pk) ms) ≡ false
        → mem k (keys (λ x. x.pk) ms) ≡ true
        → (j == k) ≡ false
    keys_apart j k ms a b = elim (Bool-cases (j == k)) [
      | inr apart ↦ apart
      | inl same ↦ absurd (
          ground
            (arith, a, subst (λ x. mem x (keys (λ y. y.pk) ms) ≡ true) (sym (==→eq j k same)) b))
    ]
