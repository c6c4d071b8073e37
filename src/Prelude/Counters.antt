-- ===== src/Prelude/Counters.antt =====
-- Denormalized counters: a column of one table that counts the rows of another.
use Prim.Native.Nat.{ℕ, ◌+◌, ◌-◌, ◌≤◌}
use mathlib.Core.Path.{◌≡◌, refl, ap}
use mathlib.Core.Logic.{inl, inr}
use mathlib.Core.Bool.{Bool, true, false, not, ◌&&◌}
use mathlib.Core.List.{List, [], ◌∷◌, ◌++◌}
use native.Mathlib.Omega.{arith}
use cavallo_app.Prelude.Tests.{ltb, Bool-cases}
use cavallo_app.Prelude.Lists.{
  count, filter, any, update_where, All, All-update_where, count-append,
}

module _ {ℓ} {A : Type ℓ} where
  pub count-filter-le : (p q : A → Bool) (xs : List A) → count p (filter q xs) ≤ count p xs
  count-filter-le p q [] = omega arith
  count-filter-le p q (x ∷ xs) = ground (arith, count-filter-le p q xs)

  -- the rows that are left and the rows that were removed, where all of these are counted
  count-removed :
      (p q : A → Bool) (xs : List A)
      → ((x : A) → q x ≡ true → p x ≡ true)
      → count p (filter (λ x. not (q x)) xs) + count q xs ≡ count p xs
  count-removed p q [] h = omega arith
  count-removed p q (x ∷ xs) h = ground (arith, h x, count-removed p q xs h)

  -- rows that are not counted can go
  count-removed_other :
      (p q : A → Bool) (xs : List A)
      → ((x : A) → q x ≡ true → p x ≡ false)
      → count p (filter (λ x. not (q x)) xs) ≡ count p xs
  count-removed_other p q [] h = omega arith
  count-removed_other p q (x ∷ xs) h = ground (arith, h x, count-removed_other p q xs h)

  pub count_none : (p : A → Bool) (xs : List A) → any p xs ≡ false → count p xs ≡ 0
  count_none p [] h = refl
  count_none p (x ∷ xs) h = ground (arith, h, count_none p xs)

  pub any-filter-not : (q : A → Bool) (xs : List A) → any q (filter (λ x. not (q x)) xs) ≡ false
  any-filter-not q [] = refl
  any-filter-not q (x ∷ xs) = ground (arith, any-filter-not q xs)

  pub filter_none :
      (q : A → Bool) (xs : List A) → any q xs ≡ false → filter (λ x. not (q x)) xs ≡ xs
  filter_none q [] h = refl
  filter_none q (x ∷ xs) h = ground (arith, h, filter_none q xs)

-- `counter` is the column, and `belongs` tells which rows it counts.
module _ {ℓ κ} {A : Type ℓ} {B : Type κ} (counter : B → ℕ) (belongs : B → A → Bool) where
  abbrev pub Tallies : List A → B → Type 0
  Tallies rows b = counter b ≡ count (belongs b) rows

  -- an insert, with the increment of the targets that it belongs to
  pub insert-tallied :
      (hit : B → Bool) (f : B → B) (row : A) (targets : List B) (rows : List A)
      → ((b : B) → hit b ≡ belongs b row)
      → ((b : B) → counter (f b) ≡ counter b + 1)
      → ((b : B) → belongs (f b) ≡ belongs b)
      → All (Tallies rows) targets
      → All (Tallies (rows ++ row ∷ [])) (update_where hit f targets)
  insert-tallied hit f row targets rows meant up same h =
      All-update_where (Tallies rows) (Tallies (rows ++ row ∷ [])) hit f targets
        (λ b k e.
          let counted = ap (λ p. count p (rows ++ row ∷ [])) (same b) in
          let more = count-append (belongs b) rows (row ∷ []) in
          let one : count (belongs b) (row ∷ []) ≡ 1 = ground (arith, meant b, e) in
          omega (arith, up b, k, counted, more, one))
        (λ b k e.
          let more = count-append (belongs b) rows (row ∷ []) in
          let none_here : count (belongs b) (row ∷ []) ≡ 0 = ground (arith, meant b, e) in
          omega (arith, k, more, none_here))
        h

  -- an insert that no target counts
  pub append-tallied :
      (row : A) (targets : List B) (rows : List A)
      → ((b : B) → belongs b row ≡ false)
      → All (Tallies rows) targets
      → All (Tallies (rows ++ row ∷ [])) targets
  append-tallied row [] rows other h = tt
  append-tallied row (b ∷ targets) rows other h = (
    ground (arith, count-append (belongs b) rows (row ∷ []), other b, h.0),
    append-tallied row targets rows other h.1,
  )

  -- the removal of one row, with the decrement of the positive counters that it belongs to
  pub remove-tallied :
      (hit : B → Bool) (f : B → B) (q : A → Bool) (targets : List B) (rows : List A)
      → count q rows ≡ 1
      → ((b : B) (a : A) → hit b ≡ true → q a ≡ true → belongs b a ≡ true)
      → ((b : B) (a : A) → hit b ≡ false → q a ≡ true → belongs b a ≡ false)
      → ((b : B) → counter (f b) ≡ counter b - 1)
      → ((b : B) → belongs (f b) ≡ belongs b)
      → All (Tallies rows) targets
      → All
          (Tallies (filter (λ a. not (q a)) rows))
          (update_where (λ b. hit b && ltb 0 (counter b)) f targets)
  remove-tallied hit f q targets rows one inside outside down same h =
      All-update_where (Tallies rows) (Tallies left) _ f targets
        (λ b k e.
          let here : hit b ≡ true = ground (arith, e) in
          let gone = count-removed (belongs b) q rows (λ a. inside b a here) in
          let counted = ap (λ p. count p left) (same b) in
          omega (arith, down b, k, gone, counted, one))
        (λ b k e. elim (Bool-cases (hit b)) [
          | inr away ↦
              omega (arith, k, count-removed_other (belongs b) q rows (λ a. outside b a away))
          | inl here ↦
              let gone = count-removed (belongs b) q rows (λ a. inside b a here) in
              let zero_there : counter b ≡ 0 = ground (arith, e, here) in
              absurd (omega (arith, k, gone, zero_there, one))
        ])
        h
    where
      left : List A
      left = filter (λ a. not (q a)) rows
