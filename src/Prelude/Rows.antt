-- ===== src/Prelude/Rows.antt =====
-- One row of a keyed table: its lookup and its update by key.
use Prim.Native.Nat.{ℕ, ◌+◌}
use mathlib.Core.Path.{◌≡◌, refl, subst}
use mathlib.Core.Logic.{inl, inr}
use mathlib.Core.Bool.{Bool, true, false}
use mathlib.Core.Option.{none, some}
use mathlib.Core.List.{List, [], ◌∷◌, ◌++◌}
use native.Mathlib.Omega.{arith}
use cavallo_app.Prelude.Tests.{◌==◌, ==→eq, Bool-cases, Option-cases, if◌then◌else◌}
use cavallo_app.Prelude.Lists.{All, count, find, find_last, mem, update_where}
use cavallo_app.Prelude.Tables.{keys, Distinct}

abbrev pub weight : Bool → ℕ
weight b = if b then 1 else 0

module _ {ℓ} {A : Type ℓ} where
  pub find-holds : (p : A → Bool) (xs : List A) (x : A) → find p xs ≡ some x → p x ≡ true
  find-holds p [] x h = cc
  find-holds p (y ∷ ys) x h = ground (arith, find-holds p ys x)

  pub find-append_miss :
      (p : A → Bool) (xs : List A) (r : A)
      → find p xs ≡ none
      → p r ≡ true
      → find p (xs ++ r ∷ []) ≡ some r
  find-append_miss p [] r h k = ground arith
  find-append_miss p (x ∷ xs) r h k = ground (arith, find-append_miss p xs r)

  pub find-append_hit :
      (p : A → Bool) (xs ys : List A) (x : A) → find p xs ≡ some x → find p (xs ++ ys) ≡ some x
  find-append_hit p [] ys x h = cc
  find-append_hit p (y ∷ xs) ys x h = ground (arith, find-append_hit p xs ys x)

  pub find_last-holds : (p : A → Bool) (xs : List A) (x : A) → find_last p xs ≡ some x → p x ≡ true
  find_last-holds p [] x h = cc
  find_last-holds p (y ∷ ys) x h = elim (Option-cases (find_last p ys)) [
    | inl missing ↦ ground arith
    | inr (z, there) ↦ find_last-holds p ys x (ground arith)
  ]

module _ {ℓ} {A : Type ℓ} (key : A → ℕ) (f : A → A) (same : (x : A) → key (f x) ≡ key x) where
  -- a lookup by key after an update by key
  pub find-update_where :
      (j k : ℕ) (xs : List A)
      → find (λ x. key x == j) (update_where (λ x. key x == k) f xs)
        ≡ elim (find (λ x. key x == j) xs) [
          | none ↦ none
          | some x ↦ some (if j == k then f x else x)
        ]
  find-update_where j k [] = refl
  find-update_where j k (x ∷ xs) = ground (arith, same x, find-update_where j k xs)

module _ {ℓ} {A : Type ℓ} (key : A → ℕ) (f : A → A) where
  pub update_where-absent :
      (k : ℕ) (xs : List A) → mem k (keys key xs) ≡ false → update_where (λ x. key x == k) f xs ≡ xs
  update_where-absent k [] h = refl
  update_where-absent k (x ∷ xs) h = ground (arith, update_where-absent k xs)

  -- under distinct keys an update by key changes one row
  pub count-update_where :
      (p : A → Bool) (k : ℕ) (xs : List A) (x : A)
      → Distinct key xs
      → find (λ x. key x == k) xs ≡ some x
      → count p (update_where (λ x. key x == k) f xs) + weight (p x) ≡ count p xs + weight (p (f x))
  count-update_where p k [] x d h = cc
  count-update_where p k (y ∷ ys) x d h = elim (Bool-cases (key y == k)) [
    | inl hit ↦ ground (
      arith,
      hit,
      ==→eq (key y) k hit,
      update_where-absent (key y) ys d.0,
      update_where-absent k ys,
    )
    | inr miss ↦ ground (arith, miss, count-update_where p k ys x d.1)
  ]

-- what holds of every row holds of the one that is found
pub find-All {ℓ κ} :
    {A : Type ℓ} (P : A → Type κ) (p : A → Bool) (xs : List A)
    → All P xs
    → (x : A) → find p xs ≡ some x
    → P x
find-All P p [] h x e = absurd (ground arith)
find-All P p (y ∷ ys) h x e = elim (Bool-cases (p y)) [
  | inl hit ↦ let same : y ≡ x = ground (arith, hit, e) in subst P same h.0
  | inr miss ↦ find-All P p ys h.1 x (ground (arith, miss, e))
]
