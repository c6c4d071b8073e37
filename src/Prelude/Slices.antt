-- ===== src/Prelude/Slices.antt =====
-- The first rows of a list and the others.
use Prim.Native.Nat.{ℕ, zero, suc, ◌+◌, ◌-◌, ◌≤◌}
use mathlib.Core.Path.{◌≡◌, refl, sym, ap, ◌∙◌}
use mathlib.Core.List.{List, [], ◌∷◌, ◌++◌}
use native.Mathlib.Omega.{arith}
use cavallo_app.Prelude.Lists.{length, take}

module _ {ℓ} {A : Type ℓ} where
  abbrev pub drop : ℕ → List A → List A
  drop zero es = es
  drop (suc n) [] = []
  drop (suc n) (e ∷ es) = drop n es

  pub take-empty : (n : ℕ) → take {A = A} n [] ≡ []
  take-empty zero = refl
  take-empty (suc n) = refl

  pub take-drop : (n m : ℕ) (es : List A) → take n es ++ take m (drop n es) ≡ take (n + m) es
  take-drop zero m es = ap (λ k. take k es) (omega arith)
  take-drop (suc n) m [] = take-empty m ∙ sym (take-empty (suc n + m))
  take-drop (suc n) m (e ∷ es) =
      let more : suc n + m ≡ suc (n + m) = omega arith in
      rw more (ap (λ r. e ∷ r) (take-drop n m es))

  pub take-all : (n : ℕ) (es : List A) → length es ≤ n → take n es ≡ es
  take-all zero [] h = refl
  take-all zero (e ∷ es) h = absurd (omega arith)
  take-all (suc n) [] h = refl
  take-all (suc n) (e ∷ es) h = ap (λ r. e ∷ r) (take-all n es (omega arith))

  pub length-take : (n : ℕ) (es : List A) → n ≤ length es → length (take n es) ≡ n
  length-take zero es h = refl
  length-take (suc n) [] h = absurd (omega arith)
  length-take (suc n) (e ∷ es) h = omega (arith, length-take n es (omega arith))

  pub take-append_short :
      (n : ℕ) (xs ys : List A) → length xs ≤ n → take n (xs ++ ys) ≡ xs ++ take (n - length xs) ys
  take-append_short n [] ys h = ap (λ k. take k ys) (omega arith)
  take-append_short zero (x ∷ xs) ys h = absurd (omega arith)
  take-append_short (suc n) (x ∷ xs) ys h =
      let fewer : suc n - suc (length xs) ≡ n - length xs = omega arith in
      rw fewer (ap (λ r. x ∷ r) (take-append_short n xs ys (omega arith)))

  pub take-append_long : (n : ℕ) (xs ys : List A) → n ≤ length xs → take n (xs ++ ys) ≡ take n xs
  take-append_long zero xs ys h = refl
  take-append_long (suc n) [] ys h = absurd (omega arith)
  take-append_long (suc n) (x ∷ xs) ys h = ap (λ r. x ∷ r) (take-append_long n xs ys (omega arith))

  pub drop-append_short :
      (n : ℕ) (xs ys : List A) → length xs ≤ n → drop n (xs ++ ys) ≡ drop (n - length xs) ys
  drop-append_short n [] ys h = ap (λ k. drop k ys) (omega arith)
  drop-append_short zero (x ∷ xs) ys h = absurd (omega arith)
  drop-append_short (suc n) (x ∷ xs) ys h =
      let fewer : suc n - suc (length xs) ≡ n - length xs = omega arith in
      rw fewer (drop-append_short n xs ys (omega arith))

  pub drop-append_long :
      (n : ℕ) (xs ys : List A) → n ≤ length xs → drop n (xs ++ ys) ≡ drop n xs ++ ys
  drop-append_long zero xs ys h = refl
  drop-append_long (suc n) [] ys h = absurd (omega arith)
  drop-append_long (suc n) (x ∷ xs) ys h = drop-append_long n xs ys (omega arith)
