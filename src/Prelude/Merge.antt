-- ===== src/Prelude/Merge.antt =====
-- The first rows of the sorted union of two sources, from the first rows of each.
use Prim.Native.Nat.{ℕ, zero, suc}
use mathlib.Core.Path.{◌≡◌, refl, sym, ap, ◌∙◌}
use mathlib.Core.Logic.{inl, inr}
use mathlib.Core.Bool.{Bool, true, false}
use mathlib.Core.List.{List, [], ◌∷◌, ◌++◌, map}
use native.Mathlib.Omega.{arith}
use cavallo_app.Prelude.Tests.{Bool-cases, if◌then◌else◌}
use cavallo_app.Prelude.Lists.{All, All-map, take}
use cavallo_app.Prelude.Sort.{insert, sort}

pub All-take {ℓ κ} :
    {A : Type ℓ} (P : A → Type κ) (n : ℕ) (xs : List A) → All P xs → All P (take n xs)
All-take P zero xs h = tt
All-take P (suc n) [] h = tt
All-take P (suc n) (x ∷ xs) h = (h.0, All-take P n xs h.1)

module _ {ℓ} {A : Type ℓ} (before : A → A → Bool) where
  -- each row of the front is put before those it ties with, each row of the back after them
  inserts : List A → List A → List A
  inserts [] zs = zs
  inserts (x ∷ xs) zs = insert before x (inserts xs zs)

  insert_after : A → List A → List A
  insert_after z [] = z ∷ []
  insert_after z (w ∷ ws) =
      let rest = insert_after z ws in if before w z then w ∷ rest else z ∷ w ∷ ws

  inserts_after : List A → List A → List A
  inserts_after [] ws = ws
  inserts_after (z ∷ zs) ws = inserts_after zs (insert_after z ws)

  take-take : (m : ℕ) (ys : List A) → take m (take (suc m) ys) ≡ take m ys
  take-take zero ys = refl
  take-take (suc m) [] = refl
  take-take (suc m) (y ∷ ys) = ap (λ r. y ∷ r) (take-take m ys)

  take_twice : (m : ℕ) (ys : List A) → take m (take m ys) ≡ take m ys
  take_twice zero ys = refl
  take_twice (suc m) [] = refl
  take_twice (suc m) (y ∷ ys) = ap (λ r. y ∷ r) (take_twice m ys)

  take-insert :
      (n : ℕ) (x : A) (zs : List A)
      → take n (insert before x (take n zs)) ≡ take n (insert before x zs)
  take-insert zero x zs = refl
  take-insert (suc n) x [] = refl
  take-insert (suc zero) x (z ∷ zs) = ground arith
  take-insert (suc (suc n)) x (z ∷ zs) = ground (arith, take-insert (suc n) x zs, take-take n zs)

  take-insert_after :
      (n : ℕ) (z : A) (ws : List A)
      → take n (insert_after z (take n ws)) ≡ take n (insert_after z ws)
  unfolding insert_after
  take-insert_after zero z ws = refl
  take-insert_after (suc n) z [] = refl
  take-insert_after (suc zero) z (w ∷ ws) = ground arith
  take-insert_after (suc (suc n)) z (w ∷ ws) =
      ground (arith, take-insert_after (suc n) z ws, take-take n ws)

  take-inserts : (n : ℕ) (xs zs : List A) → take n (inserts xs (take n zs)) ≡ take n (inserts xs zs)
  unfolding inserts
  take-inserts n [] zs = take_twice n zs
  take-inserts n (x ∷ xs) zs =
      sym (take-insert n x (inserts xs (take n zs)))
      ∙ ap (λ r. take n (insert before x r)) (take-inserts n xs zs)
      ∙ take-insert n x (inserts xs zs)

  take-inserts_after :
      (n : ℕ) (zs ws : List A)
      → take n (inserts_after zs (take n ws)) ≡ take n (inserts_after zs ws)
  unfolding inserts_after
  take-inserts_after n [] ws = take_twice n ws
  take-inserts_after n (z ∷ zs) ws =
      sym (take-inserts_after n zs (insert_after z (take n ws)))
      ∙ ap (λ r. take n (inserts_after zs r)) (take-insert_after n z ws)
      ∙ take-inserts_after n zs (insert_after z ws)

  sort-inserts : (xs ys : List A) → sort before (xs ++ ys) ≡ inserts xs (sort before ys)
  unfolding inserts
  sort-inserts [] ys = refl
  sort-inserts (x ∷ xs) ys = ap (insert before x) (sort-inserts xs ys)

  -- each row may stand in front of all later ones
  abbrev pub Ordered : List A → Type 0
  Ordered [] = Unit
  Ordered (x ∷ ys) = All (λ y. before x y ≡ true) ys × Ordered ys

  pub All-insert {κ} :
      (P : A → Type κ) (x : A) (ys : List A) → P x → All P ys → All P (insert before x ys)
  All-insert P x [] h k = (h, tt)
  All-insert P x (y ∷ ys) h k = elim (Bool-cases (before x y)) [
    | inl e ↦ rw e (h, k)
    | inr e ↦ rw e (k.0, All-insert P x ys h k.1)
  ]

  pub All-sort {κ} : (P : A → Type κ) (xs : List A) → All P xs → All P (sort before xs)
  All-sort P [] h = tt
  All-sort P (x ∷ xs) h = All-insert P x (sort before xs) h.0 (All-sort P xs h.1)

  take-Ordered : (n : ℕ) (xs : List A) → Ordered xs → Ordered (take n xs)
  take-Ordered zero xs h = tt
  take-Ordered (suc n) [] h = tt
  take-Ordered (suc n) (x ∷ xs) h = (All-take _ n xs h.0, take-Ordered n xs h.1)

  sort-Ordered_lem : (xs : List A) → Ordered xs → sort before xs ≡ xs
  sort-Ordered_lem [] h = refl
  sort-Ordered_lem (x ∷ xs) h =
      ap (insert before x) (sort-Ordered_lem xs h.1) ∙ insert_front x xs h.0
    where
      insert_front :
          (x : A) (ys : List A) → All (λ y. before x y ≡ true) ys → insert before x ys ≡ x ∷ ys
      insert_front x [] h = refl
      insert_front x (y ∷ ys) h = rw h.0

  module _ (total : (a b : A) → before a b ≡ false → before b a ≡ true)
      (trans : (a b c : A) → before a b ≡ true → before b c ≡ true → before a c ≡ true) where
    insert-insert_after :
        (x z : A) (ws : List A)
        → insert before x (insert_after z ws) ≡ insert_after z (insert before x ws)
    unfolding insert_after
    insert-insert_after x z [] = elim (Bool-cases (before x z)) [
      | inl e ↦ ground (arith, e)
      | inr e ↦ ground (arith, e)
    ]
    insert-insert_after x z (w ∷ ws) = ground (
      arith,
      insert-insert_after x z ws,
      total x w,
      total w z,
      total x z,
      trans x w z,
      trans z w x,
      trans x z w,
      trans z x w,
    )

    insert-inserts_after :
        (x : A) (zs ws : List A)
        → insert before x (inserts_after zs ws) ≡ inserts_after zs (insert before x ws)
    unfolding inserts_after
    insert-inserts_after x [] ws = refl
    insert-inserts_after x (z ∷ zs) ws =
        insert-inserts_after x zs (insert_after z ws)
        ∙ ap (inserts_after zs) (insert-insert_after x z ws)

    inserts-inserts_after :
        (xs zs ws : List A) → inserts xs (inserts_after zs ws) ≡ inserts_after zs (inserts xs ws)
    unfolding inserts
    inserts-inserts_after [] zs ws = refl
    inserts-inserts_after (x ∷ xs) zs ws =
        ap (insert before x) (inserts-inserts_after xs zs ws)
        ∙ insert-inserts_after x zs (inserts xs ws)

    -- the stable sort from the other end
    sort-inserts_after : (ys : List A) → sort before ys ≡ inserts_after ys []
    unfolding inserts_after insert_after
    sort-inserts_after [] = refl
    sort-inserts_after (y ∷ ys) =
        ap (insert before y) (sort-inserts_after ys) ∙ insert-inserts_after y ys []

    sort-append : (xs ys : List A) → sort before (xs ++ ys) ≡ inserts_after ys (sort before xs)
    unfolding inserts
    sort-append xs ys =
        sort-inserts xs ys
        ∙ ap (inserts xs) (sort-inserts_after ys)
        ∙ inserts-inserts_after xs ys []
        ∙ ap (inserts_after ys) (sym (sort-inserts_empty xs))
      where
        sort-inserts_empty : (us : List A) → sort before us ≡ inserts us []
        sort-inserts_empty [] = refl
        sort-inserts_empty (u ∷ us) = ap (insert before u) (sort-inserts_empty us)

    insert-Ordered : (x : A) (ys : List A) → Ordered ys → Ordered (insert before x ys)
    insert-Ordered x [] h = (tt, tt)
    insert-Ordered x (y ∷ ys) h = elim (Bool-cases (before x y)) [
      | inl e ↦ rw e ((e, All-map _ _ ys (λ z k. trans x y z e k) h.0), h)
      | inr e ↦
          rw e (All-insert (λ z. before y z ≡ true) x ys (total x y e) h.0, insert-Ordered x ys h.1)
    ]

    pub sort-Ordered : (xs : List A) → Ordered (sort before xs)
    sort-Ordered [] = tt
    sort-Ordered (x ∷ xs) = insert-Ordered x (sort before xs) (sort-Ordered xs)

    -- only the first `n` rows of each source count for the first `n` rows of their sorted union
    pub take-sort-append :
        (n : ℕ) (xs ys : List A)
        → take n (sort before (take n (sort before xs) ++ take n (sort before ys)))
          ≡ take n (sort before (xs ++ ys))
    take-sort-append n xs ys =
        let us = take n (sort before xs) in
        let vs = take n (sort before ys) in
        let us_sorted = sort-Ordered_lem us (take-Ordered n (sort before xs) (sort-Ordered xs)) in
        let vs_sorted = sort-Ordered_lem vs (take-Ordered n (sort before ys) (sort-Ordered ys)) in
        ap (take n) (sort-inserts us vs ∙ ap (inserts us) vs_sorted)
        ∙ take-inserts n us (sort before ys)
        ∙ ap (take n) (sym (sort-inserts us ys))
        ∙ ap (take n) (sort-append us ys ∙ ap (inserts_after ys) us_sorted)
        ∙ take-inserts_after n ys (sort before xs)
        ∙ ap (take n) (sym (sort-append xs ys))

-- a sort by the image of the rows
pub map-sort {ℓ κ} :
    {A : Type ℓ} {B : Type κ} (f : A → B) (before : A → A → Bool) (before' : B → B → Bool)
    → ((a b : A) → before' (f a) (f b) ≡ before a b)
    → (xs : List A) → map f (sort before xs) ≡ sort before' (map f xs)
map-sort f before before' same [] = refl
map-sort f before before' same (x ∷ xs) =
    map-insert x (sort before xs) ∙ ap (insert before' (f x)) (map-sort f before before' same xs)
  where
    map-insert :
        (x : _) (ys : List _) → map f (insert before x ys) ≡ insert before' (f x) (map f ys)
    map-insert x [] = refl
    map-insert x (y ∷ ys) = ground (arith, same x y, map-insert x ys)

pub map-take {ℓ κ} :
    {A : Type ℓ} {B : Type κ} (f : A → B) (n : ℕ) (xs : List A)
    → map f (take n xs) ≡ take n (map f xs)
map-take f zero xs = refl
map-take f (suc n) [] = refl
map-take f (suc n) (x ∷ xs) = ap (λ r. f x ∷ r) (map-take f n xs)
