-- ===== src/Prelude/Tables.antt =====
-- Tables with a primary key: `key` gives a row's key, `next` is the next key that the database
-- will assign.
use Prim.Native.Nat.{ℕ, ◌+◌, ◌<◌}
use mathlib.Core.Path.{◌≡◌, refl, subst}
use mathlib.Core.Logic.{inl, inr}
use mathlib.Core.Bool.{Bool, true, false, ◌&&◌}
use mathlib.Core.List.{List, [], ◌∷◌, ◌++◌, map}
use native.Mathlib.Omega.{arith}
use cavallo_app.Prelude.Tests.{◌==◌, Bool-cases, if◌then◌else◌}
use cavallo_app.Prelude.Lists.{All, count, filter, mem, update_where}

module _ {ℓ} {A : Type ℓ} (key : A → ℕ) where
  abbrev pub keys : List A → List ℕ
  keys xs = map key xs

  -- no key is given twice
  abbrev pub Distinct : List A → Type 0
  Distinct [] = Unit
  Distinct (x ∷ xs) = (mem (key x) (keys xs) ≡ false) × Distinct xs

  -- the keys are distinct, and the next one is new
  pub record IsKeyed (next : ℕ) (xs : List A) : Type 0 where
    pub distinct : Distinct xs
    pub below : All (λ x. key x < next) xs

  pub mem-keys_below :
      (next : ℕ) (xs : List A) → All (λ x. key x < next) xs → mem next (keys xs) ≡ false
  mem-keys_below next [] h = refl
  mem-keys_below next (x ∷ xs) h = ground (arith, h.0, mem-keys_below next xs h.1)

  mem-keys_append :
      (k : ℕ) (xs : List A) (r : A)
      → mem k (keys (xs ++ r ∷ [])) ≡ (if mem k (keys xs) then true else k == key r)
  mem-keys_append k [] r = ground arith
  mem-keys_append k (x ∷ xs) r = ground (arith, mem-keys_append k xs r)

  Distinct-append :
      (xs : List A) (r : A) → Distinct xs → mem (key r) (keys xs) ≡ false → Distinct (xs ++ r ∷ [])
  Distinct-append [] r d m = (refl, tt)
  Distinct-append (x ∷ xs) r d m =
      (ground (arith, mem-keys_append (key x) xs r), Distinct-append xs r d.1 (ground arith))

  All-below_append :
      (next : ℕ) (xs : List A) (r : A)
      → All (λ x. key x < next) xs
      → key r ≡ next
      → All (λ x. key x < next + 1) (xs ++ r ∷ [])
  All-below_append next [] r h e = (omega arith, tt)
  All-below_append next (x ∷ xs) r h e = (omega arith, All-below_append next xs r h.1 e)

  -- an insert takes the next key
  pub append-IsKeyed :
      (next : ℕ) (xs : List A) (r : A)
      → IsKeyed next xs
      → key r ≡ next
      → IsKeyed (next + 1) (xs ++ r ∷ [])
  append-IsKeyed next xs r h e = record {
    distinct = Distinct-append xs r h.distinct (ground (arith, e, mem-keys_below next xs h.below));
    below = All-below_append next xs r h.below e;
  }

  module _ (p : A → Bool) (f : A → A) (same : (x : A) → p x ≡ true → key (f x) ≡ key x) where
    pub keys-update_where : (xs : List A) → keys (update_where p f xs) ≡ keys xs
    keys-update_where [] = refl
    keys-update_where (x ∷ xs) = ground (arith, same x, keys-update_where xs)

    Distinct-update_where : (xs : List A) → Distinct xs → Distinct (update_where p f xs)
    Distinct-update_where [] d = tt
    Distinct-update_where (x ∷ xs) d =
        (ground (arith, same x, keys-update_where xs), Distinct-update_where xs d.1)

    All-below_update_where :
        (next : ℕ) (xs : List A)
        → All (λ x. key x < next) xs
        → All (λ x. key x < next) (update_where p f xs)
    All-below_update_where next [] h = tt
    All-below_update_where next (x ∷ xs) h =
        (ground (arith, same x, h.0), All-below_update_where next xs h.1)

    -- an update that leaves the key alone
    pub update_where-IsKeyed :
        (next : ℕ) (xs : List A) → IsKeyed next xs → IsKeyed next (update_where p f xs)
    update_where-IsKeyed next xs h = record {
      distinct = Distinct-update_where xs h.distinct;
      below = All-below_update_where next xs h.below;
    }

  -- A row that was selected is found again by its key, and no other row is.
  abbrev pub Reselects : (A → Bool) → List ℕ → A → Type 0
  Reselects p ids x = mem (key x) ids ≡ p x

  mem-keys-filter :
      (k : ℕ) (p : A → Bool) (xs : List A)
      → mem k (keys xs) ≡ false
      → mem k (keys (filter p xs)) ≡ false
  mem-keys-filter k p [] h = refl
  mem-keys-filter k p (x ∷ xs) h = ground (arith, mem-keys-filter k p xs)

  Reselects-cons :
      (p : A → Bool) (x : A) (ids : List ℕ) (ys : List A)
      → mem (key x) (keys ys) ≡ false
      → All (Reselects p ids) ys
      → All (Reselects p (key x ∷ ids)) ys
  Reselects-cons p x ids [] m h = tt
  Reselects-cons p x ids (y ∷ ys) m h =
      (ground (arith, m, h.0), Reselects-cons p x ids ys (ground (arith, m)) h.1)

  keys-filter_hit :
      (p : A → Bool) (x : A) (xs : List A)
      → p x ≡ true
      → key x ∷ keys (filter p xs) ≡ keys (filter p (x ∷ xs))
  keys-filter_hit p x xs e = ground (arith, e)

  keys-filter_miss :
      (p : A → Bool) (x : A) (xs : List A)
      → p x ≡ false
      → keys (filter p xs) ≡ keys (filter p (x ∷ xs))
  keys-filter_miss p x xs e = ground (arith, e)

  -- Under distinct keys, reading the keys of the selected rows and selecting by key agree.
  pub Distinct-Reselects :
      (p : A → Bool) (xs : List A) → Distinct xs → All (Reselects p (keys (filter p xs))) xs
  Distinct-Reselects p [] d = tt
  Distinct-Reselects p (x ∷ xs) d =
      let rest = Distinct-Reselects p xs d.1 in
      let Holds : List ℕ → Type 0 = λ ids. All (Reselects p ids) (x ∷ xs) in
      elim (Bool-cases (p x)) [
        | inl e ↦
            subst Holds (keys-filter_hit p x xs e)
              (ground (arith, e), Reselects-cons p x (keys (filter p xs)) xs d.0 rest)
        | inr e ↦
            subst Holds (keys-filter_miss p x xs e)
              (ground (arith, e, mem-keys-filter (key x) p xs d.0), rest)
      ]

  pub update_where-Reselects :
      (p : A → Bool) (q : A → Bool) (f : A → A) (ids : List ℕ) (xs : List A)
      → All (Reselects p ids) xs
      → update_where (λ x. mem (key x) ids && q x) f xs ≡ update_where (λ x. p x && q x) f xs
  update_where-Reselects p q f ids [] h = refl
  update_where-Reselects p q f ids (x ∷ xs) h =
      ground (arith, h.0, update_where-Reselects p q f ids xs h.1)

  pub count-Reselects :
      (p : A → Bool) (q : A → Bool) (ids : List ℕ) (xs : List A)
      → All (Reselects p ids) xs
      → count (λ x. mem (key x) ids && q x) xs ≡ count (λ x. p x && q x) xs
  count-Reselects p q ids [] h = refl
  count-Reselects p q ids (x ∷ xs) h = ground (arith, h.0, count-Reselects p q ids xs h.1)
