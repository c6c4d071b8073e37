-- ===== src/Paging/Sources.antt =====
-- A page that is merged from the first rows of two sources is the page of their union.
use cavallo_app.Paging.{Apart}
use cavallo_app.Prelude.{
  inr, inl, keys, Bool-cases, mem, Distinct, All-append, true, ◌||◌, false, All, lex_lt, ◌==◌,
  by_key_trans, by_key_total, take-sort-append, map-sort, ◌∙◌, refl, map-take, ap, [], sort, arith,
  ◌∷◌, take, map, by_key, ◌++◌, ◌&&◌, ◌≡◌, ℕ, filter, List, Bool,
}

module _ {A R S : Type 0} (key : A → List ℕ) (f : R → A) (g : S → A) (before : R → R → Bool)
    (before' : S → S → Bool) (same : (a b : R) → by_key key (f a) (f b) ≡ before a b)
    (same' : (a b : S) → by_key key (g a) (g b) ≡ before' a b) where
  source-take :
      (n : ℕ) (xs : List R)
      → map f (take n (sort before xs)) ≡ take n (sort (by_key key) (map f xs))
  source-take n xs =
      map-take f n (sort before xs) ∙ ap (take n) (map-sort f before (by_key key) same xs)

  source-take' :
      (n : ℕ) (ys : List S)
      → map g (take n (sort before' ys)) ≡ take n (sort (by_key key) (map g ys))
  source-take' n ys =
      map-take g n (sort before' ys) ∙ ap (take n) (map-sort g before' (by_key key) same' ys)

  pub sources-take :
      (n : ℕ) (xs : List R) (ys : List S)
      → take n
          (sort (by_key key) (map f (take n (sort before xs)) ++ map g (take n (sort before' ys))))
        ≡ take n (sort (by_key key) (map f xs ++ map g ys))
  sources-take n xs ys =
      ap (λ us. take n (sort (by_key key) (us ++ map g (take n (sort before' ys)))))
        (source-take n xs)
      ∙ ap (λ vs. take n (sort (by_key key) (take n (sort (by_key key) (map f xs)) ++ vs)))
          (source-take' n ys)
      ∙ take-sort-append (by_key key) (by_key_total key) (by_key_trans key) n (map f xs) (map g ys)

-- a test of the entries as a test of the rows
pub map-filter :
    {A R : Type 0} (f : R → A) (p q : R → Bool) (r : A → Bool)
    → ((x : R) → q x ≡ (p x && r (f x)))
    → (xs : List R) → map f (filter q xs) ≡ filter r (map f (filter p xs))
map-filter f p q r h [] = refl
map-filter f p q r h (x ∷ xs) = ground (arith, h x, map-filter f p q r h xs)

pub filter-append :
    {A : Type 0} (p : A → Bool) (xs ys : List A) → filter p (xs ++ ys) ≡ filter p xs ++ filter p ys
filter-append p [] ys = refl
filter-append p (x ∷ xs) ys = ground (arith, filter-append p xs ys)

module _ {A : Type 0} (key : A → List ℕ) where
  abbrev pub is_apart : A → A → Bool
  is_apart a b = lex_lt (key a) (key b) || lex_lt (key b) (key a)

  append-Apart :
      (xs ys : List A)
      → Apart key xs
      → Apart key ys
      → All (λ x. All (λ y. is_apart x y ≡ true) ys) xs
      → Apart key (xs ++ ys)
  append-Apart [] ys h k c = k
  append-Apart (x ∷ xs) ys h k c =
      (All-append (λ y. is_apart x y ≡ true) xs ys h.0 c.0, append-Apart xs ys h.1 k c.1)

  module _ {R : Type 0} (id : R → ℕ) (f : R → A) (p : R → Bool)
      (distinguishes : (a b : R) → (id a == id b) ≡ false → is_apart (f a) (f b) ≡ true) where
    absent-apart :
        (x : R) (xs : List R)
        → mem (id x) (keys id xs) ≡ false
        → All (λ y. is_apart (f x) y ≡ true) (map f (filter p xs))
    absent-apart x [] h = tt
    absent-apart x (y ∷ xs) h = elim (Bool-cases (p y)) [
      | inl chosen ↦
          rw chosen (distinguishes x y (ground (arith, h)), absent-apart x xs (ground (arith, h)))
      | inr left ↦ rw left (absent-apart x xs (ground (arith, h)))
    ]

    source-Apart : (xs : List R) → Distinct id xs → Apart key (map f (filter p xs))
    source-Apart [] h = tt
    source-Apart (x ∷ xs) h = elim (Bool-cases (p x)) [
      | inl chosen ↦ rw chosen (absent-apart x xs h.0, source-Apart xs h.1)
      | inr left ↦ rw left (source-Apart xs h.1)
    ]

  -- two tables with distinct keys, whose entries never share a key
  pub sources-Apart :
      {R S : Type 0} (id : R → ℕ) (id' : S → ℕ) (f : R → A) (g : S → A) (p : R → Bool)
      (q : S → Bool)
      → ((a b : R) → (id a == id b) ≡ false → is_apart (f a) (f b) ≡ true)
      → ((a b : S) → (id' a == id' b) ≡ false → is_apart (g a) (g b) ≡ true)
      → ((a : R) (b : S) → is_apart (f a) (g b) ≡ true)
      → (xs : List R) (ys : List S) → Distinct id xs
      → Distinct id' ys
      → Apart key (map f (filter p xs) ++ map g (filter q ys))
  sources-Apart id id' f g p q df dg cross xs ys h k =
      append-Apart (map f (filter p xs)) (map g (filter q ys)) (source-Apart id f p df xs h)
        (source-Apart id' g q dg ys k) (crossed (filter p xs))
    where
      others : (x : _) (zs : List _) → All (λ y. is_apart (f x) y ≡ true) (map g zs)
      others x [] = tt
      others x (z ∷ zs) = (cross x z, others x zs)

      crossed :
          (us : List _) → All (λ x. All (λ y. is_apart x y ≡ true) (map g (filter q ys))) (map f us)
      crossed [] = tt
      crossed (u ∷ us) = (others u (filter q ys), crossed us)
