-- ===== src/Paging/Sorted.antt =====
-- Sorting by distinct keys: a strict order, which commutes with a selection.

use cavallo_app.Prelude.{
  refl, All-map, All-insert, inr, inl, by_key_trans, Bool-cases, insert, by_key_total, arith, ◌≡◌,
  ◌||◌, sort-Ordered, filter, All-sort, true, lex_lt, if◌then◌else◌, by_key, [], ◌∷◌, sort, Ordered,
  Bool, All, ℕ, List,
}
use cavallo_app.Paging.{Apart, Falling}

module _ {A : Type 0} (key : A → List ℕ) where
  insert-Apart :
      (e : A) (es : List A)
      → All (λ f. (lex_lt (key e) (key f) || lex_lt (key f) (key e)) ≡ true) es
      → Apart key es
      → Apart key (insert (by_key key) e es)
  insert-Apart e [] h k = (tt, tt)
  insert-Apart e (f ∷ es) h k = elim (Bool-cases (by_key key e f)) [
    | inl front ↦ rw front (h, k)
    | inr behind ↦ rw behind (
      All-insert (by_key key) (λ g. (lex_lt (key f) (key g) || lex_lt (key g) (key f)) ≡ true) e es
          (ground (arith, h.0)) k.0,
      insert-Apart e es h.1 k.1,
    )
  ]

  sort-Apart : (es : List A) → Apart key es → Apart key (sort (by_key key) es)
  sort-Apart [] h = tt
  sort-Apart (e ∷ es) h =
      insert-Apart e (sort (by_key key) es)
        (All-sort (by_key key) (λ f. (lex_lt (key e) (key f) || lex_lt (key f) (key e)) ≡ true) es
          h.0)
        (sort-Apart es h.1)

  Ordered-Falling : (es : List A) → Ordered (by_key key) es → Apart key es → Falling key es
  Ordered-Falling [] h k = tt
  Ordered-Falling (e ∷ es) h k = (both es h.0 k.0, Ordered-Falling es h.1 k.1)
    where
      both :
          (fs : List A)
          → All (λ f. by_key key e f ≡ true) fs
          → All (λ f. (lex_lt (key e) (key f) || lex_lt (key f) (key e)) ≡ true) fs
          → All (λ f. lex_lt (key f) (key e) ≡ true) fs
      both [] h k = tt
      both (f ∷ fs) h k = (ground (arith, h.0, k.0), both fs h.1 k.1)

  pub sort-Falling : (es : List A) → Apart key es → Falling key (sort (by_key key) es)
  sort-Falling es h =
      Ordered-Falling (sort (by_key key) es)
        (sort-Ordered (by_key key) (by_key_total key) (by_key_trans key) es) (sort-Apart es h)

  -- a row goes in front of a selection of rows that it may precede
  insert-filter :
      (p : A → Bool) (e : A) (es : List A)
      → All (λ f. by_key key e f ≡ true) es
      → insert (by_key key) e (filter p es) ≡ e ∷ filter p es
  insert-filter p e [] h = refl
  insert-filter p e (f ∷ es) h = ground (arith, h.0, insert-filter p e es h.1)

  -- a selection before or after the sort
  filter-insert :
      (p : A → Bool) (e : A) (es : List A)
      → Ordered (by_key key) es
      → filter p (insert (by_key key) e es)
        ≡ (if p e then insert (by_key key) e (filter p es) else filter p es)
  filter-insert p e [] h = ground arith
  filter-insert p e (f ∷ es) h = elim (Bool-cases (by_key key e f)) [
    | inl front ↦
        let below = All-map _ _ es (λ g k. by_key_trans key e f g front k) h.0 in
        ground (arith, front, insert-filter p e es below)
    | inr behind ↦ ground (arith, behind, filter-insert p e es h.1)
  ]

  pub filter-sort :
      (p : A → Bool) (es : List A)
      → sort (by_key key) (filter p es) ≡ filter p (sort (by_key key) es)
  filter-sort p [] = refl
  filter-sort p (e ∷ es) =
      let sorted = sort-Ordered (by_key key) (by_key_total key) (by_key_trans key) es in
      elim (Bool-cases (p e)) [
        | inl chosen ↦
            ground
              (arith, chosen, filter-sort p es, filter-insert p e (sort (by_key key) es) sorted)
        | inr left ↦
            ground (arith, left, filter-sort p es, filter-insert p e (sort (by_key key) es) sorted)
      ]
