-- ===== src/Paging/Walk.antt =====
-- The pages of a walk, put together, are the sorted table.
use mathlib.Core.List.{append-nil}
use mathlib.Core.Path.{subst}
use cavallo_app.Prelude.{
  drop, take-drop, take-all, length-take, false, leb→le, lex_lt_below, filter-always, All-filter,
  ◌*◌, lex_lt_asym, lex_lt_irrefl, Option-cases, sym, ◌∙◌, ◌≤◌, refl, ap, ◌+◌, inr, inl, zero,
  Bool-cases, length, arith, ◌++◌, ◌≡◌, suc, some, leb, filter, true, take, none, lex_lt, by_key,
  [], ◌∷◌, sort, Option, Bool, All, ℕ, List,
}
use cavallo_app.Paging.{is_behind, page, last_key, walk, Apart, Falling}
use cavallo_app.Paging.Sorted.{sort-Falling, filter-sort}

module _ {A : Type 0} (key : A → List ℕ) where
  filter-all :
      (k : List ℕ) (es : List A)
      → All (λ f. lex_lt (key f) k ≡ true) es
      → filter (is_behind key (some k)) es ≡ es
  filter-all k [] h = refl
  filter-all k (e ∷ es) h = ground (arith, h.0, filter-all k es h.1)

  pub last_key-some :
      (n : ℕ) (es : List A)
      → suc n ≤ length es
      → (k : List ℕ) × (last_key key (take (suc n) es) ≡ some k)
  last_key-some n [] h = absurd (omega arith)
  last_key-some n (e ∷ es) h = elim (Option-cases (last_key key (take n es))) [
    | inl last ↦ (key e, ground (arith, last))
    | inr (k, later) ↦ (k, ground (arith, later))
  ]

  last_key-below :
      (q : List ℕ) (n : ℕ) (es : List A) (k : List ℕ)
      → All (λ f. lex_lt (key f) q ≡ true) es
      → last_key key (take n es) ≡ some k
      → lex_lt k q ≡ true
  last_key-below q zero es k h e = absurd (ground (arith, e))
  last_key-below q (suc n) [] k h e = absurd (ground (arith, e))
  last_key-below q (suc n) (f ∷ es) k h e = elim (Option-cases (last_key key (take n es))) [
    | inl last ↦
        let same : key f ≡ k = ground (arith, last, e) in subst (λ j. lex_lt j q ≡ true) same h.0
    | inr (j, later) ↦ last_key-below q n es k h.1 (ground (arith, later, e))
  ]

  -- the rest of the table begins behind the last row of a full page
  behind_last :
      (n : ℕ) (es : List A) (k : List ℕ)
      → Falling key es
      → n ≤ length es
      → last_key key (take n es) ≡ some k
      → filter (is_behind key (some k)) es ≡ drop n es
  behind_last zero es k h full e = absurd (ground (arith, e))
  behind_last (suc n) [] k h full e = absurd (ground (arith, e))
  behind_last (suc zero) (x ∷ es) k h full e =
      let same : key x ≡ k = ground (arith, e) in
      subst (λ j. filter (is_behind key (some j)) (x ∷ es) ≡ es) same
        (ground (arith, lex_lt_irrefl (key x), filter-all (key x) es h.0))
  behind_last (suc (suc n)) (x ∷ es) k h full e =
      let (j, later) = last_key-some n es (omega (arith, full)) in
      let found : last_key key (take (suc n) es) ≡ some k = ground (arith, later, e) in
      let below = last_key-below (key x) (suc n) es k h.0 found in
      ground (
        arith,
        lex_lt_asym k (key x) below,
        behind_last (suc n) es k h.1 (omega (arith, full)) found,
      )

  filter-Falling : (p : A → Bool) (es : List A) → Falling key es → Falling key (filter p es)
  filter-Falling p [] h = tt
  filter-Falling p (e ∷ es) h = elim (Bool-cases (p e)) [
    | inl chosen ↦ rw chosen (All-filter _ p es h.0, filter-Falling p es h.1)
    | inr left ↦ rw left (filter-Falling p es h.1)
  ]

  filter-behind :
      (q : List ℕ) (es : List A)
      → All (λ f. lex_lt (key f) q ≡ true) (filter (is_behind key (some q)) es)
  filter-behind q [] = tt
  filter-behind q (e ∷ es) = elim (Bool-cases (lex_lt (key e) q)) [
    | inl chosen ↦ rw chosen (chosen, filter-behind q es)
    | inr left ↦ rw left (filter-behind q es)
  ]

  -- a later position selects the same rows from what an earlier one has selected
  filter-behind_twice :
      (k q : List ℕ) (es : List A)
      → lex_lt k q ≡ true
      → filter (is_behind key (some k)) (filter (is_behind key (some q)) es)
        ≡ filter (is_behind key (some k)) es
  filter-behind_twice k q [] h = refl
  filter-behind_twice k q (e ∷ es) h =
      ground (arith, filter-behind_twice k q es h, lex_lt_below (key e) k q)

  module _ (rows : List A) (apart : Apart key rows) where
    abbrev pub behind : Option (List ℕ) → List A
    behind position = filter (is_behind key position) (sort (by_key key) rows)

    pub behind-next :
        (n : ℕ) (position : Option (List ℕ)) (k : List ℕ)
        → n ≤ length (behind position)
        → last_key key (take n (behind position)) ≡ some k
        → behind (some k) ≡ drop n (behind position)
    behind-next n none k full last =
        ap (filter (is_behind key (some k)))
          (sym (filter-always (λ _. true) (sort (by_key key) rows) (λ _. refl)))
        ∙ behind_last n (behind none) k
            (filter-Falling (is_behind key none) (sort (by_key key) rows)
              (sort-Falling key rows apart))
            full last
    behind-next n (some q) k full last =
        sym (
          filter-behind_twice k q (sort (by_key key) rows) (
            last_key-below q n (behind (some q)) k (filter-behind q (sort (by_key key) rows)) last))
        ∙ behind_last n (behind (some q)) k
            (filter-Falling (is_behind key (some q)) (sort (by_key key) rows)
              (sort-Falling key rows apart))
            full last

    pub page-behind :
        (n : ℕ) (position : Option (List ℕ)) → page key n position rows ≡ take n (behind position)
    page-behind n position = ap (take n) (filter-sort key (is_behind key position) rows)

    full_step :
        (n rounds : ℕ) (position : Option (List ℕ)) (k : List ℕ)
        → leb (suc n) (length (behind position)) ≡ true
        → last_key key (take (suc n) (behind position)) ≡ some k
        → walk key (suc n) (suc rounds) position rows
          ≡ take (suc n) (behind position) ++ walk key (suc n) rounds (some k) rows
    full_step n rounds position k full last =
        let all = behind position in
        let size = length-take (suc n) all (leb→le (suc n) (length all) full) in
        ground (arith, page-behind (suc n) position, size, full, last)

    short_step :
        (n rounds : ℕ) (position : Option (List ℕ))
        → leb (suc n) (length (behind position)) ≡ false
        → walk key (suc n) (suc rounds) position rows ≡ take (suc n) (behind position)
    short_step n rounds position short =
        let all = behind position in
        let few : length all ≤ n = ground (arith, short) in
        let size = ap length (take-all (suc n) all (omega (arith, few))) in
        ground (arith, page-behind (suc n) position, size, few, append-nil (take (suc n) all))

    -- the walk over so many pages reads so many rows, each once and in order
    pub walk-take :
        (n rounds : ℕ) (position : Option (List ℕ))
        → walk key (suc n) rounds position rows ≡ take (rounds * suc n) (behind position)
    walk-take n zero position = let none_left : 0 * suc n ≡ 0 = omega arith in rw none_left refl
    walk-take n (suc rounds) position =
        let all = behind position in
        let count : suc rounds * suc n ≡ suc n + rounds * suc n = omega arith in
        elim (Bool-cases (leb (suc n) (length all))) [
          | inl full ↦
              let enough = leb→le (suc n) (length all) full in
              let (k, last) = last_key-some n all enough in
              let rest =
                walk-take n rounds (some k)
                ∙ ap (take (rounds * suc n)) (behind-next (suc n) position k enough last) in
              full_step n rounds position k full last
              ∙ ap (λ r. take (suc n) all ++ r) rest
              ∙ take-drop (suc n) (rounds * suc n) all
              ∙ sym (ap (λ m. take m all) count)
          | inr short ↦
              let few : length all ≤ n = ground (arith, short) in
              short_step n rounds position short
              ∙ take-all (suc n) all (omega (arith, few))
              ∙ sym (take-all (suc rounds * suc n) all (ground (arith, few, count)))
        ]
