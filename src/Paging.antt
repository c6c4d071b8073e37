-- ===== src/Paging.antt =====
-- Pages of a sorted table, each resumed behind the key of the last row of the one before, as
-- feed/services.py and search/services.py read them.
pub mod Sorted
pub mod Walk
pub mod Sources
use mathlib.Core.List.{append-nil}
use mathlib.Core.Path.{subst}
use cavallo_app.Prelude.{
  false, leb→le, lex_lt_below, filter-always, All-filter, ◌*◌, lex_lt_asym, lex_lt_irrefl,
  Option-cases, sym, ◌∙◌, ◌≤◌, refl, ap, All-map, ◌+◌, All-insert, inr, inl, zero, by_key_trans,
  Bool-cases, length, insert, by_key_total, arith, ◌++◌, ◌≡◌, ◌||◌, suc, sort-Ordered, some, leb,
  filter, All-sort, true, take, none, lex_lt, if◌then◌else◌, by_key, [], ◌∷◌, sort, Ordered, Option,
  Bool, All, ℕ, List,
}

module _ {A : Type 0} (key : A → List ℕ) where
  -- the rows behind a position; all of them if there is none
  abbrev pub is_behind : Option (List ℕ) → A → Bool
  is_behind none e = true
  is_behind (some k) e = lex_lt (key e) k

  abbrev pub page : ℕ → Option (List ℕ) → List A → List A
  page n position rows = take n (sort (by_key key) (filter (is_behind position) rows))

  abbrev pub last_key : List A → Option (List ℕ)
  last_key [] = none
  last_key (e ∷ es) = elim (last_key es) [ none ↦ some (key e) | some k ↦ some k ]

  -- the position after a page: none if the page is not full
  abbrev pub next_position : ℕ → List A → Option (List ℕ)
  next_position n es = if leb n (length es) then last_key es else none

  -- the rows of so many pages
  abbrev pub walk : ℕ → ℕ → Option (List ℕ) → List A → List A
  walk n zero position rows = []
  walk n (suc rounds) position rows =
      let es = page n position rows in
      es ++ elim (next_position n es) [ none ↦ [] | some k ↦ walk n rounds (some k) rows ]

  -- no two rows have the same key
  abbrev pub Apart : List A → Type 0
  Apart [] = Unit
  Apart (e ∷ es) =
      All (λ f. (lex_lt (key e) (key f) || lex_lt (key f) (key e)) ≡ true) es × Apart es

  -- each row has a greater key than all later ones
  abbrev pub Falling : List A → Type 0
  Falling [] = Unit
  Falling (e ∷ es) = All (λ f. lex_lt (key f) (key e) ≡ true) es × Falling es
