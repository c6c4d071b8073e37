-- ===== src/Prelude/Lex.antt =====
-- Python's tuples of numbers, and sorting by such a key.
use Prim.Native.Nat.{ℕ}
use mathlib.Core.Path.{◌≡◌, refl}
use mathlib.Core.Bool.{Bool, true, false, not, ◌&&◌, ◌||◌}
use mathlib.Core.List.{List, [], ◌∷◌}
use native.Mathlib.Omega.{arith}
use cavallo_app.Prelude.Tests.{ltb, ◌==◌}

-- the order of Python's tuples of numbers
abbrev pub lex_lt : List ℕ → List ℕ → Bool
lex_lt [] [] = false
lex_lt [] (b ∷ bs) = true
lex_lt (a ∷ as') [] = false
lex_lt (a ∷ as') (b ∷ bs) = ltb a b || (a == b && lex_lt as' bs)

-- `sort(key=..., reverse=True)`: a row may stand in front of those whose key is not greater
abbrev pub by_key {ℓ} : {A : Type ℓ} → (A → List ℕ) → A → A → Bool
by_key key a b = not (lex_lt (key a) (key b))

pub lex_lt_trans : (a b c : List ℕ) → lex_lt a b ≡ false → lex_lt b c ≡ false → lex_lt a c ≡ false
lex_lt_trans [] [] c h k = k
lex_lt_trans [] (b ∷ bs) c h k = absurd (ground arith)
lex_lt_trans (a ∷ as') b [] h k = refl
lex_lt_trans (a ∷ as') [] (c ∷ cs) h k = absurd (ground arith)
lex_lt_trans (a ∷ as') (b ∷ bs) (c ∷ cs) h k = ground (arith, lex_lt_trans as' bs cs)

pub lex_lt_asym : (a b : List ℕ) → lex_lt a b ≡ true → lex_lt b a ≡ false
lex_lt_asym [] [] h = absurd (ground arith)
lex_lt_asym [] (b ∷ bs) h = refl
lex_lt_asym (a ∷ as') [] h = absurd (ground arith)
lex_lt_asym (a ∷ as') (b ∷ bs) h = ground (arith, lex_lt_asym as' bs)

pub lex_lt_irrefl : (a : List ℕ) → lex_lt a a ≡ false
lex_lt_irrefl [] = refl
lex_lt_irrefl (a ∷ as') = ground (arith, lex_lt_irrefl as')

-- a strict step below a strict step
pub lex_lt_below : (a b c : List ℕ) → lex_lt a b ≡ true → lex_lt b c ≡ true → lex_lt a c ≡ true
lex_lt_below [] [] c h k = absurd (ground arith)
lex_lt_below [] (b ∷ bs) [] h k = absurd (ground arith)
lex_lt_below [] (b ∷ bs) (c ∷ cs) h k = refl
lex_lt_below (a ∷ as') [] c h k = absurd (ground arith)
lex_lt_below (a ∷ as') (b ∷ bs) [] h k = absurd (ground arith)
lex_lt_below (a ∷ as') (b ∷ bs) (c ∷ cs) h k = ground (arith, lex_lt_below as' bs cs)

module _ {ℓ} {A : Type ℓ} (key : A → List ℕ) where
  pub by_key_total : (a b : A) → by_key key a b ≡ false → by_key key b a ≡ true
  by_key_total a b h = ground (arith, lex_lt_asym (key a) (key b))

  pub by_key_trans :
      (a b c : A) → by_key key a b ≡ true → by_key key b c ≡ true → by_key key a c ≡ true
  by_key_trans a b c h k = ground (arith, lex_lt_trans (key a) (key b) (key c))
