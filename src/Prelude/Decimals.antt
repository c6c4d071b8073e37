-- ===== src/Prelude/Decimals.antt =====
-- `str` of a natural number: its decimal digits as code points.
use Prim.Native.Nat.{ℕ, zero, suc, ◌+◌, ◌*◌, ◌/◌, ◌%◌, ◌<◌}
use mathlib.Core.Path.{◌≡◌, refl}
use mathlib.Core.Logic.{inl, inr}
use mathlib.Core.Option.{Option, none, some}
use mathlib.Core.List.{[], ◌∷◌, ◌++◌}
use native.Mathlib.Omega.{arith}
use cavallo_app.Prelude.Tests.{ltb, if◌then◌else◌, Bool-cases}
use cavallo_app.Prelude.Strings.{Text}

-- the digits of `n`, with the quotients by ten bounded by the fuel
unfoldable pub digits_of : ℕ → ℕ → Text
digits_of zero n = []
digits_of (suc fuel) n =
    let more = digits_of fuel (n / 10) in
    if ltb n 10 then (48 + n) ∷ [] else more ++ (48 + n % 10) ∷ []

-- a number is more than its count of digits
unfoldable pub str_nat : ℕ → Text
unfolding digits_of
str_nat n = digits_of (n + 1) n

-- `int(...)` of a run of digits behind those already read; `none`: a character that is no digit
unfoldable pub digits_from : (ℕ → Option ℕ) → ℕ → Text → Option ℕ
digits_from digit_value acc [] = some acc
digits_from digit_value acc (c ∷ cs) = elim (digit_value c) [
  | none ↦ none
  | some d ↦ digits_from digit_value (acc * 10 + d) cs
]

module _ (digit_value : ℕ → Option ℕ) where
  digits_from-append :
      (acc m d c : ℕ) (cs : Text)
      → digits_from digit_value acc cs ≡ some m
      → digit_value c ≡ some d
      → digits_from digit_value acc (cs ++ c ∷ []) ≡ some (m * 10 + d)
  unfolding digits_from
  digits_from-append acc m d c [] h k = ground (arith, h, k)
  digits_from-append acc m d c (b ∷ cs) h k =
      by_digit (digit_value b) h (λ e. digits_from-append (acc * 10 + e) m d c cs)
    where
      by_digit :
          (v : Option ℕ)
          → elim v [ none ↦ none | some e ↦ digits_from digit_value (acc * 10 + e) cs ] ≡ some m
          → ((e : ℕ)
              → digits_from digit_value (acc * 10 + e) cs ≡ some m
              → digit_value c ≡ some d
              → digits_from digit_value (acc * 10 + e) (cs ++ c ∷ []) ≡ some (m * 10 + d))
          → elim v [ none ↦ none | some e ↦ digits_from digit_value (acc * 10 + e) (cs ++ c ∷ []) ]
            ≡ some (m * 10 + d)
      by_digit none q ih = absurd (ground arith)
      by_digit (some e) q ih = ih e q k

  module _ (ascii : (d : ℕ) → d < 10 → digit_value (48 + d) ≡ some d) where
    digits_from-digits_of :
        (fuel n : ℕ) → n < fuel → digits_from digit_value 0 (digits_of fuel n) ≡ some n
    unfolding digits_of digits_from
    digits_from-digits_of zero n h = absurd (omega arith)
    digits_from-digits_of (suc fuel) n h = elim (Bool-cases (ltb n 10)) [
      | inl small ↦ ground (arith, small, ascii n (ground arith))
      | inr large ↦
          let rest = digits_from-digits_of fuel (n / 10) (ground arith) in
          let value : n / 10 * 10 + n % 10 ≡ n = omega arith in
          rw large (
            rw
              (digits_from-append 0 (n / 10) (n % 10) (48 + n % 10) (digits_of fuel (n / 10)) rest
                (ascii (n % 10) (omega arith)))
              (ground (arith, value)))
    ]

    -- what is printed is read back
    pub digits_from-str_nat : (n : ℕ) → digits_from digit_value 0 (str_nat n) ≡ some n
    unfolding str_nat
    digits_from-str_nat n = digits_from-digits_of (n + 1) n (omega arith)

snoc-cons : (xs : Text) (d : ℕ) → (c : ℕ) × (cs : Text) × (xs ++ d ∷ [] ≡ c ∷ cs)
snoc-cons [] d = (d, [], refl)
snoc-cons (x ∷ xs) d = (x, xs ++ d ∷ [], refl)

-- a number has a first digit
pub str_nat-cons : (n : ℕ) → (c : ℕ) × (cs : Text) × (str_nat n ≡ c ∷ cs)
unfolding str_nat digits_of
str_nat-cons n = elim (Bool-cases (ltb n 10)) [
  | inl small ↦ (48 + n, [], ground (arith, small))
  | inr large ↦
      let (c, cs, e) = snoc-cons (digits_of n (n / 10)) (48 + n % 10) in
      (c, cs, ground (arith, large, e))
]
