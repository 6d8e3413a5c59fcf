-- ===== src/Decimal.antt =====
-- What `snprintf` writes for "%d", in the names that ai_smith.c and gui/star.c make.
use native.Mathlib.Nat.{pow-suc}
use galaxie.Prelude.{
  ℕ, zero, suc, ◌+◌, ◌-◌, ◌*◌, ◌/◌, ◌%◌, ◌^◌, ◌<◌, ◌≡◌, refl, ◌∙◌, arith, List, [], ◌∷◌, ◌++◌, ltb,
  Bool-cases, inl, inr, if◌then◌else◌,
}
use galaxie.Wire.{is_negative}

-- The decimal digits of a number, with fuel: ten digits are enough for an int.
unfoldable pub digits : ℕ → ℕ → List ℕ
digits zero n = []
digits (suc fuel) n =
    let rest = digits fuel (n / 10) in
    if ltb n 10 then (b'0' + n) ∷ [] else rest ++ ((b'0' + n % 10) ∷ [])

-- The text of an int.
unfoldable pub decimal : ℕ → List ℕ
unfolding digits
decimal n = if is_negative n then b'-' ∷ digits 10 (2 ^ 32 - n) else digits 10 n

-- What decimal digits stand for.
abbrev pub number : List ℕ → ℕ → ℕ
number [] n = n
number (d ∷ ds) n = number ds (10 * n + (d - b'0'))

number_snoc : (ds : List ℕ) (d n : ℕ) → number (ds ++ (d ∷ [])) n ≡ 10 * number ds n + (d - b'0')
number_snoc [] d n = refl
number_snoc (e ∷ ds) d n = number_snoc ds d (10 * n + (e - b'0'))

-- The digits of a number stand for it.
pub number-digits : (fuel n : ℕ) → n < 10 ^ fuel → number (digits fuel n) 0 ≡ n
unfolding digits
number-digits zero n h = omega arith
number-digits (suc fuel) n h = elim (Bool-cases (ltb n 10)) [
  | inl t ↦ rw t (omega arith)
  | inr t ↦ rw t (
      number_snoc (digits fuel (n / 10)) _ 0
      ∙ (let e : 10 ^ suc fuel ≡ 10 * 10 ^ fuel = omega (arith, pow-suc 10 fuel) in
          omega (arith, number-digits fuel (n / 10) (omega (arith, e, h)))))
]
