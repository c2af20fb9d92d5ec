-- ===== src/Replay/Decimal.antt =====
-- How Python prints a number that is not negative, and that `int` reads it back.
use bancho_prism_1_0_0_prod.Base.{
  ℕ, zero, suc, ◌+◌, ◌*◌, ◌/◌, ◌%◌, ◌≤◌, ◌<◌, ◌≡◌, refl, ◌∙◌, ap, arith, [], ◌∷◌, true, false, Bool,
  some, ltb, ◌==◌, if◌then◌else◌, Bool-cases, inl, inr,
}
use bancho_prism_1_0_0_prod.Base.Int.{pos}
use bancho_prism_1_0_0_prod.Utf8.{Text}
use bancho_prism_1_0_0_prod.Replay.Numbers.{
  digits, drop_while, trim_end, is_int_space, signed, int_of,
}

-- The digits of a number before a text; a number has no more digits than fuel above its value.
unfoldable pub decimal_before : (fuel n : ℕ) → Text → Text
decimal_before zero n rest = rest
decimal_before (suc fuel) n rest =
    let more = decimal_before fuel (n / 10) ((48 + n % 10) ∷ rest) in
    if ltb n 10 then (48 + n) ∷ rest else more

-- str(n)
unfoldable pub decimal : ℕ → Text
unfolding decimal_before
decimal n = decimal_before (n + 1) n []

-- Text of decimal digits only.
abbrev pub IsDigits : Text → Type 0
IsDigits [] = Unit
IsDigits (c ∷ s) = (48 ≤ c) × (c ≤ 57) × IsDigits s

decimal_before-IsDigits :
    (fuel n : ℕ) (rest : Text) → IsDigits rest → IsDigits (decimal_before fuel n rest)
unfolding decimal_before
decimal_before-IsDigits zero n rest h = h
decimal_before-IsDigits (suc fuel) n rest h = elim (Bool-cases (ltb n 10)) [
  | inl small ↦ rw small (omega arith, ground (arith, small), h)
  | inr large ↦
      rw large
        (decimal_before-IsDigits fuel (n / 10) ((48 + n % 10) ∷ rest) (omega arith, omega arith, h))
]

pub decimal-IsDigits : (n : ℕ) → IsDigits (decimal n)
unfolding decimal
decimal-IsDigits n = decimal_before-IsDigits (n + 1) n [] tt

width : (fuel n : ℕ) → ℕ
width zero n = 0
width (suc fuel) n = if ltb n 10 then 1 else suc (width fuel (n / 10))

abbrev pub pow10 : ℕ → ℕ
pow10 zero = 1
pow10 (suc k) = 10 * pow10 k

width_bound : (fuel n k : ℕ) → n < pow10 (suc k) → width fuel n ≤ suc k
unfolding width
width_bound zero n k h = omega arith
width_bound (suc fuel) n zero h = ground (arith, h)
width_bound (suc fuel) n (suc k) h = elim (Bool-cases (ltb n 10)) [
  | inl small ↦ rw small (omega arith)
  | inr large ↦ rw large (omega (arith, width_bound fuel (n / 10) k (omega arith)))
]

digit_step :
    (acc count k : ℕ) (after : Bool) (rest : Text)
    → k < 10
    → digits acc count after ((48 + k) ∷ rest) ≡ digits (acc * 10 + k) (count + 1) true rest
unfolding digits
digit_step acc count k after rest h = ground arith

-- The digits of a number at the front are read as that number.
digits-decimal_before :
    (fuel n : ℕ) (after : Bool) (rest : Text)
    → n < fuel
    → digits 0 0 after (decimal_before fuel n rest) ≡ digits n (width fuel n) true rest
unfolding decimal_before digits width
digits-decimal_before zero n after rest h = absurd (omega arith)
digits-decimal_before (suc fuel) n after rest h = elim (Bool-cases (ltb n 10)) [
  | inl small ↦ rw small (
      digit_step 0 0 n after rest (ground (arith, small))
      ∙ ap (λ m. digits m 1 true rest) (omega arith))
  | inr large ↦
      let w = width fuel (n / 10) in
      rw large (
        digits-decimal_before fuel (n / 10) after ((48 + n % 10) ∷ rest) (ground (arith, large))
        ∙ digit_step (n / 10) w (n % 10) true rest (omega arith)
        ∙ ap (λ m. digits m (w + 1) true rest) (omega arith)
        ∙ ap (λ k. digits n k true rest) (omega arith))
]

drop_while-IsDigits : (s : Text) → IsDigits s → drop_while is_int_space s ≡ s
drop_while-IsDigits [] h = refl
drop_while-IsDigits (c ∷ s) h = ground arith

trim_end-IsDigits : (s : Text) → IsDigits s → trim_end is_int_space s ≡ s
trim_end-IsDigits [] h = refl
trim_end-IsDigits (c ∷ []) h = ground arith
trim_end-IsDigits (c ∷ d ∷ s) h = rw (trim_end-IsDigits (d ∷ s) h.2) refl

signed-IsDigits :
    (s : Text) (n : ℕ) → IsDigits s → digits 0 0 false s ≡ some n → signed s ≡ some (pos n)
signed-IsDigits [] n h e = absurd (unfold digits in cc)
signed-IsDigits (c ∷ s) n h e =
    let no_minus : (c == 45) ≡ false = ground arith in
    let no_plus : (c == 43) ≡ false = ground arith in rw (no_minus, no_plus, e) refl

digits-decimal : (n : ℕ) → n < pow10 20 → digits 0 0 false (decimal n) ≡ some n
unfolding decimal
digits-decimal n h =
    digits-decimal_before (n + 1) n false [] (omega arith)
    ∙ unfold digits in ground (arith, width_bound (n + 1) n 19 h)

-- A number of at most 20 digits is read back from its digits.
pub int_of-decimal : (n : ℕ) → n < pow10 20 → int_of (decimal n) ≡ some (pos n)
unfolding int_of
int_of-decimal n h =
    rw
      (
        drop_while-IsDigits (decimal n) (decimal-IsDigits n),
        trim_end-IsDigits (decimal n) (decimal-IsDigits n),
      )
      (signed-IsDigits (decimal n) n (decimal-IsDigits n) (digits-decimal n h))
