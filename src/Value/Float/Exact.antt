-- ===== src/Value/Float/Exact.antt =====
-- Integers in float64: `math.Trunc` and Go's conversion of a float64 to an integer type, computed
-- from the bits. A magnitude with exponent bits e stands for (2^52 + fraction) * 2^(e - 1075).
use iot_edge.Prelude.{
  ℕ, zero, suc, ◌+◌, ◌-◌, ◌*◌, ◌/◌, ◌%◌, ◌^◌, ◌≤◌, ◌<◌, ◌≡◌, ltb, leb, if◌then◌else◌, ℤ, pos,
  negsuc, arith, ap, subst, if-elim, sym, ◌∙◌,
}
use iot_edge.Value.Float.{sign_bit}
use native.Mathlib.Nat.{
  div-lt_iff_lt-mul, one-le-pow, pow-le-pow_right, two-pow-succ, add-mul, suc-add, zero-add,
  one-mul,
}

abbrev hidden_bit : ℕ
hidden_bit = 4503599627370496

-- `math.Trunc` of a number that is not negative clears the bits of its fraction.
unfoldable pub trunc_magnitude : ℕ → ℕ
trunc_magnitude m =
    let e = m / hidden_bit in
    if ltb e 1023 then 0 else if leb 1075 e then m else m - m % 2 ^ (1075 - e)

unfoldable pub trunc64 : ℕ → ℕ
unfolding trunc_magnitude
trunc64 b = if ltb b sign_bit then trunc_magnitude b else trunc_magnitude (b - sign_bit) + sign_bit

-- The integer part of a number that is not negative.
unfoldable pub whole_part : ℕ → ℕ
whole_part m =
    let e = m / hidden_bit in
    let digits = hidden_bit + m % hidden_bit in
    if ltb e 1023
    then 0
    else if ltb e 1076
    then digits / 2 ^ (1075 - e)
    else digits * 2 ^ (e - 1075)

abbrev pub minus : ℕ → ℤ
minus zero = pos 0
minus (suc n) = negsuc n

-- `int32(number)` and its like, where the number is in the range of the type.
unfoldable pub to_integer : ℕ → ℤ
unfolding whole_part
to_integer b = if ltb b sign_bit then pos (whole_part b) else minus (whole_part (b - sign_bit))

two_pow-add : (n k : ℕ) → 2 ^ (n + k) ≡ 2 ^ n * 2 ^ k
two_pow-add zero k = rw (zero-add k, one-mul (2 ^ k))
two_pow-add (suc n) k =
    ap (λ i. 2 ^ i) (suc-add n k)
    ∙ two-pow-succ (n + k)
    ∙ ap (λ x. x + x) (two_pow-add n k)
    ∙ sym (add-mul (2 ^ n) (2 ^ n) (2 ^ k))
    ∙ ap (λ x. x * 2 ^ k) (sym (two-pow-succ n))

digits_small : (d n k : ℕ) → d < 2 ^ 53 → 53 ≤ n + k → d / 2 ^ k < 2 ^ n
digits_small d n k small enough =
    let wide : 2 ^ 53 ≤ 2 ^ n * 2 ^ k =
      subst (λ x. 2 ^ 53 ≤ x) (two_pow-add n k) (pow-le-pow_right {n = 2} (omega arith) enough) in
    (div-lt_iff_lt-mul {y = 2 ^ n} (one-le-pow k 2 (omega arith))).1 (omega arith)

-- The whole part is under 2^n where the exponent is under 1023 + n.
pub whole_part_lt : (m n : ℕ) → n ≤ 52 → m < hidden_bit * (1023 + n) → whole_part m < 2 ^ n
unfolding whole_part
whole_part_lt m n few h =
    if-elim (λ (w : ℕ). w < 2 ^ n) (ltb (m / hidden_bit) 1023) (λ _. one-le-pow n 2 (omega arith))
      (λ large.
        if-elim (λ (w : ℕ). w < 2 ^ n) (ltb (m / hidden_bit) 1076)
          (λ _.
            digits_small (hidden_bit + m % hidden_bit) n (1075 - m / hidden_bit) (omega arith)
              (omega arith))
          (λ huge. ground arith))
