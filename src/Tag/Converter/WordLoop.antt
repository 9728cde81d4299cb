-- ===== src/Tag/Converter/WordLoop.antt =====
-- What the loop of `word_swap` leaves at each index.
use iot_edge.Prelude.{
  ℕ, zero, suc, ◌+◌, ◌-◌, ◌*◌, ◌%◌, ◌≤◌, ◌<◌, ◌≡◌, refl, ◌∙◌, List, length, get_or, ◌⊎◌, inl, inr,
  ap, dec_lt, arith,
}
use iot_edge.Tag.Converter.{swap, word_loop}
use iot_edge.Tag.Converter.Loops.{length-swap, swap_left, swap_right, swap_others, ends}

abbrev word_pass : ℕ → ℕ → List ℕ → List ℕ
word_pass l r xs = swap (l + 1) (r + 1) (swap l r xs)

length-word_pass : (l r : ℕ) (xs : List ℕ) → length (word_pass l r xs) ≡ length xs
length-word_pass l r xs = length-swap (l + 1) (r + 1) (swap l r xs) ∙ length-swap l r xs

word_pass_outside :
    (l r k : ℕ) (xs : List ℕ)
    → l + 1 < r
    → r + 1 < length xs
    → (k < l) ⊎ ((l + 1 < k) × (k < r) ⊎ (r + 1 < k))
    → get_or (word_pass l r xs) k 0 ≡ get_or xs k 0
word_pass_outside l r k xs hl hr out =
    ground
      (arith, length-swap l r xs, swap_others (l + 1) (r + 1) k (swap l r xs), swap_others l r k xs)

word_pass_ends :
    (l r : ℕ) (xs : List ℕ)
    → l + 1 < r
    → r + 1 < length xs
    → (get_or (word_pass l r xs) l 0 ≡ get_or xs r 0)
      × (get_or (word_pass l r xs) (l + 1) 0 ≡ get_or xs (r + 1) 0)
      × (get_or (word_pass l r xs) r 0 ≡ get_or xs l 0)
      × (get_or (word_pass l r xs) (r + 1) 0 ≡ get_or xs (l + 1) 0)
word_pass_ends l r xs hl hr = (
  ground (arith, length-swap l r xs, swap_others (l + 1) (r + 1) l (swap l r xs), swap_left l r xs),
  ground (
    arith,
    length-swap l r xs,
    swap_left (l + 1) (r + 1) (swap l r xs),
    swap_others l r (r + 1) xs,
  ),
  ground
      (arith, length-swap l r xs, swap_others (l + 1) (r + 1) r (swap l r xs), swap_right l r xs),
  ground (
    arith,
    length-swap l r xs,
    swap_right (l + 1) (r + 1) (swap l r xs),
    swap_others l r (l + 1) xs,
  ),
)

word_loop-step :
    (fuel l r : ℕ) (xs : List ℕ)
    → l < r
    → word_loop (suc fuel) l r xs ≡ word_loop fuel (l + 2) (r - 2) (word_pass l r xs)
unfolding word_loop
word_loop-step fuel l r xs h = ground arith

word_loop-stop : (fuel l r : ℕ) (xs : List ℕ) → r ≤ l → word_loop fuel l r xs ≡ xs
unfolding word_loop
word_loop-stop zero l r xs h = refl
word_loop-stop (suc fuel) l r xs h = ground arith

word_loop_outside :
    (fuel l r k : ℕ) (xs : List ℕ)
    → r + 1 < length xs
    → (l + r) % 2 ≡ 0
    → (k < l) ⊎ (r + 1 < k)
    → get_or (word_loop fuel l r xs) k 0 ≡ get_or xs k 0
word_loop_outside zero l r k xs hr even out = unfold word_loop in refl
word_loop_outside (suc fuel) l r k xs hr even out = elim (dec_lt l r) [
  | yes go ↦ rw (word_loop-step fuel l r xs go) (
      word_loop_outside fuel (l + 2) (r - 2) k (word_pass l r xs)
        (omega (arith, length-word_pass l r xs)) (omega arith) (omega arith)
      ∙ word_pass_outside l r k xs (omega arith) hr (omega arith))
  | no stop ↦ rw (word_loop-stop (suc fuel) l r xs (omega arith)) refl
]

-- The words between `l` and `r` change places, and each keeps its two bytes in order.
pub word_loop_inside :
    (fuel l r k j : ℕ) (xs : List ℕ)
    → r + 1 < length xs
    → r ≤ l + 4 * fuel
    → (l + r) % 2 ≡ 0
    → k + j ≡ l + r
    → (k + l) % 2 ≡ 0
    → l ≤ k
    → k ≤ r
    → (get_or (word_loop fuel l r xs) k 0 ≡ get_or xs j 0)
      × (get_or (word_loop fuel l r xs) (k + 1) 0 ≡ get_or xs (j + 1) 0)
word_loop_inside zero l r k j xs hr hf even e whole hl hk =
    unfold word_loop in
    (ap (λ t. get_or xs t 0) (omega arith), ap (λ t. get_or xs t 0) (omega arith))
word_loop_inside (suc fuel) l r k j xs hr hf even e whole hl hk = elim (dec_lt l r) [
  | no stop ↦
      rw (word_loop-stop (suc fuel) l r xs (omega arith))
        (ap (λ t. get_or xs t 0) (omega arith), ap (λ t. get_or xs t 0) (omega arith))
  | yes go ↦ rw (word_loop-step fuel l r xs go) (elim (ends l r k hl hk) [
    | inl first ↦ ground (
      arith,
      word_loop_outside fuel (l + 2) (r - 2) k (word_pass l r xs),
      word_loop_outside fuel (l + 2) (r - 2) (k + 1) (word_pass l r xs),
      length-word_pass l r xs,
      word_pass_ends l r xs,
    )
    | inr (inl last) ↦ ground (
      arith,
      word_loop_outside fuel (l + 2) (r - 2) k (word_pass l r xs),
      word_loop_outside fuel (l + 2) (r - 2) (k + 1) (word_pass l r xs),
      length-word_pass l r xs,
      word_pass_ends l r xs,
    )
    | inr (inr inner) ↦ ground (
      arith,
      word_loop_inside fuel (l + 2) (r - 2) k j (word_pass l r xs),
      length-word_pass l r xs,
      word_pass_outside l r j xs,
      word_pass_outside l r (j + 1) xs,
    )
  ])
]

pub length-word_loop : (fuel l r : ℕ) (xs : List ℕ) → length (word_loop fuel l r xs) ≡ length xs
unfolding word_loop
length-word_loop zero l r xs = refl
length-word_loop (suc fuel) l r xs =
    ground
      (arith, length-word_loop fuel (l + 2) (r - 2) (word_pass l r xs), length-word_pass l r xs)
