-- ===== src/Tag/Converter/Loops.antt =====
-- Swapping two bytes, and what the loop of `reverseBytes` leaves at each index.
use iot_edge.Prelude.{
  ℕ, zero, suc, ◌+◌, ◌-◌, ◌*◌, ◌≤◌, ◌<◌, ◌≡◌, refl, ◌∙◌, List, ◌==◌, if◌then◌else◌, length, get_or,
  set, length-set, get_or-set, ◌⊎◌, inl, inr, ◌≢◌, ap, dec_lt, arith,
}
use iot_edge.Tag.Converter.{swap, reverse_loop}

pub length-swap : (i j : ℕ) (xs : List ℕ) → length (swap i j xs) ≡ length xs
unfolding swap
length-swap i j xs = length-set (set xs i (get_or xs j 0)) j _ ∙ length-set xs i _

pub get_or-swap :
    (i j k : ℕ) (xs : List ℕ)
    → i < length xs
    → j < length xs
    → get_or (swap i j xs) k 0
      ≡ (if j == k then get_or xs i 0 else (if i == k then get_or xs j 0 else get_or xs k 0))
unfolding swap
get_or-swap i j k xs hi hj = ground (
  arith,
  get_or-set (set xs i (get_or xs j 0)) j (get_or xs i 0) k,
  get_or-set xs i (get_or xs j 0) k,
  length-set xs i (get_or xs j 0),
)

pub length-reverse_loop :
    (fuel l r : ℕ) (xs : List ℕ) → length (reverse_loop fuel l r xs) ≡ length xs
unfolding reverse_loop
length-reverse_loop zero l r xs = refl
length-reverse_loop (suc fuel) l r xs =
    ground (arith, length-reverse_loop fuel (l + 1) (r - 1) (swap l r xs), length-swap l r xs)

pub swap_left :
    (i j : ℕ) (xs : List ℕ)
    → i < length xs
    → j < length xs
    → i ≢ j
    → get_or (swap i j xs) i 0 ≡ get_or xs j 0
swap_left i j xs hi hj ne = ground (arith, get_or-swap i j i xs)

pub swap_right :
    (i j : ℕ) (xs : List ℕ)
    → i < length xs
    → j < length xs
    → get_or (swap i j xs) j 0 ≡ get_or xs i 0
swap_right i j xs hi hj = ground (arith, get_or-swap i j j xs)

pub swap_others :
    (i j k : ℕ) (xs : List ℕ)
    → i < length xs
    → j < length xs
    → k ≢ i
    → k ≢ j
    → get_or (swap i j xs) k 0 ≡ get_or xs k 0
swap_others i j k xs hi hj ni nj = ground (arith, get_or-swap i j k xs)

reverse_loop-step :
    (fuel l r : ℕ) (xs : List ℕ)
    → l < r
    → reverse_loop (suc fuel) l r xs ≡ reverse_loop fuel (l + 1) (r - 1) (swap l r xs)
unfolding reverse_loop
reverse_loop-step fuel l r xs h = ground arith

reverse_loop-stop : (fuel l r : ℕ) (xs : List ℕ) → r ≤ l → reverse_loop fuel l r xs ≡ xs
unfolding reverse_loop
reverse_loop-stop zero l r xs h = refl
reverse_loop-stop (suc fuel) l r xs h = ground arith

reverse_loop_outside :
    (fuel l r k : ℕ) (xs : List ℕ)
    → r < length xs
    → (k < l) ⊎ (r < k)
    → get_or (reverse_loop fuel l r xs) k 0 ≡ get_or xs k 0
reverse_loop_outside zero l r k xs hr out = unfold reverse_loop in refl
reverse_loop_outside (suc fuel) l r k xs hr out = elim (dec_lt l r) [
  | yes go ↦ rw (reverse_loop-step fuel l r xs go) (
      reverse_loop_outside fuel (l + 1) (r - 1) k (swap l r xs) (omega (arith, length-swap l r xs))
        (omega arith)
      ∙ swap_others l r k xs (omega arith) hr (omega arith) (omega arith))
  | no stop ↦ rw (reverse_loop-stop (suc fuel) l r xs (omega arith)) refl
]

pub ends : (l r k : ℕ) → l ≤ k → k ≤ r → (k ≡ l) ⊎ ((k ≡ r) ⊎ ((l < k) × (k < r)))
ends l r k hl hr = omega arith

-- The ends between `l` and `r` change places.
pub reverse_loop_inside :
    (fuel l r k j : ℕ) (xs : List ℕ)
    → r < length xs
    → r ≤ l + 2 * fuel
    → k + j ≡ l + r
    → l ≤ k
    → k ≤ r
    → get_or (reverse_loop fuel l r xs) k 0 ≡ get_or xs j 0
reverse_loop_inside zero l r k j xs hr hf e hl hk =
    unfold reverse_loop in ap (λ t. get_or xs t 0) (omega arith)
reverse_loop_inside (suc fuel) l r k j xs hr hf e hl hk = elim (dec_lt l r) [
  | no stop ↦
      rw (reverse_loop-stop (suc fuel) l r xs (omega arith)) (ap (λ t. get_or xs t 0) (omega arith))
  | yes go ↦ rw (reverse_loop-step fuel l r xs go) (elim (ends l r k hl hk) [
    | inl first ↦ ground (
      arith,
      reverse_loop_outside fuel (l + 1) (r - 1) k (swap l r xs),
      length-swap l r xs,
      swap_left l r xs,
    )
    | inr (inl last) ↦ ground (
      arith,
      reverse_loop_outside fuel (l + 1) (r - 1) k (swap l r xs),
      length-swap l r xs,
      swap_right l r xs,
    )
    | inr (inr inner) ↦ ground (
      arith,
      reverse_loop_inside fuel (l + 1) (r - 1) k j (swap l r xs),
      length-swap l r xs,
      swap_others l r j xs,
    )
  ])
]
