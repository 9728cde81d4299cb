-- ===== src/Tag/Converter/ByteLoop.antt =====
-- What the loop of `byte_swap` leaves at each index.
use iot_edge.Prelude.{
  ℕ, zero, suc, ◌+◌, ◌*◌, ◌%◌, ◌≤◌, ◌<◌, ◌≡◌, refl, ◌∙◌, List, length, get_or, dec_lt, arith,
}
use iot_edge.Tag.Converter.{swap, byte_loop}
use iot_edge.Tag.Converter.Loops.{length-swap, swap_left, swap_right, swap_others}

byte_loop-step :
    (fuel i : ℕ) (xs : List ℕ)
    → i < length xs
    → byte_loop (suc fuel) i xs ≡ byte_loop fuel (i + 2) (swap i (i + 1) xs)
unfolding byte_loop
byte_loop-step fuel i xs h = ground arith

byte_loop-stop : (fuel i : ℕ) (xs : List ℕ) → length xs ≤ i → byte_loop fuel i xs ≡ xs
unfolding byte_loop
byte_loop-stop zero i xs h = refl
byte_loop-stop (suc fuel) i xs h = ground arith

byte_loop_before :
    (fuel i k : ℕ) (xs : List ℕ)
    → i % 2 ≡ 0
    → length xs % 2 ≡ 0
    → k < i
    → get_or (byte_loop fuel i xs) k 0 ≡ get_or xs k 0
byte_loop_before zero i k xs even whole h = unfold byte_loop in refl
byte_loop_before (suc fuel) i k xs even whole h = elim (dec_lt i (length xs)) [
  | yes go ↦ rw (byte_loop-step fuel i xs go) (
      byte_loop_before fuel (i + 2) k (swap i (i + 1) xs) (omega arith)
        (rw (length-swap i (i + 1) xs) whole) (omega arith)
      ∙ swap_others i (i + 1) k xs go (omega arith) (omega arith) (omega arith))
  | no stop ↦ rw (byte_loop-stop (suc fuel) i xs (omega arith)) refl
]

-- From `i` on the two bytes of each word change places.
pub byte_loop_from :
    (fuel i k : ℕ) (xs : List ℕ)
    → length xs ≤ i + 2 * fuel
    → i % 2 ≡ 0
    → length xs % 2 ≡ 0
    → i ≤ k
    → k < length xs
    → k % 2 ≡ 0
    → (get_or (byte_loop fuel i xs) k 0 ≡ get_or xs (k + 1) 0)
      × (get_or (byte_loop fuel i xs) (k + 1) 0 ≡ get_or xs k 0)
byte_loop_from zero i k xs hf even whole hi hk hw = absurd (omega arith)
byte_loop_from (suc fuel) i k xs hf even whole hi hk hw =
    rw (byte_loop-step fuel i xs (omega arith)) (elim (dec_lt i k) [
      | yes later ↦ ground (
        arith,
        byte_loop_from fuel (i + 2) k (swap i (i + 1) xs),
        length-swap i (i + 1) xs,
        swap_others i (i + 1) k xs,
        swap_others i (i + 1) (k + 1) xs,
      )
      | no now ↦ ground (
        arith,
        byte_loop_before fuel (i + 2) k (swap i (i + 1) xs),
        byte_loop_before fuel (i + 2) (k + 1) (swap i (i + 1) xs),
        length-swap i (i + 1) xs,
        swap_left i (i + 1) xs,
        swap_right i (i + 1) xs,
      )
    ])

pub length-byte_loop : (fuel i : ℕ) (xs : List ℕ) → length (byte_loop fuel i xs) ≡ length xs
unfolding byte_loop
length-byte_loop zero i xs = refl
length-byte_loop (suc fuel) i xs =
    ground (arith, length-byte_loop fuel (i + 2) (swap i (i + 1) xs), length-swap i (i + 1) xs)
