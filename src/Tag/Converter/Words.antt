-- ===== src/Tag/Converter/Words.antt =====
-- Big-endian numbers: bounds, and reading back what was written.
use Prim.Native.Nat.{bit_and}
use native.Mathlib.Nat.{pow-suc}
use iot_edge.Prelude.{
  ℕ, zero, suc, ◌+◌, ◌*◌, ◌/◌, ◌%◌, ◌^◌, ◌≤◌, ◌<◌, ◌≡◌, refl, ap, List, [], ◌∷◌, ◌++◌, length, Bool,
  true, false, ◌==◌, ==_iff, All, length-append, arith, if◌then◌else◌, ◌↔◌,
}
use iot_edge.Tag.Converter.{be_from, big_endian_uint, bit_test}

abbrev pub IsByte : ℕ → Type 0
IsByte x = x < 256

mul_mono : (a b p : ℕ) → a ≤ b → a * p ≤ b * p
mul_mono a b p h = grind arith

be_from-lt : (acc : ℕ) (xs : List ℕ) → All IsByte xs → be_from acc xs < (acc + 1) * 256 ^ length xs
unfolding be_from
be_from-lt acc [] h = omega arith
be_from-lt acc (x ∷ xs) h = omega (
  arith,
  be_from-lt (acc * 256 + x) xs h.1,
  pow-suc 256 (length xs),
  mul_mono (acc * 256 + x + 1) ((acc + 1) * 256) (256 ^ length xs) (omega arith),
  ap (λ (t : ℕ). (acc + 1) * t) (pow-suc 256 (length xs)),
)

pub big_endian_uint-lt : (xs : List ℕ) → All IsByte xs → big_endian_uint xs < 256 ^ length xs
unfolding big_endian_uint
big_endian_uint-lt xs h = omega (arith, be_from-lt 0 xs h)

-- The `n` low bytes of a number, the high byte first.
pub be_bytes : ℕ → ℕ → List ℕ
be_bytes zero v = []
be_bytes (suc n) v = be_bytes n (v / 256) ++ (v % 256) ∷ []

pub length-be_bytes : (n v : ℕ) → length (be_bytes n v) ≡ n
unfolding be_bytes
length-be_bytes zero v = refl
length-be_bytes (suc n) v =
    omega (arith, length-append (be_bytes n (v / 256)) (v % 256 ∷ []), length-be_bytes n (v / 256))

be_from-append :
    (acc : ℕ) (xs : List ℕ) (y : ℕ) → be_from acc (xs ++ y ∷ []) ≡ be_from acc xs * 256 + y
unfolding be_from
be_from-append acc [] y = refl
be_from-append acc (x ∷ xs) y = be_from-append (acc * 256 + x) xs y

be_from-be_bytes : (n v : ℕ) → v < 256 ^ n → be_from 0 (be_bytes n v) ≡ v
unfolding be_bytes
be_from-be_bytes zero v h = unfold be_from in omega arith
be_from-be_bytes (suc n) v h =
    rw (be_from-append 0 (be_bytes n (v / 256)) (v % 256))
      (omega (arith, be_from-be_bytes n (v / 256) (omega (arith, pow-suc 256 n))))

pub big_endian_uint-be_bytes : (n v : ℕ) → v < 256 ^ n → big_endian_uint (be_bytes n v) ≡ v
unfolding big_endian_uint
big_endian_uint-be_bytes n v h = be_from-be_bytes n v h

passes_up_to : (ℕ → Bool) → ℕ → Bool
passes_up_to test zero = true
passes_up_to test (suc n) = if test n then passes_up_to test n else false

passes_at :
    (bound i : ℕ) (test : ℕ → Bool) → i < bound → passes_up_to test bound ≡ true → test i ≡ true
unfolding passes_up_to
passes_at zero i test lt passed = absurd (omega arith)
passes_at (suc bound) i test lt passed = ground (arith, passes_at bound i test)

same_bit : ℕ → ℕ → Bool
same_bit bit byte = (if bit_and byte (2 ^ bit) == 0 then 0 else 1) == (byte / 2 ^ bit) % 2

bit_table : passes_up_to (λ bit. passes_up_to (same_bit bit) 256) 8 ≡ true
unfolding passes_up_to same_bit
bit_table = refl

-- Masking with one bit of a byte reads that binary digit.
pub bit_test_digit :
    (byte bit : ℕ) → byte < 256 → bit < 8 → (bit_test byte bit ≡ true) ↔ ((byte / 2 ^ bit) % 2 ≡ 1)
unfolding bit_test same_bit
bit_test_digit byte bit hb h =
    let here : same_bit bit byte ≡ true =
      passes_at 256 byte (same_bit bit) hb
        (passes_at 8 bit (λ b. passes_up_to (same_bit b) 256) h bit_table) in
    ground (arith, ==_iff (if bit_and byte (2 ^ bit) == 0 then 0 else 1) ((byte / 2 ^ bit) % 2))
