-- ===== src/Tag/Converter/Order.antt =====
-- `ApplyByteOrder` rearranges the bytes by an index map, and undoes itself.
use iot_edge.Prelude.{
  ℕ, ◌+◌, ◌-◌, ◌%◌, ◌<◌, ◌≡◌, refl, ◌∙◌, ap, List, ◌==◌, if◌then◌else◌, length, get_or, list_ext,
  ok, inl, inr, ◌≢◌, arith, Bool-cases, subst,
}
use iot_edge.Tag.Converter.{ByteOrder, reverse_loop, word_loop, byte_loop, apply_byte_order}
use iot_edge.Tag.Converter.Loops.{length-reverse_loop, reverse_loop_inside}
use iot_edge.Tag.Converter.WordLoop.{length-word_loop, word_loop_inside}
use iot_edge.Tag.Converter.ByteLoop.{length-byte_loop, byte_loop_from}

-- Where the byte at index `k` of the result comes from, in `n` bytes.
abbrev pub source_index : ByteOrder → ℕ → ℕ → ℕ
source_index ByteOrder.little_endian n k = n - 1 - k
source_index ByteOrder.word_swap n k = if k % 2 == 0 then n - 2 - k else n - k
source_index ByteOrder.byte_swap n k = if k % 2 == 0 then k + 1 else k - 1
source_index _ n k = k

reverse_index :
    (xs : List ℕ) (k : ℕ)
    → k < length xs
    → get_or (reverse_loop (length xs) 0 (length xs - 1) xs) k 0 ≡ get_or xs (length xs - 1 - k) 0
reverse_index xs k h =
    reverse_loop_inside (length xs) 0 (length xs - 1) k (length xs - 1 - k) xs (omega arith)
      (omega arith) (omega arith) (omega arith) (omega arith)

word_index :
    (xs : List ℕ) (k : ℕ)
    → length xs % 2 ≡ 0
    → k < length xs
    → get_or (word_loop (length xs) 0 (length xs - 2) xs) k 0
      ≡ get_or xs (source_index ByteOrder.word_swap (length xs) k) 0
word_index xs k even h = elim (Bool-cases (k % 2 == 0)) [
  | inl first ↦
      rw first
        (word_loop_inside (length xs) 0 (length xs - 2) k (length xs - 2 - k) xs (ground arith)
          (omega arith) (ground arith) (ground arith) (ground arith) (omega arith) (ground arith)).0
  | inr second ↦
      let (_, moved) =
        word_loop_inside (length xs) 0 (length xs - 2) (k - 1) (length xs - 1 - k) xs (ground arith)
          (omega arith) (ground arith) (ground arith) (ground arith) (omega arith) (ground arith) in
      ground (arith)
]

byte_index :
    (xs : List ℕ) (k : ℕ)
    → length xs % 2 ≡ 0
    → k < length xs
    → get_or (byte_loop (length xs) 0 xs) k 0
      ≡ get_or xs (source_index ByteOrder.byte_swap (length xs) k) 0
byte_index xs k even h =
    ground (arith, byte_loop_from (length xs) 0 k xs, byte_loop_from (length xs) 0 (k - 1) xs)

-- What each order makes of an even number of bytes.
abbrev pub arranged : ByteOrder → List ℕ → List ℕ
arranged ByteOrder.little_endian xs = reverse_loop (length xs) 0 (length xs - 1) xs
arranged ByteOrder.word_swap xs = word_loop (length xs) 0 (length xs - 2) xs
arranged ByteOrder.byte_swap xs = byte_loop (length xs) 0 xs
arranged _ xs = xs

pub length-arranged : (o : ByteOrder) (xs : List ℕ) → length (arranged o xs) ≡ length xs
length-arranged ByteOrder.little_endian xs = length-reverse_loop (length xs) 0 (length xs - 1) xs
length-arranged ByteOrder.word_swap xs = length-word_loop (length xs) 0 (length xs - 2) xs
length-arranged ByteOrder.byte_swap xs = length-byte_loop (length xs) 0 xs
length-arranged _ xs = refl

-- An order succeeds on every even number of bytes, unless its name is unknown.
pub apply_byte_order-eq_ok :
    (raw : List ℕ) (o : ByteOrder)
    → length raw % 2 ≡ 0
    → o ≢ ByteOrder.other
    → apply_byte_order raw o ≡ ok (arranged o raw)
unfolding apply_byte_order
apply_byte_order-eq_ok raw ByteOrder.other even known = absurd (known refl)
apply_byte_order-eq_ok raw _ even known = rw even refl

pub apply_byte_order-ok :
    (raw : List ℕ) (o : ByteOrder) {out : List ℕ}
    → apply_byte_order raw o ≡ ok out
    → (length raw % 2 ≡ 0) × (o ≢ ByteOrder.other) × (out ≡ arranged o raw)
unfolding apply_byte_order
apply_byte_order-ok raw ByteOrder.other h = ground arith
apply_byte_order-ok raw _ h = (ground arith, (λ e. cc), ground arith)

pub arranged_index :
    (o : ByteOrder) (raw : List ℕ) (k : ℕ)
    → length raw % 2 ≡ 0
    → k < length raw
    → get_or (arranged o raw) k 0 ≡ get_or raw (source_index o (length raw) k) 0
arranged_index ByteOrder.little_endian raw k even h = reverse_index raw k h
arranged_index ByteOrder.word_swap raw k even h = word_index raw k even h
arranged_index ByteOrder.byte_swap raw k even h = byte_index raw k even h
arranged_index _ raw k even h = refl

pub source_index_twice :
    (o : ByteOrder) (n k : ℕ)
    → n % 2 ≡ 0
    → k < n
    → (source_index o n k < n) × (source_index o n (source_index o n k) ≡ k)
source_index_twice ByteOrder.little_endian n k even h = omega arith
source_index_twice ByteOrder.word_swap n k even h = ground arith
source_index_twice ByteOrder.byte_swap n k even h = ground arith
source_index_twice _ n k even h = (h, refl)

pub arranged_twice :
    (o : ByteOrder) (raw : List ℕ) → length raw % 2 ≡ 0 → arranged o (arranged o raw) ≡ raw
arranged_twice o raw even =
    list_ext (arranged o (arranged o raw)) raw
      (length-arranged o (arranged o raw) ∙ length-arranged o raw)
      λ k h.
        let same = length-arranged o raw in
        let inside : k < length raw =
          subst (λ n. k < n) (length-arranged o (arranged o raw) ∙ same) h in
        let (lt, back) = source_index_twice o (length raw) k even inside in
        arranged_index o (arranged o raw) k (rw same even) (rw same inside)
        ∙ (rw same (arranged_index o raw (source_index o (length raw) k) even lt))
        ∙ ap (λ j. get_or raw j 0) back

-- A successful rearrangement keeps the number of bytes, which is even, and takes each byte of the
-- result from the index that the order prescribes.
pub apply_byte_order_index :
    (raw : List ℕ) (o : ByteOrder) {out : List ℕ}
    → apply_byte_order raw o ≡ ok out
    → (length out ≡ length raw)
      × (length raw % 2 ≡ 0)
      × ((k : ℕ) → k < length raw → get_or out k 0 ≡ get_or raw (source_index o (length raw) k) 0)
apply_byte_order_index raw o h =
    let (even, known, e) = apply_byte_order-ok raw o h in
    rw e (length-arranged o raw, even, λ k lt. arranged_index o raw k even lt)

-- Every order undoes itself: rearranging the rearranged bytes gives back the bytes.
pub apply_byte_order_twice :
    (raw : List ℕ) (o : ByteOrder) {out : List ℕ}
    → apply_byte_order raw o ≡ ok out
    → apply_byte_order out o ≡ ok raw
apply_byte_order_twice raw o h =
    let (even, known, e) = apply_byte_order-ok raw o h in
    rw e (
      apply_byte_order-eq_ok (arranged o raw) o (rw (length-arranged o raw) even) known
      ∙ ap ok (arranged_twice o raw even))
