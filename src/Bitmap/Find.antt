-- ===== src/Bitmap/Find.antt =====
-- The bit that find_free_bit returns.
use mathlib.Core.Bool.{false≢true}
use native.Mathlib.Decide.{dec_lt}
use cdnw_sh.Base.{
  ℕ, zero, suc, ◌+◌, ◌-◌, ◌*◌, ◌/◌, ◌%◌, ◌≤◌, ◌<◌, ◌≡◌, sym, ap, ◌∙◌, true, false, ◌==◌, Bytes,
  IsBytes, ne→not-==, arith,
}
use cdnw_sh.Params.{block_size}
use cdnw_sh.Bitmap.{test_bit, read_bitmap, find_byte, find_offset, find_free_bit}
use cdnw_sh.Bitmap.Byte.{full_byte, find_offset-lt, find_offset-clear, find_offset-least}

module _ (blk : Bytes) where
  find_byte-le :
      (left ptr : ℕ) → (ptr ≤ find_byte left blk ptr) × (find_byte left blk ptr ≤ ptr + left)
  unfolding find_byte
  find_byte-le zero ptr = omega arith
  find_byte-le (suc left) ptr = ground (arith, find_byte-le left (ptr + 1))

  find_byte-full : (left ptr k : ℕ) → ptr ≤ k → k < find_byte left blk ptr → blk k ≡ 255
  unfolding find_byte
  find_byte-full zero ptr k lo hi = absurd (omega arith)
  find_byte-full (suc left) ptr k lo hi = ground (arith, find_byte-full left (ptr + 1) k)

  find_byte-open :
      (left ptr : ℕ)
      → find_byte left blk ptr < ptr + left
      → (blk (find_byte left blk ptr) == 255) ≡ false
  unfolding find_byte
  find_byte-open zero ptr h = absurd (omega arith)
  find_byte-open (suc left) ptr h = ground (arith, find_byte-open left (ptr + 1))

read-full : (blk : Bytes) (k : ℕ) → blk (k / 8) ≡ 255 → read_bitmap blk k ≡ true
unfolding read_bitmap
read-full blk k e = rw e (full_byte (k % 8) (omega arith))

-- What the second loop leaves, spelled as bits of the map.
read_at : (blk : Bytes) (p o : ℕ) → o < 8 → read_bitmap blk (p * 8 + o) ≡ test_bit (blk p) o
unfolding read_bitmap
read_at blk p o h =
    let e : (p * 8 + o) / 8 ≡ p = omega arith in
    let f : (p * 8 + o) % 8 ≡ o = omega arith in rw (e, f)

no_byte : (blk : Bytes) → find_byte block_size blk 0 ≡ block_size → find_free_bit blk ≡ 0
unfolding find_free_bit
no_byte blk e = rw e

module _ (blk : Bytes) (h : IsBytes blk) where
  free-lt : find_byte block_size blk 0 < block_size → find_free_bit blk < 8 * block_size
  unfolding find_free_bit
  free-lt stop =
      let ptr = find_byte block_size blk 0 in
      ground (arith, find_offset-lt (blk ptr) (h ptr) (find_byte-open blk block_size 0 stop))

  -- The result, where the first loop stops inside the block.
  found_byte :
      find_byte block_size blk 0 < block_size
      → (read_bitmap blk (find_free_bit blk) ≡ false)
        × ((k : ℕ) → k < find_free_bit blk → read_bitmap blk k ≡ true)
  unfolding find_free_bit
  found_byte stop =
      let ptr = find_byte block_size blk 0 in
      let offset = find_offset 8 (blk ptr) 0 in
      let is_open = find_byte-open blk block_size 0 stop in
      let fits = find_offset-lt (blk ptr) (h ptr) is_open in
      rw (ne→not-== ptr block_size (omega arith)) (
        read_at blk ptr offset fits ∙ find_offset-clear (blk ptr) (h ptr) is_open,
        λ k lt. elim (dec_lt k (ptr * 8)) [
          | yes before ↦
              read-full blk k (find_byte-full blk block_size 0 (k / 8) (omega arith) (omega arith))
          | no after ↦
              let e : ptr * 8 + (k - ptr * 8) ≡ k = omega arith in
              ap (read_bitmap blk) (sym e)
              ∙ read_at blk ptr (k - ptr * 8) (omega arith)
              ∙ find_offset-least (blk ptr) (h ptr) is_open (k - ptr * 8) (omega arith)
                  (omega arith)
        ],
      )

  pub stops_before :
      (n k : ℕ) → k < 8 * n → read_bitmap blk k ≡ false → find_byte block_size blk 0 < n
  stops_before n k lt clear = elim (dec_lt (find_byte block_size blk 0) n) [
    | yes p ↦ p
    | no stay ↦ absurd (
        false≢true (
          sym clear
          ∙ read-full blk k (find_byte-full blk block_size 0 (k / 8) (omega arith) (omega arith))))
  ]

  -- In a block of bytes with bit k clear, find_free_bit returns the lowest clear bit: the bit
  -- returned is clear, is at most k, and every bit below it is set.
  pub find_free_bit-least :
      (k : ℕ)
      → k < 8 * block_size
      → read_bitmap blk k ≡ false
      → (read_bitmap blk (find_free_bit blk) ≡ false)
        × (find_free_bit blk ≤ k)
        × ((j : ℕ) → j < find_free_bit blk → read_bitmap blk j ≡ true)
  find_free_bit-least k lt clear =
      let (is_clear, below) = found_byte (stops_before block_size k lt clear) in
      (
        is_clear,
        elim (dec_lt k (find_free_bit blk)) [
          | yes early ↦ absurd (false≢true (sym clear ∙ below k early))
          | no late ↦ omega arith
        ],
        below,
      )

  -- In a block of bytes with every bit set, find_free_bit returns 0, as it does where bit 0 is
  -- free.
  find_free_bit_full :
      ((k : ℕ) → k < 8 * block_size → read_bitmap blk k ≡ true) → find_free_bit blk ≡ 0
  find_free_bit_full all = elim (dec_lt (find_byte block_size blk 0) block_size) [
    | yes stop ↦
        let (is_clear, below) = found_byte stop in
        absurd (false≢true (sym is_clear ∙ all (find_free_bit blk) (free-lt stop)))
    | no stay ↦ no_byte blk (omega (arith, find_byte-le blk block_size 0))
  ]

  -- Where the first loop stops before byte n, the bit is one of the first n bytes, clear, and the
  -- lowest that is clear.
  pub free_before :
      (n : ℕ)
      → n ≤ block_size
      → find_byte block_size blk 0 < n
      → (find_free_bit blk < 8 * n)
        × (read_bitmap blk (find_free_bit blk) ≡ false)
        × ((k : ℕ) → k < find_free_bit blk → read_bitmap blk k ≡ true)
  unfolding find_free_bit
  free_before n small stop =
      let ptr = find_byte block_size blk 0 in
      let inside : find_byte block_size blk 0 < block_size = omega arith in
      let (is_clear, below) = found_byte inside in
      (
        ground (arith, find_offset-lt (blk ptr) (h ptr) (find_byte-open blk block_size 0 inside)),
        is_clear,
        below,
      )
