-- ===== src/Bitmap/Laws.antt =====
-- What set_bitmap and clear_bitmap do to every bit of the map.
use cdnw_sh.Base.{ℕ, ◌/◌, ◌%◌, ◌≡◌, true, false, ◌==◌, if◌then◌else◌, Bytes, IsBytes, store8, arith}
use cdnw_sh.Bitmap.{read_bitmap, set_bitmap, clear_bitmap}
use cdnw_sh.Bitmap.Byte.{test_bit-or, test_bit-and, or-lt, and-lt}

module _ (blk : Bytes) (h : IsBytes blk) (i j : ℕ) where
  -- Setting a bit sets it, and leaves every other bit as it was.
  pub read-set : read_bitmap (set_bitmap blk i) j ≡ (if j == i then true else read_bitmap blk j)
  unfolding read_bitmap set_bitmap store8
  read-set = ground (
    arith,
    test_bit-or (blk (i / 8)) (i % 8) (j % 8) (h (i / 8)) (omega arith) (omega arith),
    or-lt (blk (i / 8)) (i % 8) (h (i / 8)) (omega arith),
  )

  -- Clearing a bit clears it, and leaves every other bit as it was.
  pub read-clear :
      read_bitmap (clear_bitmap blk i) j ≡ (if j == i then false else read_bitmap blk j)
  unfolding read_bitmap clear_bitmap store8
  read-clear = ground (
    arith,
    test_bit-and (blk (i / 8)) (i % 8) (j % 8) (h (i / 8)) (omega arith) (omega arith),
    and-lt (blk (i / 8)) (i % 8) (h (i / 8)) (omega arith),
  )

module _ (blk : Bytes) (h : IsBytes blk) (i : ℕ) where
  pub set-IsBytes : IsBytes (set_bitmap blk i)
  unfolding set_bitmap store8
  set-IsBytes j = ground (arith, h j)

  pub clear-IsBytes : IsBytes (clear_bitmap blk i)
  unfolding clear_bitmap store8
  clear-IsBytes j = ground (arith, h j)
