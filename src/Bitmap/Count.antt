-- ===== src/Bitmap/Count.antt =====
-- How many of the first n bits are set.
use cdnw_sh.Base.{
  ℕ, zero, suc, ◌+◌, ◌≤◌, ◌<◌, ◌≡◌, true, false, ltb, if◌then◌else◌, inl, inr, Bytes, IsBytes,
  Bool-cases, arith,
}
use cdnw_sh.Bitmap.{read_bitmap, set_bitmap, clear_bitmap}
use cdnw_sh.Bitmap.Laws.{read-set, read-clear}

unfoldable pub used : ℕ → Bytes → ℕ
used zero blk = 0
used (suc n) blk = (if read_bitmap blk n then 1 else 0) + used n blk

module _ (blk : Bytes) where
  pub used-le : (n : ℕ) → used n blk ≤ n
  unfolding used
  used-le zero = omega arith
  used-le (suc n) = ground (arith, used-le n)

  -- Where fewer than n of the first n bits are set, one of them is clear.
  pub clear_bit : (n : ℕ) → used n blk < n → (k : ℕ) × (k < n) × (read_bitmap blk k ≡ false)
  unfolding used
  clear_bit zero h = absurd (omega arith)
  clear_bit (suc n) h = elim (Bool-cases (read_bitmap blk n)) [
    | inl e ↦ let (k, lt, c) = clear_bit n (ground arith) in (k, omega arith, c)
    | inr e ↦ (n, omega arith, e)
  ]

module _ (blk : Bytes) (h : IsBytes blk) (i : ℕ) where
  -- Setting a clear bit adds one to every count that covers it.
  pub used-set :
      (n : ℕ)
      → read_bitmap blk i ≡ false
      → used n (set_bitmap blk i) ≡ (if ltb i n then used n blk + 1 else used n blk)
  unfolding used
  used-set zero e = ground arith
  used-set (suc n) e = ground (arith, used-set n e, read-set blk h i n)

  -- Clearing a set bit takes one from every count that covers it.
  pub used-clear :
      (n : ℕ)
      → read_bitmap blk i ≡ true
      → used n blk
        ≡ (if ltb i n then used n (clear_bitmap blk i) + 1 else used n (clear_bitmap blk i))
  unfolding used
  used-clear zero e = ground arith
  used-clear (suc n) e = ground (arith, used-clear n e, read-clear blk h i n)
