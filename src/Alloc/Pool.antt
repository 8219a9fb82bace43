-- ===== src/Alloc/Pool.antt =====
-- What one reservation and one release do to a bitmap and its free count, for n things in all.
use cdnw_sh.Base.{ℕ, ◌+◌, ◌-◌, ◌*◌, ◌≤◌, ◌<◌, ◌≡◌, true, false, Bytes, IsBytes, arith}
use cdnw_sh.Params.{block_size}
use cdnw_sh.Bitmap.{read_bitmap, set_bitmap, clear_bitmap, find_free_bit}
use cdnw_sh.Bitmap.Find.{find_free_bit-least}
use cdnw_sh.Bitmap.Count.{used, clear_bit, used-set, used-clear}

module _ (bm : Bytes) (h : IsBytes bm) (n count : ℕ) (room : n ≤ 8 * block_size)
    (agree : used n bm + count ≡ n) where
  -- With a positive count find_free_bit finds the lowest clear bit of the n.
  pub finds :
      0 < count
      → (find_free_bit bm < n)
        × (read_bitmap bm (find_free_bit bm) ≡ false)
        × ((j : ℕ) → j < find_free_bit bm → read_bitmap bm j ≡ true)
  finds pos =
      let (k, lt, clear) = clear_bit bm n (omega arith) in
      let (is_clear, le, below) = find_free_bit-least bm h k (omega arith) clear in
      (omega arith, is_clear, below)

  pub agree-set :
      (i : ℕ)
      → i < n
      → 0 < count
      → read_bitmap bm i ≡ false
      → used n (set_bitmap bm i) + (count - 1) ≡ n
  agree-set i lt pos clear = ground (arith, used-set bm h i n clear)

  pub agree-clear :
      (i : ℕ) → i < n → read_bitmap bm i ≡ true → used n (clear_bitmap bm i) + (count + 1) ≡ n
  agree-clear i lt is_set = ground (arith, used-clear bm h i n is_set)
