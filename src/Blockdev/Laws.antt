-- ===== src/Blockdev/Laws.antt =====
-- What a block access does in range, at the end of the device, and past it.
use cdnw_sh.Base.{
  ℕ, ◌<◌, ◌≡◌, refl, true, ltb, ◌==◌, if◌then◌else◌, Bytes, ◌≢◌, ==_refl, ne→not-==, arith,
}
use cdnw_sh.Params.{bd_size_blocks}
use cdnw_sh.Sys.{Sys, ok, stop, success, failure, undefined}
use cdnw_sh.Blockdev.{write_block, blk_read, blk_write}

-- s is s with block lba overwritten.
abbrev pub with_block : Sys → ℕ → Bytes → Sys
with_block s lba blk = record s { disk = write_block s.disk lba blk }

module _ (s : Sys) (on : s.attached ≡ true) (lba : ℕ) (buf : Bytes) where
  pub blk_read-ok : lba < bd_size_blocks → blk_read lba buf s ≡ ok (success, s.disk lba) s
  unfolding blk_read
  blk_read-ok h = ground arith

  pub blk_write-ok : lba < bd_size_blocks → blk_write lba buf s ≡ ok success (with_block s lba buf)
  unfolding blk_write
  blk_write-ok h = ground arith

-- On an attached device, both accesses reach the blocks below bd_size_blocks, and fail and change
-- nothing above it. The block bd_size_blocks itself passes the guard, and the access leaves the
-- mapping.
pub access_range :
    (s : Sys) (lba : ℕ) (buf : Bytes)
    → s.attached ≡ true
    → (blk_read lba buf s ≡ (
        if ltb lba bd_size_blocks
        then ok (success, s.disk lba) s
        else if lba == bd_size_blocks
        then stop undefined
        else ok (failure, buf) s))
      × (blk_write lba buf s ≡ (
          if ltb lba bd_size_blocks
          then ok success (with_block s lba buf)
          else if lba == bd_size_blocks
          then stop undefined
          else ok failure s))
unfolding blk_read blk_write
access_range s lba buf on = ground arith

-- On an attached device, after a block of it was written, a read gives it back, and a read of any
-- other block gives what it gave before.
pub blk_read-blk_write :
    (s : Sys) (lba l : ℕ) (blk buf : Bytes)
    → s.attached ≡ true
    → lba < bd_size_blocks
    → l < bd_size_blocks
    → (t : Sys) × (blk_write lba blk s ≡ ok success t)
      × (blk_read l buf t ≡ ok (success, if l == lba then blk else s.disk l) t)
unfolding write_block
blk_read-blk_write s lba l blk buf on lt lt' = (
  with_block s lba blk,
  blk_write-ok s on lba blk lt,
  blk_read-ok (with_block s lba blk) on l buf lt',
)

pub write_block-at :
    (disk : ℕ → Bytes) (lba : ℕ) (blk : Bytes) (l : ℕ)
    → write_block disk lba blk l ≡ (if l == lba then blk else disk l)
unfolding write_block
write_block-at disk lba blk l = refl

pub write_block_self :
    (disk : ℕ → Bytes) (lba : ℕ) (blk : Bytes) → write_block disk lba blk lba ≡ blk
unfolding write_block
write_block_self disk lba blk = rw (==_refl lba)

pub write_block-ne :
    (disk : ℕ → Bytes) (lba : ℕ) (blk : Bytes) (l : ℕ)
    → l ≢ lba
    → write_block disk lba blk l ≡ disk l
unfolding write_block
write_block-ne disk lba blk l ne = rw (ne→not-== l lba ne)
