-- ===== src/FileData/Loops.antt =====
-- The loops against their effect: what a loop leaves at each byte of the buffer, or at each block
-- of the disk.
use cdnw_sh.Base.{ℕ, zero, suc, ◌+◌, ◌*◌, ◌≤◌, ◌<◌, ◌≡◌, refl, true, Bytes, arith}
use cdnw_sh.Params.{block_size, bd_size_blocks}
use cdnw_sh.Sys.{Sys, Buffer, ok}
use cdnw_sh.Blockdev.{write_block}
use cdnw_sh.Blockdev.Laws.{with_block, blk_read-ok, blk_write-ok}
use cdnw_sh.FileData.{block_of, put_block, read_blocks, write_blocks}

-- The buffer and the disk after a loop that meets no fault.
unfoldable pub fill : (ℕ → ℕ) → ℕ → ℕ → (ℕ → Bytes) → Bytes → Bytes
fill ids zero i disk buf = buf
fill ids (suc left) i disk buf = fill ids left (i + 1) disk (put_block buf i (disk (ids i)))

unfoldable pub spill : (ℕ → ℕ) → ℕ → ℕ → (ℕ → Bytes) → Bytes → ℕ → Bytes
spill ids zero i disk buf = disk
spill ids (suc left) i disk buf =
    spill ids left (i + 1) (write_block disk (ids i) (block_of buf i)) buf

-- The numbers of the blocks from i on lie on the device.
abbrev pub OnDevice : (ℕ → ℕ) → ℕ → ℕ → Type 0
OnDevice ids i left = (k : ℕ) → i ≤ k → k < i + left → ids k < bd_size_blocks

pub read_blocks-fill :
    (ids : ℕ → ℕ) (bound left i : ℕ) (buf : Buffer) (s : Sys)
    → s.attached ≡ true
    → i + left ≤ bound
    → (i + left) * block_size ≤ buf.cap
    → OnDevice ids i left
    → read_blocks ids bound left i buf s
      ≡ ok (record buf { bytes = fill ids left i s.disk buf.bytes }) s
unfolding read_blocks fill
read_blocks-fill ids bound zero i buf s on fits room range = refl
read_blocks-fill ids bound (suc left) i buf s on fits room range = ground (
  arith,
  blk_read-ok s on (ids i) (block_of buf.bytes i) (range i (omega arith) (omega arith)),
  read_blocks-fill ids bound left (i + 1)
      (record buf { bytes = put_block buf.bytes i (s.disk (ids i)) }) s on (omega arith)
      (omega arith) (λ k lo hi. range k (omega arith) (omega arith)),
)

pub write_blocks-spill :
    (ids : ℕ → ℕ) (bound left i : ℕ) (buf : Buffer) (s : Sys)
    → s.attached ≡ true
    → i + left ≤ bound
    → (i + left) * block_size ≤ buf.cap
    → OnDevice ids i left
    → write_blocks ids bound left i buf s
      ≡ ok tt (record s { disk = spill ids left i s.disk buf.bytes })
unfolding write_blocks spill
write_blocks-spill ids bound zero i buf s on fits room range = refl
write_blocks-spill ids bound (suc left) i buf s on fits room range = ground (
  arith,
  blk_write-ok s on (ids i) (block_of buf.bytes i) (range i (omega arith) (omega arith)),
  write_blocks-spill ids bound left (i + 1) buf (with_block s (ids i) (block_of buf.bytes i)) on
      (omega arith) (omega arith) (λ k lo hi. range k (omega arith) (omega arith)),
)
