-- ===== src/FileData/File.antt =====
-- Files whose blocks are in order, and what llread and llwrite come to on them.
use cdnw_sh.Base.{
  ℕ, ◌-◌, ◌*◌, ◌≤◌, ◌<◌, ◌≡◌, ◌≢◌, refl, ◌∙◌, inl, inr, true, min, ltb, if◌then◌else◌, Bytes, zeros,
  lt→ltb, ltb→lt, le→not-ltb, Bool-cases, arith,
}
use cdnw_sh.Params.{block_size, bd_size_blocks}
use cdnw_sh.Sys.{Sys, Inode, Buffer, ok, success}
use cdnw_sh.Blockdev.Laws.{blk_read-ok}
use cdnw_sh.FileData.{max_blocks, direct, indirect, llread, llwrite}
use cdnw_sh.FileData.Loops.{fill, spill, OnDevice, read_blocks-fill, write_blocks-spill}
use cdnw_sh.FileData.Effect.{spill-other}

-- The number of block k of a file.
abbrev pub block_number : Sys → Inode → ℕ → ℕ
block_number s inode k = if ltb k 8 then direct inode k else indirect (s.disk inode.data1) k

-- The blocks of a file lie on the device, are distinct, and none is the indirect block.
pub record IsFile (s : Sys) (inode : Inode) : Type 0 where
  pub on : s.attached ≡ true
  pub few : inode.blocks ≤ max_blocks
  pub range : (k : ℕ) → k < inode.blocks → block_number s inode k < bd_size_blocks
  pub distinct :
      (j k : ℕ)
      → j < inode.blocks
      → k < inode.blocks
      → block_number s inode j ≡ block_number s inode k
      → j ≡ k
  pub data1_range : 8 < inode.blocks → inode.data1 < bd_size_blocks
  pub data1_apart :
      8 < inode.blocks → (k : ℕ) → k < inode.blocks → block_number s inode k ≢ inode.data1

-- The disk and the buffer when the direct blocks are done.
unfoldable pub near_disk : Sys → Inode → Bytes → ℕ → Bytes
near_disk s inode buf = spill (direct inode) (min inode.blocks 8) 0 s.disk buf

unfoldable pub near_bytes : Sys → Inode → Bytes → Bytes
near_bytes s inode buf = fill (direct inode) (min inode.blocks 8) 0 s.disk buf

-- The state after the file was written from a buffer, and the buffer after it was read.
unfoldable pub stored : Sys → Inode → Bytes → Sys
unfolding near_disk
stored s inode buf = record s {
  disk =
      if ltb 8 inode.blocks
      then spill (indirect (s.disk inode.data1)) (inode.blocks - 8) 8 (near_disk s inode buf) buf
      else near_disk s inode buf;
}

unfoldable pub loaded : Sys → Inode → Bytes → Bytes
unfolding near_bytes
loaded s inode buf =
    if ltb 8 inode.blocks
    then fill (indirect (s.disk inode.data1)) (inode.blocks - 8) 8 s.disk (near_bytes s inode buf)
    else near_bytes s inode buf

module _ (s : Sys) (inode : Inode) (h : IsFile s inode) where
  pub near_number : (k : ℕ) → k < 8 → block_number s inode k ≡ direct inode k
  near_number k lt = rw (lt→ltb k 8 lt)

  pub far_number : (k : ℕ) → 8 ≤ k → block_number s inode k ≡ indirect (s.disk inode.data1) k
  far_number k le = rw (le→not-ltb k 8 le)

  near_range : OnDevice (direct inode) 0 (min inode.blocks 8)
  near_range k lo hi = omega (arith, h.range k (omega arith), near_number k (omega arith))

  far_range : 8 < inode.blocks → OnDevice (indirect (s.disk inode.data1)) 8 (inode.blocks - 8)
  far_range long k lo hi = omega (arith, h.range k (omega arith), far_number k lo)

  pub llread-loaded :
      (buf : Buffer)
      → inode.blocks * block_size ≤ buf.cap
      → llread inode buf s ≡ ok (record buf { bytes = loaded s inode buf.bytes }) s
  unfolding llread loaded near_bytes
  llread-loaded buf room =
      rw
        (read_blocks-fill (direct inode) 8 (min inode.blocks 8) 0 buf s h.on (omega arith)
          (omega arith) near_range)
        (elim (Bool-cases (ltb 8 inode.blocks)) [
          | inl long ↦
              rw
                (
                  long,
                  blk_read-ok s h.on inode.data1 zeros (h.data1_range (ltb→lt 8 _ long)),
                  read_blocks-fill (indirect (s.disk inode.data1)) max_blocks (inode.blocks - 8) 8
                      (record buf { bytes = near_bytes s inode buf.bytes }) s h.on
                      (omega (arith, h.few, ltb→lt 8 _ long)) (omega (arith, ltb→lt 8 _ long))
                      (far_range (ltb→lt 8 _ long)),
                )
                refl
          | inr short ↦ rw short refl
        ])

  pub indirect_stays :
      8 < inode.blocks → (buf : Bytes) → near_disk s inode buf inode.data1 ≡ s.disk inode.data1
  unfolding near_disk
  indirect_stays long buf =
      spill-other (direct inode) buf (min inode.blocks 8) 0 s.disk inode.data1
        (λ k lo hi e. h.data1_apart long k (omega arith) (near_number k (omega arith) ∙ e))

  pub llwrite-stored :
      (buf : Buffer)
      → inode.blocks * block_size ≤ buf.cap
      → llwrite inode buf s ≡ ok success (stored s inode buf.bytes)
  unfolding llwrite stored near_disk
  llwrite-stored buf room =
      let s1 = record s { disk = near_disk s inode buf.bytes } in
      rw
        (write_blocks-spill (direct inode) 8 (min inode.blocks 8) 0 buf s h.on (omega arith)
          (omega arith) near_range)
        (elim (Bool-cases (ltb 8 inode.blocks)) [
          | inl long ↦
              rw
                (
                  long,
                  blk_read-ok s1 h.on inode.data1 zeros (h.data1_range (ltb→lt 8 _ long)),
                  indirect_stays (ltb→lt 8 _ long) buf.bytes,
                  write_blocks-spill (indirect (s.disk inode.data1)) max_blocks (inode.blocks - 8) 8
                      buf s1 h.on (omega (arith, h.few, ltb→lt 8 _ long))
                      (omega (arith, ltb→lt 8 _ long)) (far_range (ltb→lt 8 _ long)),
                )
                refl
          | inr short ↦ rw short refl
        ])
