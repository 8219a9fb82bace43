-- ===== src/FileData/RoundTrip.antt =====
-- llread behind llwrite.
use native.Mathlib.Decide.{dec_lt}
use cdnw_sh.Base.{
  ℕ, ◌-◌, ◌*◌, ◌/◌, ◌%◌, ◌≤◌, ◌<◌, ◌≡◌, ◌≢◌, refl, ap, ◌∙◌, sym, true, min, Bytes, lt→ltb,
  le→not-ltb, arith,
}
use cdnw_sh.Params.{block_size}
use cdnw_sh.Sys.{Sys, Inode, Buffer, ok, success}
use cdnw_sh.FileData.{direct, indirect, block_of, llread, llwrite}
use cdnw_sh.FileData.Loops.{spill}
use cdnw_sh.FileData.Effect.{fill-Outside, fill-inside, spill-other, spill-at}
use cdnw_sh.FileData.File.{
  block_number, IsFile, near_disk, near_bytes, stored, loaded, near_number, far_number,
  llread-loaded, llwrite-stored,
}

module _ (s : Sys) (inode : Inode) (h : IsFile s inode) (buf : Bytes) where
  near_at :
      (k : ℕ) → k < inode.blocks → k < 8 → near_disk s inode buf (direct inode k) ≡ block_of buf k
  unfolding near_disk
  near_at k few near =
      spill-at (direct inode) buf (min inode.blocks 8) 0 s.disk k (omega arith) (omega arith)
        (λ j lo hi e.
          h.distinct j k (omega arith) few
            (near_number s inode h j (omega arith) ∙ e ∙ sym (near_number s inode h k near)))

  near_other :
      (l : ℕ)
      → ((k : ℕ) → k < inode.blocks → block_number s inode k ≢ l)
      → near_disk s inode buf l ≡ s.disk l
  unfolding near_disk
  near_other l other =
      spill-other (direct inode) buf (min inode.blocks 8) 0 s.disk l
        (λ k lo hi e. other k (omega arith) (near_number s inode h k (omega arith) ∙ e))

  -- Every block of the file gets its part of the buffer.
  pub stored-block :
      (k : ℕ)
      → k < inode.blocks
      → (stored s inode buf).disk (block_number s inode k) ≡ block_of buf k
  unfolding stored
  stored-block k lt = elim (dec_lt 8 inode.blocks) [
    | no short ↦ rw (le→not-ltb 8 inode.blocks (omega arith)) (
        ap (near_disk s inode buf) (near_number s inode h k (omega arith))
        ∙ near_at k lt (omega arith))
    | yes long ↦ rw (lt→ltb 8 inode.blocks long) (elim (dec_lt k 8) [
      | yes near ↦
          ap (spill _ _ 8 (near_disk s inode buf) buf) (near_number s inode h k near)
          ∙ spill-other (indirect (s.disk inode.data1)) buf (inode.blocks - 8) 8
              (near_disk s inode buf) (direct inode k)
              (λ j lo hi e. absurd (
                omega (
                  arith,
                  h.distinct j k (omega arith) lt
                      (far_number s inode h j lo ∙ e ∙ sym (near_number s inode h k near)),
                )))
          ∙ near_at k lt near
      | no far ↦
          ap (spill _ _ 8 (near_disk s inode buf) buf) (far_number s inode h k (omega arith))
          ∙ spill-at (indirect (s.disk inode.data1)) buf (inode.blocks - 8) 8
              (near_disk s inode buf) k (omega arith) (omega arith)
              (λ j lo hi e.
                h.distinct j k (omega arith) lt
                  (far_number s inode h j lo ∙ e ∙ sym (far_number s inode h k (omega arith))))
    ])
  ]

  -- Every other block of the disk keeps its content.
  pub stored-other :
      (l : ℕ)
      → ((k : ℕ) → k < inode.blocks → block_number s inode k ≢ l)
      → (stored s inode buf).disk l ≡ s.disk l
  unfolding stored
  stored-other l other = elim (dec_lt 8 inode.blocks) [
    | no short ↦ rw (le→not-ltb 8 inode.blocks (omega arith)) (near_other l other)
    | yes long ↦ rw (lt→ltb 8 inode.blocks long) (
        spill-other (indirect (s.disk inode.data1)) buf (inode.blocks - 8) 8 (near_disk s inode buf)
          l (λ k lo hi e. other k (omega arith) (far_number s inode h k lo ∙ e))
        ∙ near_other l other)
  ]

  -- A byte of the file is that of its block.
  pub loaded-byte :
      (p : ℕ)
      → p / block_size < inode.blocks
      → loaded s inode buf p ≡ s.disk (block_number s inode (p / block_size)) (p % block_size)
  unfolding loaded near_bytes
  loaded-byte p lt = elim (dec_lt 8 inode.blocks) [
    | no short ↦ rw (le→not-ltb 8 inode.blocks (omega arith)) (
        fill-inside (direct inode) s.disk (min inode.blocks 8) 0 buf p (omega arith) (omega arith)
        ∙ ap (λ n. s.disk n (p % block_size))
            (sym (near_number s inode h (p / block_size) (omega arith))))
    | yes long ↦ rw (lt→ltb 8 inode.blocks long) (elim (dec_lt (p / block_size) 8) [
      | yes near ↦
          fill-Outside (indirect (s.disk inode.data1)) s.disk (inode.blocks - 8) 8 _ p (omega arith)
          ∙ fill-inside (direct inode) s.disk (min inode.blocks 8) 0 buf p (omega arith)
              (omega arith)
          ∙ ap (λ n. s.disk n (p % block_size)) (sym (near_number s inode h (p / block_size) near))
      | no far ↦
          fill-inside (indirect (s.disk inode.data1)) s.disk (inode.blocks - 8) 8 _ p (omega arith)
            (omega arith)
          ∙ ap (λ n. s.disk n (p % block_size))
              (sym (far_number s inode h (p / block_size) (omega arith)))
    ])
  ]

  number_stays :
      (k : ℕ)
      → k < inode.blocks
      → block_number (stored s inode buf) inode k ≡ block_number s inode k
  number_stays k lt = elim (dec_lt k 8) [
    | yes near ↦ rw (lt→ltb k 8 near) refl
    | no far ↦
        rw (le→not-ltb k 8 (omega arith))
          (ap (λ ind. indirect ind k) (stored-other inode.data1 (h.data1_apart (omega arith))))
  ]

  stored-on : (stored s inode buf).attached ≡ true
  unfolding stored
  stored-on = h.on

  -- Writing the file leaves its block list in order.
  pub stored-IsFile : IsFile (stored s inode buf) inode
  stored-IsFile = record {
    on = stored-on;
    few = h.few;
    range = λ k lt. rw (number_stays k lt) (h.range k lt);
    distinct =
        λ j k lj lk e. h.distinct j k lj lk (sym (number_stays j lj) ∙ e ∙ number_stays k lk);
    data1_range = h.data1_range;
    data1_apart = λ long k lt e. h.data1_apart long k lt (sym (number_stays k lt) ∙ e);
  }

whole : (b : Bytes) (p : ℕ) → block_of b (p / block_size) (p % block_size) ≡ b p
unfolding block_of
whole b p = ap b (omega arith)

-- For a file whose blocks are distinct, on the attached device and apart from the indirect block,
-- and two buffers that hold its blocks: what llwrite stores from the one, llread loads into the
-- other, every byte of the file's blocks. Both calls end without a fault, every block that is not
-- one of the file keeps its content, and the file's block list stays in order.
pub llread-llwrite :
    (s : Sys) (inode : Inode) (from to : Buffer)
    → IsFile s inode
    → inode.blocks * block_size ≤ from.cap
    → inode.blocks * block_size ≤ to.cap
    → (s' : Sys) × (b : Buffer) × (llwrite inode from s ≡ ok success s')
      × (llread inode to s' ≡ ok b s')
      × ((p : ℕ) → p < inode.blocks * block_size → b.bytes p ≡ from.bytes p)
      × ((l : ℕ) → ((k : ℕ) → k < inode.blocks → block_number s inode k ≢ l) → s'.disk l ≡ s.disk l)
      × IsFile s' inode
llread-llwrite s inode from to h room room' =
    let s' = stored s inode from.bytes in
    let h' = stored-IsFile s inode h from.bytes in
    (
      s',
      record to { bytes = loaded s' inode to.bytes },
      llwrite-stored s inode h from room,
      llread-loaded s' inode h' to room',
      λ p lt.
          loaded-byte s' inode h' to.bytes p (omega arith)
          ∙ ap (λ n. s'.disk n (p % block_size))
              (number_stays s inode h from.bytes (p / block_size) (omega arith))
          ∙ ap (λ (blk : Bytes). blk (p % block_size))
              (stored-block s inode h from.bytes (p / block_size) (omega arith))
          ∙ whole from.bytes p,
      stored-other s inode h from.bytes,
      h',
    )
