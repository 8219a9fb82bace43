-- ===== src/Inode/Table.antt =====
-- inode_read and inode_write against the inode table as an array of inodes.
use native.Mathlib.Decide.{ℕ_discrete, dec_lt}
use cdnw_sh.Base.{
  ℕ, ◌+◌, ◌%◌, ◌≤◌, ◌<◌, ◌≡◌, ◌≢◌, refl, sym, ap, ◌∙◌, ◌⊎◌, ◌↔◌, inl, inr, true, ◌==◌,
  if◌then◌else◌, Bytes, Outside, le_or_lt, ==_refl, ne→not-==, arith,
}
use cdnw_sh.Params.{block_size, inode_count, bd_size_blocks, inodes_in_block, inode_table_blocks}
use cdnw_sh.Sys.{Sys, Abi, ilp32, lp64, Inode, ok, stop, undefined, success}
use cdnw_sh.Blockdev.Laws.{with_block, blk_read-ok, blk_write-ok, write_block-at, write_block-ne}
use cdnw_sh.Inode.{
  sizeof_inode, put_inode, get_inode, IsInode, inode_lba, inode_offset, Fits, inode_read,
  inode_write,
}
use cdnw_sh.Inode.Layout.{get_inode-put_inode, put_inode-Outside, get_inode_congr}

-- The inode that the disk holds under a number.
unfoldable pub inode_at : Sys → ℕ → Inode
inode_at s index = get_inode s.abi (s.disk (inode_lba index)) (inode_offset s.abi index)

-- The state after the inode was stored.
unfoldable pub with_inode : Sys → ℕ → Inode → Sys
with_inode s index i =
    with_block s (inode_lba index)
      (put_inode s.abi (s.disk (inode_lba index)) (inode_offset s.abi index) i)

-- The blocks of the inode table follow the bitmaps, and end before the root directory.
pub inode_lba_range :
    (index : ℕ)
    → index < inode_count
    → (3 ≤ inode_lba index) × (inode_lba index < 3 + inode_table_blocks)
unfolding inode_lba
inode_lba_range index h = omega arith

module _ (s : Sys) (on : s.attached ≡ true) (index : ℕ) (lt : index < inode_count) where
  lba-lt : inode_lba index < bd_size_blocks
  lba-lt = omega (arith, inode_lba_range index lt)

  module _ (fits : Fits s.abi index) where
    pub inode_write-ok : (i : Inode) → inode_write index i s ≡ ok success (with_inode s index i)
    unfolding inode_write with_inode
    inode_write-ok i = ground (
      arith,
      blk_read-ok s on (inode_lba index) s.garbage lba-lt,
      blk_write-ok s on (inode_lba index)
          (put_inode s.abi (s.disk (inode_lba index)) (inode_offset s.abi index) i) lba-lt,
    )

    pub inode_read-ok : inode_read index s ≡ ok (inode_at s index) s
    unfolding inode_read inode_at
    inode_read-ok = ground (arith, blk_read-ok s on (inode_lba index) s.garbage lba-lt)

  overruns :
      ¬ Fits s.abi index
      → (i : Inode)
      → (inode_write index i s ≡ stop undefined) × (inode_read index s ≡ stop undefined)
  unfolding inode_write inode_read
  overruns over i = ground (arith, blk_read-ok s on (inode_lba index) s.garbage lba-lt)

-- Storing an inode leaves everything but the disk alone.
pub with_inode-on :
    (s : Sys) (index : ℕ) (i : Inode) → s.attached ≡ true → (with_inode s index i).attached ≡ true
unfolding with_inode
with_inode-on s index i on = on

with_inode-abi : (s : Sys) (index : ℕ) (i : Inode) → (with_inode s index i).abi ≡ s.abi
unfolding with_inode
with_inode-abi s index i = refl

-- Which inodes fit their blocks: all under ILP32, the first 56 of each block under LP64.
pub Fits-iff :
    (abi : Abi) (index : ℕ) → Fits abi index ↔ ((abi ≡ ilp32) ⊎ (index % inodes_in_block < 56))
unfolding inode_offset sizeof_inode
Fits-iff ilp32 index = (λ _. inl refl, λ _. omega arith)
Fits-iff lp64 index =
    (λ h. inr (omega arith), λ h. elim h [ inl e ↦ absurd (lp64≢ilp32 e) | inr lt ↦ omega arith ])
  where
    lp64≢ilp32 : lp64 ≢ ilp32
    lp64≢ilp32 e = cc

-- Two inodes of one block do not overlap.
slots_apart :
    (abi : Abi) (i j k : ℕ)
    → i % inodes_in_block ≢ j % inodes_in_block
    → k < sizeof_inode abi
    → Outside (inode_offset abi j + k) (inode_offset abi i) (sizeof_inode abi)
unfolding inode_offset sizeof_inode
slots_apart ilp32 i j k ne lt = omega arith
slots_apart lp64 i j k ne lt = omega arith

eq_of_slot :
    (i j : ℕ) → inode_lba i ≡ inode_lba j → i % inodes_in_block ≡ j % inodes_in_block → i ≡ j
unfolding inode_lba
eq_of_slot i j e f = omega arith

-- Another inode is as it was, in the same block or in another.
other_inode :
    (s : Sys) (index : ℕ) (i : Inode) (j : ℕ)
    → IsInode s.abi i
    → j ≢ index
    → inode_at (with_inode s index i) j ≡ inode_at s j
unfolding inode_at with_inode
other_inode s index i j h ne = elim (ℕ_discrete (inode_lba j) (inode_lba index)) [
  | yes same ↦
      rw (write_block-at s.disk (inode_lba index) _ (inode_lba j), same, ==_refl (inode_lba index))
        (get_inode_congr s.abi _ _ (inode_offset s.abi j) (λ k lt.
          put_inode-Outside s.abi (s.disk (inode_lba index)) (inode_offset s.abi index) i
            (inode_offset s.abi j + k) h
            (slots_apart s.abi index j k (λ e. ne (eq_of_slot j index same (sym e))) lt)))
  | no apart ↦
      rw (write_block-at s.disk (inode_lba index) _ (inode_lba j), ne→not-== _ _ apart) refl
]

not-Fits :
    (abi : Abi) (index : ℕ) → ¬ Fits abi index → (abi ≡ lp64) × (56 ≤ index % inodes_in_block)
unfolding inode_offset sizeof_inode
not-Fits ilp32 index over = absurd (over (omega arith))
not-Fits lp64 index over = (
  refl,
  elim (le_or_lt 56 (index % inodes_in_block)) [
    | inl le ↦ le
    | inr lt ↦ absurd (over (omega arith))
  ],
)

-- On an attached device, for a number in the inode table. Where time_t has four bytes, or the inode
-- is among the first 56 of the 64 of its block, inode_write stores it and inode_read returns what
-- the disk holds. Where time_t has eight bytes and the inode is one of the last eight, its struct
-- ends behind the block: both calls leave the 4096 bytes of the buffer.
pub inode_overflow :
    (s : Sys) (index : ℕ) (i : Inode)
    → s.attached ≡ true
    → index < inode_count
    → (((s.abi ≡ ilp32) ⊎ (index % inodes_in_block < 56))
        × (inode_write index i s ≡ ok success (with_inode s index i))
        × (inode_read index s ≡ ok (inode_at s index) s))
      ⊎ ((s.abi ≡ lp64)
          × (56 ≤ index % inodes_in_block)
          × (inode_write index i s ≡ stop undefined)
          × (inode_read index s ≡ stop undefined))
inode_overflow s index i on lt =
    elim (dec_lt (inode_offset s.abi index + sizeof_inode s.abi) (block_size + 1)) [
      | yes fits ↦ inl (
        (Fits-iff s.abi index).0 fits,
        inode_write-ok s on index lt fits i,
        inode_read-ok s on index lt fits,
      )
      | no over ↦
          let (abi, last) = not-Fits s.abi index over in
          let (writes, reads) = overruns s on index lt over i in inr (abi, last, writes, reads)
    ]

-- The stored inode is found under its number, and every other inode is as it was.
pub inode_at-with_inode :
    (s : Sys) (index : ℕ) (i : Inode) (j : ℕ)
    → IsInode s.abi i
    → inode_at (with_inode s index i) j ≡ (if j == index then i else inode_at s j)
unfolding inode_at with_inode
inode_at-with_inode s index i j h = elim (ℕ_discrete j index) [
  | yes e ↦
      rw
        (
          e,
          ==_refl index,
          write_block-at s.disk (inode_lba index) _ (inode_lba index),
          ==_refl (inode_lba index),
        )
        (get_inode-put_inode s.abi (s.disk (inode_lba index)) (inode_offset s.abi index) i h)
  | no ne ↦ rw (ne→not-== j index ne) (other_inode s index i j h ne)
]

-- A write to another block leaves the inode alone.
pub inode_at-with_block :
    (s : Sys) (lba : ℕ) (blk : Bytes) (index : ℕ)
    → inode_lba index ≢ lba
    → inode_at (with_block s lba blk) index ≡ inode_at s index
unfolding inode_at
inode_at-with_block s lba blk index ne =
    ap (λ b. get_inode s.abi b (inode_offset s.abi index))
      (write_block-ne s.disk lba blk (inode_lba index) ne)

pub inode_at-with_inode_self :
    (s : Sys) (index : ℕ) (i : Inode) → IsInode s.abi i → inode_at (with_inode s index i) index ≡ i
inode_at-with_inode_self s index i h =
    inode_at-with_inode s index i index h
    ∙ ap (λ b. if b then i else inode_at s index) (==_refl index)

-- On an attached device, for numbers in the table whose inodes fit their blocks and an inode whose
-- members fit their types: inode_read after inode_write gives the inode that was written, and for
-- every other number what it gave before.
pub inode_read-inode_write :
    (s : Sys) (index j : ℕ) (i : Inode)
    → s.attached ≡ true
    → index < inode_count
    → j < inode_count
    → Fits s.abi index
    → Fits s.abi j
    → IsInode s.abi i
    → (t : Sys) × (before : Inode) × (inode_read j s ≡ ok before s)
      × (inode_write index i s ≡ ok success t)
      × (inode_read j t ≡ ok (if j == index then i else before) t)
inode_read-inode_write s index j i on lt lt' fits fits' h =
    let t = with_inode s index i in
    (
      t,
      inode_at s j,
      inode_read-ok s on j lt' fits',
      inode_write-ok s on index lt fits i,
      inode_read-ok t (with_inode-on s index i on) j lt' (rw (with_inode-abi s index i) fits')
          ∙ ap (λ x. ok x t) (inode_at-with_inode s index i j h),
    )
