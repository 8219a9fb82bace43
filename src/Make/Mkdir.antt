-- ===== src/Make/Mkdir.antt =====
-- make_dir: the entry, the inode and the block of a new directory.
use cdnw_sh.Base.{
  ℕ, suc, ◌+◌, ◌%◌, ◌≤◌, ◌<◌, ◌^◌, ◌≡◌, ◌≢◌, refl, ap, ◌∙◌, sym, true, false, if◌then◌else◌, List,
  get_or, arith, ==_refl, le_or_lt, inl, inr, ne→not-==,
}
use cdnw_sh.Params.{bd_size_blocks, inode_count, inode_table_blocks, itype_dir}
use cdnw_sh.Sys.{Sys, Inode, DirPtr, ok, success, time}
use cdnw_sh.Bitmap.{read_bitmap}
use cdnw_sh.Blockdev.Laws.{with_block, blk_write-ok, write_block_self, write_block-ne}
use cdnw_sh.Inode.{IsInode, inode_lba}
use cdnw_sh.Inode.Table.{
  inode_at, with_inode, inode_write-ok, inode_at-with_inode, inode_at-with_inode_self,
  inode_at-with_block, inode_lba_range, with_inode-on,
}
use cdnw_sh.Alloc.{IsAlloc, free_block_count}
use cdnw_sh.Alloc.Flush.{flushed, disk-IsAlloc}
use cdnw_sh.Alloc.Blocks.{
  with_blocks, next_block, reserved_block, reserve_block-ok, reserved_block-disk,
  reserved_block-abi, reserved_block-inodes,
}
use cdnw_sh.Alloc.Inodes.{with_inodes, reserved_inode, next_inode, reserve_inode-ok}
use cdnw_sh.Mkfs.{dot_entries}
use cdnw_sh.Mkfs.Fresh.{dir_inode, dir_inode-IsInode}
use cdnw_sh.Entry.{Entry}
use cdnw_sh.Dir.Path.{at_end}
use cdnw_sh.Make.{make_dir}
use cdnw_sh.Make.Parent.{
  HasRoom, grown, with_entry, with_entry-abi, with_entry-IsAlloc, with_entry-marked,
  with_entry-disk, with_entry-blocks, append_at_end-ok, write_parent-ok, new_low, parent_written,
}

-- A directory with the room for another one, on a disk with a free block; what it stands in is in
-- use.
pub record HasBlock (s : Sys) (dir : DirPtr) (name : List ℕ) (es : List Entry) : Type 0 where
  pub room : HasRoom s dir name es
  pub block_free : 0 < free_block_count s
  pub metadata_used : (j : ℕ) → j < 3 + inode_table_blocks → read_bitmap s.block_bm_cache j ≡ true
  pub block_used : read_bitmap s.block_bm_cache (get_or dir.inode_st.data0 0 0) ≡ true
  pub inode_used : read_bitmap s.inode_bm_cache dir.inode_id ≡ true

-- A used thing is not the free one.
used-ne : (bm : ℕ → ℕ) (i j : ℕ) → read_bitmap bm i ≡ true → read_bitmap bm j ≡ false → i ≢ j
used-ne bm i j is_used clear e = absurd (cc)

-- The state when only the new directory is left to write.
abbrev pub listed : Sys → DirPtr → List ℕ → Sys
listed s dir name = let t = with_entry s dir itype_dir name in record t { calls = suc t.calls }

abbrev pub made_inode : Sys → DirPtr → List ℕ → Inode
made_inode s dir name =
    let t = with_entry s dir itype_dir name in
    dir_inode (t.clock t.calls % 2 ^ 32) (next_block (listed s dir name))

-- The state behind make_dir.
abbrev pub with_dir : Sys → DirPtr → List ℕ → Sys
with_dir s dir name =
    with_block
      (with_inode (reserved_block (listed s dir name)) (next_inode s) (made_inode s dir name))
      (next_block (listed s dir name)) (dot_entries (next_inode s) dir.inode_id)

module _ (s : Sys) (dir : DirPtr) (name : List ℕ) (es : List Entry)
    (h : HasBlock s dir name es) where
  abbrev before : Sys
  before = listed s dir name

  abbrev block : ℕ
  block = next_block before

  before-IsAlloc : IsAlloc before
  before-IsAlloc =
      let t = with_entry s dir itype_dir name in
      disk-IsAlloc t t.disk (suc t.calls)
        (with_entry-IsAlloc s dir itype_dir name es h.room (omega arith))

  before_blocks :
      (before.block_bm_cache ≡ s.block_bm_cache) × (free_block_count before ≡ free_block_count s)
  before_blocks = with_entry-blocks s dir itype_dir name es h.room (omega arith)

  positive : 0 < free_block_count before
  positive = omega (arith, before_blocks.1, h.block_free)

  pub block_low : block < bd_size_blocks
  block_low = (reserve_block-ok before before-IsAlloc positive).1

  pub block_clear : read_bitmap s.block_bm_cache block ≡ false
  block_clear =
      ap (λ bm. read_bitmap bm block) (sym before_blocks.0)
      ∙ (reserve_block-ok before before-IsAlloc positive).2

  -- The new block lies behind the metadata, and is not the parent's.
  pub block_high : 3 + inode_table_blocks ≤ block
  block_high = elim (le_or_lt (3 + inode_table_blocks) block) [
    | inl le ↦ le
    | inr lt ↦
        absurd (used-ne s.block_bm_cache block block (h.metadata_used block lt) block_clear refl)
  ]

  parent_block-ne : get_or dir.inode_st.data0 0 0 ≢ block
  parent_block-ne =
      used-ne s.block_bm_cache (get_or dir.inode_st.data0 0 0) block h.block_used block_clear

  parent_inode-ne : dir.inode_id ≢ next_inode s
  parent_inode-ne =
      used-ne s.inode_bm_cache dir.inode_id (next_inode s) h.inode_used
        (reserve_inode-ok s h.room.alloc h.room.free).2

  new_inode-low : next_inode s < inode_count
  new_inode-low = new_low s dir itype_dir name es h.room (omega arith)

  reserved_abi : (reserved_block before).abi ≡ s.abi
  reserved_abi =
      reserved_block-abi before ∙ with_entry-abi s dir itype_dir name es h.room (omega arith)

  made-IsInode : IsInode s.abi (made_inode s dir name)
  made-IsInode = dir_inode-IsInode s.abi _ block (omega arith) (omega (arith, block_low))

  pub make_dir-ok : make_dir (at_end dir) name s ≡ ok success (with_dir s dir name)
  unfolding make_dir time
  make_dir-ok =
      let t = reserved_block before in
      let on = (reserve_block-ok before before-IsAlloc positive).6.on in
      rw
        (
          (reserve_inode-ok s h.room.alloc h.room.free).0,
          append_at_end-ok s dir itype_dir name es h.room (omega arith),
          write_parent-ok s dir itype_dir name es h.room (omega arith),
          (reserve_block-ok before before-IsAlloc positive).0,
          inode_write-ok t on (next_inode s) new_inode-low (rw reserved_abi h.room.new_fits)
              (made_inode s dir name),
          blk_write-ok (with_inode t (next_inode s) (made_inode s dir name))
              (with_inode-on t (next_inode s) (made_inode s dir name) on) block
              (dot_entries (next_inode s) dir.inode_id) block_low,
        )
        refl

  pub with_dir-IsAlloc : IsAlloc (with_dir s dir name)
  unfolding with_inode
  with_dir-IsAlloc =
      disk-IsAlloc (reserved_block before) (with_dir s dir name).disk (reserved_block before).calls
        (reserve_block-ok before before-IsAlloc positive).6

  -- The current directory is not loaded again, and the flag of the shell stays.
  pub with_dir-cwd : (with_dir s dir name).cwd ≡ s.cwd
  unfolding with_inode reserved_block with_blocks flushed reserved_inode with_inodes
  with_dir-cwd = refl

  pub with_dir-vfs_on : (with_dir s dir name).vfs_on ≡ s.vfs_on
  unfolding with_inode reserved_block with_blocks flushed reserved_inode with_inodes
  with_dir-vfs_on = refl

  pub with_dir-fs_superblk : (with_dir s dir name).fs_superblk ≡ s.fs_superblk
  unfolding with_inode reserved_block with_blocks flushed reserved_inode with_inodes
  with_dir-fs_superblk = refl

  pub with_dir-abi : (with_dir s dir name).abi ≡ s.abi
  unfolding with_inode
  with_dir-abi = reserved_abi

  -- The new inode and the new block.
  pub made_found : inode_at (with_dir s dir name) (next_inode s) ≡ made_inode s dir name
  made_found =
      let t = reserved_block before in
      inode_at-with_block (with_inode t (next_inode s) (made_inode s dir name)) block
        (dot_entries (next_inode s) dir.inode_id) (next_inode s)
        (λ e. omega (arith, e, inode_lba_range (next_inode s) new_inode-low, block_high))
      ∙ inode_at-with_inode_self t (next_inode s) (made_inode s dir name)
          (rw reserved_abi made-IsInode)

  pub made_block : (with_dir s dir name).disk block ≡ dot_entries (next_inode s) dir.inode_id
  made_block =
      write_block_self
        (with_inode (reserved_block before) (next_inode s) (made_inode s dir name)).disk block
        (dot_entries (next_inode s) dir.inode_id)

  -- The parent's inode and block, which are written before.
  inode_at-reserved_block :
      (j : ℕ) → j < inode_count → inode_at (reserved_block before) j ≡ inode_at before j
  unfolding inode_at
  inode_at-reserved_block j lt =
      rw
        (
          reserved_block-abi before,
          reserved_block-disk before (inode_lba j) (omega (arith, inode_lba_range j lt)),
        )
        refl

  inode_at-before :
      inode_at before dir.inode_id ≡ inode_at (with_entry s dir itype_dir name) dir.inode_id
  unfolding inode_at
  inode_at-before = refl

  pub parent_found :
      IsInode s.abi (grown s dir itype_dir name).inode_st
      → inode_at (with_dir s dir name) dir.inode_id ≡ (grown s dir itype_dir name).inode_st
  parent_found is_inode =
      let t = reserved_block before in
      inode_at-with_block (with_inode t (next_inode s) (made_inode s dir name)) block
        (dot_entries (next_inode s) dir.inode_id) dir.inode_id
        (λ e. omega (arith, e, inode_lba_range dir.inode_id h.room.inode_low, block_high))
      ∙ inode_at-with_inode t (next_inode s) (made_inode s dir name) dir.inode_id
          (rw reserved_abi made-IsInode)
      ∙ ap (λ b. if b then made_inode s dir name else inode_at t dir.inode_id)
          (ne→not-== dir.inode_id (next_inode s) parent_inode-ne)
      ∙ inode_at-reserved_block dir.inode_id h.room.inode_low
      ∙ inode_at-before
      ∙ parent_written s dir itype_dir name es h.room (omega arith) is_inode

  pub parent_block_found :
      (with_dir s dir name).disk (get_or dir.inode_st.data0 0 0)
      ≡ (grown s dir itype_dir name).buf.bytes
  unfolding with_inode
  parent_block_found =
      let b = get_or dir.inode_st.data0 0 0 in
      write_block-ne
        (with_inode (reserved_block before) (next_inode s) (made_inode s dir name)).disk block
        (dot_entries (next_inode s) dir.inode_id) b parent_block-ne
      ∙ write_block-ne (reserved_block before).disk (inode_lba (next_inode s)) _ b
          (λ e. omega (arith, e, inode_lba_range (next_inode s) new_inode-low, h.room.block_high))
      ∙ reserved_block-disk before b (omega (arith, h.room.block_high))
      ∙ with_entry-disk s dir itype_dir name es h.room (omega arith)

  pub marked_inode : read_bitmap (with_dir s dir name).inode_bm_cache (next_inode s) ≡ true
  unfolding with_inode
  marked_inode =
      ap (λ bm. read_bitmap bm (next_inode s)) (reserved_block-inodes before)
      ∙ with_entry-marked s dir itype_dir name es h.room (omega arith) (next_inode s)
      ∙ ap (λ b. if b then true else read_bitmap s.inode_bm_cache (next_inode s))
          (==_refl (next_inode s))

  pub marked_block : read_bitmap (with_dir s dir name).block_bm_cache block ≡ true
  unfolding with_inode
  marked_block =
      (reserve_block-ok before before-IsAlloc positive).4 block
      ∙ ap (λ b. if b then true else read_bitmap before.block_bm_cache block) (==_refl block)
