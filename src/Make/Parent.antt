-- ===== src/Make/Parent.antt =====
-- The directory that gets an entry: the part that cncreat and cnmkdir share.
use mathlib.Core.Option
use cdnw_sh.Base.{
  ℕ, suc, ◌+◌, ◌≤◌, ◌<◌, ◌≡◌, ◌≢◌, refl, ap, ◌∙◌, sym, true, if◌then◌else◌, none, some, List, [],
  ◌∷◌, ◌++◌, length, get_or, arith, ◌==◌,
}
use cdnw_sh.Params.{bd_size_blocks, inode_count, inode_table_blocks}
use cdnw_sh.Sys.{Sys, DirPtr, ok, time}
use cdnw_sh.Bitmap.{read_bitmap}
use cdnw_sh.Blockdev.Laws.{with_block, blk_write-ok, write_block_self}
use cdnw_sh.Inode.{IsInode, Fits}
use cdnw_sh.Inode.Table.{
  inode_at, with_inode, inode_write-ok, inode_at-with_inode_self, inode_at-with_block,
  inode_lba_range, with_inode-on,
}
use cdnw_sh.Alloc.{IsAlloc, free_block_count, free_inode_count}
use cdnw_sh.Alloc.Flush.{flushed, disk-IsAlloc}
use cdnw_sh.Alloc.Inodes.{
  with_inodes, next_inode, reserved_inode, reserve_inode-ok, reserved_inode-blocks,
}
use cdnw_sh.Entry.{Entry, padded_len}
use cdnw_sh.Dir.{cnrewinddir, cnstat}
use cdnw_sh.Dir.Scan.{IsListing, lookup_name, find_in}
use cdnw_sh.Dir.Stat.{inode_named, cnstat-lookup}
use cdnw_sh.Dir.Path.{at_end}
use cdnw_sh.Make.{write_parent, append_entry}
use cdnw_sh.Make.Append.{
  IsName, new_entry, appended, append_entry-ok, appended-IsListing, lookup_name-append_new,
  lookup_name-append_other, c_string-name,
}

-- A directory in memory to which an entry of that name can be added: its first block and its inode
-- can be written, and its buffer has the room.
pub record HasRoom (s : Sys) (dir : DirPtr) (name : List ℕ) (es : List Entry) : Type 0 where
  pub alloc : IsAlloc s
  pub free : 0 < free_inode_count s
  pub listed : IsListing (cnrewinddir dir) es
  pub named : IsName name
  pub missing : lookup_name name es ≡ none
  pub room : dir.inode_st.size + padded_len (length name) ≤ dir.buf.cap
  pub inode_low : dir.inode_id < inode_count
  pub fits : Fits s.abi dir.inode_id
  pub new_fits : Fits s.abi (next_inode s)
  pub block_low : get_or dir.inode_st.data0 0 0 < bd_size_blocks
  pub block_high : 3 + inode_table_blocks ≤ get_or dir.inode_st.data0 0 0

-- The directory with the entry for the next inode.
abbrev pub grown : Sys → DirPtr → ℕ → List ℕ → DirPtr
grown s dir file_type name =
    let d = appended dir (next_inode s) file_type name in
    record d {
      index = dir.inode_st.size;
      inode_st = record d.inode_st { modified = (reserved_inode s).clock (reserved_inode s).calls };
    }

-- The state when its inode and its first block are written.
abbrev pub with_entry : Sys → DirPtr → ℕ → List ℕ → Sys
with_entry s dir file_type name =
    let d = grown s dir file_type name in
    with_block
      (with_inode (record (reserved_inode s) { calls = suc (reserved_inode s).calls }) dir.inode_id
        d.inode_st)
      (get_or dir.inode_st.data0 0 0) d.buf.bytes

-- The entries then.
abbrev pub more_entries : Sys → ℕ → List ℕ → List Entry → List Entry
more_entries s file_type name es = es ++ new_entry (next_inode s) file_type name ∷ []

module _ (s : Sys) (dir : DirPtr) (file_type : ℕ) (name : List ℕ) (es : List Entry)
    (h : HasRoom s dir name es) (type_fits : file_type < 256) where
  pub new_low : next_inode s < inode_count
  new_low = (reserve_inode-ok s h.alloc h.free).1

  taken-IsAlloc : IsAlloc (reserved_inode s)
  taken-IsAlloc = (reserve_inode-ok s h.alloc h.free).6

  taken-abi : (reserved_inode s).abi ≡ s.abi
  unfolding reserved_inode with_inodes flushed
  taken-abi = refl

  pub with_entry-IsAlloc : IsAlloc (with_entry s dir file_type name)
  unfolding with_inode
  with_entry-IsAlloc =
      disk-IsAlloc (reserved_inode s) (with_entry s dir file_type name).disk
        (suc (reserved_inode s).calls) taken-IsAlloc

  pub with_entry-blocks :
      ((with_entry s dir file_type name).block_bm_cache ≡ s.block_bm_cache)
      × (free_block_count (with_entry s dir file_type name) ≡ free_block_count s)
  unfolding with_inode
  with_entry-blocks = reserved_inode-blocks s

  pub with_entry-abi : (with_entry s dir file_type name).abi ≡ s.abi
  unfolding with_inode
  with_entry-abi = taken-abi

  pub with_entry-marked :
      (j : ℕ)
      → read_bitmap (with_entry s dir file_type name).inode_bm_cache j
        ≡ (if j == next_inode s then true else read_bitmap s.inode_bm_cache j)
  unfolding with_inode
  with_entry-marked = (reserve_inode-ok s h.alloc h.free).4

  pub write_parent-ok :
      write_parent
        (record (appended dir (next_inode s) file_type name) { index = dir.inode_st.size })
        (reserved_inode s)
      ≡ ok (grown s dir file_type name) (with_entry s dir file_type name)
  unfolding write_parent time
  write_parent-ok =
      let t = record (reserved_inode s) { calls = suc (reserved_inode s).calls } in
      let d = grown s dir file_type name in
      rw
        (inode_write-ok t taken-IsAlloc.on dir.inode_id h.inode_low (rw taken-abi h.fits)
          d.inode_st)
        (rw
          (blk_write-ok (with_inode t dir.inode_id d.inode_st)
            (with_inode-on t dir.inode_id d.inode_st taken-IsAlloc.on)
            (get_or dir.inode_st.data0 0 0) d.buf.bytes h.block_low)
          refl)

  pub append_at_end-ok :
      append_entry (at_end dir) (next_inode s) file_type name (reserved_inode s)
      ≡ ok
          (record (appended dir (next_inode s) file_type name) { index = dir.inode_st.size })
          (reserved_inode s)
  append_at_end-ok =
      append_entry-ok (reserved_inode s) dir (next_inode s) file_type name es h.listed
        (omega (arith, new_low)) type_fits h.named h.room

  pub with_entry-disk :
      (with_entry s dir file_type name).disk (get_or dir.inode_st.data0 0 0)
      ≡ (grown s dir file_type name).buf.bytes
  unfolding with_inode
  with_entry-disk =
      write_block_self
        (with_inode (record (reserved_inode s) { calls = suc (reserved_inode s).calls })
          dir.inode_id (grown s dir file_type name).inode_st).disk
        (get_or dir.inode_st.data0 0 0) (grown s dir file_type name).buf.bytes

  pub parent_written :
      IsInode s.abi (grown s dir file_type name).inode_st
      → inode_at (with_entry s dir file_type name) dir.inode_id
        ≡ (grown s dir file_type name).inode_st
  parent_written is_inode =
      let t = record (reserved_inode s) { calls = suc (reserved_inode s).calls } in
      let d = grown s dir file_type name in
      inode_at-with_block (with_inode t dir.inode_id d.inode_st) (get_or dir.inode_st.data0 0 0)
        d.buf.bytes dir.inode_id
        (λ e. omega (arith, e, inode_lba_range dir.inode_id h.inode_low, h.block_high))
      ∙ inode_at-with_inode_self t dir.inode_id d.inode_st (rw taken-abi is_inode)

  pub grown-IsListing :
      IsListing (cnrewinddir (grown s dir file_type name)) (more_entries s file_type name es)
  unfolding cnrewinddir
  grown-IsListing =
      let l =
        appended-IsListing s dir (next_inode s) file_type name es h.listed (omega (arith, new_low))
          type_fits h.named h.room in
      record { fits = l.fits; small = l.small; entries = l.entries }

  pub found_new :
      lookup_name name (more_entries s file_type name es)
      ≡ some (new_entry (next_inode s) file_type name)
  found_new =
      lookup_name-append_new name es (new_entry (next_inode s) file_type name) h.missing
        (c_string-name name h.named.no_nul)

  pub inode_named-new : inode_named name (more_entries s file_type name es) ≡ some (next_inode s)
  inode_named-new = ap (Option.map (λ (e : Entry). e.inode)) found_new

  pub inode_named-other :
      (other : List ℕ)
      → other ≢ name
      → inode_named other (more_entries s file_type name es) ≡ inode_named other es
  inode_named-other other ne = ap (Option.map (λ (e : Entry). e.inode)) (
      lookup_name-append_other other es (new_entry (next_inode s) file_type name)
        (λ e. ne (sym e ∙ c_string-name name h.named.no_nul)))

  pub stat_grown :
      (other : List ℕ) (t : Sys)
      → (d : DirPtr) × (cnstat (grown s dir file_type name) other t
          ≡ ok (inode_named other (more_entries s file_type name es), d) t)
  stat_grown other t = (
    record (grown s dir file_type name) {
      index = (find_in other (more_entries s file_type name es) 0).1;
    },
    cnstat-lookup t (grown s dir file_type name) other (more_entries s file_type name es)
        grown-IsListing,
  )
