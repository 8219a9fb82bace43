-- ===== src/Make/Nested.antt =====
-- cnmkdir of one name in the current directory, and what cnopendir then finds.
use mathlib.Core.Option
use cdnw_sh.Base.{
  ◌++◌, load, ℕ, ◌+◌, ◌≡◌, refl, ap, ◌∙◌, true, false, lt→ltb, none, some, List, [], ◌∷◌, length,
  get_or, arith,
}
use cdnw_sh.Params.{inode_count, itype_dir}
use cdnw_sh.Sys.{Sys, Inode, DirPtr, ok, success, failure}
use cdnw_sh.Bitmap.{read_bitmap}
use cdnw_sh.Inode.{IsInode}
use cdnw_sh.Inode.Table.{inode_read-ok}
use cdnw_sh.Alloc.{IsAlloc}
use cdnw_sh.Alloc.Inodes.{next_inode, reserve_inode-ok}
use cdnw_sh.Mkfs.Dots.{dots, dots-Listing}
use cdnw_sh.Entry.{Entry}
use cdnw_sh.Dir.{cnrewinddir, scan_fuel, inflatedir, cnopendir}
use cdnw_sh.Dir.Scan.{IsListing, lookup_name, find_in, find_entry-find_in}
use cdnw_sh.Dir.Stat.{enough_fuel, find_in-lookup_name}
use cdnw_sh.Dir.Small.{IsSmall, small_dir, inflatedir-small, small-IsListing, llread-small}
use cdnw_sh.Dir.Path.{at_end, missing_end, of_map}
use cdnw_sh.Dir.Resolve.{done, into, open_path-Resolves}
use cdnw_sh.Dir.Component.{
  IsComponent, path_tokens-IsComponent, cwd_inode-ok, cnopendir-IsComponent,
}
use cdnw_sh.Make.{make_dir, mkdir_look, mkdir_path, cnmkdir}
use cdnw_sh.Make.Append.{new_entry}
use cdnw_sh.Make.Parent.{grown, more_entries, grown-IsListing, found_new, new_low}
use cdnw_sh.Make.Mkdir.{
  HasBlock, made_inode, with_dir, with_dir-cwd, with_dir-vfs_on, with_dir-fs_superblk, block_clear,
  block_low, make_dir-ok, with_dir-IsAlloc, with_dir-abi, made_found, made_block, parent_found,
  parent_block_found, marked_inode, marked_block,
}

-- The loop of cnmkdir on one name, up to the end of its search.
module _ (s : Sys) (id : ℕ) (i : Inode) (h : IsSmall s id i) (name : List ℕ)
    (component : IsComponent name) (cwd : DirPtr) (here : s.cwd ≡ some cwd)
    (same : cwd.inode_id ≡ id) (es : List Entry) (lists : IsListing (small_dir s id i) es) where
  mkdir_look-find_in :
      mkdir_look i id name s
      ≡ ok ((find_in name es 0).0, record (small_dir s id i) { index = (find_in name es 0).1 }) s
  unfolding mkdir_look
  mkdir_look-find_in =
      rw
        (
          lt→ltb (length name) 256 component.short,
          llread-small s id i h,
          find_entry-find_in s name es (scan_fuel (small_dir s id i)) (small_dir s id i)
              (enough_fuel (small_dir s id i) es lists) lists,
        )
        refl

  cnmkdir-mkdir_path : cnmkdir name s ≡ mkdir_path i id (name ∷ []) s
  unfolding cnmkdir
  cnmkdir-mkdir_path =
      rw
        (
          cwd_inode-ok s cwd here,
          same,
          inode_read-ok s h.on id h.low h.fits,
          h.found,
          path_tokens-IsComponent name component,
        )
        refl

  cnmkdir_missing :
      lookup_name name es ≡ none → cnmkdir name s ≡ make_dir (at_end (small_dir s id i)) name s
  unfolding mkdir_path
  cnmkdir_missing miss =
      cnmkdir-mkdir_path
      ∙ rw
          (
            mkdir_look-find_in,
            missing_end (small_dir s id i).buf.bytes name 0 i.size es lists.entries miss,
          )
          refl

  cnmkdir_present : (e : Entry) → lookup_name name es ≡ some e → cnmkdir name s ≡ ok failure s
  unfolding mkdir_path
  cnmkdir_present e found =
      let bytes = (small_dir s id i).buf.bytes in
      let (off, at', is_e) =
        of_map (λ o. load 4 bytes o) (find_in name es 0).0 e.inode
          (find_in-lookup_name bytes name 0 i.size es lists.entries
            ∙ ap (Option.map (λ (x : Entry). x.inode)) found) in
      cnmkdir-mkdir_path ∙ rw (mkdir_look-find_in, at') refl

module _ (s : Sys) (cwd : DirPtr) (i : Inode) (name : List ℕ) (es : List Entry)
    (here : s.cwd ≡ some cwd) (h : IsSmall s cwd.inode_id i) (component : IsComponent name)
    (free : HasBlock s (small_dir s cwd.inode_id i) name es)
    (fits : IsInode s.abi (grown s (small_dir s cwd.inode_id i) itype_dir name).inode_st) where
  abbrev dir : DirPtr
  dir = small_dir s cwd.inode_id i

  abbrev t : Sys
  t = with_dir s dir name

  -- The parent and the new directory, as they are loaded from then on.
  abbrev parent_inode : Inode
  parent_inode = (grown s dir itype_dir name).inode_st

  abbrev parent : DirPtr
  parent = small_dir t cwd.inode_id parent_inode

  abbrev made : DirPtr
  made = small_dir t (next_inode s) (made_inode s dir name)

  listed_dir : IsListing dir es
  unfolding cnrewinddir
  listed_dir =
      let l = free.room.listed in record { fits = l.fits; small = l.small; entries = l.entries }

  made_run : cnmkdir name s ≡ ok success t
  made_run =
      cnmkdir_missing s cwd.inode_id i h name component cwd here refl es listed_dir
        free.room.missing
      ∙ make_dir-ok s dir name es free

  parent-IsSmall : IsSmall t cwd.inode_id parent_inode
  parent-IsSmall = record {
    on = (with_dir-IsAlloc s dir name es free).on;
    low = h.low;
    fits = rw (with_dir-abi s dir name es free) h.fits;
    found = parent_found s dir name es free fits;
    one = h.one;
    block_low = h.block_low;
  }

  parent-IsListing : IsListing parent (more_entries s itype_dir name es)
  unfolding cnrewinddir
  parent-IsListing =
      small-IsListing t cwd.inode_id parent_inode parent-IsSmall (more_entries s itype_dir name es)
        (omega (arith, free.room.room, h.one))
        (rw (parent_block_found s dir name es free)
          (grown-IsListing s dir itype_dir name es free.room (omega arith)).entries)

  made-IsSmall : IsSmall t (next_inode s) (made_inode s dir name)
  made-IsSmall = record {
    on = (with_dir-IsAlloc s dir name es free).on;
    low = new_low s dir itype_dir name es free.room (omega arith);
    fits = rw (with_dir-abi s dir name es free) free.room.new_fits;
    found = made_found s dir name es free;
    one = refl;
    block_low = block_low s dir name es free;
  }

  made-IsListing : IsListing made (dots (next_inode s) cwd.inode_id)
  made-IsListing =
      small-IsListing t (next_inode s) (made_inode s dir name) made-IsSmall
        (dots (next_inode s) cwd.inode_id) (omega arith)
        (rw (made_block s dir name es free) (
          dots-Listing (next_inode s) cwd.inode_id
            (omega (arith, new_low s dir itype_dir name es free.room (omega arith)))
            (omega (arith, h.low))))

  -- mkdir of one name in the current directory, on an attached device. The name has 1 to 255 bytes,
  -- no slash and no NUL. The current directory is an inode of the table with one block, which lies
  -- on the device behind the inode table, has the room for the entry and lists no such name; its
  -- inode and its block are marked used, and so are the blocks of the metadata. The caches agree,
  -- with an inode and a block free. The structs of the current directory's inode and of the next
  -- free inode end inside their blocks, and the directory's inode with its new time fits its
  -- fields. Then mkdir succeeds. From then on opening the name leads to a directory of its own
  -- inode and block, both free before, that lists "." for itself and ".." for the current
  -- directory; the current directory, loaded again, lists what it did and the new name behind it;
  -- the caches agree; and a second mkdir of the name fails and changes nothing.
  pub cnmkdir-cnopendir :
      (t' : Sys) × (new up : DirPtr) × (cnmkdir name s ≡ ok success t')
      × (cnopendir name t' ≡ ok (some new) t')
      × IsListing new (dots new.inode_id cwd.inode_id)
      × (inflatedir cwd.inode_id t' ≡ ok up t')
      × IsListing up (es ++ new_entry new.inode_id itype_dir name ∷ [])
      × (read_bitmap s.inode_bm_cache new.inode_id ≡ false)
      × (read_bitmap t'.inode_bm_cache new.inode_id ≡ true)
      × (read_bitmap s.block_bm_cache (get_or new.inode_st.data0 0 0) ≡ false)
      × (read_bitmap t'.block_bm_cache (get_or new.inode_st.data0 0 0) ≡ true)
      × (t'.cwd ≡ s.cwd)
      × (t'.vfs_on ≡ s.vfs_on)
      × (t'.fs_superblk ≡ s.fs_superblk)
      × IsAlloc t'
      × (cnmkdir name t' ≡ ok failure t')
  cnmkdir-cnopendir = (
    t,
    made,
    parent,
    made_run,
    cnopendir-IsComponent t name cwd parent component (with_dir-cwd s dir name es free ∙ here)
          (inflatedir-small t cwd.inode_id parent_inode parent-IsSmall)
        ∙ open_path-Resolves t
            (into (more_entries s itype_dir name es) (new_entry (next_inode s) itype_dir name)
              parent-IsListing (found_new s dir itype_dir name es free.room (omega arith))
              (inflatedir-small t (next_inode s) (made_inode s dir name) made-IsSmall) done)
            (inode_count + 1),
    made-IsListing,
    inflatedir-small t cwd.inode_id parent_inode parent-IsSmall,
    parent-IsListing,
    (reserve_inode-ok s free.room.alloc free.room.free).2,
    marked_inode s dir name es free,
    block_clear s dir name es free,
    marked_block s dir name es free,
    with_dir-cwd s dir name es free,
    with_dir-vfs_on s dir name es free,
    with_dir-fs_superblk s dir name es free,
    with_dir-IsAlloc s dir name es free,
    cnmkdir_present t cwd.inode_id parent_inode parent-IsSmall name component cwd
        (with_dir-cwd s dir name es free ∙ here) refl (more_entries s itype_dir name es)
        parent-IsListing (new_entry (next_inode s) itype_dir name)
        (found_new s dir itype_dir name es free.room (omega arith)),
  )
