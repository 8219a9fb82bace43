-- ===== src/Make/First.antt =====
-- mkfs, mount and the first mkdir.
use mathlib.Core.List.{append-nil}
use cdnw_sh.Base.{
  ℕ, ◌≤◌, ◌<◌, ◌^◌, ◌≡◌, ◌≢◌, refl, ap, ◌∙◌, true, false, lt→ltb, none, some, List, [], ◌∷◌, ◌++◌,
  length, load-store-Apart, codes, c_string, str_eq, str_eq_iff, Bool-cases, inl, inr, arith,
}
use cdnw_sh.Params.{fs_error, itype_dir, blockid_root_dir}
use cdnw_sh.Sys.{Sys, Abi, ilp32, lp64, Inode, DirPtr, ok, success, failure, ◌>>◌}
use cdnw_sh.Bitmap.Find.{find_free_bit-least}
use cdnw_sh.Inode.{IsInode, Fits, modified_width}
use cdnw_sh.Inode.Table.{Fits-iff}
use cdnw_sh.Alloc.{
  IsAlloc, state_at, free_block_count, free_inode_count, free_block_count_at, free_inode_count_at,
}
use cdnw_sh.Alloc.Flush.{flushed}
use cdnw_sh.Alloc.Inodes.{with_inodes, reserved_inode, next_inode}
use cdnw_sh.Mkfs.{superblock, inode_bitmap, dot_entry, cnmkfs}
use cdnw_sh.Mkfs.Bitmaps.{
  inode_bitmap-IsBytes, inode_bitmap-OnlyBelow, block_bitmap-OnlyBelow, free_blocks, free_inodes,
}
use cdnw_sh.Mkfs.Fresh.{dir_inode, stamp, formatted}
use cdnw_sh.Mkfs.Dots.{dots}
use cdnw_sh.Dir.{cnrewinddir, cnopendir, cnls}
use cdnw_sh.Dir.Scan.{IsListing, lookup_name}
use cdnw_sh.Dir.Small.{small_dir}
use cdnw_sh.Dir.Component.{IsComponent, cnls_here}
use cdnw_sh.Dir.Stat.{names_text}
use cdnw_sh.Inode.Table.{with_inode}
use cdnw_sh.Mount.{cnmount}
use cdnw_sh.Mount.Ready.{
  first_root, first_mounted, first_mounted-ok, first_mounted-IsAlloc, first_root-IsSmall,
  first_loaded-IsListing,
}
use cdnw_sh.Make.{cnmkdir}
use cdnw_sh.Make.Append.{new_entry, IsName, padded, c_string-name}
use cdnw_sh.Make.Parent.{grown}
use cdnw_sh.Make.Mkdir.{HasBlock}
use cdnw_sh.Make.Nested.{cnmkdir-cnopendir}

low-Fits : (abi : Abi) (index : ℕ) → index < 56 → Fits abi index
low-Fits ilp32 index lt = (Fits-iff ilp32 index).1 (inl refl)
low-Fits lp64 index lt = (Fits-iff lp64 index).1 (inr (omega arith))

-- Formatting and mounting leave the flag of the shell alone.
pub first_mounted-vfs_on : (s : Sys) → (first_mounted s).vfs_on ≡ s.vfs_on
unfolding formatted with_inode
first_mounted-vfs_on s = refl

-- Behind the mount, fs.superblk is set.
first_mounted-fs_superblk : (s : Sys) → (first_mounted s).fs_superblk ≡ true
unfolding formatted with_inode
first_mounted-fs_superblk s = refl

wide : (abi : Abi) (x : ℕ) → x < 2 ^ 32 → x < 256 ^ modified_width abi
unfolding modified_width
wide ilp32 x lt = omega (arith, lt)
wide lp64 x lt = omega (arith, lt)

-- A name that is neither "." nor "..".
pub record IsNew (name : List ℕ) : Type 0 where
  pub named : IsName name
  pub component : IsComponent name
  pub not_dot : codes "." ≢ name
  pub not_up : codes ".." ≢ name

not-str_eq : (a b : List ℕ) → a ≢ b → str_eq a b ≡ false
not-str_eq a b ne = elim (Bool-cases (str_eq a b)) [
  | inl same ↦ absurd (ne ((str_eq_iff a b).0 same))
  | inr other ↦ other
]

not_dots : (name : List ℕ) → IsNew name → lookup_name name (dots 0 0) ≡ none
unfolding lookup_name c_string
not_dots name h =
    rw (not-str_eq (codes ".") name h.not_dot, not-str_eq (codes "..") name h.not_up) refl

module _ (s : Sys) (on : s.attached ≡ true) (name : List ℕ) (h : IsNew name)
    (clock_fits : (n : ℕ) → s.clock n < 2 ^ 32) where
  abbrev start : Sys
  start = first_mounted s

  abbrev root_inode : Inode
  root_inode = dir_inode (stamp s) blockid_root_dir

  abbrev root : DirPtr
  root = small_dir start 0 root_inode

  next_low : next_inode start ≤ 1
  next_low =
      (find_free_bit-least inode_bitmap inode_bitmap-IsBytes 1 (omega arith)
        (inode_bitmap-OnlyBelow 1 ∙ refl)).1

  free_counts : (free_block_count start ≡ 25496) × (free_inode_count start ≡ 6399)
  free_counts = (
    load-store-Apart 4 2 superblock state_at fs_error free_block_count_at (omega arith)
        ∙ free_blocks,
    load-store-Apart 4 2 superblock state_at fs_error free_inode_count_at (omega arith)
        ∙ free_inodes,
  )

  pub start-HasBlock : HasBlock start root name (dots 0 0)
  unfolding cnrewinddir
  start-HasBlock =
      let l = first_loaded-IsListing s on in
      record {
        room = record {
          alloc = first_mounted-IsAlloc s on;
          free = omega (arith, free_counts.1);
          listed = record { fits = l.fits; small = l.small; entries = l.entries };
          named = h.named;
          missing = not_dots name h;
          room = omega (arith, padded (length name), h.named.short);
          inode_low = omega arith;
          fits = low-Fits start.abi 0 (omega arith);
          new_fits = low-Fits start.abi (next_inode start) (omega (arith, next_low));
          block_low = omega arith;
          block_high = omega arith;
        };
        block_free = omega (arith, free_counts.0);
        metadata_used = λ j lt. block_bitmap-OnlyBelow j ∙ lt→ltb j 104 (omega (arith, lt));
        block_used = block_bitmap-OnlyBelow 103;
        inode_used = inode_bitmap-OnlyBelow 0;
      }

  clock_stays : (n : ℕ) → (reserved_inode start).clock n ≡ s.clock n
  unfolding reserved_inode with_inodes flushed formatted with_inode
  clock_stays n = refl

  pub grown-IsInode : IsInode start.abi (grown start root itype_dir name).inode_st
  grown-IsInode = record {
    type_fits = omega arith;
    size_fits = omega (arith, padded (length name), h.named.short);
    blocks_fits = omega arith;
    modified_fits = wide start.abi _ (
        omega (
          arith,
          clock_stays (reserved_inode start).calls,
          clock_fits (reserved_inode start).calls,
        ));
    eight = refl;
    data0_fits = omega arith;
    data1_fits = omega arith;
    data2_fits = omega arith;
    padding_fits = omega arith;
  }

  first_names :
      (inode : ℕ)
      → names_text (dots 0 0 ++ new_entry inode itype_dir name ∷ [])
        ≡ codes ".\n..\n" ++ name ++ 10 ∷ []
  unfolding names_text c_string
  first_names inode =
      ap (λ n. codes ".\n..\n" ++ n) (append-nil (c_string name ++ 10 ∷ []))
      ∙ ap (λ n. codes ".\n..\n" ++ n ++ 10 ∷ []) (c_string-name name h.named.no_nul)

  -- The first mkdir, from the state that mkfs and mount leave.
  pub first_cnmkdir :
      (t : Sys) × (new : DirPtr) × (cnmkdir name start ≡ ok success t)
      × (cnopendir name t ≡ ok (some new) t)
      × IsListing new (dots new.inode_id 0)
      × (cnls [] t ≡ ok (some (codes ".\n..\n" ++ name ++ 10 ∷ [])) t)
      × (t.vfs_on ≡ s.vfs_on)
      × (t.fs_superblk ≡ true)
      × IsAlloc t
      × (cnmkdir name t ≡ ok failure t)
  unfolding lookup_name c_string str_eq
  first_cnmkdir =
      let (
        t, new, up, made, opened, lists, loads, names, b0, b1, b2, b3, cwd, on', points, alloc,
        again,
      ) =
        cnmkdir-cnopendir start (first_root s) root_inode name (dots 0 0) refl
          (first_root-IsSmall s on) h.component start-HasBlock grown-IsInode in
      (
        t,
        new,
        made,
        opened,
        lists,
        cnls_here t (first_root s) up _ (dot_entry 0 (codes ".")) cwd loads names refl refl
            ∙ ap (λ text. ok (some text) t) (first_names new.inode_id),
        on' ∙ first_mounted-vfs_on s,
        points ∙ first_mounted-fs_superblk s,
        alloc,
        again,
      )

  -- On an attached device and with a clock that fits 32 bits, mkfs, mount and then mkdir of any
  -- name of 1 to 255 bytes without a slash and a NUL, but "." and "..", all succeed. From then on
  -- opening the name leads to a new directory that lists "." for itself and ".." for the root; ls
  -- prints ".", ".." and the name, a newline behind each; the caches agree; and a second mkdir of
  -- the name fails and changes nothing.
  pub cnmkfs-cnmkdir :
      (s' t : Sys) × (new : DirPtr) × ((cnmkfs >> cnmount) s ≡ ok success s')
      × (cnmkdir name s' ≡ ok success t)
      × (cnopendir name t ≡ ok (some new) t)
      × IsListing new (dots new.inode_id 0)
      × (cnls [] t ≡ ok (some (codes ".\n..\n" ++ name ++ 10 ∷ [])) t)
      × IsAlloc t
      × (cnmkdir name t ≡ ok failure t)
  cnmkfs-cnmkdir =
      let (t, new, made, opened, lists, listed, on', points, alloc, again) = first_cnmkdir in
      (start, t, new, first_mounted-ok s on, made, opened, lists, listed, alloc, again)
