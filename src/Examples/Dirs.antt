-- ===== src/Examples/Dirs.antt =====
-- Examples: directories.
use mathlib.Core.Option
use cdnw_sh.Base.{
  ℕ, ◌≡◌, refl, true, false, none, some, [], ◌∷◌, ◌++◌, codes, str_eq, c_string, inl, arith,
}
use cdnw_sh.Sys.{Sys, ilp32, DirPtr, ok, success}
use cdnw_sh.Bitmap.{read_bitmap}
use cdnw_sh.Alloc.{IsAlloc}
use cdnw_sh.Inode.{Fits}
use cdnw_sh.Inode.Table.{Fits-iff}
use cdnw_sh.Entry.{Entry}
use cdnw_sh.Dir.{cnrewinddir, cnstat, list_names, open_path}
use cdnw_sh.Dir.Scan.{IsListing, lookup_name, find_in}
use cdnw_sh.Dir.Stat.{cnstat-lookup, list_names-text, names_text}
use cdnw_sh.Dir.Path.{at_end, open_path_trailing}
use cdnw_sh.Dir.Resolve.{Resolves, done, into, open_path-Resolves}
use cdnw_sh.Mkfs.{dot_entry, dot_entries}
use cdnw_sh.Mkfs.Fresh.{dir_inode}
use cdnw_sh.Mount.Ready.{root-IsListing, inflate_root}
use cdnw_sh.Mkfs.Dots.{dots, dots-Listing}
use cdnw_sh.Make.{cnmkdir}
use cdnw_sh.Make.Append.{new_entry}
use cdnw_sh.Make.Nested.{cnmkdir-cnopendir}
use cdnw_sh.Make.First.{IsNew, cnmkfs-cnmkdir, start-HasBlock, grown-IsInode}
use cdnw_sh.Mount.{cnmount}
use cdnw_sh.Mount.Ready.{first_mounted, first_root, first_root-IsSmall}
use cdnw_sh.Mkfs.{cnmkfs}
use cdnw_sh.Mkfs.Fresh.{stamp}
use cdnw_sh.Dir.{cnopendir, cnls, inflatedir}
use cdnw_sh.Params.{itype_dir, blockid_root_dir}
use cdnw_sh.Sys.{failure, ◌>>◌}
use cdnw_sh.Base.{get_or, ◌++◌}
use cdnw_sh.Mkfs.Fresh.{dir_inode, stamp}
use cdnw_sh.Examples.Data.{device, disk, disk-IsFresh, root}

root-dots : IsListing root (dots 0 0)
root-dots = root-IsListing disk disk-IsFresh

pub rewound-dots : IsListing (cnrewinddir root) (dots 0 0)
unfolding cnrewinddir
rewound-dots = record {
  fits = root-dots.fits;
  small = root-dots.small;
  entries = root-dots.entries;
}

cnstat-lookup_example : cnstat root (codes "..") disk ≡ ok (some 0, record root { index = 24 }) disk
unfolding lookup_name find_in c_string str_eq
cnstat-lookup_example = cnstat-lookup disk root (codes "..") (dots 0 0) rewound-dots

list_names-text_example :
    list_names 3 root [] disk ≡ ok (codes "." ++ 10 ∷ codes ".." ++ 10 ∷ []) disk
unfolding names_text c_string
list_names-text_example = list_names-text disk (dots 0 0) 3 root [] (omega arith) root-dots

up_found : lookup_name (codes "..") (dots 0 0) ≡ some (dot_entry 0 (codes ".."))
unfolding lookup_name c_string str_eq
up_found = refl

none_found : lookup_name (codes "x") (dots 0 0) ≡ none
unfolding lookup_name c_string str_eq
none_found = refl

up_up : Resolves disk root (codes ".." ∷ codes ".." ∷ []) root
up_up =
    into (dots 0 0) (dot_entry 0 (codes "..")) root-dots up_found (inflate_root disk disk-IsFresh) (
      into (dots 0 0) (dot_entry 0 (codes "..")) root-dots up_found (inflate_root disk disk-IsFresh)
        done)

open_path-Resolves_example :
    open_path 6401 root (codes ".." ∷ codes ".." ∷ []) disk ≡ ok (some root) disk
open_path-Resolves_example = open_path-Resolves disk up_up 6401

-- "../x/y" resolves to the root directory.
open_path_trailing_example :
    open_path 6401 root (codes ".." ∷ codes "x" ∷ codes "y" ∷ []) disk
    ≡ ok (some (at_end root)) disk
open_path_trailing_example =
    open_path_trailing disk root root (codes "..") (codes "x") (codes "y" ∷ [])
      (dot_entry 0 (codes "..")) (dots 0 0) (dots 0 0) 6401 root-dots up_found
      (inflate_root disk disk-IsFresh) root-dots none_found

-- The root directory, with the caches of an empty file system.
abbrev pub here : DirPtr
here = record {
  inode_st = dir_inode 0 103;
  inode_id = 0;
  index = 0;
  buf = record { cap = 4096; bytes = dot_entries 0 0 };
}

pub here-dots : IsListing (cnrewinddir here) (dots 0 0)
unfolding cnrewinddir
here-dots = record {
  fits = omega arith;
  small = omega arith;
  entries = dots-Listing 0 0 (omega arith) (omega arith);
}

pub small-Fits : (index : ℕ) → Fits ilp32 index
small-Fits index = (Fits-iff ilp32 index).1 (inl refl)

-- A device whose clock stands still, and a name for its first directory.
abbrev pub slow : Sys
slow = record device { clock = λ n. 7 }

pub spaced-IsNew : IsNew (codes "a b")
spaced-IsNew = record {
  named = record {
    short = omega arith;
    bytes = omega arith;
    no_nul = ((λ e. omega (arith, e)), ((λ e. omega (arith, e)), ((λ e. omega (arith, e)), tt)));
  };
  component = record {
    some_byte = omega arith;
    short = omega arith;
    no_slash = ((λ e. omega (arith, e)), ((λ e. omega (arith, e)), ((λ e. omega (arith, e)), tt)));
  };
  not_dot = cc;
  not_up = cc;
}

cnmkfs-cnmkdir_example :
    (s' t : Sys) × (new : DirPtr) × ((cnmkfs >> cnmount) slow ≡ ok success s')
    × (cnmkdir (codes "a b") s' ≡ ok success t)
    × (cnopendir (codes "a b") t ≡ ok (some new) t)
    × IsListing new (dots new.inode_id 0)
    × (cnls [] t ≡ ok (some (codes ".\n..\na b\n")) t)
    × IsAlloc t
    × (cnmkdir (codes "a b") t ≡ ok failure t)
cnmkfs-cnmkdir_example = cnmkfs-cnmkdir slow refl (codes "a b") spaced-IsNew (λ n. omega arith)

cnmkdir-cnopendir_example :
    (t : Sys) × (new up : DirPtr) × (cnmkdir (codes "a b") (first_mounted slow) ≡ ok success t)
    × (cnopendir (codes "a b") t ≡ ok (some new) t)
    × IsListing new (dots new.inode_id 0)
    × (inflatedir 0 t ≡ ok up t)
    × IsListing up (dots 0 0 ++ new_entry new.inode_id itype_dir (codes "a b") ∷ [])
    × (read_bitmap (first_mounted slow).inode_bm_cache new.inode_id ≡ false)
    × (read_bitmap t.inode_bm_cache new.inode_id ≡ true)
    × (read_bitmap (first_mounted slow).block_bm_cache (get_or new.inode_st.data0 0 0) ≡ false)
    × (read_bitmap t.block_bm_cache (get_or new.inode_st.data0 0 0) ≡ true)
    × (t.cwd ≡ (first_mounted slow).cwd)
    × (t.vfs_on ≡ (first_mounted slow).vfs_on)
    × (t.fs_superblk ≡ (first_mounted slow).fs_superblk)
    × IsAlloc t
    × (cnmkdir (codes "a b") t ≡ ok failure t)
cnmkdir-cnopendir_example =
    cnmkdir-cnopendir (first_mounted slow) (first_root slow)
      (dir_inode (stamp slow) blockid_root_dir) (codes "a b") (dots 0 0) refl
      (first_root-IsSmall slow refl) spaced-IsNew.component
      (start-HasBlock slow refl (codes "a b") spaced-IsNew (λ n. omega arith))
      (grown-IsInode slow refl (codes "a b") spaced-IsNew (λ n. omega arith))
