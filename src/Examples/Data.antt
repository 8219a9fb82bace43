-- ===== src/Examples/Data.antt =====
-- The states and values of the examples.
use cdnw_sh.Base.{
  ℕ, zero, suc, ◌+◌, ◌<◌, ◌≡◌, refl, true, [], ◌∷◌, Bytes, codes, zeros, store, load, none, arith,
}
use cdnw_sh.Params.{vfs_good}
use cdnw_sh.Sys.{Sys, ilp32, Inode, DirPtr, live}
use cdnw_sh.Alloc.{IsAlloc}
use cdnw_sh.Inode.{zero_inode}
use cdnw_sh.FileData.{calloc_blocks}
use cdnw_sh.FileData.File.{IsFile, block_number}
use cdnw_sh.Mkfs.{superblock, block_bitmap, inode_bitmap}
use cdnw_sh.Mkfs.Bitmaps.{counts_agree, block_bitmap-IsBytes, inode_bitmap-IsBytes}
use cdnw_sh.Mkfs.Fresh.{stamp, formatted, formatted-on, disk-formatted, root-formatted}
use cdnw_sh.Mount.{zero_fd}
use cdnw_sh.Mount.Ready.{IsFresh, root_dir}

-- Every block of the disk starts with the word 118.
abbrev pub filler : Bytes
unfolding store
filler = store 4 zeros 0 118

-- The caches of an empty file system.
abbrev pub device : Sys
device = record {
  abi = ilp32;
  disk = λ l. filler;
  attached = true;
  superblk_cache = superblock;
  block_bm_cache = block_bitmap;
  inode_bm_cache = inode_bitmap;
  fs_state = vfs_good;
  fd_tbl = λ i. zero_fd;
  fd_bm = zeros;
  cwd_str = codes "/";
  cwd = none;
  fs_superblk = true;
  vfs_on = true;
  clock = λ n. n;
  calls = 0;
  garbage = zeros;
}

pub device-IsAlloc : IsAlloc device
device-IsAlloc = record {
  on = refl;
  block_bytes = block_bitmap-IsBytes;
  inode_bytes = inode_bitmap-IsBytes;
  blocks = counts_agree.0;
  inodes = counts_agree.1;
}

-- A file of nine blocks: 110, ..., 117, and 118, which the indirect block lists.
abbrev pub nine : Inode
nine = record zero_inode {
  size = 33000;
  blocks = 9;
  data0 = 110 ∷ 111 ∷ 112 ∷ 113 ∷ 114 ∷ 115 ∷ 116 ∷ 117 ∷ [];
  data1 = 200;
}

pub nine_blocks :
    (s : Sys) → s.disk 200 ≡ filler → (k : ℕ) → k < 9 → block_number s nine k ≡ 110 + k
unfolding load filler
nine_blocks s e zero lt = refl
nine_blocks s e (suc zero) lt = refl
nine_blocks s e (suc (suc zero)) lt = refl
nine_blocks s e (suc (suc (suc zero))) lt = refl
nine_blocks s e (suc (suc (suc (suc zero)))) lt = refl
nine_blocks s e (suc (suc (suc (suc (suc zero))))) lt = refl
nine_blocks s e (suc (suc (suc (suc (suc (suc zero)))))) lt = refl
nine_blocks s e (suc (suc (suc (suc (suc (suc (suc zero))))))) lt = refl
nine_blocks s e (suc (suc (suc (suc (suc (suc (suc (suc zero)))))))) lt = rw e refl
nine_blocks s e (suc (suc (suc (suc (suc (suc (suc (suc (suc k))))))))) lt = absurd (omega arith)

pub nine-IsFile : (s : Sys) → s.attached ≡ true → s.disk 200 ≡ filler → IsFile s nine
nine-IsFile s on e = record {
  on = on;
  few = omega arith;
  range = λ k lt. omega (arith, nine_blocks s e k lt);
  distinct = λ j k lj lk same. omega (arith, same, nine_blocks s e j lj, nine_blocks s e k lk);
  data1_range = λ long. omega arith;
  data1_apart = λ long k lt same. omega (arith, same, nine_blocks s e k lt);
}

-- A disk behind mkfs, and its root directory.
abbrev pub disk : Sys
disk = formatted device

pub disk-IsFresh : IsFresh disk
disk-IsFresh = record {
  on = formatted-on device refl;
  now = stamp device;
  root = root-formatted device refl;
  block = (disk-formatted device refl).3;
}

abbrev pub root : DirPtr
root = root_dir disk disk-IsFresh

-- The file is open as descriptor 3, in a mode, with ten bytes behind the cursor.
abbrev pub nine_open : ℕ → Sys
nine_open mode = record device {
  fd_tbl = λ i. record {
    cache = live (calloc_blocks 9);
    state = mode;
    inode_id = 4;
    inode = nine;
    cursor = 10;
  };
}
