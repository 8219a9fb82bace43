-- ===== src/Dir/Small.antt =====
-- inflatedir on a directory of one block.
use cdnw_sh.Base.{
  ℕ, zero, suc, ◌/◌, ◌%◌, ◌≤◌, ◌<◌, ◌≡◌, refl, sym, ap, ◌∙◌, true, List, get_or, arith,
}
use cdnw_sh.Params.{block_size, bd_size_blocks, inode_count}
use cdnw_sh.Sys.{Sys, Inode, DirPtr, ok}
use cdnw_sh.Inode.{Fits}
use cdnw_sh.Inode.Table.{inode_at, inode_read-ok}
use cdnw_sh.Entry.{Entry}
use cdnw_sh.FileData.{calloc_blocks, direct, llread}
use cdnw_sh.FileData.File.{block_number, IsFile, loaded, llread-loaded}
use cdnw_sh.FileData.RoundTrip.{loaded-byte}
use cdnw_sh.Dir.{inflatedir}
use cdnw_sh.Dir.Scan.{Listing, IsListing, Listing-congr}

-- A directory on the disk: inode `id` of the table is i, which has one block.
pub record IsSmall (s : Sys) (id : ℕ) (i : Inode) : Type 0 where
  pub on : s.attached ≡ true
  pub low : id < inode_count
  pub fits : Fits s.abi id
  pub found : inode_at s id ≡ i
  pub one : i.blocks ≡ 1
  pub block_low : get_or i.data0 0 0 < bd_size_blocks

-- What is loaded of it.
abbrev pub small_dir : Sys → ℕ → Inode → DirPtr
small_dir s id i = record {
  inode_st = i;
  inode_id = id;
  index = 0;
  buf = record (calloc_blocks i.blocks) { bytes = loaded s i (calloc_blocks i.blocks).bytes };
}

module _ (s : Sys) (id : ℕ) (i : Inode) (h : IsSmall s id i) where
  range : (k : ℕ) → k < i.blocks → block_number s i k < bd_size_blocks
  range zero lt = h.block_low
  range (suc k) lt = absurd (omega (arith, h.one))

  small-IsFile : IsFile s i
  small-IsFile = record {
    on = h.on;
    few = omega (arith, h.one);
    range = range;
    distinct = λ j k lj lk e. omega (arith, h.one);
    data1_range = λ long. absurd (omega (arith, h.one));
    data1_apart = λ long. absurd (omega (arith, h.one));
  }

  pub llread-small :
      llread i (calloc_blocks i.blocks) s
      ≡ ok (record (calloc_blocks i.blocks) { bytes = loaded s i (calloc_blocks i.blocks).bytes }) s
  llread-small = llread-loaded s i small-IsFile (calloc_blocks i.blocks) (omega arith)

  pub inflatedir-small : inflatedir id s ≡ ok (small_dir s id i) s
  unfolding inflatedir
  inflatedir-small = rw (inode_read-ok s h.on id h.low h.fits) (rw h.found (rw llread-small refl))

  small-byte :
      (j : ℕ) → j < block_size → (small_dir s id i).buf.bytes j ≡ s.disk (get_or i.data0 0 0) j
  small-byte j lt =
      let first : j / block_size ≡ 0 = omega arith in
      let same : j % block_size ≡ j = omega arith in
      loaded-byte s i small-IsFile (calloc_blocks i.blocks).bytes j (omega (arith, h.one))
      ∙ ap (λ k. s.disk (block_number s i k) (j % block_size)) first
      ∙ ap (s.disk (direct i 0)) same

  -- It lists what its block does.
  pub small-IsListing :
      (es : List Entry)
      → i.size ≤ block_size
      → Listing (s.disk (get_or i.data0 0 0)) 0 i.size es
      → IsListing (small_dir s id i) es
  small-IsListing es short listed = record {
    fits = omega (arith, h.one);
    small = omega (arith, h.one);
    entries =
        Listing-congr (s.disk (get_or i.data0 0 0)) (small_dir s id i).buf.bytes 0 i.size es
          (λ j lo hi. sym (small-byte j (omega (arith, hi, short)))) listed;
  }
