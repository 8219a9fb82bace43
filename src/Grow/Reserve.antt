-- ===== src/Grow/Reserve.antt =====
-- The direct blocks that a file gets when it grows.
use native.Mathlib.Decide.{ℕ_discrete, dec_lt}
use cdnw_sh.Base.{
  ℕ, zero, suc, ◌+◌, ◌-◌, ◌≤◌, ◌<◌, ◌≡◌, ◌≢◌, refl, ap, ◌∙◌, sym, true, false, ◌==◌, if◌then◌else◌,
  min, length, get_or, set, length-set, get_or-set_self, get_or-set_ne, ==_refl, le→leb, le→not-ltb,
  lt→ltb, arith,
}
use cdnw_sh.Params.{bd_size_blocks}
use cdnw_sh.Sys.{Sys, Inode, ok}
use cdnw_sh.Bitmap.{read_bitmap}
use cdnw_sh.Alloc.{IsAlloc, free_block_count}
use cdnw_sh.Alloc.Blocks.{next_block, reserved_block, reserve_block-ok}
use cdnw_sh.Grow.{reserve_direct, grow_direct, grow_indirect, realloc_fs_blocks}

-- Block k of the file.
abbrev pub direct_of : Inode → ℕ → ℕ
direct_of inode k = get_or inode.data0 k 0

-- How a file and the block bitmap are after `left` blocks were reserved for the file.
pub record Grown (s : Sys) (inode : Inode) (left : ℕ) (t : Sys) (inode' : Inode) : Type 0 where
  pub alloc : IsAlloc t
  pub count : inode'.blocks ≡ inode.blocks + left
  pub same_size : length inode'.data0 ≡ length inode.data0
  pub old : (k : ℕ) → k < inode.blocks → direct_of inode' k ≡ direct_of inode k
  pub low :
      (k : ℕ) → inode.blocks ≤ k → k < inode.blocks + left → direct_of inode' k < bd_size_blocks
  pub fresh :
      (k : ℕ)
      → inode.blocks ≤ k
      → k < inode.blocks + left
      → read_bitmap s.block_bm_cache (direct_of inode' k) ≡ false
  pub taken :
      (k : ℕ)
      → inode.blocks ≤ k
      → k < inode.blocks + left
      → read_bitmap t.block_bm_cache (direct_of inode' k) ≡ true
  pub kept : (b : ℕ) → read_bitmap s.block_bm_cache b ≡ true → read_bitmap t.block_bm_cache b ≡ true
  pub distinct :
      (j k : ℕ)
      → inode.blocks ≤ j
      → j < k
      → k < inode.blocks + left
      → direct_of inode' j ≢ direct_of inode' k

-- One round: the block that is reserved, and the file with it.
abbrev with_next : Sys → Inode → Inode
with_next s inode = record inode {
  data0 = set inode.data0 inode.blocks (next_block s);
  blocks = inode.blocks + 1;
}

none_reserved : (s : Sys) (inode : Inode) → IsAlloc s → Grown s inode 0 s inode
none_reserved s inode h = record {
  alloc = h;
  count = omega arith;
  same_size = refl;
  old = λ k lt. refl;
  low = λ k lo hi. absurd (omega arith);
  fresh = λ k lo hi. absurd (omega arith);
  taken = λ k lo hi. absurd (omega arith);
  kept = λ b e. e;
  distinct = λ j k lo lt hi. absurd (omega arith);
}

module _ (s : Sys) (inode : Inode) (h : IsAlloc s) (free : 0 < free_block_count s)
    (room : inode.blocks < length inode.data0) where
  bits_after :
      (j : ℕ)
      → read_bitmap (reserved_block s).block_bm_cache j
        ≡ (if j == next_block s then true else read_bitmap s.block_bm_cache j)
  bits_after = (reserve_block-ok s h free).4

  stays_used :
      (b : ℕ)
      → read_bitmap s.block_bm_cache b ≡ true
      → read_bitmap (reserved_block s).block_bm_cache b ≡ true
  stays_used b e = ground (arith, bits_after b)

  was_clear :
      (b : ℕ)
      → read_bitmap (reserved_block s).block_bm_cache b ≡ false
      → (read_bitmap s.block_bm_cache b ≡ false) × (b ≢ next_block s)
  was_clear b e = (ground (arith, bits_after b), λ same. ground (arith, bits_after b, same))

  -- The blocks that are reserved after the next one make the file grown by one more.
  Grown-next :
      (left : ℕ) (t : Sys) (inode' : Inode)
      → Grown (reserved_block s) (with_next s inode) left t inode'
      → Grown s inode (suc left) t inode'
  Grown-next left t inode' g =
      let b = next_block s in
      let first : direct_of inode' inode.blocks ≡ b =
        g.old inode.blocks (omega arith) ∙ get_or-set_self inode.data0 inode.blocks b 0 room in
      let used : read_bitmap (reserved_block s).block_bm_cache b ≡ true =
        bits_after b ∙ ap (λ x. if x then true else read_bitmap s.block_bm_cache b) (==_refl b) in
      record {
        alloc = g.alloc;
        count = omega (arith, g.count);
        same_size = g.same_size ∙ length-set inode.data0 inode.blocks b;
        old = λ k lt.
            g.old k (omega arith)
            ∙ get_or-set_ne inode.data0 inode.blocks k b 0 (λ e. omega (arith, e));
        low = λ k lo hi. elim (ℕ_discrete k inode.blocks) [
          | yes e ↦ rw (e, first) (reserve_block-ok s h free).1
          | no ne ↦ g.low k (omega arith) (omega arith)
        ];
        fresh = λ k lo hi. elim (ℕ_discrete k inode.blocks) [
          | yes e ↦ rw (e, first) (reserve_block-ok s h free).2
          | no ne ↦ (was_clear _ (g.fresh k (omega arith) (omega arith))).0
        ];
        taken = λ k lo hi. elim (ℕ_discrete k inode.blocks) [
          | yes e ↦ rw (e, first) (g.kept b used)
          | no ne ↦ g.taken k (omega arith) (omega arith)
        ];
        kept = λ c e. g.kept c (stays_used c e);
        distinct = λ j k lo lt hi. elim (ℕ_discrete j inode.blocks) [
          | yes e ↦
              rw (e, first)
                (λ same. (was_clear _ (g.fresh k (omega arith) (omega arith))).1 (sym same))
          | no ne ↦ g.distinct j k (omega arith) lt (omega arith)
        ];
      }

-- With enough free blocks and room in data0, the loop ends, and the file is grown by a block for
-- each round.
pub reserve_direct-Grown :
    (left : ℕ) (s : Sys) (inode : Inode)
    → IsAlloc s
    → left ≤ free_block_count s
    → inode.blocks + left ≤ length inode.data0
    → (t : Sys) × (inode' : Inode) × (reserve_direct left inode s ≡ ok inode' t)
      × Grown s inode left t inode'
unfolding reserve_direct
reserve_direct-Grown zero s inode h free room = (s, inode, refl, none_reserved s inode h)
reserve_direct-Grown (suc left) s inode h free room =
    let ok_block = reserve_block-ok s h (omega arith) in
    let (t, inode', run, g) =
      reserve_direct-Grown left (reserved_block s) (with_next s inode) ok_block.6
        (omega (arith, ok_block.5))
        (omega (arith, length-set inode.data0 inode.blocks (next_block s))) in
    (t, inode', rw ok_block.0 run, Grown-next s inode h (omega arith) (omega arith) left t inode' g)

-- Where the direct blocks are enough, the rest of realloc_fs_blocks does nothing.
realloc_direct :
    (s : Sys) (inode : Inode) (blocks_needed : ℕ) (t : Sys) (inode' : Inode)
    → inode.blocks < blocks_needed
    → blocks_needed ≤ 8
    → reserve_direct (blocks_needed - inode.blocks) inode s ≡ ok inode' t
    → blocks_needed ≤ inode'.blocks
    → realloc_fs_blocks inode blocks_needed s ≡ ok inode' t
unfolding realloc_fs_blocks grow_direct grow_indirect
realloc_direct s inode blocks_needed t inode' more short run enough =
    let least : min 8 blocks_needed ≡ blocks_needed = omega arith in
    rw
      (
        lt→ltb inode.blocks blocks_needed more,
        le→leb inode.blocks 8 (omega arith),
        least,
        run,
        le→not-ltb inode'.blocks blocks_needed enough,
      )
      refl

-- Where the caches agree, and a file that has its direct block numbers grows to at most eight
-- blocks on a disk with enough free ones: its old blocks stay, and each new one lies on the
-- device, was free, is marked used, and is no other new block. No block becomes free, and the
-- caches agree with each other afterwards.
pub realloc_fs_blocks-Grown :
    (s : Sys) (inode : Inode) (blocks_needed : ℕ)
    → IsAlloc s
    → inode.blocks ≤ blocks_needed
    → blocks_needed ≤ 8
    → blocks_needed ≤ length inode.data0
    → blocks_needed - inode.blocks ≤ free_block_count s
    → (t : Sys) × (inode' : Inode) × (realloc_fs_blocks inode blocks_needed s ≡ ok inode' t)
      × Grown s inode (blocks_needed - inode.blocks) t inode'
unfolding realloc_fs_blocks
realloc_fs_blocks-Grown s inode blocks_needed h le short room free =
    elim (dec_lt inode.blocks blocks_needed) [
      | yes more ↦
          (let (t, inode', run, g) =
              reserve_direct-Grown (blocks_needed - inode.blocks) s inode h free (omega arith) in
            (
              t,
              inode',
              realloc_direct s inode blocks_needed t inode' more short run (omega (arith, g.count)),
              g,
            ))
      | no none_more ↦
          (let none_left : blocks_needed - inode.blocks ≡ 0 = omega arith in
            (
              s,
              inode,
              rw (le→not-ltb inode.blocks blocks_needed (omega arith)) refl,
              rw none_left (none_reserved s inode h),
            ))
    ]
