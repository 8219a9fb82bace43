-- ===== src/FileData/Effect.antt =====
-- The effect of a loop, byte by byte and block by block.
use native.Mathlib.Decide.{ℕ_discrete}
use cdnw_sh.Base.{
  ℕ, zero, suc, ◌+◌, ◌*◌, ◌/◌, ◌%◌, ◌≤◌, ◌<◌, ◌≡◌, ◌≢◌, refl, ap, ◌∙◌, sym, Bytes, copy-inside,
  copy-Outside, Outside, arith,
}
use cdnw_sh.Params.{block_size}
use cdnw_sh.Blockdev.{write_block}
use cdnw_sh.Blockdev.Laws.{write_block_self, write_block-ne}
use cdnw_sh.FileData.{block_of, put_block}
use cdnw_sh.FileData.Loops.{fill, spill}

put_block-inside :
    (buf : Bytes) (i : ℕ) (blk : Bytes) (p : ℕ)
    → p / block_size ≡ i
    → put_block buf i blk p ≡ blk (p % block_size)
unfolding put_block
put_block-inside buf i blk p e =
    copy-inside block_size buf (i * block_size) blk 0 p (omega arith) (omega arith)
    ∙ ap blk (omega arith)

put_block-outside :
    (buf : Bytes) (i : ℕ) (blk : Bytes) (p : ℕ) → p / block_size ≢ i → put_block buf i blk p ≡ buf p
unfolding put_block
put_block-outside buf i blk p ne =
    copy-Outside block_size buf (i * block_size) blk 0 p (omega arith)

module _ (ids : ℕ → ℕ) (disk : ℕ → Bytes) where
  pub fill-Outside :
      (left i : ℕ) (buf : Bytes) (p : ℕ)
      → Outside (p / block_size) i left
      → fill ids left i disk buf p ≡ buf p
  unfolding fill
  fill-Outside zero i buf p out = refl
  fill-Outside (suc left) i buf p out =
      fill-Outside left (i + 1) (put_block buf i (disk (ids i))) p (omega arith)
      ∙ put_block-outside buf i (disk (ids i)) p (omega arith)

  -- A byte that the loop covers is that of its block on the disk.
  pub fill-inside :
      (left i : ℕ) (buf : Bytes) (p : ℕ)
      → i ≤ p / block_size
      → p / block_size < i + left
      → fill ids left i disk buf p ≡ disk (ids (p / block_size)) (p % block_size)
  unfolding fill
  fill-inside zero i buf p lo hi = absurd (omega arith)
  fill-inside (suc left) i buf p lo hi = elim (ℕ_discrete (p / block_size) i) [
    | yes here ↦
        fill-Outside left (i + 1) (put_block buf i (disk (ids i))) p (omega arith)
        ∙ put_block-inside buf i (disk (ids i)) p here
        ∙ ap (λ k. disk (ids k) (p % block_size)) (sym here)
    | no later ↦
        fill-inside left (i + 1) (put_block buf i (disk (ids i))) p (omega arith) (omega arith)
  ]

module _ (ids : ℕ → ℕ) (buf : Bytes) where
  -- A block that the loop does not name keeps its content.
  pub spill-other :
      (left i : ℕ) (disk : ℕ → Bytes) (l : ℕ)
      → ((k : ℕ) → i ≤ k → k < i + left → ids k ≢ l)
      → spill ids left i disk buf l ≡ disk l
  unfolding spill
  spill-other zero i disk l other = refl
  spill-other (suc left) i disk l other =
      spill-other left (i + 1) (write_block disk (ids i) (block_of buf i)) l
        (λ k lo hi. other k (omega arith) (omega arith))
      ∙ write_block-ne disk (ids i) (block_of buf i) l
          (λ e. other i (omega arith) (omega arith) (sym e))

  -- A block that the loop names once gets its part of the buffer.
  pub spill-at :
      (left i : ℕ) (disk : ℕ → Bytes) (k : ℕ)
      → i ≤ k
      → k < i + left
      → ((j : ℕ) → i ≤ j → j < i + left → ids j ≡ ids k → j ≡ k)
      → spill ids left i disk buf (ids k) ≡ block_of buf k
  unfolding spill
  spill-at zero i disk k lo hi once = absurd (omega arith)
  spill-at (suc left) i disk k lo hi once = elim (ℕ_discrete i k) [
    | yes here ↦
        spill-other left (i + 1) (write_block disk (ids i) (block_of buf i)) (ids k)
          (λ j lo' hi' e. absurd (omega (arith, once j (omega arith) (omega arith) e)))
        ∙ ap (write_block disk (ids i) (block_of buf i)) (ap ids (sym here))
        ∙ write_block_self disk (ids i) (block_of buf i)
        ∙ ap (block_of buf) here
    | no later ↦
        spill-at left (i + 1) (write_block disk (ids i) (block_of buf i)) k (omega arith)
          (omega arith) (λ j lo' hi' e. once j (omega arith) (omega arith) e)
  ]
