-- ===== src/Blockdev.antt =====
-- src/blockdev.c: a host file mapped into memory and read and written by blocks.
pub mod Laws
use cdnw_sh.Base.{ℕ, Bool, true, false, ltb, ◌==◌, if◌then◌else◌, Bytes}
use cdnw_sh.Params.{bd_size_blocks}
use cdnw_sh.Sys.{
  Sys, M, Code, success, failure, exited, undefined, pure, halt, gets, modify, defined, ◌>>=◌, ◌>>◌,
}

-- What the kernel answers to open, lseek, write and mmap, and the file as it is then mapped.
pub record HostFile : Type 0 where
  pub opens : Bool
  pub stretches : Bool
  pub grows : Bool
  pub maps : Bool
  pub mapped : ℕ → Bytes

unfoldable pub blockdev_attach : HostFile → M Code
blockdev_attach host = do
  attached ← gets (λ s. s.attached)
  if attached then halt exited else do
    if host.opens then pure tt else halt exited
    if host.stretches then pure tt else halt exited
    if host.grows then pure tt else halt exited
    if host.maps then pure tt else halt exited
    modify (λ s. record s { disk = host.mapped; attached = true })
    pure success

unfoldable pub blockdev_detach : M Code
blockdev_detach = do
  attached ← gets (λ s. s.attached)
  if attached then (do modify (λ s. record s { attached = false }); pure success) else halt exited

-- unlink() removes the name of the host file, which is no part of this state.
unfoldable pub blockdev_destroy : M Code
blockdev_destroy = do
  attached ← gets (λ s. s.attached)
  if attached then halt exited else pure success

unfoldable pub write_block : (ℕ → Bytes) → ℕ → Bytes → ℕ → Bytes
write_block disk lba blk l = if l == lba then blk else disk l

-- The block's bytes go to the caller's buffer, which is returned. The guard lets lba =
-- bd_size_blocks through, which is the address behind the mapping.
unfoldable pub blk_read : ℕ → Bytes → M (Code × Bytes)
blk_read lba buf = if ltb bd_size_blocks lba then pure (failure, buf) else do
  mapped ← gets (λ s. s.attached)
  defined mapped
  defined (ltb lba bd_size_blocks)
  blk ← gets (λ s. s.disk lba)
  pure (success, blk)

unfoldable pub blk_write : ℕ → Bytes → M Code
unfolding write_block
blk_write lba buf = if ltb bd_size_blocks lba then pure failure else do
  mapped ← gets (λ s. s.attached)
  defined mapped
  defined (ltb lba bd_size_blocks)
  modify (λ s. record s { disk = write_block s.disk lba buf })
  pure success
