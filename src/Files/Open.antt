-- ===== src/Files/Open.antt =====
-- The descriptor that cnopen returns.
use mathlib.Core.Path.{subst}
use cdnw_sh.Base.{
  ℕ, ◌⊎◌, Bytes, ◌/◌, ◌<◌, ◌≡◌, ◌≢◌, refl, ap, ◌∙◌, ltb→lt, true, false, ltb, ◌==◌, Option, none,
  some, List, Bool-cases, inl, inr, ne→not-==, ==_refl, arith,
}
use cdnw_sh.Params.{block_size, max_fd, fd_free}
use cdnw_sh.Sys.{Sys, After-bind, FdEntry, DirPtr, After, M, pure, ◌>>=◌}
use cdnw_sh.Bitmap.{set_bitmap, find_free_bit, find_byte}
use cdnw_sh.Bitmap.Find.{free_before}
use cdnw_sh.Files.{minus_one, update_fd, free_fd, set_fd, open_inode, cnopen}
use cdnw_sh.Files.Table.{IsTable}
use cdnw_sh.Files.Calls.{Is, load_cache-Gives, stat_or_creat-Kept}
use cdnw_sh.Frame.{Fds, fds, Gives, After-from, After-Kept}
use cdnw_sh.Frame.Disk.{inode_read-Kept}

-- The lowest descriptor that is free in the table.
pub record IsLowest (d : Fds) (fd : ℕ) : Type 0 where
  pub low : fd < max_fd
  pub free : ((d.0 fd).state == fd_free) ≡ true
  pub below : (j : ℕ) → j < fd → ((d.0 j).state == fd_free) ≡ false

-- The table behind, where the descriptor was opened in the mode.
pub record Opens (d d' : Fds) (fd mode : ℕ) : Type 0 where
  pub lowest : IsLowest d fd
  pub opened : (d'.0 fd).state ≡ mode
  pub at_start : (d'.0 fd).cursor ≡ 0
  pub others : (j : ℕ) → j ≢ fd → d'.0 j ≡ d.0 j

pub free_fd-Gives : (s : Sys) → IsTable (fds s) → Gives (Is (fds s)) (IsLowest (fds s)) (free_fd s)
unfolding free_fd
free_fd-Gives s h = elim (Bool-cases (ltb (find_byte block_size s.fd_bm 0) (max_fd / 8))) [
  | inl stops ↦
      let (low, clear, below) =
        free_before s.fd_bm h.bytes (max_fd / 8) (omega arith) (ltb→lt _ _ stops) in
      rw stops (record {
        given = (
          refl,
          record {
            low = omega (arith, low);
            free = ground (arith, h.agree (find_free_bit s.fd_bm) (omega (arith, low)), clear);
            below = λ j lt. ground (arith, h.agree j (omega (arith, low, lt)), below j lt);
          },
        );
      })
  | inr full ↦ rw full (record { given = tt })
]

IsLowest-Gives : (s : Sys) (d : Fds) → fds s ≡ d → IsTable d → Gives (Is d) (IsLowest d) (free_fd s)
IsLowest-Gives s d same h =
    subst {A = Fds} (λ e. IsTable e → Gives (Is e) (IsLowest e) (free_fd s)) same (free_fd-Gives s)
      h

updated-Opens :
    (d e : Fds) (bm : Bytes) (fd : ℕ) (fde : FdEntry)
    → e.0 ≡ d.0
    → IsLowest d fd
    → fde.cursor ≡ 0
    → Opens d (update_fd e.0 fd fde, bm) fd fde.state
unfolding update_fd
updated-Opens d e bm fd fde same lowest start = record {
  lowest = lowest;
  opened = rw (==_refl fd) refl;
  at_start = rw (==_refl fd) start;
  others = λ j ne. rw (ne→not-== j fd ne) (ap (λ (tbl : ℕ → FdEntry). tbl j) same);
}

open_inode-Opens :
    (inode_id mode : ℕ) (s : Sys) (d : Fds)
    → fds s ≡ d
    → IsTable d
    → After (λ fd t. Opens d (fds t) fd mode) (open_inode inode_id mode s)
unfolding open_inode set_fd
open_inode-Opens inode_id mode s d same h =
    After-from _ _ _ (IsLowest-Gives s d same h) (λ fd t e lowest.
      After-Kept {P = Is (t.fd_tbl, set_bitmap t.fd_bm fd)} _ _ _ (inode_read-Kept inode_id _ refl)
        (λ i u e'.
          After-from {P = Is (t.fd_tbl, set_bitmap t.fd_bm fd)} _ _ _ (load_cache-Gives i u e')
            (λ c v e2 sound.
              updated-Opens d (fds v) _ fd
                (record { cache = c; state = mode; inode_id = inode_id; inode = i; cursor = 0 })
                (ap (λ (x : Fds). x.0) e2 ∙ ap (λ (x : Fds). x.0) e) lowest refl)))

abbrev Opened : Fds → ℕ → ℕ × DirPtr → Sys → Type 0
Opened d mode p t = ((p.0 ≡ minus_one) × (fds t ≡ d)) ⊎ Opens d (fds t) p.0 mode

found-Opened :
    (found : Option ℕ) (dir : DirPtr) (mode : ℕ) (s : Sys) (d : Fds)
    → fds s ≡ d
    → IsTable d
    → After (Opened d mode) (
        (elim found as (λ _. M (ℕ × DirPtr)) [
          | none ↦ pure (minus_one, dir)
          | some inode ↦ open_inode inode mode >>= λ fd. pure (fd, dir)
        ])
          s)
found-Opened none dir mode s d same h = inl (refl, same)
found-Opened (some inode) dir mode s d same h =
    After-bind (λ fd t. Opens d (fds t) fd mode) (Opened d mode) _ _
      (open_inode-Opens inode mode s d same h) (λ fd t o. inr o)

-- Where the descriptor table agrees with its bitmap, and wherever cnopen returns: it either returns
-- -1 and leaves the table and the bitmap as they were, or returns the lowest descriptor that was
-- free, which is below 1024; it is then open in the mode, with its cursor at 0, and every other
-- descriptor is as it was.
pub cnopen-Opens :
    (dir : DirPtr) (name : List ℕ) (mode : ℕ) (s : Sys)
    → IsTable (fds s)
    → After
        (λ p t. ((p.0 ≡ minus_one) × (fds t ≡ fds s)) ⊎ Opens (fds s) (fds t) p.0 mode)
        (cnopen dir name mode s)
unfolding cnopen
cnopen-Opens dir name mode s h =
    After-Kept {P = Is (fds s)} _ _ _ (stat_or_creat-Kept dir name mode s refl)
      (λ p t e. found-Opened p.0 p.1 mode t (fds s) e h)
