-- ===== src/Files/Table.antt =====
-- The descriptor table against its bitmap, over cnopen, cnclose, cnread, cnseek and cnwrite.
use cdnw_sh.Base.{ℕ, ◌<◌, ◌≡◌, refl, ◌∙◌, Bool, true, false, ◌==◌, not, Bytes, IsBytes, List, arith}
use cdnw_sh.Params.{max_fd, fd_free}
use cdnw_sh.Sys.{Sys, Buffer, FdEntry, Inode, Cache, null, dangling, live}
use cdnw_sh.Bitmap.{read_bitmap, set_bitmap, clear_bitmap}
use cdnw_sh.Bitmap.Laws.{read-set, read-clear, set-IsBytes, clear-IsBytes}
use cdnw_sh.Files.{update_fd, get_fd, set_fd, cnclose, written}
use cdnw_sh.Frame.{Fds, fds, Kept, keeps}

-- The pointer to the data was freed.
abbrev pub is_dangling : Cache → Bool
is_dangling null = false
is_dangling dangling = true
is_dangling (live buf) = false

-- A bit of fd_bm is set exactly where the entry of fd_tbl is in use, and only an entry that is free
-- may have a pointer to freed data.
pub record IsTable (d : Fds) : Type 0 where
  pub bytes : IsBytes d.1
  pub agree : (fd : ℕ) → fd < max_fd → read_bitmap d.1 fd ≡ not ((d.0 fd).state == fd_free)
  pub no_freed :
      (fd : ℕ)
      → fd < max_fd
      → ((d.0 fd).state == fd_free) ≡ false
      → is_dangling (d.0 fd).cache ≡ false

-- An entry is replaced by one that is as open as it was.
pub same-IsTable :
    (tbl : ℕ → FdEntry) (bm : Bytes) (fd : ℕ) (fde : FdEntry)
    → IsTable (tbl, bm)
    → (fde.state == fd_free) ≡ ((tbl fd).state == fd_free)
    → ((fde.state == fd_free) ≡ false → is_dangling fde.cache ≡ false)
    → IsTable (update_fd tbl fd fde, bm)
unfolding update_fd
same-IsTable tbl bm fd fde h state cache = record {
  bytes = h.bytes;
  agree = λ j lt. ground (arith, h.agree j lt, state);
  no_freed = λ j lt is_open. ground (arith, h.no_freed j lt, cache);
}

pub opened-IsTable :
    (tbl : ℕ → FdEntry) (bm : Bytes) (fd : ℕ) (fde : FdEntry)
    → IsTable (tbl, bm)
    → (fde.state == fd_free) ≡ false
    → is_dangling fde.cache ≡ false
    → IsTable (update_fd tbl fd fde, set_bitmap bm fd)
unfolding update_fd
opened-IsTable tbl bm fd fde h state cache = record {
  bytes = set-IsBytes bm h.bytes fd;
  agree = λ j lt. ground (arith, h.agree j lt, read-set bm h.bytes fd j);
  no_freed = λ j lt is_open. ground (arith, h.no_freed j lt);
}

closed-IsTable :
    (tbl : ℕ → FdEntry) (bm : Bytes) (fd : ℕ) (fde : FdEntry)
    → IsTable (tbl, bm)
    → (fde.state == fd_free) ≡ true
    → IsTable (update_fd tbl fd fde, clear_bitmap bm fd)
unfolding update_fd
closed-IsTable tbl bm fd fde h state = record {
  bytes = clear-IsBytes bm h.bytes fd;
  agree = λ j lt. ground (arith, h.agree j lt, read-clear bm h.bytes fd j);
  no_freed = λ j lt is_open. ground (arith, h.no_freed j lt);
}

pub cnclose-IsTable : (fd : ℕ) (s : Sys) → IsTable (fds s) → Kept IsTable (cnclose fd s)
unfolding cnclose get_fd set_fd
cnclose-IsTable fd s h = search (keeps, closed-IsTable) depth 12

-- A descriptor as open as another, and with a freed pointer only where that one has it.
pub record IsLike (fde fde' : FdEntry) : Type 0 where
  pub state : fde'.state ≡ fde.state
  pub cache : is_dangling fde.cache ≡ false → is_dangling fde'.cache ≡ false

pub same-IsLike : (fde : FdEntry) → IsLike fde fde
same-IsLike fde = record { state = refl; cache = λ c. c }

pub moved-IsLike : (fde : FdEntry) (cursor : ℕ) → IsLike fde (record fde { cursor = cursor })
moved-IsLike fde cursor = record { state = refl; cache = λ c. c }

pub IsLike-IsLike :
    (fde fde' fde'' : FdEntry) → IsLike fde fde' → IsLike fde' fde'' → IsLike fde fde''
IsLike-IsLike fde fde' fde'' h h' = record {
  state = h'.state ∙ h.state;
  cache = λ c. h'.cache (h.cache c);
}

pub expanded-IsLike :
    (fde : FdEntry) (buf : Buffer) (i : Inode)
    → IsLike fde (record fde { cache = live buf; inode = i })
expanded-IsLike fde buf i = record { state = refl; cache = λ _. refl }

pub written-IsLike :
    (fde : FdEntry) (bytes : List ℕ) (cursor : ℕ)
    → IsLike fde (record fde { cache = written fde.cache fde.cursor bytes; cursor = cursor })
unfolding written
written-IsLike fde bytes cursor = record {
  state = refl;
  cache = λ h.
      elim fde.cache
          as (λ c. is_dangling c ≡ false → is_dangling (written c fde.cursor bytes) ≡ false) [
            | null ↦ λ e. e
            | dangling ↦ λ e. e
            | live buf ↦ λ e. refl
          ]
        h;
}
