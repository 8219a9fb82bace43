-- ===== src/Sys.antt =====
-- The state that the C files share, and the actions on it. An action ends with a result, or stops:
-- by exit(1), by undefined behaviour, or because the model's fuel for a loop ran out.
use cdnw_sh.Base.{ℕ, suc, Bool, true, false, Option, List, Bytes}

-- The data models of the C compiler that the struct layouts depend on: time_t has 4 or 8 bytes.
pub data Abi : Type 0 where
  ilp32 lp64 : Abi

-- inode of include/inode.h
pub record Inode : Type 0 where
  pub type : ℕ
  pub size : ℕ
  pub blocks : ℕ
  pub modified : ℕ
  pub data0 : List ℕ
  pub data1 : ℕ
  pub data2 : ℕ
  pub padding : ℕ

-- What a pointer from calloc points to: `cap` bytes.
pub record Buffer : Type 0 where
  pub cap : ℕ
  pub bytes : Bytes

-- dir_ptr of include/fs.h
pub record DirPtr : Type 0 where
  pub inode_st : Inode
  pub inode_id : ℕ
  pub index : ℕ
  pub buf : Buffer

-- The `data` pointer of a file descriptor: NULL, to a buffer, or to a buffer that was freed.
pub data Cache : Type 0 where
  null dangling : Cache
  live : Buffer → Cache

-- fd_entry of include/fs.h
pub record FdEntry : Type 0 where
  pub cache : Cache
  pub state : ℕ
  pub inode_id : ℕ
  pub inode : Inode
  pub cursor : ℕ

pub record Sys : Type 0 where
  pub abi : Abi
  -- blockdev.c: the mapped file, by blocks, and the flag
  pub disk : ℕ → Bytes
  pub attached : Bool
  -- fs.c
  pub superblk_cache : Bytes
  pub block_bm_cache : Bytes
  pub inode_bm_cache : Bytes
  pub fs_state : ℕ
  pub fd_tbl : ℕ → FdEntry
  pub fd_bm : Bytes
  pub cwd_str : List ℕ
  pub cwd : Option DirPtr
  -- fs.superblk points to the cache: NULL, where it is false, before the first mount
  pub fs_superblk : Bool
  -- shell_server.vfs == VFS_STATUS_ON
  pub vfs_on : Bool
  -- the answers of time(), and how many were asked for; what memory from malloc holds
  pub clock : ℕ → ℕ
  pub calls : ℕ
  pub garbage : Bytes

pub data Stop : Type 0 where
  exited undefined out_of_fuel : Stop

pub data Run (A : Type 0) : Type 0 where
  ok : A → Sys → Run A
  stop : Stop → Run A

-- The results 0 and -1 of the functions that return int8_t.
pub data Code : Type 0 where
  success failure : Code

abbrev pub M : Type 0 → Type 0
M A = Sys → Run A

abbrev pub pure : {A : Type 0} → A → M A
pure a s = ok a s

abbrev pub halt : {A : Type 0} → Stop → M A
halt r s = stop r

abbrev pub gets : {A : Type 0} → (Sys → A) → M A
gets f s = ok (f s) s

abbrev pub modify : (Sys → Sys) → M (Unit {0})
modify f s = ok tt (f s)

module _ {A B : Type 0} where
  abbrev pub and_then : Run A → (A → M B) → Run B
  and_then (ok a s) k = k a s
  and_then (stop r) k = stop r

  infixl 5 ◌>>=◌ ◌>>◌
  abbrev pub ◌>>=◌ : M A → (A → M B) → M B
  ◌>>=◌ m k s = and_then (m s) k

  abbrev pub ◌>>◌ : M A → M B → M B
  ◌>>◌ m n s = and_then (m s) (λ _. n)

-- Undefined behaviour unless the test holds.
abbrev pub defined : Bool → M (Unit {0})
defined true s = ok tt s
defined false s = stop undefined

-- time(NULL)
unfoldable pub time : M ℕ
time s = ok (s.clock s.calls) (record s { calls = suc s.calls })

-- The result, if there is one, has the property.
abbrev pub Ensures : {A : Type 0} → (A → Type 0) → Run A → Type 0
Ensures P (ok a s) = P a
Ensures P (stop r) = Unit {0}

pub Ensures-bind :
    {A B : Type 0} (P : A → Type 0) (Q : B → Type 0) (r : Run A) (k : A → M B)
    → Ensures P r
    → ((a : A) (s : Sys) → P a → Ensures Q (k a s))
    → Ensures Q (and_then r k)
Ensures-bind P Q (ok a s) k h next = next a s h
Ensures-bind P Q (stop r) k h next = tt

-- Where nothing need be known of the first result.
pub Ensures-after :
    {A B : Type 0} (Q : B → Type 0) (r : Run A) (k : A → M B)
    → ((a : A) (s : Sys) → Ensures Q (k a s))
    → Ensures Q (and_then r k)
Ensures-after Q (ok a s) k next = next a s
Ensures-after Q (stop r) k next = tt

-- The result, if there is one, and the state behind it have the property.
abbrev pub After : {A : Type 0} → (A → Sys → Type 0) → Run A → Type 0
After P (ok a s) = P a s
After P (stop r) = Unit {0}

pub After-bind :
    {A B : Type 0} (P : A → Sys → Type 0) (Q : B → Sys → Type 0) (r : Run A) (k : A → M B)
    → After P r
    → ((a : A) (s : Sys) → P a s → After Q (k a s))
    → After Q (and_then r k)
After-bind P Q (ok a s) k h next = next a s h
After-bind P Q (stop r) k h next = tt
