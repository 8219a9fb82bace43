-- ===== src/Entry.antt =====
-- dir_entry of include/fs.h: a directory is a sequence of them, each entry_len bytes long.
pub mod Layout
use cdnw_sh.Base.{
  ℕ, ◌+◌, ◌-◌, ◌%◌, ◌<◌, ◌^◌, ◌≡◌, List, [], ◌∷◌, length, All, Bytes, load, bytes_at, put_bytes,
  c_string,
}
use cdnw_sh.Inode.Fields.{put_fields}

pub record Entry : Type 0 where
  pub inode : ℕ
  pub entry_len : ℕ
  pub name_len : ℕ
  pub file_type : ℕ
  pub name : List ℕ

abbrev pub header : Entry → List (ℕ × ℕ × ℕ)
header e = (0, 4, e.inode) ∷ (4, 2, e.entry_len) ∷ (6, 1, e.name_len) ∷ (7, 1, e.file_type) ∷ []

-- The members are stored, and the name is copied behind them without its NUL.
unfoldable pub put_entry : Bytes → ℕ → Entry → Bytes
unfolding put_fields put_bytes
put_entry b off e = put_bytes (put_fields b off (header e)) (off + 8) e.name

unfoldable pub get_entry : Bytes → ℕ → Entry
unfolding load bytes_at
get_entry b off = record {
  inode = load 4 b (off + 0);
  entry_len = load 2 b (off + 4);
  name_len = load 1 b (off + 6);
  file_type = load 1 b (off + 7);
  name = bytes_at (load 1 b (off + 6)) b (off + 8);
}

-- entry_len = name_len + 8; entry_len += 4 - entry_len % 4
unfoldable pub padded_len : ℕ → ℕ
padded_len name_len = name_len + 8 + (4 - (name_len + 8) % 4)

-- The members fit their types, and name_len is the length of the name.
pub record IsEntry (e : Entry) : Type 0 where
  pub inode_fits : e.inode < 2 ^ 32
  pub entry_len_fits : e.entry_len < 2 ^ 16
  pub file_type_fits : e.file_type < 256
  pub named : e.name_len ≡ length e.name
  pub name_fits : length e.name < 256
  pub name_bytes : All (λ c. c < 256) e.name
