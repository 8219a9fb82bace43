-- ===== src/Mkfs/Dots.antt =====
-- The block of a new directory, as a list of entries.
use cdnw_sh.Base.{
  ℕ, ◌<◌, ◌^◌, refl, sym, ap, ◌∙◌, inl, codes, List, [], ◌∷◌, length, All, zeros, arith,
}
use cdnw_sh.Entry.{Entry, IsEntry, put_entry}
use cdnw_sh.Entry.Layout.{get_entry-put_entry, put_entry-Outside, get_entry_congr}
use cdnw_sh.Dir.Scan.{Listing}
use cdnw_sh.Mkfs.{dot_entry, dot_entries}

-- The entries of an empty directory.
abbrev pub dots : ℕ → ℕ → List Entry
dots self parent = dot_entry self (codes ".") ∷ dot_entry parent (codes "..") ∷ []

dot-IsEntry :
    (inode : ℕ) (name : List ℕ)
    → inode < 2 ^ 32
    → length name < 256
    → All (λ c. c < 256) name
    → IsEntry (dot_entry inode name)
dot-IsEntry inode name fits short bytes = record {
  inode_fits = fits;
  entry_len_fits = omega arith;
  file_type_fits = omega arith;
  named = refl;
  name_fits = short;
  name_bytes = bytes;
}

pub dots-Listing :
    (self parent : ℕ)
    → self < 2 ^ 32
    → parent < 2 ^ 32
    → Listing (dot_entries self parent) 0 24 (dots self parent)
unfolding dot_entries
dots-Listing self parent fits fits' =
    let one = dot_entry self (codes ".") in
    let two = dot_entry parent (codes "..") in
    let is_one = dot-IsEntry self (codes ".") fits (omega arith) (omega arith) in
    let is_two = dot-IsEntry parent (codes "..") fits' (omega arith) (omega arith) in
    let b = put_entry zeros 0 one in
    let first = get_entry-put_entry zeros 0 one is_one in
    (
      sym (
            get_entry_congr b (put_entry b 12 two) 0 (λ j lo hi. sym (
              put_entry-Outside b 12 two is_two j
                (inl (omega (arith, hi, ap (λ (x : Entry). x.name_len) first))))))
          ∙ first,
      omega arith,
      omega arith,
      (get_entry-put_entry b 12 two is_two, omega arith, omega arith, refl),
    )
