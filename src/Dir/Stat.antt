-- ===== src/Dir/Stat.antt =====
-- cnstat and cnls against the list of entries.
use mathlib.Core.List.{append_assoc, append-nil}
use mathlib.Core.Option
use cdnw_sh.Base.{
  ℕ, zero, suc, ◌+◌, ◌<◌, ◌≡◌, refl, ap, ◌∙◌, inl, inr, Option, some, List, [], ◌∷◌, ◌++◌, length,
  Bytes, load, str_eq, c_string, Bool-cases, arith,
}
use cdnw_sh.Sys.{Sys, DirPtr, ok}
use cdnw_sh.Entry.{Entry}
use cdnw_sh.Entry.Layout.{inode_of}
use cdnw_sh.Dir.{cnrewinddir, scan_fuel, list_names, cnstat}
use cdnw_sh.Dir.Scan.{
  Listing, IsListing, lookup_name, find_in, find_entry-find_in, length-le-stop, readdir_end,
  readdir_next, entry_name-ok, next-IsListing,
}

-- The inode of the first entry of that name.
abbrev pub inode_named : List ℕ → List Entry → Option ℕ
inode_named name es = Option.map (λ (e : Entry). e.inode) (lookup_name name es)

pub find_in-lookup_name :
    (b : Bytes) (name : List ℕ) (off stop : ℕ) (es : List Entry)
    → Listing b off stop es
    → Option.map (λ (o : ℕ). load 4 b o) (find_in name es off).0 ≡ inode_named name es
unfolding find_in lookup_name
find_in-lookup_name b name off stop [] h = refl
find_in-lookup_name b name off stop (e ∷ es) h = elim (Bool-cases (str_eq (c_string e.name) name)) [
  | inl same ↦ rw same (ap some (inode_of b off ∙ ap (λ (x : Entry). x.inode) h.0))
  | inr other ↦ rw other (find_in-lookup_name b name (off + e.entry_len) stop es h.3)
]

pub enough_fuel : (dir : DirPtr) (es : List Entry) → IsListing dir es → length es < scan_fuel dir
enough_fuel dir es h =
    omega (arith, length-le-stop dir.buf.bytes dir.index dir.inode_st.size es h.entries)

-- In a directory that lists the entries es, cnstat ends and returns the inode of the first entry of
-- the name, or -1 if no entry has it; the state is unchanged, and so is the directory but for its
-- index.
pub cnstat-lookup :
    (s : Sys) (dir : DirPtr) (name : List ℕ) (es : List Entry)
    → IsListing (cnrewinddir dir) es
    → cnstat dir name s ≡ ok (inode_named name es, record dir { index = (find_in name es 0).1 }) s
unfolding cnstat cnrewinddir
cnstat-lookup s dir name es h =
    rw
      (find_entry-find_in s name es (scan_fuel dir) (record dir { index = 0 })
        (enough_fuel (record dir { index = 0 }) es h) h)
      (ap (λ o. ok (o, record dir { index = (find_in name es 0).1 }) s)
        (find_in-lookup_name dir.buf.bytes name 0 dir.inode_st.size es h.entries))

-- What ls prints of the entries: the names, each cut at its first NUL, and a newline after each.
unfoldable pub names_text : List Entry → List ℕ
names_text [] = []
names_text (e ∷ es) = (c_string e.name ++ 10 ∷ []) ++ names_text es

-- In a directory that lists the entries from its index on, with fuel for each of them, the loop of
-- ls ends and appends their names in the order of the directory; the state is unchanged.
pub list_names-text :
    (s : Sys) (es : List Entry) (fuel : ℕ) (dir : DirPtr) (text : List ℕ)
    → length es < fuel
    → IsListing dir es
    → list_names fuel dir text s ≡ ok (text ++ names_text es) s
unfolding list_names names_text
list_names-text s es zero dir text lt h = absurd (omega arith)
list_names-text s [] (suc fuel) dir text lt h = rw (readdir_end s dir h) (rw append-nil refl)
list_names-text s (e ∷ es) (suc fuel) dir text lt h = rw (readdir_next s dir e es h) (
    rw (entry_name-ok s dir e es h (dir.index + e.entry_len)) (
      list_names-text s es fuel (record dir { index = dir.index + e.entry_len })
        (text ++ c_string e.name ++ 10 ∷ []) (omega arith) (next-IsListing s dir e es h)
      ∙ ap (λ t. ok t s) (simp append_assoc)))
