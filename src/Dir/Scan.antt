-- ===== src/Dir/Scan.antt =====
-- Directories as lists of entries: what the loops over cnreaddir find in a directory in order.
use cdnw_sh.Base.{
  ℕ, zero, suc, ◌+◌, ◌%◌, ◌≤◌, ◌<◌, ◌^◌, ◌≡◌, refl, ap, ◌∙◌, sym, inl, inr, if◌then◌else◌, Option,
  none, some, List, [], ◌∷◌, ◌++◌, length, Bytes, bytes_at, str_eq, c_string, Bool-cases, le→leb,
  not-leb, arith,
}
use cdnw_sh.Sys.{Sys, DirPtr, ok}
use cdnw_sh.Entry.{Entry, get_entry}
use cdnw_sh.Entry.Layout.{get_entry_congr, inode_of, entry_len_of, name_len_of, name_of}
use cdnw_sh.Dir.{cnreaddir, raw_name, entry_name, entry_inode, find_entry}

-- From off to stop the bytes are the entries, each with its name inside its entry_len.
abbrev pub Listing : Bytes → ℕ → ℕ → List Entry → Type 0
Listing b off stop [] = off ≡ stop
Listing b off stop (e ∷ es) =
    (get_entry b off ≡ e)
    × (8 + e.name_len ≤ e.entry_len)
    × (off + e.entry_len ≤ stop)
    × Listing b (off + e.entry_len) stop es

-- A directory in memory that lists the entries es from its index on.
pub record IsListing (dir : DirPtr) (es : List Entry) : Type 0 where
  pub fits : dir.inode_st.size ≤ dir.buf.cap
  pub small : dir.buf.cap < 2 ^ 32
  pub entries : Listing dir.buf.bytes dir.index dir.inode_st.size es

-- The first entry of that name.
unfoldable pub lookup_name : List ℕ → List Entry → Option Entry
lookup_name name [] = none
lookup_name name (e ∷ es) =
    let rest = lookup_name name es in if str_eq (c_string e.name) name then some e else rest

-- The offset of that entry, and the offset behind it or behind the last entry.
unfoldable pub find_in : List ℕ → List Entry → ℕ → Option ℕ × ℕ
find_in name [] off = (none, off)
find_in name (e ∷ es) off =
    let rest = find_in name es (off + e.entry_len) in
    if str_eq (c_string e.name) name then (some off, off + e.entry_len) else rest

module _ (s : Sys) (dir : DirPtr) where
  pub readdir_end : IsListing dir [] → cnreaddir dir s ≡ ok (none, dir) s
  unfolding cnreaddir
  readdir_end h = rw (le→leb dir.inode_st.size dir.index (omega arith)) refl

  module _ (e : Entry) (es : List Entry) (h : IsListing dir (e ∷ es)) where
    pub readdir_next :
        cnreaddir dir s ≡ ok (some dir.index, record dir { index = dir.index + e.entry_len }) s
    unfolding cnreaddir
    readdir_next = rw (not-leb dir.inode_st.size dir.index (omega arith)) (
        rw (le→leb (dir.index + 6) dir.buf.cap (omega (arith, h.fits)))
          (rw (entry_len_of dir.buf.bytes dir.index) (rw h.entries.0 (rw wrap refl))))
      where
        wrap : (dir.index + e.entry_len) % 2 ^ 32 ≡ dir.index + e.entry_len
        wrap = omega (arith, h.fits, h.small)

    pub next-IsListing : IsListing (record dir { index = dir.index + e.entry_len }) es
    next-IsListing = record { fits = h.fits; small = h.small; entries = h.entries.3 }

    pub raw_name-ok : (i : ℕ) → raw_name (record dir { index = i }) dir.index s ≡ ok e.name s
    unfolding raw_name
    raw_name-ok i = rw (le→leb (dir.index + 8) dir.buf.cap (omega (arith, h.fits))) (
        rw (name_len_of dir.buf.bytes dir.index) (
          rw h.entries.0 (
            rw (le→leb (dir.index + 8 + e.name_len) dir.buf.cap (omega (arith, h.fits)))
              (ap (λ n. ok n s) named))))
      where
        named : bytes_at e.name_len dir.buf.bytes (dir.index + 8) ≡ e.name
        named =
            ap (λ (x : Entry). bytes_at x.name_len dir.buf.bytes (dir.index + 8)) (sym h.entries.0)
            ∙ name_of dir.buf.bytes dir.index
            ∙ ap (λ (x : Entry). x.name) h.entries.0

    pub entry_inode-eq : (i : ℕ) → entry_inode (record dir { index = i }) dir.index ≡ e.inode
    entry_inode-eq i = inode_of dir.buf.bytes dir.index ∙ ap (λ (x : Entry). x.inode) h.entries.0

    pub entry_name-ok :
        (i : ℕ) → entry_name (record dir { index = i }) dir.index s ≡ ok (c_string e.name) s
    unfolding entry_name
    entry_name-ok i = rw (raw_name-ok i) refl

-- With a round for each entry and one more, the loop ends, at the first entry of the name.
pub find_entry-find_in :
    (s : Sys) (name : List ℕ) (es : List Entry) (fuel : ℕ) (dir : DirPtr)
    → length es < fuel
    → IsListing dir es
    → find_entry fuel dir name s
      ≡ ok ((find_in name es dir.index).0, record dir { index = (find_in name es dir.index).1 }) s
unfolding find_entry find_in
find_entry-find_in s name es zero dir lt h = absurd (omega arith)
find_entry-find_in s name [] (suc fuel) dir lt h = rw (readdir_end s dir h) refl
find_entry-find_in s name (e ∷ es) (suc fuel) dir lt h = rw (readdir_next s dir e es h) (
    rw (entry_name-ok s dir e es h (dir.index + e.entry_len))
      (elim (Bool-cases (str_eq (c_string e.name) name)) [
        | inl yes' ↦ rw yes' refl
        | inr no' ↦ rw no' (
            find_entry-find_in s name es fuel (record dir { index = dir.index + e.entry_len })
              (omega arith) (next-IsListing s dir e es h))
      ]))

-- The entries of a listing are at least eight bytes long, so the fuel is enough.
pub length-le-stop :
    (b : Bytes) (off stop : ℕ) (es : List Entry) → Listing b off stop es → off + length es ≤ stop
length-le-stop b off stop [] h = omega arith
length-le-stop b off stop (e ∷ es) h =
    omega (arith, length-le-stop b (off + e.entry_len) stop es h.3)

-- A listing depends on its own bytes alone.
pub Listing-congr :
    (b c : Bytes) (off stop : ℕ) (es : List Entry)
    → ((j : ℕ) → off ≤ j → j < stop → b j ≡ c j)
    → Listing b off stop es
    → Listing c off stop es
Listing-congr b c off stop [] same h = h
Listing-congr b c off stop (e ∷ es) same h = (
  sym (
        get_entry_congr b c off
          (λ j lo hi. same j lo (omega (arith, ap (λ (x : Entry). x.name_len) h.0))))
      ∙ h.0,
  h.1,
  h.2,
  Listing-congr b c (off + e.entry_len) stop es (λ j lo hi. same j (omega arith) hi) h.3,
)

pub Listing-append :
    (b : Bytes) (off mid stop : ℕ) (es fs : List Entry)
    → mid ≤ stop
    → Listing b off mid es
    → Listing b mid stop fs
    → Listing b off stop (es ++ fs)
Listing-append b off mid stop [] fs le h k = rw h k
Listing-append b off mid stop (e ∷ es) fs le h k =
    (h.0, h.1, omega arith, Listing-append b (off + e.entry_len) mid stop es fs le h.3 k)
