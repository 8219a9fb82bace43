-- ===== src/Make/Append.antt =====
-- append_entry against the list of entries.
use cdnw_sh.Base.{
  ℕ, ◌+◌, ◌%◌, ◌≤◌, ◌<◌, ◌^◌, ◌≡◌, ◌≢◌, refl, ap, sym, inl, inr, none, some, List, [], ◌∷◌, ◌++◌,
  length, All, str_eq, str_eq_iff, c_string, Bool-cases, le→leb, ne→not-==, arith,
}
use cdnw_sh.Sys.{Sys, DirPtr, ok}
use cdnw_sh.Entry.{Entry, IsEntry, put_entry, padded_len}
use cdnw_sh.Entry.Layout.{get_entry-put_entry, put_entry-Outside}
use cdnw_sh.Dir.{cnrewinddir}
use cdnw_sh.Dir.Scan.{IsListing, Listing-congr, Listing-append, lookup_name}
use cdnw_sh.Make.{append_entry}

-- A name that an entry can hold: not too long, and without a NUL.
pub record IsName (name : List ℕ) : Type 0 where
  pub short : length name < 256
  pub bytes : All (λ c. c < 256) name
  pub no_nul : All (λ c. c ≢ 0) name

abbrev pub new_entry : ℕ → ℕ → List ℕ → Entry
new_entry inode file_type name = record {
  inode = inode;
  entry_len = padded_len (length name);
  name_len = length name;
  file_type = file_type;
  name = name;
}

-- The directory with the entry behind its end.
abbrev pub appended : DirPtr → ℕ → ℕ → List ℕ → DirPtr
appended dir inode file_type name = record dir {
  inode_st = record dir.inode_st { size = dir.inode_st.size + padded_len (length name) };
  buf = record dir.buf {
    bytes = put_entry dir.buf.bytes dir.inode_st.size (new_entry inode file_type name);
  };
}

pub padded : (n : ℕ) → (8 + n < padded_len n) × (padded_len n ≤ n + 12)
unfolding padded_len
padded n = omega arith

pub c_string-name : (name : List ℕ) → All (λ c. c ≢ 0) name → c_string name ≡ name
unfolding c_string
c_string-name [] h = refl
c_string-name (c ∷ cs) h = rw (ne→not-== c 0 h.0) (ap (λ xs. c ∷ xs) (c_string-name cs h.1))

new_entry-IsEntry :
    (inode file_type : ℕ) (name : List ℕ)
    → inode < 2 ^ 32
    → file_type < 256
    → IsName name
    → IsEntry (new_entry inode file_type name)
new_entry-IsEntry inode file_type name fits type_fits h = record {
  inode_fits = fits;
  entry_len_fits = omega (arith, padded (length name), h.short);
  file_type_fits = type_fits;
  named = refl;
  name_fits = h.short;
  name_bytes = h.bytes;
}

module _ (s : Sys) (dir : DirPtr) (inode file_type : ℕ) (name : List ℕ) (es : List Entry)
    (h : IsListing (cnrewinddir dir) es) (fits : inode < 2 ^ 32) (type_fits : file_type < 256)
    (named : IsName name) (room : dir.inode_st.size + padded_len (length name) ≤ dir.buf.cap) where
  pub append_entry-ok :
      append_entry (record dir { index = dir.inode_st.size }) inode file_type name s
      ≡ ok (record (appended dir inode file_type name) { index = dir.inode_st.size }) s
  unfolding append_entry cnrewinddir
  append_entry-ok =
      let n = length name in
      let short : n % 256 ≡ n = omega (arith, named.short) in
      let len : padded_len n % 2 ^ 16 ≡ padded_len n = omega (arith, padded n, named.short) in
      let size : (dir.inode_st.size + padded_len n) % 2 ^ 32 ≡ dir.inode_st.size + padded_len n =
        omega (arith, room, h.small) in
      rw
        (
          short,
          len,
          le→leb (dir.inode_st.size + 8 + n) dir.buf.cap (omega (arith, padded n, room)),
          size,
        )
        refl

  -- The entry behind the end, and the entries before it.
  pub appended-IsListing :
      IsListing
        (cnrewinddir (appended dir inode file_type name))
        (es ++ new_entry inode file_type name ∷ [])
  unfolding cnrewinddir
  appended-IsListing =
      let e = new_entry inode file_type name in
      let b = put_entry dir.buf.bytes dir.inode_st.size e in
      let is_entry = new_entry-IsEntry inode file_type name fits type_fits named in
      let len = padded (length name) in
      record {
        fits = room;
        small = h.small;
        entries =
            Listing-append b 0 dir.inode_st.size (dir.inode_st.size + padded_len (length name)) es
              (e ∷ []) (omega arith)
              (Listing-congr dir.buf.bytes b 0 dir.inode_st.size es
                (λ j lo hi.
                  sym (put_entry-Outside dir.buf.bytes dir.inode_st.size e is_entry j (inl hi)))
                h.entries)
              (
                get_entry-put_entry dir.buf.bytes dir.inode_st.size e is_entry,
                omega (arith, len),
                omega arith,
                refl,
              );
      }

-- Looking up the name of the entry behind the last one, and any other name.
pub lookup_name-append_new :
    (name : List ℕ) (es : List Entry) (e : Entry)
    → lookup_name name es ≡ none
    → c_string e.name ≡ name
    → lookup_name name (es ++ e ∷ []) ≡ some e
unfolding lookup_name
lookup_name-append_new name [] e miss same = rw ((str_eq_iff (c_string e.name) name).1 same) refl
lookup_name-append_new name (x ∷ xs) e miss same =
    elim (Bool-cases (str_eq (c_string x.name) name)) [
      | inl yes' ↦ absurd cc
      | inr no' ↦ rw no' (lookup_name-append_new name xs e (rw no' at miss) same)
    ]

pub lookup_name-append_other :
    (name : List ℕ) (es : List Entry) (e : Entry)
    → c_string e.name ≢ name
    → lookup_name name (es ++ e ∷ []) ≡ lookup_name name es
unfolding lookup_name
lookup_name-append_other name [] e other = elim (Bool-cases (str_eq (c_string e.name) name)) [
  | inl yes' ↦ absurd (other ((str_eq_iff (c_string e.name) name).0 yes'))
  | inr no' ↦ rw no' refl
]
lookup_name-append_other name (x ∷ xs) e other = rw (lookup_name-append_other name xs e other) refl
