-- ===== src/Dir/Path.antt =====
-- Path resolution, one token after another.
use mathlib.Core.Option
use cdnw_sh.Base.{
  ℕ, ◌+◌, ◌≡◌, refl, ap, ◌∙◌, sym, inl, inr, Bool, true, false, ◌==◌, if◌then◌else◌, Option, none,
  some, List, [], ◌∷◌, Bytes, load, str_eq, c_string, Bool-cases, ==_refl, arith,
}
use cdnw_sh.Sys.{Sys, DirPtr, ok, pure}
use cdnw_sh.Entry.{Entry}
use cdnw_sh.Dir.{scan_fuel, inflatedir, enter, open_path}
use cdnw_sh.Dir.Scan.{Listing, IsListing, lookup_name, find_in, find_entry-find_in}
use cdnw_sh.Dir.Stat.{enough_fuel, find_in-lookup_name}

-- A directory that was read to its end.
abbrev pub at_end : DirPtr → DirPtr
at_end dir = record dir { index = dir.inode_st.size }

pub missing_end :
    (b : Bytes) (name : List ℕ) (off stop : ℕ) (es : List Entry)
    → Listing b off stop es
    → lookup_name name es ≡ none
    → find_in name es off ≡ (none, stop)
unfolding find_in lookup_name
missing_end b name off stop [] h miss = ap (λ n. (none, n)) h
missing_end b name off stop (e ∷ es) h miss = elim (Bool-cases (str_eq (c_string e.name) name)) [
  | inl same ↦ absurd (cc)
  | inr other ↦ rw other (missing_end b name (off + e.entry_len) stop es h.3 (rw other at miss))
]

module _ (s : Sys) (dir : DirPtr) (loaded : ℕ) (name : List ℕ) (es : List Entry)
    (h : IsListing dir es) where
  enter_missing : lookup_name name es ≡ none → enter loaded dir name s ≡ ok (loaded, at_end dir) s
  unfolding enter
  enter_missing miss =
      rw (find_entry-find_in s name es (scan_fuel dir) dir (enough_fuel dir es h) h)
        (rw (missing_end dir.buf.bytes name dir.index dir.inode_st.size es h.entries miss) refl)

  -- Looking up a name that the directory does not list: the check behind the loop compares the
  -- directory with the inode that was loaded last. If they are the same, which is so for every token
  -- but the first, resolution goes on where it stands, ignores the missing name and all that follow
  -- it, and succeeds with that directory; if not, it fails.
  pub open_path_missing :
      (rest : List (List ℕ))
      → lookup_name name es ≡ none
      → open_path loaded dir (name ∷ rest) s
        ≡ (if dir.inode_id == loaded then open_path loaded (at_end dir) rest s else ok none s)
  unfolding open_path
  open_path_missing rest miss = rw (enter_missing miss) (split (dir.inode_id == loaded))
    where
      split :
          (b : Bool)
          → (if b then open_path loaded (at_end dir) rest else pure none) s
            ≡ (if b then open_path loaded (at_end dir) rest s else ok none s)
      split true = refl
      split false = refl

-- From the end of a directory that was loaded, every path resolves to the directory itself.
pub open_path_end :
    (s : Sys) (dir : DirPtr) (names : List (List ℕ))
    → IsListing dir []
    → open_path dir.inode_id dir names s ≡ ok (some dir) s
unfolding open_path lookup_name
open_path_end s dir [] h = refl
open_path_end s dir (name ∷ rest) h =
    rw (open_path_missing s dir dir.inode_id name [] h rest refl) (
      rw (==_refl dir.inode_id)
        (ap (λ d. open_path dir.inode_id d rest s) same ∙ open_path_end s dir rest h))
  where
    same : at_end dir ≡ dir
    same = λ t. record dir { index = sym h.entries t }

-- What inflatedir loads is named by its inode.
pub inflatedir-inode_id :
    (inode : ℕ) (s t : Sys) (d : DirPtr) → inflatedir inode s ≡ ok d t → d.inode_id ≡ inode
unfolding inflatedir
inflatedir-inode_id inode s t d e = ground arith

pub of_map :
    (f : ℕ → ℕ) (o : Option ℕ) (x : ℕ)
    → Option.map f o ≡ some x
    → (a : ℕ) × (o ≡ some a) × (f a ≡ x)
of_map f o x e = ground arith

-- A name that the directory lists is entered.
pub enter_found :
    (s t : Sys) (start dir : DirPtr) (name : List ℕ) (e : Entry) (es : List Entry) (loaded : ℕ)
    → IsListing start es
    → lookup_name name es ≡ some e
    → inflatedir e.inode s ≡ ok dir t
    → enter loaded start name s ≡ ok (e.inode, dir) t
unfolding enter
enter_found s t start dir name e es loaded h found inflated =
    let (off, at', is_e) =
      of_map (λ o. load 4 start.buf.bytes o) (find_in name es start.index).0 e.inode
        (find_in-lookup_name start.buf.bytes name start.index start.inode_st.size es h.entries
          ∙ ap (Option.map (λ (x : Entry). x.inode)) found) in
    rw (find_entry-find_in s name es (scan_fuel start) start (enough_fuel start es h) h)
      (rw at' (rw is_e (rw inflated refl)))

pub open_path_step :
    (s t : Sys) (start dir : DirPtr) (name : List ℕ) (rest : List (List ℕ)) (loaded inode : ℕ)
    → enter loaded start name s ≡ ok (inode, dir) t
    → dir.inode_id ≡ inode
    → open_path loaded start (name ∷ rest) s ≡ open_path inode dir rest t
unfolding open_path
open_path_step s t start dir name rest loaded inode entered same =
    rw entered (rw same (rw (==_refl inode) refl))

-- A path whose first name is listed by the directory and leads to a directory that does not list
-- the second name resolves to that directory: no error is reported, and the names behind the
-- missing one are ignored too.
pub open_path_trailing :
    (s : Sys) (start dir : DirPtr) (first missing : List ℕ) (rest : List (List ℕ)) (e : Entry)
    (es fs : List Entry) (loaded : ℕ)
    → IsListing start es
    → lookup_name first es ≡ some e
    → inflatedir e.inode s ≡ ok dir s
    → IsListing dir fs
    → lookup_name missing fs ≡ none
    → open_path loaded start (first ∷ missing ∷ rest) s ≡ ok (some (at_end dir)) s
open_path_trailing s start dir first missing rest e es fs loaded h found inflated h' miss =
    let same = inflatedir-inode_id e.inode s s dir inflated in
    open_path_step s s start dir first (missing ∷ rest) loaded e.inode
      (enter_found s s start dir first e es loaded h found inflated) same
    ∙ open_path_missing s dir e.inode missing fs h' rest miss
    ∙ rw same (
        rw (==_refl e.inode) (
          rw (← same) (
            open_path_end s (at_end dir) rest
              (record { fits = h'.fits; small = h'.small; entries = refl }))))
