-- ===== src/Dir/Resolve.antt =====
-- Paths that exist, as a relation, and the loop of cnopendir on them.
use cdnw_sh.Base.{ℕ, ◌≡◌, ◌∙◌, refl, List, [], ◌∷◌, some}
use cdnw_sh.Sys.{Sys, DirPtr, ok}
use cdnw_sh.Entry.{Entry}
use cdnw_sh.Dir.{inflatedir, open_path}
use cdnw_sh.Dir.Scan.{IsListing, lookup_name}
use cdnw_sh.Dir.Path.{enter_found, inflatedir-inode_id, open_path_step}

-- Each name is listed in the directory that the names before it lead to.
pub data Resolves (s : Sys) : DirPtr → List (List ℕ) → DirPtr → Type 0 where
  done : {dir : DirPtr} → Resolves s dir [] dir
  into :
      {dir next last : DirPtr} {name : List ℕ} {names : List (List ℕ)} (es : List Entry) (e : Entry)
      → IsListing dir es
      → lookup_name name es ≡ some e
      → inflatedir e.inode s ≡ ok next s
      → Resolves s next names last
      → Resolves s dir (name ∷ names) last

-- A path that exists is resolved to the directory that it leads to, and the state is unchanged.
pub open_path-Resolves :
    (s : Sys) {dir last : DirPtr} {names : List (List ℕ)}
    → Resolves s dir names last
    → (loaded : ℕ) → open_path loaded dir names s ≡ ok (some last) s
unfolding open_path
open_path-Resolves s done loaded = refl
open_path-Resolves s (into {dir} {next} {name = name} {names = names} es e h found inflated rest)
      loaded =
    open_path_step s s dir next name names loaded e.inode
      (enter_found s s dir next name e es loaded h found inflated)
      (inflatedir-inode_id e.inode s s next inflated)
    ∙ open_path-Resolves s rest e.inode
