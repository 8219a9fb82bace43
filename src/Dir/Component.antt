-- ===== src/Dir/Component.antt =====
-- Names of one component: what strtok and cnopendir make of them.
use mathlib.Core.List.{append_assoc, append-nil}
use cdnw_sh.Base.{
  ℕ, ◌+◌, ◌<◌, ◌≡◌, ◌≢◌, refl, ap, ◌∙◌, lt→ltb, ne→not-==, some, none, List, [], ◌∷◌, ◌++◌, length,
  All, codes, str_eq, path_tokens, tokens_from, arith,
}
use cdnw_sh.Params.{inode_count}
use cdnw_sh.Sys.{Sys, M, DirPtr, ok, halt, undefined, pure}
use cdnw_sh.Dir.{inflatedir, cwd_inode, open_path, cnopendir, cnls, scan_fuel}
use cdnw_sh.Entry.{Entry}
use cdnw_sh.Dir.Scan.{IsListing, lookup_name}
use cdnw_sh.Dir.Stat.{names_text, list_names-text, enough_fuel}
use cdnw_sh.Dir.Resolve.{done, into, open_path-Resolves}

-- Not empty, and without a slash.
pub record IsComponent (name : List ℕ) : Type 0 where
  pub some_byte : 0 < length name
  pub short : length name < 256
  pub no_slash : All (λ c. c ≢ b'/') name

tokens_from-plain :
    (word cs : List ℕ)
    → 0 < length word
    → All (λ c. c ≢ b'/') cs
    → tokens_from word cs ≡ (word ++ cs) ∷ []
unfolding tokens_from
tokens_from-plain [] cs pos h = absurd (omega (arith, pos))
tokens_from-plain (w ∷ ws) [] pos h = rw append-nil refl
tokens_from-plain (w ∷ ws) (c ∷ cs) pos (ne, h) =
    rw (ne→not-== c 47 ne, tokens_from-plain (w ∷ (ws ++ c ∷ [])) cs (omega arith) h)
      (ap (λ t. (w ∷ t) ∷ []) (append_assoc ws (c ∷ []) cs))

pub path_tokens-IsComponent : (name : List ℕ) → IsComponent name → path_tokens name ≡ name ∷ []
unfolding path_tokens tokens_from
path_tokens-IsComponent [] h = absurd (omega (arith, h.some_byte))
path_tokens-IsComponent (c ∷ cs) h =
    rw (ne→not-== c 47 h.no_slash.0, tokens_from-plain (c ∷ []) cs (omega arith) h.no_slash.1) refl

pub cwd_inode-ok : (s : Sys) (cwd : DirPtr) → s.cwd ≡ some cwd → cwd_inode s ≡ ok cwd.inode_id s
unfolding cwd_inode
cwd_inode-ok s cwd here =
    ap (λ o. (elim o as (λ _. M ℕ) [ none ↦ halt undefined | some dir ↦ pure dir.inode_id ]) s) here

pub cnopendir-IsComponent :
    (s : Sys) (name : List ℕ) (cwd dir : DirPtr)
    → IsComponent name
    → s.cwd ≡ some cwd
    → inflatedir cwd.inode_id s ≡ ok dir s
    → cnopendir name s ≡ open_path (inode_count + 1) dir (name ∷ []) s
unfolding cnopendir str_eq
cnopendir-IsComponent s [] cwd dir h here loads = absurd (omega (arith, h.some_byte))
cnopendir-IsComponent s (c ∷ cs) cwd dir h here loads =
    rw
      (
        lt→ltb (length (c ∷ cs)) 256 h.short,
        ne→not-== c 47 h.no_slash.0,
        ne→not-== (length (c ∷ cs)) 0 (omega arith),
        cwd_inode-ok s cwd here,
        loads,
        path_tokens-IsComponent (c ∷ cs) h,
      )
      refl

dot-IsComponent : IsComponent (codes ".")
dot-IsComponent = record {
  some_byte = omega arith;
  short = omega arith;
  no_slash = ((λ e. omega (arith, e)), tt);
}

-- ls with no name, where the current directory lists itself under ".".
pub cnls_here :
    (s : Sys) (cwd dir : DirPtr) (es : List Entry) (e : Entry)
    → s.cwd ≡ some cwd
    → inflatedir cwd.inode_id s ≡ ok dir s
    → IsListing dir es
    → lookup_name (codes ".") es ≡ some e
    → e.inode ≡ cwd.inode_id
    → cnls [] s ≡ ok (some (names_text es)) s
unfolding cnls
cnls_here s cwd dir es e here loads lists found itself =
    let same_inode : inflatedir e.inode s ≡ inflatedir cwd.inode_id s =
      ap (λ n. inflatedir n s) itself in
    rw
      (
        cnopendir-IsComponent s (codes ".") cwd dir dot-IsComponent here loads,
        open_path-Resolves s {last = dir} (into es e lists found (same_inode ∙ loads) done)
            (inode_count + 1),
        list_names-text s es (scan_fuel dir) dir [] (enough_fuel dir es lists) lists,
      )
      refl
