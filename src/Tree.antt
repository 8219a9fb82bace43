-- ===== src/Tree.antt =====
-- src/fs.c: treedir and cntree.
use cdnw_sh.Base.{
  ℕ, zero, suc, ◌+◌, ◌==◌, ◌||◌, if◌then◌else◌, none, some, List, [], ◌++◌, codes, str_eq, c_string,
  load,
}
use cdnw_sh.Params.{itype_dir}
use cdnw_sh.Sys.{Inode, DirPtr, M, undefined, out_of_fuel, pure, halt, ◌>>=◌}
use cdnw_sh.Inode.{inode_read}
use cdnw_sh.Dir.{cnreaddir, raw_name, entry_inode, scan_fuel, cnopendir}

-- treedir for the directory at no indent. `describe` is what sprintf and ctime print for an inode. A
-- directory among the entries is entered with one indent, and there strcat reads indent_str, which
-- is not initialised.
unfoldable pub treedir : (Inode → List ℕ) → ℕ → DirPtr → List ℕ → M (List ℕ)
unfolding c_string
treedir describe zero dir text = halt out_of_fuel
treedir describe (suc fuel) dir text = do
  (entry, dir') ← cnreaddir dir
  elim entry [
    | none ↦ pure text
    | some off ↦ do
      name ← raw_name dir' off
      if str_eq (c_string name) (codes ".") || str_eq (c_string name) (codes "..")
          then treedir describe fuel dir' text
          else do
            entry_i ← inode_read (entry_inode dir' off)
            if load 1 dir'.buf.bytes (off + 7) == itype_dir
                then halt undefined
                else treedir describe fuel dir' (text ++ name ++ describe entry_i)
  ]

unfoldable pub cntree : (Inode → List ℕ) → M (List ℕ)
cntree describe = do
  opened ← cnopendir (codes ".")
  elim opened [ none ↦ halt undefined | some dir ↦ treedir describe (scan_fuel dir) dir [] ]
