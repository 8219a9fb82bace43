-- ===== src/Entry/Layout.antt =====
-- put_entry and get_entry: the bytes that an entry takes.
use cdnw_sh.Base.{
  ℕ, ◌+◌, ◌≤◌, ◌<◌, ◌≡◌, refl, ap, ◌∙◌, inl, inr, length, Bytes, load, bytes_at, Outside,
  put_bytes-Outside, bytes_at-put_bytes, bytes_at_congr, load_congr, arith,
}
use cdnw_sh.Inode.Fields.{
  put_fields, IsLaidOut, put_fields-below, put_fields-above, load-put_fields,
}
use cdnw_sh.Entry.{Entry, IsEntry, header, put_entry, get_entry}

header-IsLaidOut : (e : Entry) → IsEntry e → IsLaidOut 0 (header e)
header-IsLaidOut e h = omega arith

module _ (b : Bytes) (off : ℕ) (e : Entry) (h : IsEntry e) where
  member :
      (n place : ℕ)
      → place + n ≤ 8
      → load n (put_entry b off e) (off + place)
        ≡ load n (put_fields b off (header e)) (off + place)
  unfolding put_entry
  member n place le = load_congr n _ _ (off + place) (off + place) (λ k lt.
      put_bytes-Outside (put_fields b off (header e)) (off + 8) e.name (off + place + k)
        (omega arith))

  stored_name_len : load 1 (put_entry b off e) (off + 6) ≡ length e.name
  stored_name_len =
      member 1 6 (omega arith)
      ∙ (load-put_fields b off 0 (header e) (header-IsLaidOut e h)).1.1.0
      ∙ h.named

  -- An entry whose members fit their types and whose name_len is the length of its name reads back
  -- from the offset where it was stored.
  pub get_entry-put_entry : get_entry (put_entry b off e) off ≡ e
  unfolding get_entry put_entry
  get_entry-put_entry =
      let vs = load-put_fields b off 0 (header e) (header-IsLaidOut e h) in
      λ t. record {
        inode = (member 4 0 (omega arith) ∙ vs.0) t;
        entry_len = (member 2 4 (omega arith) ∙ vs.1.0) t;
        name_len = (member 1 6 (omega arith) ∙ vs.1.1.0) t;
        file_type = (member 1 7 (omega arith) ∙ vs.1.1.1.0) t;
        name =
            (ap (λ n. bytes_at n (put_entry b off e) (off + 8)) stored_name_len
                ∙ bytes_at-put_bytes (put_fields b off (header e)) (off + 8) e.name h.name_bytes)
              t;
      }

  pub put_entry-Outside : (j : ℕ) → Outside j off (8 + length e.name) → put_entry b off e j ≡ b j
  unfolding put_entry
  put_entry-Outside j out =
      put_bytes-Outside (put_fields b off (header e)) (off + 8) e.name j (omega arith) ∙ elim out [
        | inl below ↦ put_fields-below b off 0 (header e) j (header-IsLaidOut e h) (omega arith)
        | inr above ↦ put_fields-above b off 0 (header e) j (header-IsLaidOut e h) (omega arith)
      ]

-- An entry is read from its own bytes alone.
pub get_entry_congr :
    (b c : Bytes) (off : ℕ)
    → ((j : ℕ) → off ≤ j → j < off + 8 + (get_entry b off).name_len → b j ≡ c j)
    → get_entry b off ≡ get_entry c off
unfolding get_entry
get_entry_congr b c off same = λ t. record {
  inode = part 4 0 (omega arith) t;
  entry_len = part 2 4 (omega arith) t;
  name_len = part 1 6 (omega arith) t;
  file_type = part 1 7 (omega arith) t;
  name =
      (bytes_at_congr (load 1 b (off + 6)) b c (off + 8)
            (λ j lo hi. same j (omega arith) (omega arith))
          ∙ ap (λ n. bytes_at n c (off + 8)) (part 1 6 (omega arith)))
        t;
}
  where
    part : (n place : ℕ) → place + n ≤ 8 → load n b (off + place) ≡ load n c (off + place)
    part n place le =
        load_congr n b c (off + place) (off + place)
          (λ k lt. same (off + place + k) (omega arith) (omega arith))

-- The members of the entry at an offset.
module _ (b : Bytes) (off : ℕ) where
  pub inode_of : load 4 b off ≡ (get_entry b off).inode
  unfolding get_entry
  inode_of = ap (load 4 b) (omega arith)

  pub entry_len_of : load 2 b (off + 4) ≡ (get_entry b off).entry_len
  unfolding get_entry
  entry_len_of = refl

  pub name_len_of : load 1 b (off + 6) ≡ (get_entry b off).name_len
  unfolding get_entry
  name_len_of = refl

  pub name_of : bytes_at (get_entry b off).name_len b (off + 8) ≡ (get_entry b off).name
  unfolding get_entry
  name_of = refl
