-- ===== src/Inode/Layout.antt =====
-- put_inode and get_inode: the bytes that an inode takes.
use cdnw_sh.Base.{
  ℕ, ◌+◌, ◌≤◌, ◌<◌, ◌≡◌, ap, inl, inr, ◌∙◌, sym, ◌⊎◌, Bytes, load, load_words, Outside,
  store_words-Outside, load_words-store_words, load_congr, load_words_congr, arith,
}
use cdnw_sh.Sys.{Abi, ilp32, lp64, Inode}
use cdnw_sh.Inode.{
  modified_at, modified_width, data0_at, sizeof_inode, fields, put_inode, get_inode, IsInode,
}
use cdnw_sh.Inode.Fields.{
  put_fields, IsLaidOut, put_fields-below, put_fields-above, load-put_fields,
}

-- The members stand apart, data0 between `modified` and `data1`.
fields-IsLaidOut : (abi : Abi) (i : Inode) → IsInode abi i → IsLaidOut 0 (fields abi i)
unfolding data0_at modified_at modified_width
fields-IsLaidOut ilp32 i h = omega arith
fields-IsLaidOut lp64 i h = omega arith

twelve-le : (abi : Abi) → 12 ≤ data0_at abi
unfolding data0_at modified_at modified_width
twelve-le ilp32 = omega arith
twelve-le lp64 = omega arith

struct_end : (abi : Abi) → data0_at abi + 43 ≤ sizeof_inode abi
unfolding data0_at modified_at modified_width sizeof_inode
struct_end ilp32 = omega arith
struct_end lp64 = omega arith

module _ (abi : Abi) (b : Bytes) (p : ℕ) (i : Inode) (h : IsInode abi i) where
  scalar :
      (n off : ℕ)
      → (off + n ≤ data0_at abi) ⊎ (data0_at abi + 32 ≤ off)
      → load n (put_inode abi b p i) (p + off) ≡ load n (put_fields b p (fields abi i)) (p + off)
  unfolding put_inode
  scalar n off apart = load_congr n _ _ (p + off) (p + off) (λ k lt.
      store_words-Outside (put_fields b p (fields abi i)) (p + data0_at abi) i.data0 (p + off + k)
        (omega (arith, h.eight)))

  words : load_words 8 (put_inode abi b p i) (p + data0_at abi) ≡ i.data0
  unfolding put_inode
  words =
      ap (λ n. load_words n (put_inode abi b p i) (p + data0_at abi)) (sym h.eight)
      ∙ load_words-store_words (put_fields b p (fields abi i)) (p + data0_at abi) i.data0
          h.data0_fits

  before : (n off : ℕ) → off + n ≤ 12 → (off + n ≤ data0_at abi) ⊎ (data0_at abi + 32 ≤ off)
  before n off le = inl (omega (arith, twelve-le abi))

  -- What was stored at p reads back from p.
  pub get_inode-put_inode : get_inode abi (put_inode abi b p i) p ≡ i
  unfolding get_inode data0_at modified_at modified_width
  get_inode-put_inode =
      let vs = load-put_fields b p 0 (fields abi i) (fields-IsLaidOut abi i h) in
      λ t. record {
        type = (scalar 1 0 (before 1 0 (omega arith)) ∙ vs.0) t;
        size = (scalar 4 4 (before 4 4 (omega arith)) ∙ vs.1.0) t;
        blocks = (scalar 4 8 (before 4 8 (omega arith)) ∙ vs.1.1.0) t;
        modified =
            (scalar (modified_width abi) (modified_at abi) (inl (omega arith)) ∙ vs.1.1.1.0) t;
        data0 = words t;
        data1 = (scalar 4 (data0_at abi + 32) (inr (omega arith)) ∙ vs.1.1.1.1.0) t;
        data2 = (scalar 4 (data0_at abi + 36) (inr (omega arith)) ∙ vs.1.1.1.1.1.0) t;
        padding = (scalar 3 (data0_at abi + 40) (inr (omega arith)) ∙ vs.1.1.1.1.1.1.0) t;
      }

-- Bytes outside the struct stay.
pub put_inode-Outside :
    (abi : Abi) (b : Bytes) (p : ℕ) (i : Inode) (j : ℕ)
    → IsInode abi i
    → Outside j p (sizeof_inode abi)
    → put_inode abi b p i j ≡ b j
unfolding put_inode
put_inode-Outside abi b p i j h out =
    store_words-Outside (put_fields b p (fields abi i)) (p + data0_at abi) i.data0 j
      (omega (arith, h.eight, struct_end abi, twelve-le abi))
    ∙ elim out [
      | inl below ↦ put_fields-below b p 0 (fields abi i) j (fields-IsLaidOut abi i h) (omega arith)
      | inr above ↦
          put_fields-above b p 0 (fields abi i) j (fields-IsLaidOut abi i h)
            (omega (arith, struct_end abi))
    ]

-- An inode is read from its own bytes alone.
pub get_inode_congr :
    (abi : Abi) (b c : Bytes) (p : ℕ)
    → ((k : ℕ) → k < sizeof_inode abi → b (p + k) ≡ c (p + k))
    → get_inode abi b p ≡ get_inode abi c p
unfolding get_inode data0_at modified_at modified_width
get_inode_congr abi b c p same = λ t. record {
  type = part 1 0 (omega (arith, struct_end abi)) t;
  size = part 4 4 (omega (arith, struct_end abi, twelve-le abi)) t;
  blocks = part 4 8 (omega (arith, struct_end abi, twelve-le abi)) t;
  modified = part (modified_width abi) (modified_at abi) (omega (arith, struct_end abi)) t;
  data0 =
      load_words_congr 8 b c (p + data0_at abi) (p + data0_at abi)
        (λ k lt. here (data0_at abi) k (omega (arith, struct_end abi))) t;
  data1 = part 4 (data0_at abi + 32) (omega (arith, struct_end abi)) t;
  data2 = part 4 (data0_at abi + 36) (omega (arith, struct_end abi)) t;
  padding = part 3 (data0_at abi + 40) (omega (arith, struct_end abi)) t;
}
  where
    here : (off k : ℕ) → off + k < sizeof_inode abi → b (p + off + k) ≡ c (p + off + k)
    here off k lt = ap b (omega arith) ∙ same (off + k) lt ∙ ap c (omega arith)

    part : (n off : ℕ) → off + n ≤ sizeof_inode abi → load n b (p + off) ≡ load n c (p + off)
    part n off le = load_congr n b c (p + off) (p + off) (λ k lt. here off k (omega arith))
