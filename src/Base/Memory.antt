-- ===== src/Base/Memory.antt =====
-- Laws of the loads, stores and copies: what a store leaves behind, and what it leaves alone.
use Prim.Native.Nat.{ℕ, zero, suc, ◌+◌, ◌-◌, ◌*◌, ◌/◌, ◌%◌, ◌^◌, ◌≤◌, ◌<◌}
use mathlib.Core.Path.{◌≡◌, refl, ap, ap₂, ◌∙◌}
use mathlib.Core.Logic.{◌≢◌, ◌⊎◌}
use mathlib.Core.List.{List, [], ◌∷◌}
use native.Mathlib.Omega.{arith}
use native.Mathlib.Nat.{pow-suc}
use cdnw_sh.Base.Lists.{length, All}
use cdnw_sh.Base.Access.{
  Bytes, store8, load, store, copy, bytes_at, put_bytes, load_words, store_words,
}

-- The offset j lies outside the n bytes from off.
abbrev pub Outside : ℕ → ℕ → ℕ → Type 0
Outside j off n = (j < off) ⊎ (off + n ≤ j)

-- The m bytes from p lie outside the n bytes from off.
abbrev pub Apart : ℕ → ℕ → ℕ → ℕ → Type 0
Apart p m off n = (p + m ≤ off) ⊎ (off + n ≤ p)

pub store8_self : (b : Bytes) (i v : ℕ) → store8 b i v i ≡ v % 256
unfolding store8
store8_self b i v = ground arith

pub store8-ne : (b : Bytes) (i v j : ℕ) → j ≢ i → store8 b i v j ≡ b j
unfolding store8
store8-ne b i v j h = ground arith

pub store-Outside : (n : ℕ) (b : Bytes) (off v j : ℕ) → Outside j off n → store n b off v j ≡ b j
unfolding store
store-Outside zero b off v j h = refl
store-Outside (suc n) b off v j h =
    store-Outside n (store8 b off v) (off + 1) (v / 256) j (omega arith)
    ∙ store8-ne b off v j (omega arith)

-- A load sees only its own bytes.
pub load_congr :
    (n : ℕ) (b c : Bytes) (p q : ℕ)
    → ((k : ℕ) → k < n → b (p + k) ≡ c (q + k))
    → load n b p ≡ load n c q
unfolding load
load_congr zero b c p q h = refl
load_congr (suc n) b c p q h =
    ap₂ (λ x y. x + 256 * y) (here (h 0 (omega arith)))
      (load_congr n b c (p + 1) (q + 1) (λ k lt. shift k (h (suc k) (omega arith))))
  where
    here : b (p + 0) ≡ c (q + 0) → b p ≡ c q
    here e = ap b (omega arith) ∙ e ∙ ap c (omega arith)

    shift : (k : ℕ) → b (p + suc k) ≡ c (q + suc k) → b (p + 1 + k) ≡ c (q + 1 + k)
    shift k e = ap b (omega arith) ∙ e ∙ ap c (omega arith)

pub load-store-Apart :
    (m n : ℕ) (b : Bytes) (off v p : ℕ) → Apart p m off n → load m (store n b off v) p ≡ load m b p
load-store-Apart m n b off v p h =
    load_congr m (store n b off v) b p p (λ k lt. store-Outside n b off v (p + k) (omega arith))

-- A load of what was stored, where the value fits.
pub load-store : (n : ℕ) (b : Bytes) (off v : ℕ) → v < 256 ^ n → load n (store n b off v) off ≡ v
unfolding load store
load-store zero b off v h = omega arith
load-store (suc n) b off v h = omega (
  arith,
  store-Outside n (store8 b off v) (off + 1) (v / 256) off (omega arith),
  store8_self b off v,
  load-store n (store8 b off v) (off + 1) (v / 256) (omega (arith, pow-suc 256 n)),
)

pub copy-inside :
    (n : ℕ) (dst : Bytes) (d : ℕ) (src : Bytes) (s j : ℕ)
    → d ≤ j
    → j < d + n
    → copy n dst d src s j ≡ src (s + (j - d))
unfolding copy
copy-inside n dst d src s j lo hi = ground arith

pub copy-Outside :
    (n : ℕ) (dst : Bytes) (d : ℕ) (src : Bytes) (s j : ℕ)
    → Outside j d n
    → copy n dst d src s j ≡ dst j
unfolding copy
copy-Outside n dst d src s j h = ground arith

pub put_bytes-Outside :
    (b : Bytes) (off : ℕ) (cs : List ℕ) (j : ℕ)
    → Outside j off (length cs)
    → put_bytes b off cs j ≡ b j
unfolding put_bytes
put_bytes-Outside b off [] j h = refl
put_bytes-Outside b off (c ∷ cs) j h =
    put_bytes-Outside (store8 b off c) (off + 1) cs j (omega arith)
    ∙ store8-ne b off c j (omega arith)

pub bytes_at_congr :
    (n : ℕ) (b c : Bytes) (p : ℕ)
    → ((j : ℕ) → p ≤ j → j < p + n → b j ≡ c j)
    → bytes_at n b p ≡ bytes_at n c p
unfolding bytes_at
bytes_at_congr zero b c p h = refl
bytes_at_congr (suc n) b c p h =
    ap₂ ◌∷◌ (h p (omega arith) (omega arith))
      (bytes_at_congr n b c (p + 1) (λ j lo hi. h j (omega arith) (omega arith)))

pub bytes_at-put_bytes :
    (b : Bytes) (off : ℕ) (cs : List ℕ)
    → All (λ c. c < 256) cs
    → bytes_at (length cs) (put_bytes b off cs) off ≡ cs
unfolding bytes_at put_bytes
bytes_at-put_bytes b off [] h = refl
bytes_at-put_bytes b off (c ∷ cs) h =
    ap₂ ◌∷◌
      (omega (
        arith,
        put_bytes-Outside (store8 b off c) (off + 1) cs off (omega arith),
        store8_self b off c,
      ))
      (bytes_at-put_bytes (store8 b off c) (off + 1) cs h.1)

pub store_words-Outside :
    (b : Bytes) (off : ℕ) (ws : List ℕ) (j : ℕ)
    → Outside j off (4 * length ws)
    → store_words b off ws j ≡ b j
unfolding store_words
store_words-Outside b off [] j h = refl
store_words-Outside b off (w ∷ ws) j h =
    store_words-Outside (store 4 b off w) (off + 4) ws j (omega arith)
    ∙ store-Outside 4 b off w j (omega arith)

pub load_words_congr :
    (n : ℕ) (b c : Bytes) (p q : ℕ)
    → ((k : ℕ) → k < 4 * n → b (p + k) ≡ c (q + k))
    → load_words n b p ≡ load_words n c q
unfolding load_words
load_words_congr zero b c p q h = refl
load_words_congr (suc n) b c p q h =
    ap₂ ◌∷◌ (load_congr 4 b c p q (λ k lt. h k (omega arith)))
      (load_words_congr n b c (p + 4) (q + 4) (λ k lt. shift k (h (4 + k) (omega arith))))
  where
    shift : (k : ℕ) → b (p + (4 + k)) ≡ c (q + (4 + k)) → b (p + 4 + k) ≡ c (q + 4 + k)
    shift k e = ap b (omega arith) ∙ e ∙ ap c (omega arith)

pub load_words-store_words :
    (b : Bytes) (off : ℕ) (ws : List ℕ)
    → All (λ w. w < 2 ^ 32) ws
    → load_words (length ws) (store_words b off ws) off ≡ ws
unfolding load_words store_words
load_words-store_words b off [] h = refl
load_words-store_words b off (w ∷ ws) h =
    ap₂ ◌∷◌
      (load_congr 4 (store_words (store 4 b off w) (off + 4) ws) (store 4 b off w) off off
          (λ k lt. store_words-Outside (store 4 b off w) (off + 4) ws (off + k) (omega arith))
        ∙ load-store 4 b off w h.0)
      (load_words-store_words (store 4 b off w) (off + 4) ws h.1)
