-- ===== src/Base/Access.antt =====
-- Memory as bytes: little-endian loads and stores, and memcpy.
use Prim.Native.Nat.{ℕ, zero, suc, ◌+◌, ◌-◌, ◌*◌, ◌/◌, ◌%◌, ◌<◌}
use mathlib.Core.Bool.{◌&&◌}
use mathlib.Core.List.{List, [], ◌∷◌}
use cdnw_sh.Base.Tests.{ltb, leb, ◌==◌, if◌then◌else◌}

-- A region of memory, by offset. A byte is a number below 256: `int8_t` is read by its bits.
abbrev pub Bytes : Type 0
Bytes = ℕ → ℕ

-- calloc, memset(p, 0, n)
abbrev pub zeros : Bytes
zeros i = 0

abbrev pub IsBytes : Bytes → Type 0
IsBytes b = (i : ℕ) → b i < 256

unfoldable pub store8 : Bytes → ℕ → ℕ → Bytes
store8 b i v j = if j == i then v % 256 else b j

-- The n-byte unsigned number at an offset.
unfoldable pub load : ℕ → Bytes → ℕ → ℕ
load zero b off = 0
load (suc n) b off = b off + 256 * load n b (off + 1)

unfoldable pub store : ℕ → Bytes → ℕ → ℕ → Bytes
unfolding store8
store zero b off v = b
store (suc n) b off v = store n (store8 b off v) (off + 1) (v / 256)

-- memcpy(dst + d, src + s, n)
unfoldable pub copy : ℕ → Bytes → ℕ → Bytes → ℕ → Bytes
copy n dst d src s j = if leb d j && ltb j (d + n) then src (s + (j - d)) else dst j

-- The n bytes at an offset.
unfoldable pub bytes_at : ℕ → Bytes → ℕ → List ℕ
bytes_at zero b off = []
bytes_at (suc n) b off = b off ∷ bytes_at n b (off + 1)

-- memcpy(dst + d, str, strlen(str))
unfoldable pub put_bytes : Bytes → ℕ → List ℕ → Bytes
unfolding store8
put_bytes b off [] = b
put_bytes b off (c ∷ cs) = put_bytes (store8 b off c) (off + 1) cs

-- An array of 32-bit words.
unfoldable pub load_words : ℕ → Bytes → ℕ → List ℕ
load_words zero b off = []
load_words (suc n) b off = load 4 b off ∷ load_words n b (off + 4)

unfoldable pub store_words : Bytes → ℕ → List ℕ → Bytes
unfolding store
store_words b off [] = b
store_words b off (w ∷ ws) = store_words (store 4 b off w) (off + 4) ws
