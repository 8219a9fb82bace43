-- ===== src/Base/Text.antt =====
-- C strings as lists of their bytes, without the closing NUL, and the calls of the C library on
-- them that the program makes.
use Prim.Native.Nat.{ℕ, ◌<◌}
use mathlib.Core.Path.{◌≡◌, refl}
use mathlib.Core.Logic.{◌↔◌}
use mathlib.Core.Bool.{Bool, true, false, ◌&&◌}
use mathlib.Core.List.{List, [], ◌∷◌, ◌++◌}
use native.Mathlib.Omega.{arith}
use Prim.Native.Char.{code}
use Prim.Native.String.{String}
use cdnw_sh.Base.Tests.{◌==◌, if◌then◌else◌, ne→not-==}
use cdnw_sh.Base.Lists.{All}

-- The bytes of an ASCII literal.
abbrev pub codes : String → List ℕ
codes String.[] = []
codes (String.◌∷◌ c s) = code c ∷ codes s

-- strcmp(a, b) == 0
unfoldable pub str_eq : List ℕ → List ℕ → Bool
str_eq [] [] = true
str_eq (a ∷ as') (b ∷ bs) = (a == b) && str_eq as' bs
str_eq _ _ = false

-- The string that starts a sequence of bytes: all up to the first NUL.
unfoldable pub c_string : List ℕ → List ℕ
c_string [] = []
c_string (c ∷ cs) = if c == 0 then [] else c ∷ c_string cs

pub c_string-All : (cs : List ℕ) → All (λ c. 0 < c) cs → c_string cs ≡ cs
unfolding c_string
c_string-All [] h = refl
c_string-All (c ∷ cs) (pos, h) = rw (ne→not-== c 0 (omega (arith, pos)), c_string-All cs h) refl

-- Adds a token, if it is one: strtok skips empty tokens.
emit : List ℕ → List (List ℕ) → List (List ℕ)
emit [] rest = rest
emit (c ∷ cs) rest = (c ∷ cs) ∷ rest

-- The tokens that are left behind the bytes `word` of the present one, between slashes.
unfoldable pub tokens_from : List ℕ → List ℕ → List (List ℕ)
unfolding emit
tokens_from word [] = emit word []
tokens_from word (c ∷ cs) =
    let rest = tokens_from [] cs in
    let more = tokens_from (word ++ c ∷ []) cs in if c == b'/' then emit word rest else more

-- The results of strtok(s, "/"), strtok(NULL, "/"), ... up to the NULL.
unfoldable pub path_tokens : List ℕ → List (List ℕ)
unfolding tokens_from
path_tokens s = tokens_from [] s

pub str_eq_iff : (a b : List ℕ) → (str_eq a b ≡ true) ↔ (a ≡ b)
unfolding str_eq
str_eq_iff [] [] = ground arith
str_eq_iff [] (b ∷ bs) = ground arith
str_eq_iff (a ∷ as') [] = ground arith
str_eq_iff (a ∷ as') (b ∷ bs) = ground (arith, str_eq_iff as' bs)

path_tokens_example : path_tokens (codes "/ab//c") ≡ codes "ab" ∷ codes "c" ∷ []
unfolding path_tokens
path_tokens_example = refl
