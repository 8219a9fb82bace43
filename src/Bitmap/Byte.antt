-- ===== src/Bitmap/Byte.antt =====
-- Single bits of a byte under the masks of bitmap.c, checked over all bytes and offsets.
use cdnw_sh.Base.{
  ℕ, zero, suc, ◌-◌, ◌^◌, ◌<◌, bit_and, bit_or, ◌≡◌, refl, Bool, true, false, not, ◌&&◌, ltb, ◌==◌,
  if◌then◌else◌, arith,
}
use cdnw_sh.Bitmap.{test_bit, find_offset}

-- The test holds of every number under the bound.
holds_under : (ℕ → Bool) → ℕ → Bool
holds_under test zero = true
holds_under test (suc last) = let rest = holds_under test last in if test last then rest else false

holds_at :
    (test : ℕ → Bool) (bound i : ℕ) → i < bound → holds_under test bound ≡ true → test i ≡ true
unfolding holds_under
holds_at test zero i under all = absurd (omega arith)
holds_at test (suc last) i under all = ground (arith, holds_at test last i)

same : Bool → Bool → Bool
same true b = b
same false b = not b

same_sound : (a b : Bool) → same a b ≡ true → a ≡ b
unfolding same
same_sound a b h = ground arith

-- All bytes, and two bit offsets.
all_bits : (ℕ → ℕ → ℕ → Bool) → Bool
all_bits p = holds_under (λ x. holds_under (λ o. holds_under (p x o) 8) 8) 256

all_bits_sound :
    (p : ℕ → ℕ → ℕ → Bool)
    → all_bits p ≡ true
    → (x o k : ℕ) → x < 256
    → o < 8
    → k < 8
    → p x o k ≡ true
unfolding all_bits
all_bits_sound p h x o k hx ho hk = holds_at (p x o) 8 k hk (
    holds_at (λ o'. holds_under (p x o') 8) 8 o ho
      (holds_at (λ x'. holds_under (λ o'. holds_under (p x' o') 8) 8) 256 x hx h))

or_table :
    all_bits (λ x o k. same (test_bit (bit_or x (2 ^ o)) k) (if k == o then true else test_bit x k))
    ≡ true
unfolding all_bits holds_under same test_bit
or_table = refl

and_table :
    all_bits (λ x o k.
      same (test_bit (bit_and x (255 - 2 ^ o)) k) (if k == o then false else test_bit x k))
    ≡ true
unfolding all_bits holds_under same test_bit
and_table = refl

range_table :
    all_bits (λ x o k. ltb (bit_or x (2 ^ o)) 256 && ltb (bit_and x (255 - 2 ^ o)) 256) ≡ true
unfolding all_bits holds_under
range_table = refl

ends_table :
    all_bits
      (λ x o k. if x == 255 then test_bit x o else if x == 0 then not (test_bit x o) else true)
    ≡ true
unfolding all_bits holds_under test_bit
ends_table = refl

-- A byte that is not 0xFF has a clear bit, and the loop finds the lowest one.
first_table :
    all_bits (λ x o k.
      if x == 255
      then true
      else (ltb (find_offset 8 x 0) 8 && not (test_bit x (find_offset 8 x 0)))
        && (if ltb k (find_offset 8 x 0) then test_bit x k else true))
    ≡ true
unfolding all_bits holds_under find_offset
first_table = refl

module _ (x o k : ℕ) (hx : x < 256) (ho : o < 8) (hk : k < 8) where
  pub test_bit-or : test_bit (bit_or x (2 ^ o)) k ≡ (if k == o then true else test_bit x k)
  test_bit-or = same_sound _ _ (all_bits_sound _ or_table x o k hx ho hk)

  pub test_bit-and : test_bit (bit_and x (255 - 2 ^ o)) k ≡ (if k == o then false else test_bit x k)
  test_bit-and = same_sound _ _ (all_bits_sound _ and_table x o k hx ho hk)

module _ (x o : ℕ) (hx : x < 256) (ho : o < 8) where
  pub or-lt : bit_or x (2 ^ o) < 256
  or-lt = ground (arith, all_bits_sound _ range_table x o 0 hx ho (omega arith))

  pub and-lt : bit_and x (255 - 2 ^ o) < 256
  and-lt = ground (arith, all_bits_sound _ range_table x o 0 hx ho (omega arith))

pub full_byte : (o : ℕ) → o < 8 → test_bit 255 o ≡ true
full_byte o ho = all_bits_sound _ ends_table 255 o 0 (omega arith) ho (omega arith)

pub empty_byte : (o : ℕ) → o < 8 → test_bit 0 o ≡ false
empty_byte o ho = ground (arith, all_bits_sound _ ends_table 0 o 0 (omega arith) ho (omega arith))

module _ (x : ℕ) (hx : x < 256) (open_byte : (x == 255) ≡ false) where
  pub find_offset-lt : find_offset 8 x 0 < 8
  find_offset-lt = ground (arith, all_bits_sound _ first_table x 0 0 hx (omega arith) (omega arith))

  pub find_offset-clear : test_bit x (find_offset 8 x 0) ≡ false
  find_offset-clear =
      ground (arith, all_bits_sound _ first_table x 0 0 hx (omega arith) (omega arith))

  pub find_offset-least : (k : ℕ) → k < find_offset 8 x 0 → k < 8 → test_bit x k ≡ true
  find_offset-least k lt hk = ground (arith, all_bits_sound _ first_table x 0 k hx (omega arith) hk)
