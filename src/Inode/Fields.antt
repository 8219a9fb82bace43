-- ===== src/Inode/Fields.antt =====
-- Structs: members at offsets, stored in the order of the offsets.
use cdnw_sh.Base.{
  ℕ, ◌+◌, ◌≤◌, ◌<◌, ◌^◌, ◌≡◌, refl, ◌∙◌, List, [], ◌∷◌, All, Bytes, load, store, store-Outside,
  load-store, load_congr, arith,
}

-- Members are offset, width and value.
unfoldable pub put_fields : Bytes → ℕ → List (ℕ × ℕ × ℕ) → Bytes
unfolding store
put_fields b p [] = b
put_fields b p ((off, width, v) ∷ fs) = put_fields (store width b (p + off) v) p fs

-- The values fit their widths, and no member overlaps the ones behind it.
abbrev pub IsLaidOut : ℕ → List (ℕ × ℕ × ℕ) → Type 0
IsLaidOut low [] = Unit
IsLaidOut low ((off, width, v) ∷ fs) = (low ≤ off) × (v < 256 ^ width) × IsLaidOut (off + width) fs

abbrev pub end_of : ℕ → List (ℕ × ℕ × ℕ) → ℕ
end_of low [] = low
end_of low ((off, width, v) ∷ fs) = end_of (off + width) fs

pub put_fields-below :
    (b : Bytes) (p low : ℕ) (fs : List (ℕ × ℕ × ℕ)) (j : ℕ)
    → IsLaidOut low fs
    → j < p + low
    → put_fields b p fs j ≡ b j
unfolding put_fields
put_fields-below b p low [] j h lt = refl
put_fields-below b p low ((off, width, v) ∷ fs) j h lt =
    put_fields-below (store width b (p + off) v) p (off + width) fs j h.2 (omega arith)
    ∙ store-Outside width b (p + off) v j (omega arith)

le-end_of : (low : ℕ) (fs : List (ℕ × ℕ × ℕ)) → IsLaidOut low fs → low ≤ end_of low fs
le-end_of low [] h = omega arith
le-end_of low ((off, width, v) ∷ fs) h = omega (arith, le-end_of (off + width) fs h.2)

pub put_fields-above :
    (b : Bytes) (p low : ℕ) (fs : List (ℕ × ℕ × ℕ)) (j : ℕ)
    → IsLaidOut low fs
    → p + end_of low fs ≤ j
    → put_fields b p fs j ≡ b j
unfolding put_fields
put_fields-above b p low [] j h le = refl
put_fields-above b p low ((off, width, v) ∷ fs) j h le =
    put_fields-above (store width b (p + off) v) p (off + width) fs j h.2 le
    ∙ store-Outside width b (p + off) v j (omega (arith, le-end_of (off + width) fs h.2))

-- Every member reads back.
pub load-put_fields :
    (b : Bytes) (p low : ℕ) (fs : List (ℕ × ℕ × ℕ))
    → IsLaidOut low fs
    → All (λ f. load f.1 (put_fields b p fs) (p + f.0) ≡ f.2) fs
unfolding put_fields
load-put_fields b p low [] h = tt
load-put_fields b p low ((off, width, v) ∷ fs) h =
    let b' = store width b (p + off) v in
    (
      load_congr width (put_fields b' p fs) b' (p + off) (p + off)
            (λ k lt. put_fields-below b' p (off + width) fs (p + off + k) h.2 (omega arith))
          ∙ load-store width b (p + off) v h.1,
      load-put_fields b' p (off + width) fs h.2,
    )
