-- ===== src/Socket/Sending.antt =====
-- The calls of send that send_results makes.
use cdnw_sh.Base.{
  ℕ, zero, suc, ◌+◌, ◌-◌, ◌%◌, ◌≤◌, ◌<◌, ◌≡◌, refl, ap, Option, none, some, List, [], ◌∷◌, ◌⊎◌,
  ◌++◌, le_or_lt, All, length, inl, inr, arith,
}
use cdnw_sh.Shell.Table.{Text}
use cdnw_sh.Socket.{Sends, one_more, send_len, send_loop, send_code_of, send_results}

-- The answer takes at least one byte.
abbrev pub IsTaken : Option ℕ → Type 0
IsTaken none = ⊥
IsTaken (some n) = 0 < n

-- A call that starts inside a string of `len` bytes and asks for at most 4095 bytes.
abbrev pub StartsInside : ℕ → ℕ × ℕ → Type 0
StartsInside len call = (call.0 < len) × (call.1 ≤ 4095)

send_len-small : (len : ℕ) → send_len len ≤ 4095
send_len-small len = ground arith

-- What the loop keeps: the bytes to go stand behind the offset.
abbrev Ahead : ℕ → ℕ → ℕ → Type 0
Ahead len remain off = (off + remain ≤ len) ⊎ (remain ≡ 0)

Ahead-taken :
    (len remain off n : ℕ)
    → Ahead len (suc remain) off
    → Ahead len (suc remain - suc n) (off + suc n)
Ahead-taken len remain off n h = ground arith

Ahead-StartsInside :
    (len remain off : ℕ) → Ahead len (suc remain) off → StartsInside len (off, send_len len)
Ahead-StartsInside len remain off (inl h) = (omega (arith, h), send_len-small len)
Ahead-StartsInside len remain off (inr h) = omega (arith, h)

abbrev Ends : ℕ → Option Sends → Type 0
Ends len result = (r : Sends) × (result ≡ some r) × All (StartsInside len) r.calls

one_more-Ends :
    (len : ℕ) (call : ℕ × ℕ) (result : Option Sends)
    → StartsInside len call
    → Ends len result
    → Ends len (one_more call result)
one_more-Ends len call result inside (r, e, all) =
    (record r { calls = call ∷ r.calls }, rw e refl, (inside, all))

send_loop-Ends :
    (len remain off : ℕ) (last : Option ℕ) (answers : List (Option ℕ))
    → remain ≤ length answers
    → Ahead len remain off
    → Ends len (send_loop len remain off last answers)
unfolding send_loop
send_loop-Ends len zero off last answers enough h = (_, refl, tt)
send_loop-Ends len (suc remain) off last [] enough h = absurd (omega (arith, enough))
send_loop-Ends len (suc remain) off last (none ∷ answers) enough h =
    (_, refl, (Ahead-StartsInside len remain off h, tt))
send_loop-Ends len (suc remain) off last (some zero ∷ answers) enough h =
    (_, refl, (Ahead-StartsInside len remain off h, tt))
send_loop-Ends len (suc remain) off last (some (suc n) ∷ answers) enough h =
    one_more-Ends len (off, send_len len) _ (Ahead-StartsInside len remain off h)
      (send_loop-Ends len (suc remain - suc n) (off + suc n) (some (suc n)) answers
        (omega (arith, enough)) (Ahead-taken len remain off n h))

send_results-result :
    (stray : ℕ) (resultstr : Text) (answers : List (Option ℕ)) (r : Sends)
    → send_loop (length resultstr) (length resultstr) 0 (some 1) answers ≡ some r
    → send_results stray resultstr answers ≡ some (r, send_code_of stray r.last)
unfolding send_results
send_results-result stray resultstr answers r e = rw (e, send_results) refl

-- send_results ends after at most as many calls of send as the string has bytes, whatever they
-- answer; each of its calls starts inside the string and asks for at most 4095 bytes.
pub send_results-Ends :
    (stray : ℕ) (resultstr : Text) (answers : List (Option ℕ))
    → length resultstr ≤ length answers
    → (r : Sends) × (send_results stray resultstr answers ≡ some (r, send_code_of stray r.last))
      × All (StartsInside (length resultstr)) r.calls
send_results-Ends stray resultstr answers enough =
    let (r, e, all) =
      send_loop-Ends (length resultstr) (length resultstr) 0 (some 1) answers enough
        (inl (omega arith)) in
    (r, send_results-result stray resultstr answers r e, all)

-- Where every call takes the whole 4095 bytes that it is given, and the string is longer than that
-- and no multiple of it: the last call asks for bytes behind the end of the string.
abbrev IsFull : Option ℕ → Type 0
IsFull answer = answer ≡ some 4095

abbrev PastEnd : ℕ → Option Sends → Type 0
PastEnd len result =
    (r : Sends) × (before : List (ℕ × ℕ)) × (off : ℕ) × (result ≡ some r)
    × (r.calls ≡ before ++ (off, 4095) ∷ [])
    × (off < len)
    × (len < off + 4095)

one_more-PastEnd :
    (len : ℕ) (call : ℕ × ℕ) (result : Option Sends)
    → PastEnd len result
    → PastEnd len (one_more call result)
one_more-PastEnd len call result (r, before, off, e, calls, low, high) = (
  record r { calls = call ∷ r.calls },
  call ∷ before,
  off,
  rw e refl,
  ap (λ cs. call ∷ cs) calls,
  low,
  high,
)

send_len-long : (len : ℕ) → 4095 < len → send_len len ≡ 4095
send_len-long len long = ground arith

send_loop-full :
    (len remain off : ℕ) (last a : Option ℕ) (answers : List (Option ℕ))
    → IsFull a
    → 4095 < len
    → send_loop len (suc remain) off last (a ∷ answers)
      ≡ one_more (off, 4095) (send_loop len (suc remain - 4095) (off + 4095) (some 4095) answers)
unfolding send_loop
send_loop-full len remain off last a answers full long = rw full (
    ap (λ l. one_more (off, l) (send_loop len (suc remain - 4095) (off + 4095) (some 4095) answers))
      (send_len-long len long))

send_loop-last :
    (len remain off : ℕ) (last : Option ℕ) (answers : List (Option ℕ))
    → remain ≡ 0
    → send_loop len remain off last answers ≡ some (record { calls = []; last = last })
unfolding send_loop
send_loop-last len zero off last answers e = refl
send_loop-last len (suc remain) off last answers e = absurd (omega (arith, e))

send_loop-PastEnd :
    (len remain off : ℕ) (last : Option ℕ) (answers : List (Option ℕ))
    → 4095 < len
    → 0 < remain % 4095
    → off + remain ≡ len
    → remain ≤ length answers
    → All IsFull answers
    → PastEnd len (send_loop len remain off last answers)
send_loop-PastEnd len zero off last answers long ragged e enough full =
    absurd (omega (arith, ragged))
send_loop-PastEnd len (suc remain) off last [] long ragged e enough full =
    absurd (omega (arith, enough))
send_loop-PastEnd len (suc remain) off last (a ∷ answers) long ragged e enough (h, full) =
    rw (send_loop-full len remain off last a answers h long) (elim (le_or_lt 4095 (suc remain)) [
      | inl more ↦
          one_more-PastEnd len (off, 4095) _
            (send_loop-PastEnd len (suc remain - 4095) (off + 4095) (some 4095) answers long
              (omega (arith, ragged, more)) (omega (arith, e, more)) (omega (arith, enough)) full)
      | inr less ↦ (
        record { calls = (off, 4095) ∷ []; last = some 4095 },
        [],
        off,
        rw
            (send_loop-last len (suc remain - 4095) (off + 4095) (some 4095) answers
              (omega (arith, less)))
            refl,
        refl,
        omega (arith, e),
        omega (arith, e, less),
      )
    ])

-- A result longer than 4095 bytes, of a length that 4095 does not divide, where every call takes the
-- 4095 bytes it is given: the last call starts inside the string and reads behind its end.
pub send_results-PastEnd :
    (stray : ℕ) (resultstr : Text) (answers : List (Option ℕ))
    → 4095 < length resultstr
    → 0 < length resultstr % 4095
    → length resultstr ≤ length answers
    → All IsFull answers
    → (r : Sends) × (before : List (ℕ × ℕ)) × (off : ℕ) × (send_results stray resultstr answers
        ≡ some (r, send_code_of stray r.last))
      × (r.calls ≡ before ++ (off, 4095) ∷ [])
      × (off < length resultstr)
      × (length resultstr < off + 4095)
send_results-PastEnd stray resultstr answers long ragged enough full =
    let len : ℕ = length resultstr in
    let (r, before, off, e, calls, low, high) =
      send_loop-PastEnd len len 0 (some 1) answers long ragged (omega arith) enough full in
    (r, before, off, send_results-result stray resultstr answers r e, calls, low, high)
