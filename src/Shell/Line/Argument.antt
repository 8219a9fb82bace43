-- ===== src/Shell/Line/Argument.antt =====
-- The scanner on one argument.
use cdnw_sh.Base.{
  ℕ, suc, ◌+◌, ◌-◌, ◌<◌, ◌≡◌, refl, ap, ◌∙◌, sym, true, false, ◌==◌, ==_refl, some, List, [], ◌∷◌,
  ◌++◌, length, length-append, All, lt→ltb, arith,
}
use mathlib.Core.List.{append_assoc}
use cdnw_sh.Shell.Table.{Text}
use cdnw_sh.Shell.Line.{
  Scan, max_args, is_quote, is_end, is_separator, slice, on_quote, word_end, on_separator,
  scan_from,
}

-- An argument as it is typed: as it is, or between double quotes.
pub data Word : Type 0 where
  plain quoted : Text → Word

unfoldable pub content : Word → Text
content (plain w) = w
content (quoted w) = w

unfoldable pub typed : Word → Text
typed (plain w) = w
typed (quoted w) = 34 ∷ (w ++ 34 ∷ [])

-- The characters between quotes, and the others.
abbrev pub IsInner : ℕ → Type 0
IsInner c = (is_quote c ≡ false) × (is_end c ≡ false)

abbrev pub IsOuter : ℕ → Type 0
IsOuter c = IsInner c × (c == 32 ≡ false)

abbrev pub IsTyped : Word → Type 0
IsTyped (plain w) = All IsOuter w
IsTyped (quoted w) = All IsInner w

-- The arguments, each behind a space, and the newline.
unfoldable pub arguments : List Word → Text → Text
arguments [] tail = 10 ∷ tail
arguments (a ∷ as') tail = 32 ∷ (typed a ++ arguments as' tail)

pub slice-append :
    (before w after : Text) → slice (before ++ w ++ after) (length before) (length w) ≡ w
unfolding slice
slice-append [] [] [] = refl
slice-append [] [] (c ∷ cs) = refl
slice-append [] (c ∷ w) after = ap (λ x. c ∷ x) (slice-append [] w after)
slice-append (c ∷ before) w after = slice-append before w after

-- The last character read.
pub last_of : ℕ → Text → ℕ
last_of prev [] = prev
last_of prev (c ∷ cs) = last_of c cs

abbrev pub Passes : Scan → ℕ → Type 0
Passes sc c = (is_quote c ≡ false) × (is_separator c sc ≡ false)

-- One character that is neither a quote nor a separator.
scan_from_step :
    (line cs : Text) (c i prev : ℕ) (sc : Scan)
    → Passes sc c
    → scan_from line (c ∷ cs) i prev sc ≡ scan_from line cs (i + 1) c sc
unfolding scan_from
scan_from_step line cs c i prev sc h = rw (h.0, h.1, scan_from) refl

-- Characters that are neither quotes nor separators change nothing but the place.
pub scan_from_pass :
    (line w rest : Text) (i prev : ℕ) (sc : Scan)
    → All (Passes sc) w
    → scan_from line (w ++ rest) i prev sc ≡ scan_from line rest (i + length w) (last_of prev w) sc
unfolding last_of
scan_from_pass line [] rest i prev sc h = let same : i + 0 ≡ i = omega arith in rw same refl
scan_from_pass line (c ∷ w) rest i prev sc h =
    let next : i + suc (length w) ≡ i + 1 + length w = omega arith in
    scan_from_step line (w ++ rest) c i prev sc h.0
    ∙ rw next (scan_from_pass line w rest (i + 1) c sc h.1)

pub last_of_pass :
    (w : Text) (prev : ℕ) (sc : Scan)
    → is_quote prev ≡ false
    → All (Passes sc) w
    → is_quote (last_of prev w) ≡ false
unfolding last_of
last_of_pass [] prev sc e h = e
last_of_pass (c ∷ w) prev sc e h = last_of_pass w c sc h.0.0 h.1

-- The state behind the separator at index i.
abbrev pub at_word : Text → List Text → ℕ → Scan
at_word tok av i = record {
  cmd_tok = some tok;
  argv = av;
  last_stop = i;
  qopen = false;
  dqopen = false;
}

-- The state in which a double quote is open.
abbrev pub in_quotes : Text → List Text → ℕ → Scan
in_quotes tok av i = record {
  cmd_tok = some tok;
  argv = av;
  last_stop = i;
  qopen = false;
  dqopen = true;
}

pub space_separates :
    (line cs : Text) (i prev : ℕ) (sc sc' : Scan)
    → is_separator 32 sc ≡ true
    → on_separator line prev i sc ≡ some sc'
    → scan_from line (32 ∷ cs) i prev sc ≡ scan_from line cs (i + 1) 32 sc'
unfolding scan_from
space_separates line cs i prev sc sc' e h = rw (e, h, scan_from) refl

pub scan_from_newline :
    (line cs : Text) (i prev : ℕ) (tok : Text) (av : List Text) (last : ℕ) (sc : Scan)
    → on_separator line prev i (at_word tok av last) ≡ some sc
    → scan_from line (10 ∷ cs) i prev (at_word tok av last) ≡ some sc
unfolding scan_from
scan_from_newline line cs i prev tok av last sc h = rw (h, scan_from) refl

scan_from_open :
    (line cs : Text) (i prev : ℕ) (tok : Text) (av : List Text)
    → scan_from line (34 ∷ cs) (i + 1) prev (at_word tok av i)
      ≡ scan_from line cs (i + 1 + 1) 34 (in_quotes tok av (i + 1))
unfolding scan_from on_quote
scan_from_open line cs i prev tok av = rw (==_refl (i + 1)) refl

scan_from_close :
    (line cs : Text) (i prev : ℕ) (tok : Text) (av : List Text) (last : ℕ)
    → scan_from line (34 ∷ cs) i prev (in_quotes tok av last)
      ≡ scan_from line cs (i + 1) 34 (at_word tok av last)
unfolding scan_from on_quote
scan_from_close line cs i prev tok av last = refl

-- The word that a separator ends, where n characters of it are kept.
separator_keeps :
    (before w after : Text) (prev i last : ℕ) (tok : Text) (av : List Text)
    → length before ≡ last + 1
    → word_end prev i (at_word tok av last) ≡ last + 1 + length w
    → length av < max_args
    → on_separator (before ++ w ++ after) prev i (at_word tok av last)
      ≡ some (at_word tok (av ++ w ∷ []) i)
unfolding on_separator
separator_keeps before w after prev i last tok av len stop few =
    let inside : last + 1 + length w - last - 1 ≡ length w = omega arith in
    rw
      (
        stop,
        lt→ltb (length av) max_args few,
        lt→ltb last (last + 1 + length w) (omega arith),
        inside,
        ← len,
        slice-append before w after,
      )
      refl

-- What the scanner has done when it stands behind the characters of an argument.
pub record ReadWord (line rest : Text) (tok : Text) (av : List Text) (i before : ℕ) (a : Word)
    : Type 0 where
  pub prev : ℕ
  pub last : ℕ
  pub reached :
      scan_from line (typed a ++ rest) (i + 1) before (at_word tok av i)
      ≡ scan_from line rest (i + 1 + length (typed a)) prev (at_word tok av last)
  pub kept :
      on_separator line prev (i + 1 + length (typed a)) (at_word tok av last)
      ≡ some (at_word tok (av ++ content a ∷ []) (i + 1 + length (typed a)))

outer_pass :
    (w : Text) (tok : Text) (av : List Text) (i : ℕ)
    → All IsOuter w
    → All (Passes (at_word tok av i)) w
outer_pass [] tok av i h = tt
outer_pass (c ∷ w) tok av i h = ((h.0.0.0, rw (h.0.1, h.0.0.1) refl), outer_pass w tok av i h.1)

inner_pass :
    (w : Text) (tok : Text) (av : List Text) (i : ℕ)
    → All IsInner w
    → All (Passes (in_quotes tok av i)) w
inner_pass [] tok av i h = tt
inner_pass (c ∷ w) tok av i h = ((h.0.0, ground arith), inner_pass w tok av i h.1)

pub word_end_plain :
    (prev i : ℕ) (tok : Text) (av : List Text) (last : ℕ)
    → is_quote prev ≡ false
    → word_end prev i (at_word tok av last) ≡ i
word_end_plain prev i tok av last e = ground arith

word_end_quote :
    (i : ℕ) (tok : Text) (av : List Text) (last : ℕ)
    → 0 < i
    → word_end 34 i (at_word tok av last) ≡ i - 1
word_end_quote i tok av last h = rw (lt→ltb 0 i h) refl

read_plain :
    (start w rest : Text) (tok : Text) (av : List Text) (i before : ℕ)
    → length start ≡ i + 1
    → is_quote before ≡ false
    → length av < max_args
    → All IsOuter w
    → ReadWord (start ++ w ++ rest) rest tok av i before (plain w)
unfolding typed content
read_plain start w rest tok av i before len e few h = record {
  prev = last_of before w;
  last = i;
  reached =
      scan_from_pass (start ++ w ++ rest) w rest (i + 1) before (at_word tok av i)
        (outer_pass w tok av i h);
  kept =
      separator_keeps start w rest (last_of before w) (i + 1 + length w) i tok av len
        (word_end_plain (last_of before w) (i + 1 + length w) tok av i
          (last_of_pass w before (at_word tok av i) e (outer_pass w tok av i h)))
        few;
}

-- A quoted argument in its line, bracketed by its content.
quoted_line :
    (start w rest : Text)
    → start ++ (34 ∷ (w ++ 34 ∷ [])) ++ rest ≡ (start ++ 34 ∷ []) ++ w ++ 34 ∷ rest
quoted_line start w rest = simp append_assoc

read_quoted :
    (start w rest : Text) (tok : Text) (av : List Text) (i before : ℕ)
    → length start ≡ i + 1
    → length av < max_args
    → All IsInner w
    → ReadWord (start ++ (34 ∷ (w ++ 34 ∷ [])) ++ rest) rest tok av i before (quoted w)
unfolding typed content
read_quoted start w rest tok av i before len few h =
    let line = start ++ (34 ∷ (w ++ 34 ∷ [])) ++ rest in
    let stop = i + 1 + suc (length (w ++ 34 ∷ [])) in
    let size : stop ≡ i + 1 + 1 + length w + 1 = omega (arith, length-append w (34 ∷ [])) in
    record {
      prev = 34;
      last = i + 1;
      reached =
          ap (λ cs. scan_from line cs (i + 1) before (at_word tok av i)) (simp append_assoc)
          ∙ scan_from_open line (w ++ 34 ∷ rest) i before tok av
          ∙ scan_from_pass line w (34 ∷ rest) (i + 1 + 1) 34 (in_quotes tok av (i + 1))
              (inner_pass w tok av (i + 1) h)
          ∙ scan_from_close line rest (i + 1 + 1 + length w) (last_of 34 w) tok av (i + 1)
          ∙ ap (λ n. scan_from line rest n 34 (at_word tok av (i + 1))) (sym size);
      kept = rw (quoted_line start w rest) (
          separator_keeps (start ++ 34 ∷ []) w (34 ∷ rest) 34 stop (i + 1) tok av
            (omega (arith, length-append start (34 ∷ []), len))
            (word_end_quote stop tok av (i + 1) (omega (arith, size)) ∙ omega (arith, size)) few);
    }

pub read_word :
    (start : Text) (a : Word) (rest : Text) (tok : Text) (av : List Text) (i before : ℕ)
    → length start ≡ i + 1
    → is_quote before ≡ false
    → length av < max_args
    → IsTyped a
    → ReadWord (start ++ typed a ++ rest) rest tok av i before a
unfolding typed
read_word start (plain w) rest tok av i before len e few h =
    read_plain start w rest tok av i before len e few h
read_word start (quoted w) rest tok av i before len e few h =
    read_quoted start w rest tok av i before len few h
