-- ===== src/Shell/Line/Words.antt =====
-- The scanner on a command and its arguments, written with one space before each argument.
use cdnw_sh.Base.{
  ℕ, ◌+◌, ◌≤◌, ◌<◌, ◌≡◌, refl, ap, ◌∙◌, sym, false, some, List, [], ◌∷◌, ◌++◌, length,
  length-append, All, map, arith,
}
use mathlib.Core.List.{append_assoc}
use cdnw_sh.Shell.Table.{Text}
use cdnw_sh.Shell.Line.{Scan, initial, max_args, is_quote, on_separator, scan_from, scan_line}
use cdnw_sh.Shell.Line.Argument.{
  Word, content, typed, IsOuter, IsTyped, arguments, slice-append, last_of, Passes, scan_from_pass,
  last_of_pass, at_word, space_separates, scan_from_newline, word_end_plain, read_word,
}

-- The rest of a line, behind the space before an argument.
scan_arguments :
    (as' : List Word) (a : Word) (start tail : Text) (tok : Text) (av : List Text) (i before : ℕ)
    → length start ≡ i + 1
    → is_quote before ≡ false
    → length av + length as' < max_args
    → All IsTyped (a ∷ as')
    → (last : ℕ) × (scan_from
          (start ++ typed a ++ arguments as' tail)
          (typed a ++ arguments as' tail)
          (i + 1)
          before
          (at_word tok av i)
        ≡ some (at_word tok (av ++ content a ∷ map content as') last))
unfolding arguments
scan_arguments [] a start tail tok av i before len e few h =
    let r = read_word start a (10 ∷ tail) tok av i before len e (omega arith) h.0 in
    let line = start ++ typed a ++ 10 ∷ tail in
    (
      i + 1 + length (typed a),
      r.reached
          ∙ scan_from_newline line tail (i + 1 + length (typed a)) r.prev tok av r.last _ r.kept,
    )
scan_arguments (b ∷ bs) a start tail tok av i before len e few h =
    let rest = typed b ++ arguments bs tail in
    let r = read_word start a (32 ∷ rest) tok av i before len e (omega arith) h.0 in
    let line = start ++ typed a ++ 32 ∷ rest in
    let stop = i + 1 + length (typed a) in
    let more =
      scan_arguments bs b (start ++ typed a ++ 32 ∷ []) tail tok (av ++ content a ∷ []) stop 32
        (omega
          (arith, length-append (start ++ typed a) (32 ∷ []), length-append start (typed a), len))
        refl (omega (arith, length-append av (content a ∷ []))) h.1 in
    let same : (start ++ typed a ++ 32 ∷ []) ++ typed b ++ arguments bs tail ≡ line =
      simp append_assoc in
    (
      more.0,
      r.reached
          ∙ space_separates line rest stop r.prev (at_word tok av r.last) _ refl r.kept
          ∙ ap (λ l. scan_from l rest (stop + 1) 32 (at_word tok (av ++ content a ∷ []) stop))
              (sym same)
          ∙ more.1
          ∙ ap (λ av'. some (at_word tok av' more.0)) (simp append_assoc),
    )

initial_pass : (w : Text) → All IsOuter w → All (Passes initial) w
initial_pass [] h = tt
initial_pass (c ∷ w) h = ((h.0.0.0, rw (h.0.1, h.0.0.1) refl), initial_pass w h.1)

first_separator :
    (cmd rest : Text) (prev : ℕ)
    → is_quote prev ≡ false
    → on_separator (cmd ++ rest) prev (length cmd) initial ≡ some (at_word cmd [] (length cmd))
unfolding on_separator
first_separator cmd rest prev e =
    rw (word_end_plain prev (length cmd) [] [] 0 e, slice-append [] cmd rest) refl

initial_space :
    (line cs : Text) (i prev : ℕ) (sc : Scan)
    → on_separator line prev i initial ≡ some sc
    → scan_from line (32 ∷ cs) i prev initial ≡ scan_from line cs (i + 1) 32 sc
initial_space line cs i prev sc h = space_separates line cs i prev initial sc refl h

initial_newline :
    (line cs : Text) (i prev : ℕ) (sc : Scan)
    → on_separator line prev i initial ≡ some sc
    → scan_from line (10 ∷ cs) i prev initial ≡ some sc
unfolding scan_from
initial_newline line cs i prev sc h = rw (h, scan_from) refl

scan_command :
    (as' : List Word) (cmd tail : Text) (prev : ℕ)
    → is_quote prev ≡ false
    → length as' ≤ max_args
    → All IsTyped as'
    → (last : ℕ) × (scan_from
          (cmd ++ arguments as' tail)
          (arguments as' tail)
          (length cmd)
          prev
          initial
        ≡ some (at_word cmd (map content as') last))
unfolding arguments
scan_command [] cmd tail prev e few h = (
  length cmd,
  initial_newline (cmd ++ 10 ∷ tail) tail (length cmd) prev _
      (first_separator cmd (10 ∷ tail) prev e),
)
scan_command (a ∷ as') cmd tail prev e few h =
    let rest = typed a ++ arguments as' tail in
    let more =
      scan_arguments as' a (cmd ++ 32 ∷ []) tail cmd [] (length cmd) 32
        (omega (arith, length-append cmd (32 ∷ []))) refl (omega arith) h in
    let same : (cmd ++ 32 ∷ []) ++ typed a ++ arguments as' tail ≡ cmd ++ 32 ∷ rest =
      simp append_assoc in
    (
      more.0,
      initial_space (cmd ++ 32 ∷ rest) rest (length cmd) prev _
            (first_separator cmd (32 ∷ rest) prev e)
          ∙ ap (λ l. scan_from l rest (length cmd + 1) 32 (at_word cmd [] (length cmd))) (sym same)
          ∙ more.1,
    )

-- A command whose characters are neither quotes, spaces nor line ends, and behind it at most sixteen
-- arguments, each behind one space, typed either as such characters or between double quotes, where
-- spaces may stand: the scanner reads back the command and the content of each argument, in order,
-- and stops at the newline, whatever stands behind it.
pub scan_line-arguments :
    (cmd : Text) (as' : List Word) (tail : Text)
    → All IsOuter cmd
    → All IsTyped as'
    → length as' ≤ max_args
    → (sc : Scan) × (scan_line (cmd ++ arguments as' tail) ≡ some sc)
      × (sc.cmd_tok ≡ some cmd)
      × (sc.argv ≡ map content as')
unfolding scan_line
scan_line-arguments cmd as' tail h hs few =
    let pass = initial_pass cmd h in
    let more =
      scan_command as' cmd tail (last_of 0 cmd) (last_of_pass cmd 0 initial refl pass) few hs in
    let line = cmd ++ arguments as' tail in
    let start : 0 + length cmd ≡ length cmd = omega arith in
    (
      at_word cmd (map content as') more.0,
      scan_from_pass line cmd (arguments as' tail) 0 0 initial pass
          ∙ ap (λ n. scan_from line (arguments as' tail) n (last_of 0 cmd) initial) start
          ∙ more.1,
      refl,
      refl,
    )
