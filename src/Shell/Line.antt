-- ===== src/Shell/Line.antt =====
-- src/shell.c: the first loop of run_cmd, which cuts a line into the command and its arguments.
pub mod Argument
pub mod Words
use cdnw_sh.Base.{
  ℕ, zero, suc, ◌+◌, ◌-◌, Bool, true, false, not, ◌&&◌, ◌||◌, ltb, ◌==◌, if◌then◌else◌, Option,
  none, some, List, [], ◌∷◌, ◌++◌, length,
}
use cdnw_sh.Shell.Table.{Text}

-- The variables of the loop. Arguments are in order; `ends` is set by the break.
pub record Scan : Type 0 where
  pub cmd_tok : Option Text
  pub argv : List Text
  pub last_stop : ℕ
  pub qopen : Bool
  pub dqopen : Bool

abbrev pub initial : Scan
initial = record { cmd_tok = none; argv = []; last_stop = 0; qopen = false; dqopen = false }

abbrev pub max_args : ℕ
max_args = 16

abbrev pub is_quote : ℕ → Bool
is_quote c = (c == 34) || (c == 39)

abbrev pub is_end : ℕ → Bool
is_end c = (c == 10) || (c == 13)

-- strncpy of the n bytes from an offset on.
unfoldable pub slice : Text → ℕ → ℕ → Text
slice [] off n = []
slice (c ∷ cs) (suc off) n = slice cs off n
slice (c ∷ cs) zero zero = []
slice (c ∷ cs) zero (suc n) = c ∷ slice cs zero n

-- A quote that opens right behind a separator is left out of the argument.
abbrev pub skipped : Scan → ℕ → ℕ
skipped sc i = if i == sc.last_stop + 1 then sc.last_stop + 1 else sc.last_stop

unfoldable pub on_quote : ℕ → ℕ → Scan → Scan
on_quote c i sc =
    if c == 34
    then (if sc.dqopen
        then record sc { dqopen = false }
        else record sc { dqopen = true; last_stop = skipped sc i })
    else (if sc.qopen
        then record sc { qopen = false }
        else record sc { qopen = true; last_stop = skipped sc i })

-- Where the word ends: a quote that closed right before the separator is left out.
abbrev pub word_end : ℕ → ℕ → Scan → ℕ
word_end prev i sc = if ltb 0 i && is_quote prev && not sc.dqopen && not sc.qopen then i - 1 else i

-- A separator ends the command's name or an argument. None where memory is left: the array has
-- sixteen arguments, and a length must not be negative.
unfoldable pub on_separator : Text → ℕ → ℕ → Scan → Option Scan
unfolding slice
on_separator line prev i sc =
    let idx = word_end prev i sc in
    elim sc.cmd_tok [
      | none ↦ some (record sc { cmd_tok = some (slice line 0 idx); last_stop = i })
      | some tok ↦
          if ltb (length sc.argv) max_args && ltb sc.last_stop idx
          then some (record sc {
            argv = sc.argv ++ slice line (sc.last_stop + 1) (idx - sc.last_stop - 1) ∷ [];
            last_stop = i;
          })
          else none
    ]

abbrev pub is_separator : ℕ → Scan → Bool
is_separator c sc = ((c == 32) && not sc.dqopen && not sc.qopen) || is_end c

-- The rest of the loop, from index i on; `prev` is the character before it.
unfoldable pub scan_from : Text → Text → ℕ → ℕ → Scan → Option Scan
unfolding on_quote on_separator
scan_from line [] i prev sc = some sc
scan_from line (c ∷ cs) i prev sc = elim (is_quote c) [
  | true ↦ scan_from line cs (i + 1) c (on_quote c i sc)
  | false ↦ elim (is_separator c sc) [
    | false ↦ scan_from line cs (i + 1) c sc
    | true ↦ elim (on_separator line prev i sc) [
      | none ↦ none
      | some sc' ↦ elim (is_end c) [ true ↦ some sc' | false ↦ scan_from line cs (i + 1) c sc' ]
    ]
  ]
]

unfoldable pub scan_line : Text → Option Scan
unfolding scan_from
scan_line line = scan_from line line 0 0 initial
