-- ===== src/Shell/Parse.antt =====
-- `parseline` of shelllab/tsh.c. The pointers into the buffer are suffixes of its text, and an
-- argument that the code ends by writing a NUL over its delimiter is the text before that delimiter.
pub mod Words
pub mod RoundTrip
pub mod Total
use system_programming_lab.Base.{
  ℕ, zero, suc, ◌+◌, Bool, true, false, Option, none, some, List, [], ◌∷◌, ◌||◌, ltb, leb, ◌==◌,
  if◌then◌else◌, length,
}
use system_programming_lab.Shell.State.{Text}

abbrev pub max_args : ℕ
max_args = 128

-- The characters that `array` and `cmdline` hold, the NUL included.
abbrev pub max_line : ℕ
max_line = 1024

abbrev pub space : ℕ
space = b' '

abbrev pub quote : ℕ
quote = 0x27

abbrev pub ampersand : ℕ
ampersand = b'&'

-- `buf[strlen(buf)-1] = ' '`, for a text that is not empty
unfoldable pub blank_last : Text → Text
blank_last [] = []
blank_last (c ∷ []) = space ∷ []
blank_last (c ∷ d ∷ cs) = c ∷ blank_last (d ∷ cs)

-- `while (*buf && (*buf == ' ')) buf++`
unfoldable pub skip_spaces : Text → Text
skip_spaces [] = []
skip_spaces (c ∷ cs) = if c == space then skip_spaces cs else c ∷ cs

-- `strchr`: what stands before the first such character, and what stands behind it.
unfoldable pub strchr : ℕ → Text → Option (Text × Text)
strchr d [] = none
strchr d (c ∷ cs) =
    if c == d
    then some ([], cs)
    else elim (strchr d cs) [ none ↦ none | some (before, behind) ↦ some (c ∷ before, behind) ]

-- The next argument in a text whose leading spaces are skipped, and the text behind its delimiter.
unfoldable pub find_arg : Text → Option (Text × Text)
unfolding strchr
find_arg [] = strchr space []
find_arg (c ∷ cs) = if c == quote then strchr quote cs else strchr space (c ∷ cs)

-- The arguments before NULL. `overflow` is a write past the end of `argv`.
pub data Args : Type 0 where
  args : List Text → Args
  overflow : Args
  out_of_fuel : Args

abbrev pub cons_arg : Text → Args → Args
cons_arg a (args argv) = args (a ∷ argv)
cons_arg a overflow = overflow
cons_arg a out_of_fuel = out_of_fuel

-- The loop `while (delim)` and the write of NULL behind it, with `argc` arguments so far.
unfoldable pub arg_loop : ℕ → ℕ → Text → Args
arg_loop zero argc buf = out_of_fuel
arg_loop (suc k) argc buf = elim (find_arg (skip_spaces buf)) [
  | none ↦ if ltb argc max_args then args [] else overflow
  | some (a, rest) ↦ elim (ltb argc max_args) [
    | true ↦ cons_arg a (arg_loop k (argc + 1) rest)
    | false ↦ overflow
  ]
]

abbrev pub starts_with_ampersand : Text → Bool
starts_with_ampersand [] = false
starts_with_ampersand (c ∷ cs) = c == ampersand

-- The arguments without a last one that begins with '&', and whether there was one. With no argument
-- at all the code returns 1.
unfoldable pub background : List Text → Bool × List Text
background [] = (true, [])
background (a ∷ []) = if starts_with_ampersand a then (true, []) else (false, a ∷ [])
background (a ∷ b ∷ more) = let (bg, rest) = background (b ∷ more) in (bg, a ∷ rest)

-- `parse_overflow` is a write outside `array` or `argv`.
pub data Parsed : Type 0 where
  parsed : Bool → List Text → Parsed
  parse_overflow : Parsed
  parse_out_of_fuel : Parsed

abbrev pub finish : Args → Parsed
finish (args argv) = let (bg, rest) = background argv in parsed bg rest
finish overflow = parse_overflow
finish out_of_fuel = parse_out_of_fuel

-- A line that `array` does not hold is written past its end, and an empty one makes the code write
-- before its begin. Each round takes a character, so that the length of the text is fuel enough.
unfoldable pub parseline : Text → Parsed
unfolding blank_last skip_spaces find_arg arg_loop background
parseline cmdline =
    let buf : Text = blank_last cmdline in
    if length cmdline == 0 || leb max_line (length cmdline)
    then parse_overflow
    else finish (arg_loop (suc (length buf)) 0 buf)
