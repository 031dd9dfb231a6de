-- ===== src/Shell/Parse/Total.antt =====
-- `parseline` on any line: its loop ends, and a short line fits into `argv`.
use system_programming_lab.Base.{
  ℕ, zero, suc, ◌+◌, ◌≤◌, ◌<◌, ◌≡◌, ◌≢◌, refl, ap, inl, inr, Bool, true, false, some, List, [], ◌∷◌,
  ltb, ◌==◌, leb, ◌||◌, length, arith, Bool-cases, Option-cases,
}
use system_programming_lab.Shell.State.{Text}
use system_programming_lab.Shell.Parse.{
  space, quote, max_args, max_line, blank_last, skip_spaces, strchr, find_arg, Args, args, overflow,
  out_of_fuel, arg_loop, background, finish, parsed, parse_out_of_fuel, parseline,
}

length-skip_spaces : (cs : Text) → length (skip_spaces cs) ≤ length cs
unfolding skip_spaces
length-skip_spaces [] = omega arith
length-skip_spaces (c ∷ cs) = ground (arith, length-skip_spaces cs)

length-strchr : (d : ℕ) (cs : Text) {a r : Text} → strchr d cs ≡ some (a, r) → length r < length cs
unfolding strchr
length-strchr d [] e = cc
length-strchr d (c ∷ cs) {a} {r} e = elim (Option-cases (strchr d cs)) [
  | inl missing ↦ ground arith
  | inr ((b, q), f) ↦ let ih = length-strchr d cs f in ground arith
]

length-find_arg : (cs : Text) {a r : Text} → find_arg cs ≡ some (a, r) → length r < length cs
unfolding find_arg
length-find_arg [] e = cc
length-find_arg (c ∷ cs) {a} {r} e = elim (Bool-cases (c == quote)) [
  | inl h ↦ let s = length-strchr quote cs {a = a} {r = r} (ground arith) in omega arith
  | inr h ↦ length-strchr space (c ∷ cs) {a = a} {r = r} (ground arith)
]

length-blank_last : (cs : Text) → length (blank_last cs) ≡ length cs
unfolding blank_last
length-blank_last [] = refl
length-blank_last (c ∷ []) = refl
length-blank_last (c ∷ d ∷ cs) = ap suc (length-blank_last (d ∷ cs))

length-rest :
    (buf : Text) {a r : Text} → find_arg (skip_spaces buf) ≡ some (a, r) → length r < length buf
length-rest buf e = omega (arith, length-find_arg (skip_spaces buf) e, length-skip_spaces buf)

arg_loop-ne-out_of_fuel :
    (k argc : ℕ) (buf : Text) → length buf < k → arg_loop k argc buf ≢ out_of_fuel
unfolding arg_loop
arg_loop-ne-out_of_fuel zero argc buf h = absurd (omega arith)
arg_loop-ne-out_of_fuel (suc k) argc buf h = elim (Option-cases (find_arg (skip_spaces buf))) [
  | inl none_left ↦ rw (none_left, arg_loop) (ground arith)
  | inr ((a, r), f) ↦
      let ih = arg_loop-ne-out_of_fuel k (argc + 1) r (omega (arith, length-rest buf f)) in
      rw (f, arg_loop) (ground arith)
]

arg_loop-args :
    (k argc : ℕ) (buf : Text)
    → length buf < k
    → argc + length buf < max_args
    → (argv : List Text) × (arg_loop k argc buf ≡ args argv)
unfolding arg_loop
arg_loop-args zero argc buf h room = absurd (omega arith)
arg_loop-args (suc k) argc buf h room =
    let fits : ltb argc max_args ≡ true = ground arith in
    elim (Option-cases (find_arg (skip_spaces buf))) [
      | inl none_left ↦ ([], rw (none_left, arg_loop, fits) refl)
      | inr ((a, r), f) ↦
          let shorter = length-rest buf f in
          let (argv, e) = arg_loop-args k (argc + 1) r (omega arith) (omega arith) in
          (a ∷ argv, rw (f, arg_loop, fits, e) refl)
    ]

finish-ne-out_of_fuel : (x : Args) → x ≢ out_of_fuel → finish x ≢ parse_out_of_fuel
finish-ne-out_of_fuel (args argv) n e = cc
finish-ne-out_of_fuel overflow n e = cc
finish-ne-out_of_fuel out_of_fuel n e = n refl

-- The loop of `parseline` ends on every line: the length of the line is fuel enough.
pub parseline-ne-out_of_fuel : (cmdline : Text) → parseline cmdline ≢ parse_out_of_fuel
unfolding parseline
parseline-ne-out_of_fuel cmdline =
    let buf : Text = blank_last cmdline in
    let some_args = arg_loop-ne-out_of_fuel (suc (length buf)) 0 buf (omega arith) in
    elim (Bool-cases (length cmdline == 0 || leb max_line (length cmdline))) [
      | inl outside ↦ rw outside (λ e. cc)
      | inr held ↦ rw held (finish-ne-out_of_fuel (arg_loop (suc (length buf)) 0 buf) some_args)
    ]

-- A line that is not empty and has fewer than 128 characters never overflows `array` or `argv`:
-- `parseline` returns.
pub parseline-parsed :
    (cmdline : Text)
    → 0 < length cmdline
    → length cmdline < max_args
    → (in_bg : Bool) × (argv : List Text) × (parseline cmdline ≡ parsed in_bg argv)
unfolding parseline
parseline-parsed cmdline pos h =
    let buf : Text = blank_last cmdline in
    let (argv, e) =
      arg_loop-args (suc (length buf)) 0 buf (omega arith)
        (omega (arith, length-blank_last cmdline)) in
    let some_text : (length cmdline == 0) ≡ false = ground arith in
    let held : leb max_line (length cmdline) ≡ false = ground arith in
    ((background argv).0, (background argv).1, rw (some_text, held) (ap finish e))
