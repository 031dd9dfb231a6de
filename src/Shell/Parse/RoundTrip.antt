-- ===== src/Shell/Parse/RoundTrip.antt =====
-- `parseline` on the lines of `Words`: which arguments it finds, and when it runs out of room.
use system_programming_lab.Base.{
  ℕ, zero, suc, ◌+◌, ◌≤◌, ◌<◌, ◌≡◌, ◌∙◌, refl, ap, inl, inr, true, false, some, List, [], ◌∷◌, ◌++◌,
  ltb, ◌==◌, if◌then◌else◌, Bool, ◌||◌, leb, length, length-append, All, All-append, arith, map,
  Bool-cases,
}
use mathlib.Core.List.{append_assoc, map-append}
use system_programming_lab.Shell.Parse.Words.{
  Word, bare, quoted, text_of, written, line_of, IsWord, blanked, blank_last-line_of, strchr-append,
  skip_spaces-ne, skip_spaces-space,
}
use system_programming_lab.Shell.State.{Text}
use system_programming_lab.Shell.Parse.{
  space, quote, max_args, max_line, skip_spaces, find_arg, args, overflow, cons_arg, arg_loop,
  starts_with_ampersand, background, parsed, parse_overflow, parseline,
}

-- What is left behind a word's delimiter: the space is still there behind a closing quote.
abbrev behind : Word → Text → Text
behind (bare w) rest = rest
behind (quoted w) rest = space ∷ rest

find_arg-written :
    (w : Word) (rest : Text)
    → IsWord w
    → find_arg (skip_spaces (written w ++ space ∷ rest)) ≡ some (text_of w, behind w rest)
unfolding find_arg
find_arg-written (bare []) rest h = absurd h
find_arg-written (bare (c ∷ cs)) rest h =
    let n : (c == quote) ≡ false = ground arith in
    rw (skip_spaces-ne c (cs ++ space ∷ rest) h.1.0, n, strchr-append space (c ∷ cs) rest h.1)
find_arg-written (quoted w) rest h =
    rw (skip_spaces-ne quote ((w ++ quote ∷ []) ++ space ∷ rest) (omega arith), append_assoc w)
      (strchr-append quote w (space ∷ rest) h)

arg_loop-behind :
    (w : Word) (k argc : ℕ) (rest : Text) → arg_loop k argc (behind w rest) ≡ arg_loop k argc rest
unfolding arg_loop find_arg skip_spaces
arg_loop-behind (bare w) k argc rest = refl
arg_loop-behind (quoted w) zero argc rest = refl
arg_loop-behind (quoted w) (suc k) argc rest = rw (skip_spaces-space rest)

-- One round on a word.
arg_loop-cons :
    (w : Word) (k argc : ℕ) (rest : Text)
    → IsWord w
    → argc < max_args
    → arg_loop (suc k) argc (written w ++ space ∷ rest)
      ≡ cons_arg (text_of w) (arg_loop k (argc + 1) rest)
unfolding arg_loop
arg_loop-cons w k argc rest h room =
    let fits : ltb argc max_args ≡ true = ground arith in
    rw (find_arg-written w rest h, arg_loop, fits)
      (ap (cons_arg (text_of w)) (arg_loop-behind w k (argc + 1) rest))

arg_loop-full :
    (w : Word) (k argc : ℕ) (rest : Text)
    → IsWord w
    → max_args ≤ argc
    → arg_loop (suc k) argc (written w ++ space ∷ rest) ≡ overflow
unfolding arg_loop
arg_loop-full w k argc rest h full =
    let no_room : ltb argc max_args ≡ false = ground arith in
    rw (find_arg-written w rest h, arg_loop, no_room)

length-blanked : (w : Word) (ws : List Word) → length (blanked ws) < length (blanked (w ∷ ws))
length-blanked w ws = omega (arith, length-append (written w) (space ∷ blanked ws))

arg_loop-nil : (k argc : ℕ) → argc < max_args → arg_loop (suc k) argc [] ≡ args []
unfolding arg_loop skip_spaces find_arg
arg_loop-nil k argc h = ground arith

arg_loop-nil_full : (k argc : ℕ) → max_args ≤ argc → arg_loop (suc k) argc [] ≡ overflow
unfolding arg_loop skip_spaces find_arg
arg_loop-nil_full k argc h = ground arith

arg_loop-blanked :
    (ws : List Word) (k argc : ℕ)
    → All IsWord ws
    → length (blanked ws) < k
    → argc + length ws < max_args
    → arg_loop k argc (blanked ws) ≡ args (map text_of ws)
arg_loop-blanked ws zero argc h fuel room = absurd (omega arith)
arg_loop-blanked [] (suc k) argc h fuel room = arg_loop-nil k argc (omega arith)
arg_loop-blanked (w ∷ ws) (suc k) argc h fuel room =
    arg_loop-cons w k argc (blanked ws) h.0 (omega arith)
    ∙ ap (cons_arg (text_of w))
        (arg_loop-blanked ws k (argc + 1) h.1 (omega (arith, length-blanked w ws)) (omega arith))

arg_loop-overflow :
    (ws : List Word) (k argc : ℕ)
    → All IsWord ws
    → length (blanked ws) < k
    → max_args ≤ argc + length ws
    → arg_loop k argc (blanked ws) ≡ overflow
arg_loop-overflow ws zero argc h fuel full = absurd (omega arith)
arg_loop-overflow [] (suc k) argc h fuel full = arg_loop-nil_full k argc (omega arith)
arg_loop-overflow (w ∷ ws) (suc k) argc h fuel full = elim (Bool-cases (ltb argc max_args)) [
  | inl room ↦
      arg_loop-cons w k argc (blanked ws) h.0 (ground arith)
      ∙ ap (cons_arg (text_of w))
          (arg_loop-overflow ws k (argc + 1) h.1 (omega (arith, length-blanked w ws)) (omega arith))
  | inr no_room ↦ arg_loop-full w k argc (blanked ws) h.0 (ground arith)
]

background-append :
    (front : List Text) (last : Text)
    → background (front ++ last ∷ [])
      ≡ (if starts_with_ampersand last then (true, front) else (false, front ++ last ∷ []))
unfolding background
background-append [] last = refl
background-append (a ∷ []) last = ground arith
background-append (a ∷ b ∷ front) last = let ih = background-append (b ∷ front) last in ground arith

length-line_of : (ws : List Word) (last : Word) → 0 < length (line_of ws last)
length-line_of [] last = omega (arith, length-append (written last) (10 ∷ []))
length-line_of (w ∷ ws) last = omega (arith, length-append (written w) (space ∷ line_of ws last))

-- A line of fewer than 128 words and of fewer than 1024 characters, each word with a space behind it and the last with a newline, is
-- parsed into their texts: quotes are taken off, and a last word that begins with '&' is left out
-- and makes it a background job. A bare word is not empty, has no space and does not begin with a
-- quote; a quoted one has no quote.
pub parseline-line_of :
    (ws : List Word) (last : Word)
    → All IsWord ws
    → IsWord last
    → length ws + 1 < max_args
    → length (line_of ws last) < max_line
    → parseline (line_of ws last) ≡ (
        if starts_with_ampersand (text_of last)
        then parsed true (map text_of ws)
        else parsed false (map text_of ws ++ text_of last ∷ []))
unfolding parseline
parseline-line_of ws last h hl room fits =
    let some_text : (length (line_of ws last) == 0) ≡ false =
      ground (arith, length-line_of ws last) in
    let held : leb max_line (length (line_of ws last)) ≡ false = ground arith in
    rw
      (
        some_text,
        held,
        blank_last-line_of ws last,
        whole,
        map-append,
        background-append (map text_of ws),
      )
      (ground arith)
  where
    whole :
        arg_loop (suc (length (blanked (ws ++ last ∷ [])))) 0 (blanked (ws ++ last ∷ []))
        ≡ args (map text_of (ws ++ last ∷ []))
    whole =
        arg_loop-blanked (ws ++ last ∷ []) (suc (length (blanked (ws ++ last ∷ [])))) 0
          (All-append IsWord ws (last ∷ []) h (hl, tt)) (omega arith)
          (omega (arith, length-append ws (last ∷ [])))

-- A line of 128 such words or more makes `parseline` write past the end of `argv`, or already past the
-- end of `array` where the line has 1024 characters or more: bare words, not empty, without a space or
-- a quote at their begin, or quoted ones without a quote.
pub parseline-overflow :
    (ws : List Word) (last : Word)
    → All IsWord ws
    → IsWord last
    → max_args ≤ length ws + 1
    → parseline (line_of ws last) ≡ parse_overflow
unfolding parseline
parseline-overflow ws last h hl full = elim (Bool-cases outside) [
  | inl long ↦ rw long refl
  | inr held ↦ rw (held, blank_last-line_of ws last, whole) refl
]
  where
    whole :
        arg_loop (suc (length (blanked (ws ++ last ∷ [])))) 0 (blanked (ws ++ last ∷ [])) ≡ overflow
    whole =
        arg_loop-overflow (ws ++ last ∷ []) (suc (length (blanked (ws ++ last ∷ [])))) 0
          (All-append IsWord ws (last ∷ []) h (hl, tt)) (omega arith)
          (omega (arith, length-append ws (last ∷ [])))

    outside : Bool
    outside = length (line_of ws last) == 0 || leb max_line (length (line_of ws last))
