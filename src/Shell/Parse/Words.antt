-- ===== src/Shell/Parse/Words.antt =====
-- Command lines as a user writes them, and what the steps of `parseline` make of their words.
use system_programming_lab.Base.{
  ℕ, ◌≡◌, ◌≢◌, ◌∙◌, sym, refl, ap, false, some, List, [], ◌∷◌, ◌++◌, ◌==◌, All, arith,
}
use system_programming_lab.Shell.State.{Text}
use system_programming_lab.Shell.Parse.{space, quote, blank_last, skip_spaces, strchr}

-- An argument written as it is, or between single quotes.
pub data Word : Type 0 where
  bare : Text → Word
  quoted : Text → Word

abbrev pub text_of : Word → Text
text_of (bare w) = w
text_of (quoted w) = w

abbrev pub written : Word → Text
written (bare w) = w
written (quoted w) = quote ∷ w ++ quote ∷ []

abbrev pub newline : ℕ
newline = 10

-- A line of words with a space between them and a newline at the end.
abbrev pub line_of : List Word → Word → Text
line_of [] last = written last ++ newline ∷ []
line_of (w ∷ ws) last = written w ++ space ∷ line_of ws last

-- The character does not occur in the text.
abbrev pub IsFree : ℕ → Text → Type 0
IsFree d cs = All (λ c. c ≢ d) cs

-- A bare word is not empty, has no space and does not begin with a quote; a quoted one has no quote.
abbrev pub IsWord : Word → Type 0
IsWord (bare []) = ⊥
IsWord (bare (c ∷ cs)) = (c ≢ quote) × IsFree space (c ∷ cs)
IsWord (quoted w) = IsFree quote w

-- The line with its newline made a space.
abbrev pub blanked : List Word → Text
blanked [] = []
blanked (w ∷ ws) = written w ++ space ∷ blanked ws

blank_last-append :
    (xs : Text) (c : ℕ) (ys : Text) → blank_last (xs ++ c ∷ ys) ≡ xs ++ blank_last (c ∷ ys)
unfolding blank_last
blank_last-append [] c ys = refl
blank_last-append (x ∷ []) c ys = refl
blank_last-append (x ∷ y ∷ xs) c ys = ap (◌∷◌ x) (blank_last-append (y ∷ xs) c ys)

blank_last-cons : (c d : ℕ) (ys : Text) → blank_last (c ∷ d ∷ ys) ≡ c ∷ blank_last (d ∷ ys)
unfolding blank_last
blank_last-cons c d ys = refl

blank_last-newline : blank_last (newline ∷ []) ≡ space ∷ []
unfolding blank_last
blank_last-newline = refl

line_of-cons : (ws : List Word) (last : Word) → (c : ℕ) × (cs : Text) × (line_of ws last ≡ c ∷ cs)
line_of-cons [] (bare []) = (newline, [], refl)
line_of-cons [] (bare (c ∷ cs)) = (c, cs ++ newline ∷ [], refl)
line_of-cons [] (quoted cs) = (quote, (cs ++ quote ∷ []) ++ newline ∷ [], refl)
line_of-cons (bare [] ∷ ws) last = (space, line_of ws last, refl)
line_of-cons (bare (c ∷ cs) ∷ ws) last = (c, cs ++ space ∷ line_of ws last, refl)
line_of-cons (quoted cs ∷ ws) last = (quote, (cs ++ quote ∷ []) ++ space ∷ line_of ws last, refl)

pub blank_last-line_of :
    (ws : List Word) (last : Word) → blank_last (line_of ws last) ≡ blanked (ws ++ last ∷ [])
blank_last-line_of [] last =
    blank_last-append (written last) newline [] ∙ ap (◌++◌ (written last)) blank_last-newline
blank_last-line_of (w ∷ ws) last =
    let (c, cs, e) = line_of-cons ws last in
    let ih = blank_last-line_of ws last in
    blank_last-append (written w) space (line_of ws last)
    ∙ ap (◌++◌ (written w)) (
        ap (λ (l : Text). blank_last (space ∷ l)) e
        ∙ blank_last-cons space c cs
        ∙ ap (◌∷◌ space) (ap blank_last (sym e) ∙ ih))

pub strchr-append : (d : ℕ) (cs ys : Text) → IsFree d cs → strchr d (cs ++ d ∷ ys) ≡ some (cs, ys)
unfolding strchr
strchr-append d [] ys h = ground arith
strchr-append d (c ∷ cs) ys h =
    let n : (c == d) ≡ false = ground arith in rw (n, strchr-append d cs ys h.1)

pub skip_spaces-ne : (c : ℕ) (cs : Text) → c ≢ space → skip_spaces (c ∷ cs) ≡ c ∷ cs
unfolding skip_spaces
skip_spaces-ne c cs n = ground arith

pub skip_spaces-space : (cs : Text) → skip_spaces (space ∷ cs) ≡ skip_spaces cs
unfolding skip_spaces
skip_spaces-space cs = refl
