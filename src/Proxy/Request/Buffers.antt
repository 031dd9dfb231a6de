-- ===== src/Proxy/Request/Buffers.antt =====
-- The arrays of proxylab/proxy.c: what a read leaves in them.
use system_programming_lab.Base.{
  ℕ, suc, ◌<◌, ◌≡◌, ◌≢◌, refl, ap, some, pos, List, [], ◌∷◌, ◌++◌, ◌+◌, length, All, arith,
}
use system_programming_lab.Proxy.State.{Library, Text, Reading, line, max_line, c_string, store}
use system_programming_lab.Proxy.Scan.{atoi}

-- A text that rio_readlineb can return: it has no NUL, and an array of 8192 characters holds it.
abbrev pub IsLine : Text → Type 0
IsLine cs = (length cs < max_line) × All (λ c. c ≢ 0) cs

-- The lines that are read before the end, or before a read that fails.
unfoldable pub texts_of : List Reading → List Text
texts_of [] = []
texts_of (line n cs ∷ rs) = cs ∷ texts_of rs
texts_of (r ∷ rs) = []

pub length-store : (cs buf : Text) → length (store cs buf) ≡ length buf
unfolding store
length-store [] buf = refl
length-store (c ∷ cs) [] = refl
length-store (c ∷ cs) (b ∷ buf) = ap suc (length-store cs buf)

pub c_string-store :
    (cs buf : Text)
    → All (λ c. c ≢ 0) cs
    → length cs < length buf
    → c_string (store (cs ++ 0 ∷ []) buf) ≡ cs
unfolding store c_string
c_string-store [] [] h room = absurd (omega arith)
c_string-store [] (b ∷ buf) h room = refl
c_string-store (c ∷ cs) [] h room = absurd (omega arith)
c_string-store (c ∷ cs) (b ∷ buf) h room = ground (arith, c_string-store cs buf h.1 (omega arith))

-- A server that can be connected to by `server` as its descriptor and that sends a line for every
-- line that it gets, the k-th time `answers k`, where asctime returns 25 characters, as it does for
-- years of four digits, and `log_format` holds the longest log line for each answer.
pub record Serves (lib : Library) (server : ℕ) (answers : ℕ → Text) : Type 0 where
  pub connects : (h p : Text) → lib.open_clientfd h (atoi p) ≡ some server
  pub count : ℕ → ℕ
  pub answered : (k : ℕ) → lib.rio_readlineb (pos server) k ≡ line (count k) (answers k)
  pub are_lines : (k : ℕ) → IsLine (answers k)
  pub dated : (k : ℕ) → length (lib.asctime k) ≡ 25
  pub short : (k : ℕ) → length (answers k) + 53 < max_line
