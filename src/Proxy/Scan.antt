-- ===== src/Proxy/Scan.antt =====
-- The reading of a request line in proxylab/proxy.c: sscanf with "%s %s %s", and atoi of the port.
use system_programming_lab.Base.{
  ℕ, zero, suc, ◌+◌, ◌-◌, ◌*◌, Bool, ◌&&◌, ◌||◌, List, [], ◌∷◌, ℤ, pos, negsuc, leb, ◌==◌,
  if◌then◌else◌,
}
use system_programming_lab.Proxy.State.{Text}

abbrev pub is_space : ℕ → Bool
is_space c = (c == b' ') || (leb 9 c && leb c 13)

unfoldable pub skip_white : Text → Text
skip_white [] = []
skip_white (c ∷ cs) = if is_space c then skip_white cs else c ∷ cs

-- The characters before the first white space, and the rest.
unfoldable pub span_word : Text → Text × Text
span_word [] = ([], [])
span_word (c ∷ cs) =
    let (word, rest) = span_word cs in if is_space c then ([], c ∷ cs) else (c ∷ word, rest)

-- The first k words of a text, or those that there are.
unfoldable pub scan : ℕ → Text → List Text
unfolding skip_white span_word
scan zero cs = []
scan (suc k) cs = elim (skip_white cs) [
  | [] ↦ []
  | d ∷ ds ↦ let (word, rest) = span_word (d ∷ ds) in word ∷ scan k rest
]

-- What sscanf finds: all three arguments, some, or none, where it returns EOF.
pub data Scanned : Type 0 where
  request : (hostname port content : Text) → Scanned
  incomplete : Scanned
  empty : Scanned

abbrev pub scanned : List Text → Scanned
scanned [] = empty
scanned (h ∷ []) = incomplete
scanned (h ∷ p ∷ []) = incomplete
scanned (h ∷ p ∷ c ∷ more) = request h p c

unfoldable pub sscanf : Text → Scanned
unfolding scan
sscanf cs = scanned (scan 3 cs)

abbrev pub is_digit : ℕ → Bool
is_digit c = leb b'0' c && leb c b'9'

abbrev pub number_from : ℕ → Text → ℕ
number_from n [] = n
number_from n (c ∷ cs) = if is_digit c then number_from (10 * n + (c - b'0')) cs else n

abbrev pub negated : ℕ → ℤ
negated zero = pos 0
negated (suc n) = negsuc n

abbrev pub signed : Text → ℤ
signed [] = pos 0
signed (c ∷ cs) =
    if c == b'-'
    then negated (number_from 0 cs)
    else if c == b'+'
    then pos (number_from 0 cs)
    else pos (number_from 0 (c ∷ cs))

-- C's atoi. Numbers past the range of int, where C leaves the result open, are kept.
unfoldable pub atoi : Text → ℤ
unfolding skip_white
atoi cs = signed (skip_white cs)
