-- ===== src/Malloc/FreeList/Chain.antt =====
-- Doubly linked lists of blocks in the memory, and what linking and unlinking a block does to one.
use system_programming_lab.Base.{
  ℕ, ◌+◌, ◌%◌, ◌<◌, ◌≡◌, ◌≢◌, ◌∙◌, sym, List, [], ◌∷◌, ◌++◌, All, arith,
}

-- From `p` the next pointers lead through the blocks to NULL, and the previous pointers lead back to
-- `prev`.
abbrev pub Chain : (ℕ → ℕ) → (prev p : ℕ) → List ℕ → Type 0
Chain m prev p [] = p ≡ 0
Chain m prev p (x ∷ xs) = (p ≡ x) × (m x ≡ prev) × Chain m x (m (x + 4)) xs

-- A block's payload is 8-aligned and above the root.
abbrev pub IsPlace : ℕ → ℕ → Type 0
IsPlace root x = (x % 8 ≡ 0) × (root < x)

-- The block is none of the list's.
abbrev pub IsOut : ℕ → List ℕ → Type 0
IsOut x xs = All (λ y. y ≢ x) xs

-- Distinct places above the root.
abbrev pub Places : ℕ → List ℕ → Type 0
Places root [] = Unit
Places root (x ∷ xs) = IsPlace root x × IsOut x xs × Places root xs

-- The word holds no link of the blocks.
abbrev pub NoLink : List ℕ → ℕ → Type 0
NoLink xs q = All (λ x. (q ≢ x) × (q ≢ x + 4)) xs

-- The pointer to the place behind the blocks `ys`: the word that holds it, and the previous block.
abbrev pub end_cell : ℕ → List ℕ → ℕ
end_cell c [] = c
end_cell c (y ∷ ys) = end_cell (y + 4) ys

abbrev pub end_prev : ℕ → List ℕ → ℕ
end_prev v [] = v
end_prev v (y ∷ ys) = end_prev y ys

abbrev pub head_or_null : List ℕ → ℕ
head_or_null [] = 0
head_or_null (z ∷ zs) = z

-- The links of the blocks are the same in both memories.
abbrev pub SameLinks : (m m' : ℕ → ℕ) → List ℕ → Type 0
SameLinks m m' xs = All (λ x. (m' x ≡ m x) × (m' (x + 4) ≡ m (x + 4))) xs

pub Chain-frame :
    (m m' : ℕ → ℕ) (prev p : ℕ) (xs : List ℕ)
    → SameLinks m m' xs
    → Chain m prev p xs
    → Chain m' prev p xs
Chain-frame m m' prev p [] same c = c
Chain-frame m m' prev p (x ∷ xs) same c =
    (c.0, same.0.0 ∙ c.1, rw (same.0.1) (Chain-frame m m' x (m (x + 4)) xs same.1 c.2))

-- The cell behind the blocks `ys` holds the first of the blocks that follow.
pub end_cell-head :
    (m : ℕ → ℕ) (v c : ℕ) (ys zs : List ℕ)
    → Chain m v (m c) (ys ++ zs)
    → m (end_cell c ys) ≡ head_or_null zs
end_cell-head m v c [] [] h = h
end_cell-head m v c [] (z ∷ zs) h = h.0
end_cell-head m v c (y ∷ ys) zs h = end_cell-head m y (y + 4) ys zs h.2

module _ {ℓ} {A : Type ℓ} where
  pub All-left {κ} : (P : A → Type κ) (xs ys : List A) → All P (xs ++ ys) → All P xs
  All-left P [] ys h = tt
  All-left P (x ∷ xs) ys h = (h.0, All-left P xs ys h.1)

  pub All-right {κ} : (P : A → Type κ) (xs ys : List A) → All P (xs ++ ys) → All P ys
  All-right P [] ys h = h
  All-right P (x ∷ xs) ys h = All-right P xs ys h.1

  pub All-join {κ} : (P : A → Type κ) (xs ys : List A) → All P xs → All P ys → All P (xs ++ ys)
  All-join P [] ys h k = k
  All-join P (x ∷ xs) ys h k = (h.0, All-join P xs ys h.1 k)

pub Places-right : (root : ℕ) (ys zs : List ℕ) → Places root (ys ++ zs) → Places root zs
Places-right root [] zs h = h
Places-right root (y ∷ ys) zs h = Places-right root ys zs h.2

pub Places-left : (root : ℕ) (ys zs : List ℕ) → Places root (ys ++ zs) → Places root ys
Places-left root [] zs h = tt
Places-left root (y ∷ ys) zs h =
    (h.0, All-left (λ (x : ℕ). x ≢ y) ys zs h.1, Places-left root ys zs h.2)

pub IsOut-of_NoLink : (q : ℕ) (xs : List ℕ) → NoLink xs q → IsOut q xs
IsOut-of_NoLink q [] h = tt
IsOut-of_NoLink q (x ∷ xs) h = (λ e. h.0.0 (sym e), IsOut-of_NoLink q xs h.1)

-- A cell that holds no link of the blocks is not the one behind them.
pub end_cell-ne : (q y : ℕ) (ys : List ℕ) → q ≢ y + 4 → NoLink ys q → q ≢ end_cell (y + 4) ys
end_cell-ne q y [] n h = n
end_cell-ne q y (x ∷ ys) n h = end_cell-ne q x ys h.0.1 h.1

pub end_cell-mod :
    (root y : ℕ) (ys : List ℕ) → y % 8 ≡ 0 → Places root ys → end_cell (y + 4) ys % 8 ≡ 4
end_cell-mod root y [] a h = omega arith
end_cell-mod root y (x ∷ ys) a h = end_cell-mod root x ys h.0.0 h.2

pub head_or_null-ne : (q : ℕ) (ys zs : List ℕ) → q ≢ 0 → IsOut q (ys ++ zs) → q ≢ head_or_null zs
head_or_null-ne q [] [] n h = n
head_or_null-ne q [] (z ∷ zs) n h = λ e. h.0 (sym e)
head_or_null-ne q (y ∷ ys) zs n h = head_or_null-ne q ys zs n h.1

-- The memories agree but at a cell, a block's links and a block's first word.
abbrev pub SameElsewhere : (m m' : ℕ → ℕ) (c p n : ℕ) → Type 0
SameElsewhere m m' c p n = (q : ℕ) → q ≢ c → q ≢ p → q ≢ p + 4 → q ≢ n → m' q ≡ m q

-- `m'` is `m` with the block `p` put between the cell `c`, behind the block `v`, and the block `n`.
pub record Linked (m m' : ℕ → ℕ) (c v p n : ℕ) : Type 0 where
  pub at_cell : m' c ≡ p
  pub at_prev : m' p ≡ v
  pub at_next : m' (p + 4) ≡ n
  pub at_back : n ≢ 0 → m' n ≡ p
  pub same : SameElsewhere m m' c p n

-- `m'` is `m` with the block `p` taken out between the cell `c`, behind the block `v`, and `n`.
pub record Unlinked (m m' : ℕ → ℕ) (c v p n : ℕ) : Type 0 where
  pub at_cell : m' c ≡ n
  pub at_back : n ≢ 0 → m' n ≡ v
  pub same : SameElsewhere m m' c p n

-- A place's words are apart from another's, and from the words of a chain's other blocks.
pub IsPlace-apart :
    (root x y : ℕ)
    → IsPlace root x
    → IsPlace root y
    → x ≢ y
    → (x ≢ y + 4) × (x + 4 ≢ y) × (x + 4 ≢ y + 4)
IsPlace-apart root x y a b n = omega arith

pub NoLink-of_out :
    (root y : ℕ) (xs : List ℕ) → IsPlace root y → Places root xs → IsOut y xs → NoLink xs (y + 4)
NoLink-of_out root y [] a h o = tt
NoLink-of_out root y (x ∷ xs) a h o =
    ((omega (arith, h.0.0), λ e. o.0 (omega arith)), NoLink-of_out root y xs a h.2 o.1)

pub NoLink-of_place :
    (root z : ℕ) (xs : List ℕ) → IsPlace root z → Places root xs → IsOut z xs → NoLink xs z
NoLink-of_place root z [] a h o = tt
NoLink-of_place root z (x ∷ xs) a h o =
    ((λ e. o.0 (sym e), omega (arith, h.0.0)), NoLink-of_place root z xs a h.2 o.1)

pub SameLinks-elsewhere :
    (root : ℕ) (m m' : ℕ → ℕ) (c p n : ℕ) (xs : List ℕ)
    → Places root xs
    → IsPlace root p
    → IsOut p xs
    → NoLink xs c
    → NoLink xs n
    → SameElsewhere m m' c p n
    → SameLinks m m' xs
SameLinks-elsewhere root m m' c p n [] h a o nc nn l = tt
SameLinks-elsewhere root m m' c p n (x ∷ xs) h a o nc nn same =
    let (f, g, k) = IsPlace-apart root x p h.0 a o.0 in
    (
      (
        same x (λ e. nc.0.0 (sym e)) o.0 f (λ e. nn.0.0 (sym e)),
        same (x + 4) (λ e. nc.0.1 (sym e)) g k (λ e. nn.0.1 (sym e)),
      ),
      SameLinks-elsewhere root m m' c p n xs h.2 a o.1 nc.1 nn.1 same,
    )

-- Putting a block between two parts of a chain makes the chain of the parts with the block between.
pub Chain-Linked :
    (root : ℕ) (m m' : ℕ → ℕ) (v c p : ℕ) (ys zs : List ℕ)
    → Places root (ys ++ zs)
    → IsPlace root p
    → IsOut p (ys ++ zs)
    → c ≢ p
    → c ≢ p + 4
    → c ≢ 0
    → NoLink (ys ++ zs) c
    → Chain m v (m c) (ys ++ zs)
    → Linked m m' (end_cell c ys) (end_prev v ys) p (head_or_null zs)
    → Chain m' v (m' c) (ys ++ p ∷ zs)
Chain-Linked root m m' v c p [] [] h a o n1 n2 n3 nc ch l = (l.at_cell, l.at_prev, l.at_next)
Chain-Linked root m m' v c p [] (z ∷ zs) h a o n1 n2 n3 nc ch l =
    let (f, g, k) = IsPlace-apart root z p h.0 a o.0 in
    let next : m' (z + 4) ≡ m (z + 4) = l.same (z + 4) (λ e. nc.0.1 (sym e)) g k (omega arith) in
    let nz = NoLink-of_place root z zs h.0 h.2 h.1 in
    let rest = SameLinks-elsewhere root m m' c p z zs h.2 a o.1 nc.1 nz l.same in
    (
      l.at_cell,
      l.at_prev,
      (
        l.at_next,
        l.at_back (omega (arith, h.0.1)),
        rw next (Chain-frame m m' z (m (z + 4)) zs rest ch.2),
      ),
    )
Chain-Linked root m m' v c p (y ∷ ys) zs h a o n1 n2 n3 nc ch l =
    let (f, g, k) = IsPlace-apart root y p h.0 a o.0 in
    let ny = NoLink-of_out root y (ys ++ zs) h.0 h.2 h.1 in
    let nyp = NoLink-of_place root y (ys ++ zs) h.0 h.2 h.1 in
    let end4 = end_cell-mod root y ys h.0.0 (Places-left root ys zs h.2) in
    let at_c : m' c ≡ m c =
      l.same c (end_cell-ne c y ys nc.0.1 (All-left (λ (x : ℕ). (c ≢ x) × (c ≢ x + 4)) ys zs nc.1))
        n1 n2 (head_or_null-ne c ys zs n3 (IsOut-of_NoLink c (ys ++ zs) nc.1)) in
    let at_y : m' y ≡ m y =
      l.same y (omega (arith, h.0.0)) o.0 f (head_or_null-ne y ys zs (omega (arith, h.0.1)) h.1) in
    let ih = Chain-Linked root m m' y (y + 4) p ys zs h.2 a o.1 g k (omega arith) ny ch.2 l in
    (at_c ∙ ch.0, at_y ∙ ch.1, ih)
