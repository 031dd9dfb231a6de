-- ===== src/Malloc/Layout/Links.antt =====
-- Writes to one free list leave the rest of the heap as it was: the blocks' headers and footers, the
-- payloads of allocated blocks, and the other lists.
use system_programming_lab.Base.{
  ℕ, ◌+◌, ◌-◌, ◌*◌, ◌%◌, ◌≤◌, ◌<◌, ◌≡◌, ◌≢◌, ◌∙◌, sym, ap, inl, inr, true, List, [], ◌∷◌,
  Bool-cases, arith,
}
use system_programming_lab.Malloc.FreeList.Chain.{
  Chain, Chain-frame, IsPlace, IsOut, Places, NoLink, NoLink-of_out, NoLink-of_place,
}
use system_programming_lab.Malloc.FreeList.Sorted.{IsSortedBy}
use system_programming_lab.Malloc.Fit.{categories}
use system_programming_lab.Malloc.Layout.{
  Block, total, Tagged, listed_at, is_tag, has, size_in, KeepsPayload,
}
use system_programming_lab.Malloc.Layout.Blocks.{
  listed_at-place, listed_at-one, is_payload-bounds, is_payload-ne_link,
}
use system_programming_lab.Malloc.Layout.Tags.{
  is_tag-bounds, is_tag-ne_link, Tagged-same, listed_at-is_tag,
}
use system_programming_lab.Malloc.Layout.Lists.{All-has, IsOut-of_has, IsSortedBy-same}

pub Places-lower : (r r' : ℕ) (xs : List ℕ) → r' ≤ r → Places r xs → Places r' xs
Places-lower r r' [] le t = tt
Places-lower r r' (x ∷ xs) le t =
    ((t.0.0, omega (arith, t.0.1, le)), t.1, Places-lower r r' xs le t.2)

-- `m'` is `m` but at the root of the category `c` and at the links of `list`, which holds the blocks
-- of that category among `bs`.
module _ (m m' : ℕ → ℕ) (start c : ℕ) (bs : List Block) (list : List ℕ) (al : start % 8 ≡ 0)
    (pos : 0 < start) (small : c < categories) (t : Tagged m (start + 56) bs)
    (places : Places (start + 40) list)
    (members : (x : ℕ) → has x list ≡ listed_at x c (start + 56) bs)
    (same : (q : ℕ) → q ≢ 0 → q ≢ start + c * 4 → NoLink list q → m' q ≡ m q) where
  -- A word behind the roots that is no link of a listed block.
  same-elsewhere :
      (q : ℕ)
      → start + 36 < q
      → ((x : ℕ) → listed_at x c (start + 56) bs ≡ true → (q ≢ x) × (q ≢ x + 4))
      → m' q ≡ m q
  same-elsewhere q gt ne =
      same q (omega arith) (omega arith)
        (All-has {P = λ x. (q ≢ x) × (q ≢ x + 4)} list (λ x h. ne x (sym (members x) ∙ h)))

  pub links-KeepsPayload : KeepsPayload m m' (start + 56) bs
  links-KeepsPayload q h =
      let (lo, hi) = is_payload-bounds m q (start + 56) bs t h in
      same-elsewhere q (omega (arith, lo))
        (λ x k. is_payload-ne_link m q x c (start + 56) bs t (omega arith) h k)

  same-tags : (q : ℕ) → is_tag q (start + 56) bs ≡ true → m' q ≡ m q
  same-tags q h =
      let (lo, hi) = is_tag-bounds m q (start + 56) bs t h in
      same-elsewhere q (omega (arith, lo))
        (λ x k. is_tag-ne_link m q x c (start + 56) bs t (omega arith) h k)

  pub links-Tagged : Tagged m' (start + 56) bs
  links-Tagged = Tagged-same m m' (start + 56) bs (omega arith) same-tags t

  -- The prologue, and what stands behind the blocks.
  pub links-before : (q : ℕ) → start + 36 < q → q < start + 56 → m' q ≡ m q
  links-before q gt lt = same-elsewhere q gt λ x k.
      let (lo, hi, al', kind) = listed_at-place m x c (start + 56) bs t (omega arith) k in
      (omega (arith, lo), omega (arith, lo))

  pub links-behind : (q : ℕ) → start + 52 + total bs ≤ q → m' q ≡ m q
  links-behind q ge = same-elsewhere q (omega arith) λ x k.
      let (lo, hi, al', kind) = listed_at-place m x c (start + 56) bs t (omega arith) k in
      (omega (arith, hi), omega (arith, hi))

  -- The list of another category.
  module _ (j : ℕ) (js : List ℕ) (ne : j ≢ c) (j_small : j < categories)
      (j_members : (x : ℕ) → has x js ≡ listed_at x j (start + 56) bs) where
    same-links : (x : ℕ) → has x js ≡ true → (m' x ≡ m x) × (m' (x + 4) ≡ m (x + 4))
    same-links x h =
        let k : listed_at x j (start + 56) bs ≡ true = sym (j_members x) ∙ h in
        let (lo, hi, al', kind) = listed_at-place m x j (start + 56) bs t (omega arith) k in
        let place : IsPlace (start + 40) x = (al', omega (arith, lo)) in
        let out : IsOut x list = IsOut-of_has x list (elim (Bool-cases (has x list)) [
          | inl h' ↦
              absurd (
                ne (listed_at-one m x j c (start + 56) bs t (omega arith) k (sym (members x) ∙ h')))
          | inr h' ↦ h'
        ]) in
        (
          same x (omega (arith, lo)) (omega (arith, lo, small))
              (NoLink-of_place (start + 40) x list place places out),
          same (x + 4) (omega arith) (omega (arith, lo, small))
              (NoLink-of_out (start + 40) x list place places out),
        )

    pub links-Chain : Chain m 0 (m (start + j * 4)) js → Chain m' 0 (m' (start + j * 4)) js
    links-Chain ch =
        let root : m' (start + j * 4) ≡ m (start + j * 4) =
          same (start + j * 4) (omega arith) (omega (arith, ne)) (
            All-has {P = λ x. (start + j * 4 ≢ x) × (start + j * 4 ≢ x + 4)} list λ x h.
              let (lo, hi, al', kind) =
                listed_at-place m x c (start + 56) bs t (omega arith) (sym (members x) ∙ h) in
              (omega (arith, lo, j_small), omega (arith, lo, j_small))) in
        rw root (Chain-frame m m' 0 (m (start + j * 4)) js (All-has js same-links) ch)

  -- The sizes of listed blocks.
  pub links-sorted :
      (j : ℕ) (js : List ℕ)
      → ((x : ℕ) → has x js ≡ true → listed_at x j (start + 56) bs ≡ true)
      → IsSortedBy (size_in m) js
      → IsSortedBy (size_in m') js
  links-sorted j js mem s =
      IsSortedBy-same (size_in m) (size_in m') js
        (All-has {P = λ x. size_in m' x ≡ size_in m x} js λ x h.
          ap (λ n. n - n % 8)
            (same-tags (x - 4) (listed_at-is_tag m x j (start + 56) bs t (omega arith) (mem x h))))
        s
