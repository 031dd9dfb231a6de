-- ===== src/Malloc/Layout/Tags.antt =====
-- The headers and footers of a list of blocks, and the links of its listed ones.
use system_programming_lab.Base.{
  ℕ, ◌+◌, ◌-◌, ◌%◌, ◌≤◌, ◌≡◌, ◌≢◌, ◌∙◌, refl, inl, inr, true, ◌&&◌, List, [], ◌∷◌, ◌==◌, arith,
}
use system_programming_lab.Malloc.FreeList.{free_category}
use system_programming_lab.Malloc.Layout.{Block, is_listed, total, Tagged, listed_at, is_tag}
use system_programming_lab.Malloc.Layout.Blocks.{or-true, or-right, listed-here, listed_at-place}

pub is_tag-bounds :
    (m : ℕ → ℕ) (q a : ℕ) (bs : List Block)
    → Tagged m a bs
    → is_tag q a bs ≡ true
    → (a ≤ q + 4) × (q + 8 ≤ a + total bs)
is_tag-bounds m q a [] t h = cc
is_tag-bounds m q a (b ∷ bs) t h = elim (or-true (q + 4 == a) _ h) [
  | inl header ↦ (ground arith, ground (arith, t.2))
  | inr more ↦ elim (or-true (q + 8 == a + b.size) _ more) [
    | inl footer ↦ (ground (arith, t.2), ground arith)
    | inr later ↦
        let (lo, hi) = is_tag-bounds m q (a + b.size) bs t.4 later in
        (omega (arith, lo), omega (arith, hi))
  ]
]

-- A header or a footer is no link.
pub is_tag-ne_link :
    (m : ℕ → ℕ) (q x i a : ℕ) (bs : List Block)
    → Tagged m a bs
    → a % 8 ≡ 0
    → is_tag q a bs ≡ true
    → listed_at x i a bs ≡ true
    → (q ≢ x) × (q ≢ x + 4)
is_tag-ne_link m q x i a [] t al h k = cc
is_tag-ne_link m q x i a (b ∷ bs) t al h k =
    elim (or-true ((a == x) && is_listed b.status && (free_category b.size == i)) _ k) [
      | inl at ↦
          let e : a ≡ x = listed-here x i a b at in
          elim (or-true (q + 4 == a) _ h) [
            | inl header ↦
                let z : q + 4 ≡ a = ground arith in (omega (arith, z, e), omega (arith, z, e))
            | inr more ↦ elim (or-true (q + 8 == a + b.size) _ more) [
              | inl footer ↦
                  let z : q + 8 ≡ a + b.size = ground arith in
                  (omega (arith, z, e, t.2), omega (arith, z, e, t.2))
              | inr later ↦
                  let (lo, hi) = is_tag-bounds m q (a + b.size) bs t.4 later in
                  (omega (arith, lo, e, t.2), omega (arith, lo, e, t.2))
            ]
          ]
      | inr at ↦
          let (le, ge, al', kind) =
            listed_at-place m x i (a + b.size) bs t.4 (omega (arith, al, t.3)) at in
          elim (or-true (q + 4 == a) _ h) [
            | inl header ↦
                let z : q + 4 ≡ a = ground arith in (omega (arith, z, le), omega (arith, z, le))
            | inr more ↦ elim (or-true (q + 8 == a + b.size) _ more) [
              | inl footer ↦
                  let z : q + 8 ≡ a + b.size = ground arith in
                  (omega (arith, z, le), omega (arith, z, le))
              | inr later ↦
                  is_tag-ne_link m q x i (a + b.size) bs t.4 (omega (arith, al, t.3)) later at
            ]
          ]
    ]

-- A memory with the same headers and footers has the same blocks.
pub Tagged-same :
    (m m' : ℕ → ℕ) (a : ℕ) (bs : List Block)
    → 4 ≤ a
    → ((q : ℕ) → is_tag q a bs ≡ true → m' q ≡ m q)
    → Tagged m a bs
    → Tagged m' a bs
Tagged-same m m' a [] le same t = tt
Tagged-same m m' a (b ∷ bs) le same t =
    let header : (a - 4 + 4 == a) ≡ true = ground arith in
    let footer : (a + b.size - 8 + 8 == a + b.size) ≡ true = ground (arith, t.2) in
    (
      same (a - 4) (rw header refl) ∙ t.0,
      same (a + b.size - 8) (rw footer (or-right (a + b.size - 8 + 4 == a) true refl)) ∙ t.1,
      t.2,
      t.3,
      Tagged-same m m' (a + b.size) bs (omega arith)
          (λ q h. same q (or-right (q + 4 == a) _ (or-right (q + 8 == a + b.size) _ h))) t.4,
    )

-- The header of a listed block.
pub listed_at-is_tag :
    (m : ℕ → ℕ) (x i a : ℕ) (bs : List Block)
    → Tagged m a bs
    → 4 ≤ a
    → listed_at x i a bs ≡ true
    → is_tag (x - 4) a bs ≡ true
listed_at-is_tag m x i a [] t le h = cc
listed_at-is_tag m x i a (b ∷ bs) t le h =
    elim (or-true ((a == x) && is_listed b.status && (free_category b.size == i)) _ h) [
      | inl at ↦
          let e : a ≡ x = listed-here x i a b at in
          let header : (x - 4 + 4 == a) ≡ true = ground (arith, e) in rw header refl
      | inr at ↦ or-right (x - 4 + 4 == a) _ (
          or-right (x - 4 + 8 == a + b.size) _
            (listed_at-is_tag m x i (a + b.size) bs t.4 (omega arith) at))
    ]
