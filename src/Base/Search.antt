-- ===== src/Base/Search.antt =====
-- What a search for an index, and a write at one, do to a list.
use Prim.Native.Nat.{ℕ, zero, suc, ◌≤◌, ◌<◌}
use mathlib.Core.Path.{◌≡◌, refl}
use mathlib.Core.Logic.{◌⊎◌, inl, inr}
use mathlib.Core.Bool.{Bool, true, false}
use mathlib.Core.List.{List, [], ◌∷◌, ◌++◌}
use mathlib.Core.Option.{none, some}
use native.Mathlib.Omega.{arith}
use system_programming_lab.Base.Lists.{length, get_elem?, set, find_index, All}

module _ {ℓ} {A : Type ℓ} where
  pub All-set {κ} :
      (P : A → Type κ) (xs : List A) (i : ℕ) (v : A) → All P xs → P v → All P (set xs i v)
  All-set P [] i v h p = h
  All-set P (x ∷ xs) zero v h p = (p, h.1)
  All-set P (x ∷ xs) (suc i) v h p = (h.0, All-set P xs i v h.1 p)

  pub All-mono {κ} : {P Q : A → Type κ} (xs : List A) → ((x : A) → P x → Q x) → All P xs → All Q xs
  All-mono [] f h = h
  All-mono (x ∷ xs) f h = (f x h.0, All-mono xs f h.1)

  pub All-append {κ} : (P : A → Type κ) (xs ys : List A) → All P xs → All P ys → All P (xs ++ ys)
  All-append P [] ys hx hy = hy
  All-append P (x ∷ xs) ys hx hy = (hx.0, All-append P xs ys hx.1 hy)

  pub All-get {κ} :
      (P : A → Type κ) (xs : List A) (i : ℕ) {x : A} → All P xs → get_elem? xs i ≡ some x → P x
  All-get P [] i h e = cc
  All-get P (y ∷ xs) zero {x} h e = let q : y ≡ x = cc in rw (← q) h.0
  All-get P (y ∷ xs) (suc i) h e = All-get P xs i h.1 e

  -- A search succeeds at the head or in the tail.
  pub find_index-cons :
      (p : A → Bool) (x : A) (xs : List A) {i : ℕ}
      → find_index p (x ∷ xs) ≡ some i
      → ((p x ≡ true) × (i ≡ 0))
        ⊎ ((j : ℕ) × (find_index p xs ≡ some j) × (p x ≡ false) × (i ≡ suc j))
  find_index-cons p x xs {i} e = ground arith

  -- What was found passes the test.
  pub find_index-some :
      (p : A → Bool) (xs : List A) {i : ℕ}
      → find_index p xs ≡ some i
      → (x : A) × (get_elem? xs i ≡ some x) × (p x ≡ true) × (i < length xs)
  find_index-some p [] e = cc
  find_index-some p (x ∷ xs) {i} e = elim (find_index-cons p x xs e) [
    | inl (h, z) ↦ (x, rw z refl, h, omega arith)
    | inr (j, f, h, z) ↦ let (y, g, t, b) = find_index-some p xs f in (y, rw z g, t, omega arith)
  ]

  -- No element passes a test that a search failed on.
  pub find_index-none :
      (p : A → Bool) (xs : List A) → find_index p xs ≡ none → All (λ x. p x ≡ false) xs
  find_index-none p [] e = tt
  find_index-none p (x ∷ xs) e = (ground arith, find_index-none p xs (ground arith))

  -- A write over a list that has no such element is found where it was made.
  pub find_index-set :
      (p : A → Bool) (xs : List A) (i : ℕ) (v : A)
      → find_index p xs ≡ none
      → i < length xs
      → p v ≡ true
      → find_index p (set xs i v) ≡ some i
  find_index-set p [] i v e h t = elim h [ ]
  find_index-set p (x ∷ xs) zero v e h t = rw t
  find_index-set p (x ∷ xs) (suc i) v e h t = ground (arith, find_index-set p xs i v)

  pub set-set : (xs : List A) (i : ℕ) (v w : A) → set (set xs i v) i w ≡ set xs i w
  set-set [] i v w = refl
  set-set (x ∷ xs) zero v w = refl
  set-set (x ∷ xs) (suc i) v w = rw (set-set xs i v w)

  pub set-get : (xs : List A) (i : ℕ) {x : A} → get_elem? xs i ≡ some x → set xs i x ≡ xs
  set-get [] i e = refl
  set-get (y ∷ xs) zero e = cc
  set-get (y ∷ xs) (suc i) {x} e = rw (set-get xs i e)

  find_index-le_suc :
      (p : A → Bool) (y : A) (xs : List A) (i : ℕ) {j k : ℕ} {x : A}
      → ((n : ℕ) → get_elem? xs n ≡ some x → j ≤ n)
      → p y ≡ false
      → get_elem? (y ∷ xs) i ≡ some x
      → p x ≡ true
      → k ≡ suc j
      → k ≤ i
  find_index-le_suc p y xs zero ih t g h z = cc
  find_index-le_suc p y xs (suc i) ih t g h z = omega (arith, ih i g)

  -- A search stops no later than at an element that passes the test.
  pub find_index-le :
      (p : A → Bool) (xs : List A) (i : ℕ) {k : ℕ} {x : A}
      → find_index p xs ≡ some k
      → get_elem? xs i ≡ some x
      → p x ≡ true
      → k ≤ i
  find_index-le p [] i e g h = cc
  find_index-le p (y ∷ xs) i {k} {x} e g h = elim (find_index-cons p y xs e) [
    | inl (t, z) ↦ omega arith
    | inr (j, f, t, z) ↦ find_index-le_suc p y xs i (λ n q. find_index-le p xs n f q h) t g h z
  ]
