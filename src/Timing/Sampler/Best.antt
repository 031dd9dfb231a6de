-- ===== src/Timing/Sampler/Best.antt =====
-- What `values` of malloclab/fcyc.c holds: the smallest of the samples, in their order.
use system_programming_lab.Base.{
  ℕ, zero, suc, ◌+◌, ◌-◌, ◌≤◌, ◌<◌, ◌≡◌, ◌∙◌, refl, sym, ap, inl, inr, List, [], ◌∷◌, ◌++◌, ltb,
  ltb→lt, if◌then◌else◌, length, replicate, set, Bool-cases, arith,
}
use mathlib.Core.List.{append-nil}
use mathlib.Core.Path.{subst}
use system_programming_lab.Timing.Sampler.{Sampler, get_or, sift, init_sampler, add_sample}
use system_programming_lab.Timing.Sampler.Sorted.{
  insert, IsSorted, get_or-append, set-append, insert-append_lt, insert-append_ge, IsSorted-left,
  sift-insert, insert-IsSorted, length-insert,
}

abbrev pub take : ℕ → List ℕ → List ℕ
take zero xs = []
take (suc k) [] = []
take (suc k) (x ∷ xs) = x ∷ take k xs

abbrev pub sort : List ℕ → List ℕ
sort [] = []
sort (x ∷ xs) = insert x (sort xs)

pub sort-IsSorted : (xs : List ℕ) → IsSorted (sort xs)
sort-IsSorted [] = tt
sort-IsSorted (x ∷ xs) = insert-IsSorted x (sort xs) (sort-IsSorted xs)

length-sort : (xs : List ℕ) → length (sort xs) ≡ length xs
length-sort [] = refl
length-sort (x ∷ xs) = omega (arith, length-insert x (sort xs), length-sort xs)

-- The sampler behind some samples, the latest first: its array holds the smallest of them in their
-- order, as many as fit, and zeros behind them.
pub record HoldsBest (s : Sampler) (samples : List ℕ) : Type 0 where
  pub count : s.samplecount ≡ length samples
  pub best : s.values ≡ take s.kbest (sort samples) ++ replicate (s.kbest - length samples) 0

take-all : (k : ℕ) (xs : List ℕ) → length xs ≤ k → take k xs ≡ xs
take-all zero [] h = refl
take-all (suc k) [] h = refl
take-all zero (x ∷ xs) h = absurd (omega arith)
take-all (suc k) (x ∷ xs) h = ap (◌∷◌ x) (take-all k xs (omega arith))

take-append : (us : List ℕ) (zs : List ℕ) → take (length us) (us ++ zs) ≡ us
take-append [] zs = refl
take-append (u ∷ us) zs = ap (◌∷◌ u) (take-append us zs)

split_at :
    (p : ℕ) (ys : List ℕ)
    → p < length ys
    → (us : List ℕ) × (y : ℕ) × (zs : List ℕ) × (ys ≡ us ++ y ∷ zs) × (length us ≡ p)
split_at p [] h = absurd (omega arith)
split_at zero (y ∷ ys) h = ([], y, ys, refl, refl)
split_at (suc p) (y ∷ ys) h =
    let (us, z, zs, e, l) = split_at p ys (omega arith) in (y ∷ us, z, zs, ap (◌∷◌ y) e, ap suc l)

-- A sample while there is room.
fill :
    (k : ℕ) (ys : List ℕ) (x n : ℕ)
    → IsSorted ys
    → length ys ≡ n
    → n < k
    → sift n (set (take k ys ++ replicate (k - n) 0) n x)
      ≡ take k (insert x ys) ++ replicate (k - suc n) 0
fill k ys x n s e lt =
    let room : k - n ≡ suc (k - suc n) = omega arith in
    rw
      (
        take-all k ys (omega arith),
        take-all k (insert x ys) (omega (arith, length-insert x ys)),
        room,
        sym e,
      )
      (rw (set-append ys 0 x (replicate (k - suc (length ys)) 0))
        (sift-insert ys x (replicate (k - suc (length ys)) 0) s))

take-cons :
    (us : List ℕ) (y : ℕ) (zs : List ℕ) → take (suc (length us)) (us ++ y ∷ zs) ≡ us ++ y ∷ []
take-cons [] y zs = refl
take-cons (u ∷ us) y zs = ap (◌∷◌ u) (take-cons us y zs)

-- A sample where there is none: it drops the largest, or is dropped.
exchange :
    (us : List ℕ) (y : ℕ) (zs : List ℕ) (x : ℕ)
    → IsSorted (us ++ y ∷ zs)
    → (if ltb x y then sift (length us) (set (us ++ y ∷ []) (length us) x) else us ++ y ∷ [])
      ≡ take (suc (length us)) (insert x (us ++ y ∷ zs))
exchange us y zs x s = elim (Bool-cases (ltb x y)) [
  | inl lt ↦
      let l : suc (length us) ≡ length (insert x us) = sym (length-insert x us) in
      rw lt (
        ap (sift (length us)) (set-append us y x [])
        ∙ sift-insert us x [] (IsSorted-left us y zs s)
        ∙ append-nil (insert x us)
        ∙ sym (
            ap (take (suc (length us))) (insert-append_lt us x y zs (ltb→lt x y lt))
            ∙ ap (λ n. take n (insert x us ++ y ∷ zs)) l
            ∙ take-append (insert x us) (y ∷ zs)))
  | inr ge ↦ rw ge (
      sym (
        ap (take (suc (length us))) (insert-append_ge us x y zs s (ground arith))
        ∙ take-cons us y (insert x zs)))
]

full :
    (p : ℕ) (ys : List ℕ) (x : ℕ)
    → IsSorted ys
    → p < length ys
    → (if ltb x (get_or (take (suc p) ys) p)
        then sift p (set (take (suc p) ys) p x)
        else take (suc p) ys)
      ≡ take (suc p) (insert x ys)
full p ys x s lt =
    let (us, y, zs, e, l) = split_at p ys lt in
    let t : take (suc p) ys ≡ us ++ y ∷ [] =
      ap (take (suc p)) e ∙ ap (λ n. take (suc n) (us ++ y ∷ zs)) (sym l) ∙ take-cons us y zs in
    let last : get_or (us ++ y ∷ []) p ≡ y =
      ap (get_or (us ++ y ∷ [])) (sym l) ∙ get_or-append us y [] in
    let done = exchange us y zs x (subst IsSorted e s) in
    rw (t, last, e)
      (subst
        (λ n.
          (if ltb x y then sift n (set (us ++ y ∷ []) n x) else us ++ y ∷ [])
          ≡ take (suc n) (insert x (us ++ y ∷ zs)))
        l done)

pub init_sampler-HoldsBest : (s : Sampler) → HoldsBest (init_sampler s) []
unfolding init_sampler
init_sampler-HoldsBest s = record { count = refl; best = first s.kbest }
  where
    first : (k : ℕ) → replicate k 0 ≡ take k [] ++ replicate (k - 0) 0
    first zero = refl
    first (suc k) = let same : suc k - 0 ≡ suc k = omega arith in rw same refl

-- The array behind another sample.
abbrev values_after : (x k n : ℕ) → List ℕ → List ℕ
values_after x k n vs =
    if ltb n k
    then sift n (set vs n x)
    else if ltb x (get_or vs (k - 1))
    then sift (k - 1) (set vs (k - 1) x)
    else vs

add_sample-values :
    (x : ℕ) (s : Sampler)
    → ((add_sample x s).values ≡ values_after x s.kbest s.samplecount s.values)
      × ((add_sample x s).samplecount ≡ s.samplecount + 1)
      × ((add_sample x s).kbest ≡ s.kbest)
unfolding add_sample
add_sample-values x s = (ground arith, ground arith, ground arith)

values_after-best :
    (p x : ℕ) (ys : List ℕ)
    → IsSorted ys
    → values_after x (suc p) (length ys) (take (suc p) ys ++ replicate (suc p - length ys) 0)
      ≡ take (suc p) (insert x ys) ++ replicate (suc p - suc (length ys)) 0
values_after-best p x ys s = elim (Bool-cases (ltb (length ys) (suc p))) [
  | inl room ↦ rw room (fill (suc p) ys x (length ys) s refl (ltb→lt (length ys) (suc p) room))
  | inr none_left ↦
      let ge : suc p ≤ length ys = ground arith in
      let e : suc p - length ys ≡ 0 = omega (arith, ge) in
      let e' : suc p - suc (length ys) ≡ 0 = omega (arith, ge) in
      let e'' : suc p - 1 ≡ p = omega arith in
      rw (none_left, e, e', append-nil (take (suc p) ys), e'')
        (full p ys x s (omega (arith, ge)) ∙ sym (append-nil (take (suc p) (insert x ys))))
]

-- Each sample keeps the array at the smallest of all samples so far, in their order.
pub add_sample-HoldsBest :
    (s : Sampler) (p x : ℕ) (samples : List ℕ)
    → s.kbest ≡ suc p
    → HoldsBest s samples
    → HoldsBest (add_sample x s) (x ∷ samples)
add_sample-HoldsBest s p x samples k h =
    let (vs, c, kb) = add_sample-values x s in
    let l = length-sort samples in
    let now : s.values
        ≡ take (suc p) (sort samples) ++ replicate (suc p - length (sort samples)) 0 =
      h.best
      ∙ ap (λ n. take n (sort samples) ++ replicate (n - length samples) 0) k
      ∙ ap (λ n. take (suc p) (sort samples) ++ replicate (suc p - n) 0) (sym l) in
    record {
      count = omega (arith, c, h.count);
      best =
          vs
          ∙ ap (λ n. values_after x n s.samplecount s.values) k
          ∙ ap (λ n. values_after x (suc p) n s.values) (h.count ∙ sym l)
          ∙ ap (values_after x (suc p) (length (sort samples))) now
          ∙ values_after-best p x (sort samples) (sort-IsSorted samples)
          ∙ ap (λ n. take (suc p) (sort (x ∷ samples)) ++ replicate (suc p - suc n) 0) l
          ∙ ap (λ n. take n (sort (x ∷ samples)) ++ replicate (n - suc (length samples)) 0)
              (sym (kb ∙ k));
    }
