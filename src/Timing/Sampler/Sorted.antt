-- ===== src/Timing/Sampler/Sorted.antt =====
-- Sorted lists of times, and what the insertion sort of malloclab/fcyc.c makes of one.
use system_programming_lab.Base.{
  ℕ, suc, ◌≤◌, ◌<◌, ◌≡◌, ◌∙◌, refl, sym, ap, inl, inr, List, [], ◌∷◌, ◌++◌, ltb, if◌then◌else◌,
  length, length-append, set, All, Bool-cases, arith, ltb→lt, All-mono,
}
use mathlib.Core.List.{append_assoc}
use mathlib.Core.Path.{subst}
use system_programming_lab.Timing.Sampler.{get_or, sift}

abbrev pub insert : ℕ → List ℕ → List ℕ
insert x [] = x ∷ []
insert x (y ∷ ys) = if ltb x y then x ∷ y ∷ ys else y ∷ insert x ys

abbrev pub IsSorted : List ℕ → Type 0
IsSorted [] = Unit
IsSorted (x ∷ xs) = All (λ y. x ≤ y) xs × IsSorted xs

pub get_or-append : (us : List ℕ) (x : ℕ) (zs : List ℕ) → get_or (us ++ x ∷ zs) (length us) ≡ x
get_or-append [] x zs = refl
get_or-append (u ∷ us) x zs = get_or-append us x zs

pub set-append :
    (us : List ℕ) (x y : ℕ) (zs : List ℕ) → set (us ++ x ∷ zs) (length us) y ≡ us ++ y ∷ zs
set-append [] x y zs = refl
set-append (u ∷ us) x y zs = ap (◌∷◌ u) (set-append us x y zs)

-- A list built at its end.
abbrev back : List ℕ → List ℕ
back [] = []
back (x ∷ rs) = back rs ++ x ∷ []

back-append : (rs : List ℕ) (x : ℕ) → back (rs ++ x ∷ []) ≡ x ∷ back rs
back-append [] x = refl
back-append (r ∷ rs) x = ap (λ l. l ++ r ∷ []) (back-append rs x)

back_of : (xs : List ℕ) → (rs : List ℕ) × (back rs ≡ xs)
back_of [] = ([], refl)
back_of (x ∷ xs) = let (rs, e) = back_of xs in (rs ++ x ∷ [], back-append rs x ∙ ap (◌∷◌ x) e)

pub insert-append_lt :
    (us : List ℕ) (x y : ℕ) (zs : List ℕ) → x < y → insert x (us ++ y ∷ zs) ≡ insert x us ++ y ∷ zs
insert-append_lt [] x y zs h = ground arith
insert-append_lt (u ∷ us) x y zs h = ground (arith, insert-append_lt us x y zs h)

All-at : (u : ℕ) (us : List ℕ) (y : ℕ) (zs : List ℕ) → All (λ z. u ≤ z) (us ++ y ∷ zs) → u ≤ y
All-at u [] y zs h = h.0
All-at u (v ∷ us) y zs h = All-at u us y zs h.1

pub insert-append_ge :
    (us : List ℕ) (x y : ℕ) (zs : List ℕ)
    → IsSorted (us ++ y ∷ zs)
    → y ≤ x
    → insert x (us ++ y ∷ zs) ≡ us ++ y ∷ insert x zs
insert-append_ge [] x y zs s h = ground arith
insert-append_ge (u ∷ us) x y zs s h =
    let le : u ≤ y = All-at u us y zs s.0 in ground (arith, insert-append_ge us x y zs s.1 h)

All-left :
    (u : ℕ) (us : List ℕ) (y : ℕ) (zs : List ℕ)
    → All (λ z. u ≤ z) (us ++ y ∷ zs)
    → All (λ z. u ≤ z) us
All-left u [] y zs h = tt
All-left u (v ∷ us) y zs h = (h.0, All-left u us y zs h.1)

pub IsSorted-left : (us : List ℕ) (y : ℕ) (zs : List ℕ) → IsSorted (us ++ y ∷ zs) → IsSorted us
IsSorted-left [] y zs s = tt
IsSorted-left (u ∷ us) y zs s = (All-left u us y zs s.0, IsSorted-left us y zs s.1)

get_or-second :
    (us : List ℕ) (y x : ℕ) (zs : List ℕ) → get_or (us ++ y ∷ x ∷ zs) (suc (length us)) ≡ x
get_or-second [] y x zs = refl
get_or-second (u ∷ us) y x zs = get_or-second us y x zs

set-second :
    (us : List ℕ) (y x z : ℕ) (zs : List ℕ)
    → set (us ++ y ∷ x ∷ zs) (suc (length us)) z ≡ us ++ y ∷ z ∷ zs
set-second [] y x z zs = refl
set-second (u ∷ us) y x z zs = ap (◌∷◌ u) (set-second us y x z zs)

-- One swap.
sift-step :
    (us : List ℕ) (y x : ℕ) (zs : List ℕ)
    → sift (suc (length us)) (us ++ y ∷ x ∷ zs)
      ≡ (if ltb x y then sift (length us) (us ++ x ∷ y ∷ zs) else us ++ y ∷ x ∷ zs)
unfolding sift
sift-step us y x zs = rw (
  get_or-second us y x zs,
  get_or-append us y (x ∷ zs),
  set-append us y x (x ∷ zs),
  set-second us x x y zs,
)

sift-zero : (x : ℕ) (zs : List ℕ) → sift 0 (x ∷ zs) ≡ x ∷ zs
unfolding sift
sift-zero x zs = refl

sift-back :
    (rs : List ℕ) (x : ℕ) (zs : List ℕ)
    → IsSorted (back rs)
    → sift (length (back rs)) (back rs ++ x ∷ zs) ≡ insert x (back rs) ++ zs
sift-back [] x zs s = sift-zero x zs
sift-back (y ∷ rs) x zs s =
    let us = back rs in
    let len : length (us ++ y ∷ []) ≡ suc (length us) = omega (arith, length-append us (y ∷ [])) in
    let step : sift (length (us ++ y ∷ [])) ((us ++ y ∷ []) ++ x ∷ zs)
        ≡ (if ltb x y then sift (length us) (us ++ x ∷ y ∷ zs) else us ++ y ∷ x ∷ zs) =
      ap (λ n. sift n ((us ++ y ∷ []) ++ x ∷ zs)) len
      ∙ ap (sift (suc (length us))) (append_assoc us (y ∷ []) (x ∷ zs))
      ∙ sift-step us y x zs in
    elim (Bool-cases (ltb x y)) [
      | inl lt ↦
          step
          ∙ rw lt (sift-back rs x (y ∷ zs) (IsSorted-left us y [] s))
          ∙ sym (append_assoc (insert x us) (y ∷ []) zs)
          ∙ ap (λ l. l ++ zs) (sym (insert-append_lt us x y [] (ltb→lt x y lt)))
      | inr ge ↦
          step
          ∙ rw ge refl
          ∙ sym (append_assoc us (y ∷ x ∷ []) zs)
          ∙ ap (λ l. l ++ zs) (sym (insert-append_ge us x y [] s (ground arith)))
    ]

-- The insertion sort puts a time behind a sorted front at its place.
pub sift-insert :
    (us : List ℕ) (x : ℕ) (zs : List ℕ)
    → IsSorted us
    → sift (length us) (us ++ x ∷ zs) ≡ insert x us ++ zs
sift-insert us x zs s =
    let (rs, e) = back_of us in
    subst (λ l. sift (length l) (l ++ x ∷ zs) ≡ insert x l ++ zs) e
      (sift-back rs x zs (subst IsSorted (sym e) s))

pub insert-All :
    (b x : ℕ) (ys : List ℕ) → b ≤ x → All (λ y. b ≤ y) ys → All (λ y. b ≤ y) (insert x ys)
insert-All b x [] h a = (h, tt)
insert-All b x (y ∷ ys) h a = elim (Bool-cases (ltb x y)) [
  | inl lt ↦ rw lt (h, a)
  | inr ge ↦ rw ge (a.0, insert-All b x ys h a.1)
]

pub insert-IsSorted : (x : ℕ) (ys : List ℕ) → IsSorted ys → IsSorted (insert x ys)
insert-IsSorted x [] s = (tt, tt)
insert-IsSorted x (y ∷ ys) s = elim (Bool-cases (ltb x y)) [
  | inl lt ↦
      let h = ltb→lt x y lt in
      rw lt (
        (
          omega arith,
          All-mono {P = λ z. y ≤ z} {Q = λ z. x ≤ z} ys (λ z l. omega (arith, l, h)) s.0,
        ),
        s,
      )
  | inr ge ↦ rw ge (insert-All y x ys (ground arith) s.0, insert-IsSorted x ys s.1)
]

pub length-insert : (x : ℕ) (ys : List ℕ) → length (insert x ys) ≡ suc (length ys)
length-insert x [] = refl
length-insert x (y ∷ ys) = ground (arith, length-insert x ys)
