-- ===== src/Proxy/Threads/Holders.antt =====
-- How many threads of proxylab/proxy.c hold a semaphore.
use system_programming_lab.Base.{
  ℕ, zero, suc, ◌+◌, ◌≤◌, ◌<◌, ◌≡◌, ◌≢◌, refl, ap, Option, none, some, List, [], ◌∷◌, ◌++◌,
  get_elem?, set, arith,
}
use native.Mathlib.Decide.{dec_lt}
use system_programming_lab.Proxy.State.{Semaphore, mutex_log, mutex_sem, Event}
use system_programming_lab.Proxy.Threads.Balanced.{holder}

-- 1 for a thread that holds the semaphore.
abbrev pub held_by : Semaphore → Option Semaphore → ℕ
held_by mutex_log (some mutex_log) = 1
held_by mutex_log (some mutex_sem) = 0
held_by mutex_sem (some mutex_sem) = 1
held_by mutex_sem (some mutex_log) = 0
held_by m none = 0

abbrev pub holders : Semaphore → List (List Event) → ℕ
holders m [] = 0
holders m (es ∷ ts) = held_by m (holder es) + holders m ts

pub held_by_self : (m : Semaphore) → held_by m (some m) ≡ 1
held_by_self mutex_log = refl
held_by_self mutex_sem = refl

pub held_by-none : (m : Semaphore) → held_by m none ≡ 0
held_by-none mutex_log = refl
held_by-none mutex_sem = refl

held_by-pos : (m : Semaphore) (o : Option Semaphore) → 0 < held_by m o → o ≡ some m
held_by-pos mutex_log none h = absurd (omega arith)
held_by-pos mutex_sem none h = absurd (omega arith)
held_by-pos mutex_log (some mutex_log) h = refl
held_by-pos mutex_log (some mutex_sem) h = absurd (omega arith)
held_by-pos mutex_sem (some mutex_sem) h = refl
held_by-pos mutex_sem (some mutex_log) h = absurd (omega arith)

pub holders-set :
    (m : Semaphore) (ts : List (List Event)) (i : ℕ) {old : List Event} (new : List Event)
    → get_elem? ts i ≡ some old
    → holders m (set ts i new) + held_by m (holder old) ≡ holders m ts + held_by m (holder new)
holders-set m [] i new e = cc
holders-set m (t ∷ ts) zero {old} new e = let q : t ≡ old = cc in rw q (omega arith)
holders-set m (t ∷ ts) (suc i) new e = omega (arith, holders-set m ts i new e)

pub holders-append :
    (m : Semaphore) (ts : List (List Event)) (es : List Event)
    → holders m (ts ++ es ∷ []) ≡ holders m ts + held_by m (holder es)
holders-append m [] es = omega arith
holders-append m (t ∷ ts) es = omega (arith, holders-append m ts es)

pub holders-get :
    (m : Semaphore) (ts : List (List Event)) (i : ℕ) {t : List Event}
    → get_elem? ts i ≡ some t
    → held_by m (holder t) ≤ holders m ts
holders-get m [] i e = cc
holders-get m (u ∷ ts) zero {t} e = let q : u ≡ t = cc in rw q (omega arith)
holders-get m (u ∷ ts) (suc i) e = omega (arith, holders-get m ts i e)

-- Two threads that hold the semaphore are counted twice.
pub holders-two :
    (m : Semaphore) (ts : List (List Event)) (i j : ℕ) {t u : List Event}
    → get_elem? ts i ≡ some t
    → get_elem? ts j ≡ some u
    → i ≢ j
    → held_by m (holder t) + held_by m (holder u) ≤ holders m ts
holders-two m [] i j a b n = cc
holders-two m (x ∷ ts) zero zero a b n = absurd (n refl)
holders-two m (x ∷ ts) zero (suc j) {t} a b n =
    let q : x ≡ t = cc in rw q (omega (arith, holders-get m ts j b))
holders-two m (x ∷ ts) (suc i) zero {t} {u} a b n =
    let q : x ≡ u = cc in rw q (omega (arith, holders-get m ts i a))
holders-two m (x ∷ ts) (suc i) (suc j) a b n =
    omega (arith, holders-two m ts i j a b (λ e. n (ap suc e)))

-- A semaphore that is counted is held by some thread.
pub holders-some :
    (m : Semaphore) (ts : List (List Event))
    → 0 < holders m ts
    → (i : ℕ) × (t : List Event) × (get_elem? ts i ≡ some t) × (holder t ≡ some m)
holders-some m [] h = absurd (omega arith)
holders-some m (t ∷ ts) h = elim (dec_lt 0 (held_by m (holder t))) [
  | yes p ↦ (0, t, refl, held_by-pos m (holder t) p)
  | no p ↦ let (i, u, e, q) = holders-some m ts (omega arith) in (suc i, u, e, q)
]
