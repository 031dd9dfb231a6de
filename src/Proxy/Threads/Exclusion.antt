-- ===== src/Proxy/Threads/Exclusion.antt =====
-- The threads of proxylab/proxy.c under any order of their steps: the semaphores keep them apart, and
-- do not stop them all.
use system_programming_lab.Base.{
  ℕ, suc, ◌+◌, ◌-◌, ◌≡◌, ◌∙◌, refl, sym, false, Option, none, some, List, [], ◌∷◌, get_elem?, set,
  arith, inl, inr, ◌⊎◌, ℤ, All-get,
}
use native.Mathlib.Decide.{dec_lt, ℕ_discrete}
use system_programming_lab.Proxy.State.{
  Text, Semaphore, mutex_log, mutex_sem, Event, detached, freed_args, flushed, locked, unlocked,
  opened, sent, logged, shown, warned, closed, exited, overrun, Library,
}
use mathlib.Core.Path.{subst}
use system_programming_lab.Proxy.Threads.{Process, act, Reach, first_process, main, listening}
use system_programming_lab.Proxy.Threads.Balanced.{holder, IsBracketed}
use system_programming_lab.Proxy.Threads.Holders.{
  held_by, holders, held_by_self, holders-two, holders-some,
}
use system_programming_lab.Proxy.Threads.Fair.{IsFair, Reach-IsFair}

-- The thread writes or flushes the log next, or calls Open_clientfd.
abbrev pub Uses : Semaphore → List Event → Type 0
Uses mutex_log (logged cs ∷ es) = Unit
Uses mutex_log (flushed ∷ es) = Unit
Uses mutex_sem (opened h p ∷ es) = Unit
Uses m es = ⊥

Uses-holder : (m : Semaphore) (es : List Event) → Uses m es → IsBracketed es → holder es ≡ some m
Uses-holder mutex_log (logged cs ∷ es) u b = b.0
Uses-holder mutex_log (flushed ∷ es) u b = b.0
Uses-holder mutex_sem (opened h p ∷ es) u b = b.0
Uses-holder mutex_log [] u b = absurd u
Uses-holder mutex_sem [] u b = absurd u
Uses-holder mutex_log (opened h p ∷ es) u b = absurd u
Uses-holder mutex_log (locked m ∷ es) u b = absurd u
Uses-holder mutex_log (unlocked m ∷ es) u b = absurd u
Uses-holder mutex_log (detached ∷ es) u b = absurd u
Uses-holder mutex_log (freed_args ∷ es) u b = absurd u
Uses-holder mutex_log (sent fd cs ∷ es) u b = absurd u
Uses-holder mutex_log (shown cs ∷ es) u b = absurd u
Uses-holder mutex_log (warned w ∷ es) u b = absurd u
Uses-holder mutex_log (closed fd ∷ es) u b = absurd u
Uses-holder mutex_log (exited ∷ es) u b = absurd u
Uses-holder mutex_log (overrun ∷ es) u b = absurd u
Uses-holder mutex_sem (logged cs ∷ es) u b = absurd u
Uses-holder mutex_sem (flushed ∷ es) u b = absurd u
Uses-holder mutex_sem (locked m ∷ es) u b = absurd u
Uses-holder mutex_sem (unlocked m ∷ es) u b = absurd u
Uses-holder mutex_sem (detached ∷ es) u b = absurd u
Uses-holder mutex_sem (freed_args ∷ es) u b = absurd u
Uses-holder mutex_sem (sent fd cs ∷ es) u b = absurd u
Uses-holder mutex_sem (shown cs ∷ es) u b = absurd u
Uses-holder mutex_sem (warned w ∷ es) u b = absurd u
Uses-holder mutex_sem (closed fd ∷ es) u b = absurd u
Uses-holder mutex_sem (exited ∷ es) u b = absurd u
Uses-holder mutex_sem (overrun ∷ es) u b = absurd u

first_process-IsFair : IsFair first_process
first_process-IsFair = record {
  log_one = λ _. omega arith;
  sem_one = λ _. omega arith;
  gone = λ _. refl;
  bracketed = tt;
}

main-IsFair :
    (argv1 : Text) (open_listenfd : ℤ → Option ℕ) {fd : ℕ} {p : Process}
    → main 2 argv1 open_listenfd ≡ listening fd p
    → IsFair p
unfolding main
main-IsFair argv1 open_listenfd {p} e =
    let first : p ≡ first_process = ground arith in subst IsFair (sym first) first_process-IsFair

-- The value of a semaphore.
abbrev value : Semaphore → Process → ℕ
value mutex_log p = p.log_value
value mutex_sem p = p.sem_value

IsFair-one :
    (m : Semaphore) (p : Process)
    → IsFair p
    → p.is_over ≡ false
    → value m p + holders m p.threads ≡ 1
IsFair-one mutex_log p f h = f.log_one h
IsFair-one mutex_sem p f h = f.sem_one h

IsFair-apart :
    (m : Semaphore) (p : Process) (i j : ℕ) {t u : List Event}
    → IsFair p
    → p.is_over ≡ false
    → get_elem? p.threads i ≡ some t
    → get_elem? p.threads j ≡ some u
    → holder t ≡ some m
    → holder u ≡ some m
    → i ≡ j
IsFair-apart m p i j {t} {u} f h a b ht hu = elim (ℕ_discrete i j) [
  | yes e ↦ e
  | no n ↦
      let two : held_by m (holder t) + held_by m (holder u) ≡ 2 =
        rw (ht, hu) (omega (arith, held_by_self m)) in
      absurd (omega (arith, holders-two m p.threads i j a b n, IsFair-one m p f h))
]

-- Of the threads that main starts, under any order of their steps, no two are ever both about to write
-- or to flush the log file, and no two both about to open a connection.
pub process_request-exclusion :
    (lib : Library) (argv1 : Text) (open_listenfd : ℤ → Option ℕ) {fd : ℕ} {p q : Process}
    → main 2 argv1 open_listenfd ≡ listening fd p
    → Reach lib p q
    → q.is_over ≡ false
    → (m : Semaphore) (i j : ℕ) {t u : List Event} → get_elem? q.threads i ≡ some t
    → get_elem? q.threads j ≡ some u
    → Uses m t
    → Uses m u
    → i ≡ j
process_request-exclusion lib argv1 open_listenfd {q} e r h m i j {t} {u} a b ut uu =
    let f = Reach-IsFair lib (main-IsFair argv1 open_listenfd e) r in
    IsFair-apart m q i j f h a b
      (Uses-holder m t ut (All-get IsBracketed q.threads i f.bracketed a))
      (Uses-holder m u uu (All-get IsBracketed q.threads j f.bracketed b))

-- An event can happen, unless it waits for a semaphore that is taken.
act-cases :
    (e : Event) (p : Process)
    → ((q : Process) × (act e p ≡ some q)) ⊎ ((m : Semaphore) × (e ≡ locked m) × (value m p ≡ 0))
unfolding act
act-cases (locked mutex_log) p = elim (dec_lt 0 p.log_value) [
  | yes h ↦
      let s : p.log_value ≡ suc (p.log_value - 1) = omega arith in
      inl (record p { log_value = p.log_value - 1 }, ground arith)
  | no h ↦ inr (mutex_log, refl, omega arith)
]
act-cases (locked mutex_sem) p = elim (dec_lt 0 p.sem_value) [
  | yes h ↦
      let s : p.sem_value ≡ suc (p.sem_value - 1) = omega arith in
      inl (record p { sem_value = p.sem_value - 1 }, ground arith)
  | no h ↦ inr (mutex_sem, refl, omega arith)
]
act-cases (unlocked m) p = inl (_, refl)
act-cases (logged cs) p = inl (_, refl)
act-cases exited p = inl (_, refl)
act-cases overrun p = inl (_, refl)
act-cases detached p = inl (_, refl)
act-cases freed_args p = inl (_, refl)
act-cases flushed p = inl (_, refl)
act-cases (opened h n) p = inl (_, refl)
act-cases (sent fd cs) p = inl (_, refl)
act-cases (shown cs) p = inl (_, refl)
act-cases (warned w) p = inl (_, refl)
act-cases (closed fd) p = inl (_, refl)

abbrev pub CanTurn : Process → Type 0
CanTurn p =
    (i : ℕ) × (e : Event) × (es : List Event) × (q : Process) × (get_elem? p.threads i
      ≡ some (e ∷ es))
    × (act e (record p { threads = set p.threads i es }) ≡ some q)

-- A thread that holds a semaphore does not wait for one.
holder-CanTurn :
    (p : Process) (m : Semaphore) (i : ℕ) (t : List Event)
    → get_elem? p.threads i ≡ some t
    → holder t ≡ some m
    → CanTurn p
holder-CanTurn p m i [] g h = cc
holder-CanTurn p m i (e ∷ es) g h = elim (act-cases e (record p { threads = set p.threads i es })) [
  | inl (q, a) ↦ (i, e, es, q, g, a)
  | inr (n, l, z) ↦
      let waits : none ≡ some m = subst (λ (d : Event). holder (d ∷ es) ≡ some m) l h in cc
]

value-set :
    (m : Semaphore) (p : Process) (ts : List (List Event))
    → value m (record p { threads = ts }) ≡ value m p
value-set mutex_log p ts = refl
value-set mutex_sem p ts = refl

-- The threads that main starts never block each other for good: as long as the process runs and some
-- thread has something left to do, some thread can do what comes next.
pub process_request-no_deadlock :
    (lib : Library) (argv1 : Text) (open_listenfd : ℤ → Option ℕ) {fd : ℕ} {p q : Process}
    → main 2 argv1 open_listenfd ≡ listening fd p
    → Reach lib p q
    → q.is_over ≡ false
    → (i : ℕ) {e : Event} {es : List Event} → get_elem? q.threads i ≡ some (e ∷ es)
    → CanTurn q
process_request-no_deadlock lib argv1 open_listenfd {q} s r h i {e} {es} g =
    let f = Reach-IsFair lib (main-IsFair argv1 open_listenfd s) r in
    elim (act-cases e (record q { threads = set q.threads i es })) [
      | inl (q', a) ↦ (i, e, es, q', g, a)
      | inr (m, l, z) ↦
          let free : value m q ≡ 0 = sym (value-set m q (set q.threads i es)) ∙ z in
          let (j, t, at, held) = holders-some m q.threads (omega (arith, IsFair-one m q f h)) in
          holder-CanTurn q m j t at held
    ]
