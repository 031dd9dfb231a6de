-- ===== src/Proxy/Threads/Fair.antt =====
-- The threads of proxylab/proxy.c under any order of their steps: what holds of the semaphores.
use system_programming_lab.Base.{
  ℕ, ◌+◌, ◌≡◌, ◌∙◌, refl, ap, sym, true, false, none, some, List, [], ◌∷◌, ◌++◌, get_elem?, set,
  All, arith, inl, inr, ◌⊎◌, All-set, All-get, All-append,
}
use mathlib.Core.Path.{subst}
use system_programming_lab.Proxy.State.{
  Semaphore, mutex_log, mutex_sem, Event, detached, freed_args, flushed, locked, unlocked, opened,
  sent, logged, shown, warned, closed, exited, overrun, Library,
}
use system_programming_lab.Proxy.Request.{process_request, Connection}
use system_programming_lab.Proxy.Threads.{
  Process, wait, post, act, Step, accept, turn, Reach, here, next,
}
use system_programming_lab.Proxy.Threads.Balanced.{holder, IsBracketed}
use system_programming_lab.Proxy.Threads.Request.{process_request-IsBalanced}
use system_programming_lab.Proxy.Threads.Holders.{
  held_by, holders, held_by-none, holders-set, holders-append,
}

-- While the process runs, each semaphore is free or held by one thread.
pub record IsFair (p : Process) : Type 0 where
  pub log_one : p.is_over ≡ false → p.log_value + holders mutex_log p.threads ≡ 1
  pub sem_one : p.is_over ≡ false → p.sem_value + holders mutex_sem p.threads ≡ 1
  pub gone : p.is_over ≡ true → p.threads ≡ []
  pub bracketed : All IsBracketed p.threads

-- What an event does with the threads and with the semaphores, where it does not end the process.
record Kept (p q : Process) (e : Event) (es : List Event) : Type 0 where
  threads : q.threads ≡ p.threads
  is_over : q.is_over ≡ p.is_over
  log_moved :
      q.log_value + held_by mutex_log (holder es)
      ≡ p.log_value + held_by mutex_log (holder (e ∷ es))
  sem_moved :
      q.sem_value + held_by mutex_sem (holder es)
      ≡ p.sem_value + held_by mutex_sem (holder (e ∷ es))

-- An event after which the thread holds what it held.
Kept-same :
    (p q : Process) (e : Event) (es : List Event)
    → holder (e ∷ es) ≡ holder es
    → act e p ≡ some p
    → act e p ≡ some q
    → Kept p q e es
Kept-same p q e es h a b =
    let same : p ≡ q = cc in
    subst (λ r. Kept p r e es) same
      (record { threads = refl; is_over = refl; log_moved = rw h refl; sem_moved = rw h refl })

Kept-wait :
    (m : Semaphore) (p q : Process) (es : List Event)
    → holder es ≡ some m
    → wait m p ≡ some q
    → Kept p q (locked m) es
Kept-wait mutex_log p q es h a = record {
  threads = ground arith;
  is_over = ground arith;
  log_moved = rw h (ground arith);
  sem_moved = rw h (ground arith);
}
Kept-wait mutex_sem p q es h a = record {
  threads = ground arith;
  is_over = ground arith;
  log_moved = rw h (ground arith);
  sem_moved = rw h (ground arith);
}

Kept-post :
    (m : Semaphore) (p : Process) (es : List Event)
    → holder es ≡ none
    → Kept p (post m p) (unlocked m) es
Kept-post mutex_log p es h = record {
  threads = refl;
  is_over = refl;
  log_moved = rw h (omega arith);
  sem_moved = rw h (omega arith);
}
Kept-post mutex_sem p es h = record {
  threads = refl;
  is_over = refl;
  log_moved = rw h (omega arith);
  sem_moved = rw h (omega arith);
}

abbrev Ended : Process → Type 0
Ended q = (q.threads ≡ []) × (q.is_over ≡ true)

act-Kept :
    (e : Event) (es : List Event) (p q : Process)
    → IsBracketed (e ∷ es)
    → act e p ≡ some q
    → Kept p q e es ⊎ Ended q
unfolding act
act-Kept (locked m) es p q b a = inl (Kept-wait m p q es b.0 a)
act-Kept (unlocked m) es p q b a =
    let same : post m p ≡ q = cc in
    inl (subst (λ r. Kept p r (unlocked m) es) same (Kept-post m p es b.0))
act-Kept exited es p q b a = inr (cc, cc)
act-Kept overrun es p q b a = inr (cc, cc)
act-Kept (logged cs) es p q b a =
    let same : record p { log_file = p.log_file ++ cs ∷ [] } ≡ q = cc in
    inl (
      subst (λ r. Kept p r (logged cs) es) same
        (record { threads = refl; is_over = refl; log_moved = refl; sem_moved = refl }))
act-Kept detached es p q b a = inl (Kept-same p q detached es refl refl a)
act-Kept freed_args es p q b a = inl (Kept-same p q freed_args es refl refl a)
act-Kept flushed es p q b a = inl (Kept-same p q flushed es refl refl a)
act-Kept (opened h n) es p q b a = inl (Kept-same p q (opened h n) es refl refl a)
act-Kept (sent fd cs) es p q b a = inl (Kept-same p q (sent fd cs) es refl refl a)
act-Kept (shown cs) es p q b a = inl (Kept-same p q (shown cs) es refl refl a)
act-Kept (warned w) es p q b a = inl (Kept-same p q (warned w) es refl refl a)
act-Kept (closed fd) es p q b a = inl (Kept-same p q (closed fd) es refl refl a)

IsBracketed-tail : (e : Event) (es : List Event) → IsBracketed (e ∷ es) → IsBracketed es
IsBracketed-tail (locked m) es h = h.1
IsBracketed-tail (unlocked m) es h = h.1
IsBracketed-tail detached es h = h
IsBracketed-tail freed_args es h = h
IsBracketed-tail flushed es h = h.1
IsBracketed-tail (opened _ p) es h = h.1
IsBracketed-tail (sent fd cs) es h = h
IsBracketed-tail (logged cs) es h = h.1
IsBracketed-tail (shown cs) es h = h
IsBracketed-tail (warned w) es h = h
IsBracketed-tail (closed fd) es h = h
IsBracketed-tail exited es h = h
IsBracketed-tail overrun es h = h

turn-IsFair :
    (p q : Process) (i : ℕ) (e : Event) (es : List Event)
    → p.is_over ≡ false
    → get_elem? p.threads i ≡ some (e ∷ es)
    → act e (record p { threads = set p.threads i es }) ≡ some q
    → IsFair p
    → IsFair q
turn-IsFair p q i e es h g a f =
    let b = All-get IsBracketed p.threads i f.bracketed g in
    elim (act-Kept e es (record p { threads = set p.threads i es }) q b a) [
      | inl k ↦ record {
        log_one = λ _.
            rw (ap (holders mutex_log) k.threads)
              (omega (arith, k.log_moved, f.log_one h, holders-set mutex_log p.threads i es g));
        sem_one = λ _.
            rw (ap (holders mutex_sem) k.threads)
              (omega (arith, k.sem_moved, f.sem_one h, holders-set mutex_sem p.threads i es g));
        gone = λ o. let w : true ≡ false = sym o ∙ k.is_over ∙ h in cc;
        bracketed =
            subst (All IsBracketed) (sym k.threads)
              (All-set IsBracketed p.threads i es f.bracketed (IsBracketed-tail e es b));
      }
      | inr (t, o) ↦ record {
        log_one = λ r. let w : true ≡ false = sym o ∙ r in cc;
        sem_one = λ r. let w : true ≡ false = sym o ∙ r in cc;
        gone = λ _. t;
        bracketed = subst (All IsBracketed) (sym t) tt;
      }
    ]

module _ (lib : Library) where
  holders-accept :
      (ts : List (List Event)) (c : Connection) (m : Semaphore)
      → holders m (ts ++ process_request lib c ∷ []) ≡ holders m ts
  holders-accept ts c m =
      let n : held_by m (holder (process_request lib c)) ≡ 0 =
        rw ((process_request-IsBalanced lib c).0) (held_by-none m) in
      omega (arith, holders-append m ts (process_request lib c))

  accept-IsFair :
      (p : Process) (c : Connection)
      → p.is_over ≡ false
      → IsFair p
      → IsFair (record p { threads = p.threads ++ process_request lib c ∷ [] })
  accept-IsFair p c h f = record {
    log_one = λ o. omega (arith, holders-accept p.threads c mutex_log, f.log_one h);
    sem_one = λ o. omega (arith, holders-accept p.threads c mutex_sem, f.sem_one h);
    gone = λ q. let w : true ≡ false = sym q ∙ h in cc;
    bracketed =
        All-append IsBracketed p.threads (process_request lib c ∷ []) f.bracketed
          ((process_request-IsBalanced lib c).1, tt);
  }

  Step-IsFair : {p q : Process} → Step lib p q → IsFair p → IsFair q
  Step-IsFair {p} {q} (accept c h e) f = subst IsFair (sym e) (accept-IsFair p c h f)
  Step-IsFair {p} {q} (turn i e es h g a) f = turn-IsFair p q i e es h g a f

  pub Reach-IsFair : {p q : Process} → IsFair p → Reach lib p q → IsFair q
  Reach-IsFair f here = f
  Reach-IsFair f (next r st) = Step-IsFair st (Reach-IsFair f r)
