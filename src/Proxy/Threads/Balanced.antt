-- ===== src/Proxy/Threads/Balanced.antt =====
-- The semaphores of proxylab/proxy.c in the events of one thread: what it takes it gives back before
-- it takes another.
use system_programming_lab.Base.{◌≡◌, refl, Option, none, some, List, [], ◌∷◌, ◌++◌}
use system_programming_lab.Proxy.State.{
  Semaphore, mutex_log, mutex_sem, Event, detached, freed_args, flushed, locked, unlocked, opened,
  sent, logged, shown, warned, closed, exited, overrun, Session, Run, ran, exits, M, ◌>>=◌, after,
}

-- Which semaphore a thread holds that has these events before it. The process ends only in
-- Open_clientfd, where the thread holds `mutex_sem`, or by a write past the end of an array, where it
-- holds none.
abbrev pub holder : List Event → Option Semaphore
holder [] = none
holder (locked m ∷ es) = none
holder (unlocked m ∷ es) = some m
holder (exited ∷ es) = some mutex_sem
holder (overrun ∷ es) = none
holder (detached ∷ es) = holder es
holder (freed_args ∷ es) = holder es
holder (flushed ∷ es) = holder es
holder (opened h p ∷ es) = holder es
holder (sent fd cs ∷ es) = holder es
holder (logged cs ∷ es) = holder es
holder (shown cs ∷ es) = holder es
holder (warned w ∷ es) = holder es
holder (closed fd ∷ es) = holder es

-- Every semaphore that is taken is given back before another is taken, the log is written only under
-- `mutex_log`, and a connection is opened only under `mutex_sem`.
abbrev pub IsBracketed : List Event → Type 0
IsBracketed [] = Unit
IsBracketed (locked m ∷ es) = (holder es ≡ some m) × IsBracketed es
IsBracketed (unlocked m ∷ es) = (holder es ≡ none) × IsBracketed es
IsBracketed (logged cs ∷ es) = (holder es ≡ some mutex_log) × IsBracketed es
IsBracketed (flushed ∷ es) = (holder es ≡ some mutex_log) × IsBracketed es
IsBracketed (opened h p ∷ es) = (holder es ≡ some mutex_sem) × IsBracketed es
IsBracketed (e ∷ es) = IsBracketed es

abbrev pub IsBalanced : List Event → Type 0
IsBalanced es = (holder es ≡ none) × IsBracketed es

holder-append :
    (xs ys : List Event) {m : Semaphore} → holder xs ≡ some m → holder (xs ++ ys) ≡ some m
holder-append [] ys h = cc
holder-append (locked m ∷ xs) ys h = cc
holder-append (unlocked m ∷ xs) ys h = h
holder-append (exited ∷ xs) ys h = h
holder-append (overrun ∷ xs) ys h = cc
holder-append (detached ∷ xs) ys h = holder-append xs ys h
holder-append (freed_args ∷ xs) ys h = holder-append xs ys h
holder-append (flushed ∷ xs) ys h = holder-append xs ys h
holder-append (opened _ p ∷ xs) ys h = holder-append xs ys h
holder-append (sent fd cs ∷ xs) ys h = holder-append xs ys h
holder-append (logged cs ∷ xs) ys h = holder-append xs ys h
holder-append (shown cs ∷ xs) ys h = holder-append xs ys h
holder-append (warned w ∷ xs) ys h = holder-append xs ys h
holder-append (closed fd ∷ xs) ys h = holder-append xs ys h

holder-append_none :
    (xs ys : List Event) → holder xs ≡ none → holder ys ≡ none → holder (xs ++ ys) ≡ none
holder-append_none [] ys h k = k
holder-append_none (locked m ∷ xs) ys h k = refl
holder-append_none (unlocked m ∷ xs) ys h k = cc
holder-append_none (exited ∷ xs) ys h k = cc
holder-append_none (overrun ∷ xs) ys h k = refl
holder-append_none (detached ∷ xs) ys h k = holder-append_none xs ys h k
holder-append_none (freed_args ∷ xs) ys h k = holder-append_none xs ys h k
holder-append_none (flushed ∷ xs) ys h k = holder-append_none xs ys h k
holder-append_none (opened _ p ∷ xs) ys h k = holder-append_none xs ys h k
holder-append_none (sent fd cs ∷ xs) ys h k = holder-append_none xs ys h k
holder-append_none (logged cs ∷ xs) ys h k = holder-append_none xs ys h k
holder-append_none (shown cs ∷ xs) ys h k = holder-append_none xs ys h k
holder-append_none (warned w ∷ xs) ys h k = holder-append_none xs ys h k
holder-append_none (closed fd ∷ xs) ys h k = holder-append_none xs ys h k

IsBracketed-append : (xs ys : List Event) → IsBracketed xs → IsBalanced ys → IsBracketed (xs ++ ys)
IsBracketed-append [] ys h k = k.1
IsBracketed-append (locked m ∷ xs) ys h k =
    (holder-append xs ys h.0, IsBracketed-append xs ys h.1 k)
IsBracketed-append (unlocked m ∷ xs) ys h k =
    (holder-append_none xs ys h.0 k.0, IsBracketed-append xs ys h.1 k)
IsBracketed-append (exited ∷ xs) ys h k = IsBracketed-append xs ys h k
IsBracketed-append (overrun ∷ xs) ys h k = IsBracketed-append xs ys h k
IsBracketed-append (detached ∷ xs) ys h k = IsBracketed-append xs ys h k
IsBracketed-append (freed_args ∷ xs) ys h k = IsBracketed-append xs ys h k
IsBracketed-append (flushed ∷ xs) ys h k = (holder-append xs ys h.0, IsBracketed-append xs ys h.1 k)
IsBracketed-append (opened _ p ∷ xs) ys h k =
    (holder-append xs ys h.0, IsBracketed-append xs ys h.1 k)
IsBracketed-append (sent fd cs ∷ xs) ys h k = IsBracketed-append xs ys h k
IsBracketed-append (logged cs ∷ xs) ys h k =
    (holder-append xs ys h.0, IsBracketed-append xs ys h.1 k)
IsBracketed-append (shown cs ∷ xs) ys h k = IsBracketed-append xs ys h k
IsBracketed-append (warned w ∷ xs) ys h k = IsBracketed-append xs ys h k
IsBracketed-append (closed fd ∷ xs) ys h k = IsBracketed-append xs ys h k

IsBalanced-append : (xs ys : List Event) → IsBalanced xs → IsBalanced ys → IsBalanced (xs ++ ys)
IsBalanced-append xs ys h k = (holder-append_none xs ys h.0 k.0, IsBracketed-append xs ys h.1 k)

abbrev pub Tidy {ℓ} : {A : Type ℓ} → Run A → Type 0
Tidy (ran es a s) = IsBalanced es
Tidy (exits es) = IsBalanced es

after-Tidy {ℓ} :
    {A : Type ℓ} (es : List Event) (r : Run A) → IsBalanced es → Tidy r → Tidy (after es r)
after-Tidy es (ran more a s) h k = IsBalanced-append es more h k
after-Tidy es (exits more) h k = IsBalanced-append es more h k

Run-bind {ℓ κ} :
    {A : Type ℓ} {B : Type κ} (r : Run A) (f : A → M B)
    → Tidy r
    → ((a : A) (s : Session) → Tidy (f a s))
    → Tidy (elim r as (λ _. Run B) [ ran es a s' ↦ after es (f a s') | exits es ↦ exits es ])
Run-bind (ran es a s) f h k = after-Tidy es (f a s) h (k a s)
Run-bind (exits es) f h k = h

pub >>=-Tidy {ℓ κ} :
    {A : Type ℓ} {B : Type κ} (m : M A) (f : A → M B) (s : Session)
    → Tidy (m s)
    → ((a : A) (s' : Session) → Tidy (f a s'))
    → Tidy ((m >>= f) s)
>>=-Tidy m f s h k = Run-bind (m s) f h k
