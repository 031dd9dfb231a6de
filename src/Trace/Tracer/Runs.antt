-- ===== src/Trace/Tracer/Runs.antt =====
-- Sequences of calls of the tracer of linklab/bonus/memtrace.c.
use system_programming_lab.Base.{
  ℕ, ◌+◌, ◌%◌, ◌^◌, ◌≡◌, ◌∙◌, ◌⊎◌, sym, Option-cases, Bool-cases, refl, ap, inl, inr, true, false,
  Option, none, some, List, [], ◌∷◌, ◌++◌,
}
use system_programming_lab.Trace.Blocks.{
  pos, increment, decrement, Item, Caller, new_item, alloc, dealloc, find,
}
use system_programming_lab.Trace.Blocks.Search.{
  IsAscending, merged, find-insert_item, find-dealloc, insert_item-IsAscending, dealloc-IsAscending,
}
use mathlib.Core.Option
use system_programming_lab.Trace.Tracer.{
  Tracer, log_free, log_double_free, log_realloc, logged, find_in, with_alloc, with_dealloc,
  counted, freed_size, is_released, malloc, calloc, realloc, free,
}

-- A call with what the C library returns for it.
pub data Call : Type 0 where
  malloc_call : (size res : ℕ) → Caller → Call
  calloc_call : (nmemb size res : ℕ) → Caller → Call
  realloc_call : (p size res : ℕ) → Caller → Call
  free_call : ℕ → Call

unfoldable pub step : Call → Tracer → Option Tracer
unfolding malloc calloc realloc free
step (malloc_call size res caller) t = some (malloc size res caller t)
step (calloc_call nmemb size res caller) t = some (calloc nmemb size res caller t)
step (realloc_call p size res caller) t = realloc p size res caller t
step (free_call p) t = some (free p t)

-- The tracer's list, if it has one, is ascending.
abbrev pub IsOrdered : Option (List Item) → Type 0
IsOrdered none = Unit
IsOrdered (some list) = IsAscending list

alloc-IsOrdered :
    (ptr size : ℕ) (caller : Caller) (list : Option (List Item))
    → IsOrdered list
    → IsOrdered (Option.map (λ l. alloc l ptr size caller) list)
unfolding alloc
alloc-IsOrdered ptr size caller none h = tt
alloc-IsOrdered ptr size caller (some l) h = insert_item-IsAscending l (new_item ptr size caller) h

dealloc-IsOrdered :
    (p : ℕ) (list : Option (List Item))
    → IsOrdered list
    → IsOrdered (Option.map (λ l. dealloc l p) list)
dealloc-IsOrdered p none h = tt
dealloc-IsOrdered p (some l) h = dealloc-IsAscending l p h

-- A call of free leaves the list, or lowers the count of its block.
free-list :
    (p : ℕ) (t : Tracer)
    → ((free p t).list ≡ t.list) ⊎ ((free p t).list ≡ Option.map (λ l. dealloc l p) t.list)
unfolding free
free-list p t = elim (Option-cases (find_in t.list p)) [
  | inl e ↦ inl (rw (free, e) refl)
  | inr (item, e) ↦ elim (Bool-cases (is_released item.cnt)) [
    | inl released ↦ inl (rw (free, e, released) refl)
    | inr live ↦ inr (rw (free, e, live) refl)
  ]
]

free-IsOrdered : (p : ℕ) (t : Tracer) → IsOrdered t.list → IsOrdered (free p t).list
free-IsOrdered p t h = elim (free-list p t) [
  | inl e ↦ rw e h
  | inr e ↦ rw e (dealloc-IsOrdered p t.list h)
]

malloc-IsOrdered :
    (size res : ℕ) (caller : Caller) (t : Tracer)
    → IsOrdered t.list
    → IsOrdered (malloc size res caller t).list
unfolding malloc
malloc-IsOrdered size res caller t h = alloc-IsOrdered res size caller t.list h

calloc-IsOrdered :
    (nmemb size res : ℕ) (caller : Caller) (t : Tracer)
    → IsOrdered t.list
    → IsOrdered (calloc nmemb size res caller t).list
unfolding calloc
calloc-IsOrdered nmemb size res caller t h = alloc-IsOrdered res size caller t.list h

realloc-IsOrdered :
    (p size res : ℕ) (caller : Caller) (t t' : Tracer)
    → IsOrdered t.list
    → realloc p size res caller t ≡ some t'
    → IsOrdered t'.list
unfolding realloc
realloc-IsOrdered p size res caller t t' h e = elim (Option-cases (find_in t.list p)) [
  | inl missing ↦ let e' : ◌≡◌ {A = Option Tracer} none (some t') = rw (realloc, missing) at e in cc
  | inr (item, found) ↦
      let moved : Tracer = counted size (
        with_alloc res size caller
          (with_dealloc p (freed_size item.size (logged (log_realloc p size res) t)))) in
      let e' : ◌≡◌ {A = Option Tracer} (some moved) (some t') = rw (realloc, found) at e in
      let q : moved ≡ t' = cc in
      rw (sym q) (alloc-IsOrdered res size caller _ (dealloc-IsOrdered p t.list h))
]

-- Every call that the tracer serves without a crash keeps its list of blocks ascending by address.
pub step-IsOrdered :
    (c : Call) (t t' : Tracer) → IsOrdered t.list → step c t ≡ some t' → IsOrdered t'.list
unfolding step
step-IsOrdered (malloc_call size res caller) t t' h e =
    let q : malloc size res caller t ≡ t' = cc in rw (sym q) (malloc-IsOrdered size res caller t h)
step-IsOrdered (calloc_call nmemb size res caller) t t' h e =
    let q : calloc nmemb size res caller t ≡ t' = cc in
    rw (sym q) (calloc-IsOrdered nmemb size res caller t h)
step-IsOrdered (realloc_call p size res caller) t t' h e =
    realloc-IsOrdered p size res caller t t' h e
step-IsOrdered (free_call p) t t' h e =
    let q : free p t ≡ t' = cc in rw (sym q) (free-IsOrdered p t h)

new_item-ptr : (p size : ℕ) (caller : Caller) → (new_item p size caller).ptr ≡ p
new_item-ptr p size none = refl
new_item-ptr p size (some (fname, ofs)) = refl

new_item-fields :
    (p size : ℕ) (caller : Caller)
    → ((new_item p size caller).size ≡ size) × ((new_item p size caller).cnt ≡ pos 1)
new_item-fields p size none = (refl, refl)
new_item-fields p size (some (fname, ofs)) = (refl, refl)

merged-fields :
    (o : Option Item) (i : Item)
    → (o ≡ none) ⊎ ((c : Item) × (o ≡ some c) × (c.cnt ≡ pos 0))
    → i.cnt ≡ pos 1
    → ((merged o i).size ≡ i.size) × ((merged o i).cnt ≡ pos 1)
unfolding increment
merged-fields o i (inl e) h = rw e (refl, h)
merged-fields o i (inr (c, e, z)) h = rw (e, z) (refl, refl)

find-alloc :
    (list : List Item) (p size : ℕ) (caller : Caller)
    → find (alloc list p size caller) p ≡ some (merged (find list p) (new_item p size caller))
unfolding alloc
find-alloc list p size caller =
    let e = find-insert_item list (new_item p size caller) in rw (new_item-ptr p size caller) at e

free-live :
    (p : ℕ) (t : Tracer) (m : Item)
    → find_in t.list p ≡ some m
    → is_released m.cnt ≡ false
    → ((free p t).freed ≡ t.freed ++ p ∷ [])
      × ((free p t).free_size ≡ (t.free_size + m.size) % 2 ^ 32)
      × ((free p t).list ≡ Option.map (λ l. dealloc l p) t.list)
unfolding free
free-live p t m e live = (rw (free, e, live) refl, rw (free, e, live) refl, rw (free, e, live) refl)

free-released :
    (p : ℕ) (t : Tracer) (m : Item)
    → find_in t.list p ≡ some m
    → is_released m.cnt ≡ true
    → free p t ≡ logged log_double_free (logged (log_free p) t)
unfolding free
free-released p t m e released = rw (free, e, released) refl

find_in-some :
    (o : Option (List Item)) (list : List Item) (p : ℕ) → o ≡ some list → find_in o p ≡ find list p
find_in-some o list p e = rw e refl

-- The state of the tracer after a malloc, a free and another free of one block.
module _ (t : Tracer) (list : List Item) (size p : ℕ) (caller : Caller) where
  abbrev pub first_free : Tracer
  first_free = free p (malloc size p caller t)

  abbrev pub second_free : Tracer
  second_free = free p first_free

  -- Where the tracer has a list, a block that malloc returns, and that the list does not hold or
  -- holds with the count 0, is given to the C library's free once: the first free counts its size,
  -- and a second one only logs the call and the error.
  pub free-malloc :
      t.list ≡ some list
      → (find list p ≡ none) ⊎ ((c : Item) × (find list p ≡ some c) × (c.cnt ≡ pos 0))
      → (first_free.freed ≡ t.freed ++ p ∷ [])
        × (first_free.free_size ≡ (t.free_size + size) % 2 ^ 32)
        × (second_free ≡ logged log_double_free (logged (log_free p) first_free))
  unfolding malloc decrement
  free-malloc at h =
      let t1 : Tracer = malloc size p caller t in
      let m : Item = merged (find list p) (new_item p size caller) in
      let (sz, one) = new_item-fields p size caller in
      let (msz, mone) = merged-fields (find list p) (new_item p size caller) h one in
      let l1 : t1.list ≡ some (alloc list p size caller) = rw at refl in
      let live : is_released m.cnt ≡ false = rw mone refl in
      let f1 : find_in t1.list p ≡ some m =
        find_in-some t1.list (alloc list p size caller) p l1 ∙ find-alloc list p size caller in
      let (fr, fs, l2) = free-live p t1 m f1 live in
      let l3 : first_free.list ≡ some (dealloc (alloc list p size caller) p) =
        l2 ∙ ap (λ o. Option.map (λ l. dealloc l p) o) l1 in
      let low : find (dealloc (alloc list p size caller) p) p
          ≡ some (record m { cnt = decrement m.cnt }) =
        rw (find-dealloc (alloc list p size caller) p, find-alloc list p size caller) refl in
      let released : is_released (decrement m.cnt) ≡ true = rw mone refl in
      (
        fr,
        fs ∙ ap (λ n. (t.free_size + n) % 2 ^ 32) (msz ∙ sz),
        free-released p first_free (record m { cnt = decrement m.cnt })
            (find_in-some first_free.list (dealloc (alloc list p size caller) p) p l3 ∙ low)
            released,
      )
