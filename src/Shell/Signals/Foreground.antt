-- ===== src/Shell/Signals/Foreground.antt =====
-- The signals of a foreground job, and the wait for it.
use system_programming_lab.Base.{
  ℕ, ◌+◌, ◌<◌, ◌≡◌, ◌≢◌, ◌∙◌, sym, refl, ap, inl, inr, true, false, some, List, [], ◌∷◌, ◌++◌, ◌==◌,
  Bool-cases, get_elem?, set, All-set, All-get, arith, ==_iff,
}
use system_programming_lab.Shell.State.{
  st, Job, stopped_by, terminated_by, Shell, print, ok, set_state,
}
use system_programming_lab.Shell.Jobs.{cleared, in_fg, deletejob, fgpid, maxjid}
use system_programming_lab.Shell.Jobs.Lookup.{deletejob-some, pid2jid-get, fgpid-get, fgpid-eq-zero}
use system_programming_lab.Shell.Jobs.Table.{IsClean, fg_count-set, IsTable}
use system_programming_lab.Shell.Signals.{
  stopped, signaled, finished, sigint_number, reap_status, sigchld_handler, Event, deliver,
  wait_loop,
}
use system_programming_lab.Shell.Signals.Aligned.{IsAligned, find_index-of_get, sigchld-one}

out-deletejob : (s : Shell) (pid : ℕ) → (deletejob s pid).0.out ≡ s.out
unfolding deletejob
out-deletejob s pid = ground arith

-- No job is in the foreground once the foreground job's slot holds one that is not.
fgpid-set :
    {jobs : List Job} (i : ℕ) {j : Job} (v : Job)
    → IsTable jobs
    → get_elem? jobs i ≡ some j
    → in_fg j ≡ true
    → in_fg v ≡ false
    → (v.pid ≡ 0 → v ≡ cleared)
    → fgpid (set jobs i v) ≡ 0
fgpid-set {jobs} i {j} v t g f n clean =
    let w = fg_count-set jobs i v g in
    (fgpid-eq-zero (set jobs i v) (All-set IsClean jobs i v t.clean clean)).1
      (ground (arith, t.one_fg))

module _ (s : Shell) (i : ℕ) {j : Job} (t : IsTable s.jobs) (a : IsAligned s.jobs)
    (g : get_elem? s.jobs i ≡ some j) (f : in_fg j ≡ true) where
  -- A job in the foreground has a pid, since a free slot is in no state.
  fg-pos : 0 < j.pid
  fg-pos = elim (Bool-cases (j.pid == 0)) [
    | inl z ↦
        let free : j ≡ cleared = All-get IsClean s.jobs i t.clean g (ground arith) in
        let no : in_fg j ≡ false = ap in_fg free in cc
    | inr n ↦ ground arith
  ]

  is_fgpid : fgpid s.jobs ≡ j.pid
  is_fgpid = fgpid-get s.jobs i t.one_fg g f

  -- In a list that keeps its invariant and in which job n is in slot n - 1, the exit of the
  -- foreground job is noticed: the handler returns, the job's slot is cleared, the next job number
  -- is one more than the largest left, and no job is in the foreground.
  pub sigchld-finished :
      (code : ℕ)
      → (s' : Shell) × (sigchld_handler ((j.pid, finished code) ∷ []) s ≡ ok s')
        × (s'.jobs ≡ set s.jobs i cleared)
        × (s'.nextjid ≡ maxjid (set s.jobs i cleared) + 1)
        × (fgpid s'.jobs ≡ 0)
  unfolding reap_status
  sigchld-finished code =
      let live : j.pid ≢ 0 = omega (arith, fg-pos) in
      let here = find_index-of_get s.jobs i t.distinct g live in
      let s1 : Shell = record s { get_int_or_stp = true } in
      let (js, n, r) = deletejob-some s1 j.pid here fg-pos in
      (
        (deletejob s1 j.pid).0,
        sigchld-one s i (finished code) t a g live ∙ rw (f, is_fgpid) refl,
        js,
        n,
        rw js (fgpid-set i cleared t g f refl (λ z. refl)),
      )

  -- In a list that keeps its invariant and in which job n is in slot n - 1, a signal that ends the
  -- foreground job clears its slot and leaves nothing in the foreground. The message names SIGINT,
  -- whatever the signal was.
  pub sigchld-signaled :
      (sig : ℕ)
      → (s' : Shell) × (sigchld_handler ((j.pid, signaled sig) ∷ []) s ≡ ok s')
        × (s'.jobs ≡ set s.jobs i cleared)
        × (s'.out ≡ s.out ++ terminated_by j.jid j.pid sigint_number ∷ [])
        × (fgpid s'.jobs ≡ 0)
  unfolding reap_status
  sigchld-signaled sig =
      let live : j.pid ≢ 0 = omega (arith, fg-pos) in
      let here = find_index-of_get s.jobs i t.distinct g live in
      let number = pid2jid-get s.jobs j.pid here g fg-pos in
      let s1 : Shell =
        print (terminated_by j.jid j.pid sigint_number) (record s { get_int_or_stp = true }) in
      let (js, n, r) = deletejob-some s1 j.pid here fg-pos in
      (
        (deletejob s1 j.pid).0,
        sigchld-one s i (signaled sig) t a g live
            ∙ rw (f, is_fgpid)
                (ap
                  (λ n.
                    ok
                      (deletejob
                        (print (terminated_by n j.pid sigint_number)
                          (record s { get_int_or_stp = true }))
                        j.pid).0)
                  number),
        js,
        out-deletejob s1 j.pid,
        rw js (fgpid-set i cleared t g f refl (λ z. refl)),
      )

  -- In a list that keeps its invariant and in which job n is in slot n - 1, a stop of the
  -- foreground job leaves it in the list, in state ST, prints its message, and leaves nothing in
  -- the foreground.
  pub sigchld-stopped :
      (sig : ℕ)
      → (s' : Shell) × (sigchld_handler ((j.pid, stopped sig) ∷ []) s ≡ ok s')
        × (s'.jobs ≡ set s.jobs i (record j { state = st }))
        × (s'.out ≡ s.out ++ stopped_by j.jid j.pid sig ∷ [])
        × (fgpid s'.jobs ≡ 0)
  unfolding reap_status
  sigchld-stopped sig =
      let live : j.pid ≢ 0 = omega (arith, fg-pos) in
      let here = find_index-of_get s.jobs i t.distinct g live in
      let number = pid2jid-get s.jobs j.pid here g fg-pos in
      let s1 : Shell = print (stopped_by j.jid j.pid sig) (record s { get_int_or_stp = true }) in
      (
        set_state s1 i j st,
        sigchld-one s i (stopped sig) t a g live
            ∙ rw f (
                ap
                  (λ n. ok (
                    set_state (print (stopped_by n j.pid sig) (record s { get_int_or_stp = true }))
                      i j st))
                  number),
        refl,
        refl,
        fgpid-set i (record j { state = st }) t g f refl (λ z. absurd (live z)),
      )

wait_loop-done :
    (pid : ℕ) (es : List Event) (s : Shell)
    → (pid == fgpid s.jobs) ≡ false
    → wait_loop pid es s ≡ ok (s, es)
unfolding wait_loop
wait_loop-done pid [] s h = rw h
wait_loop-done pid (e ∷ es) s h = rw (h, wait_loop)

-- `wait_loop` takes one signal, if the job leaves the foreground by it.
pub wait_loop-one :
    (pid : ℕ) (e : Event) (es : List Event) (s : Shell) {s' : Shell}
    → fgpid s.jobs ≡ pid
    → deliver e s ≡ ok s'
    → fgpid s'.jobs ≢ pid
    → wait_loop pid (e ∷ es) s ≡ ok (s', es)
unfolding wait_loop
wait_loop-one pid e es s {s'} f d n =
    let waits : (pid == fgpid s.jobs) ≡ true = (==_iff pid (fgpid s.jobs)).1 (sym f) in
    let ends : (pid == fgpid s'.jobs) ≡ false = ground arith in
    rw (waits, wait_loop, d) (wait_loop-done pid es s' ends)
