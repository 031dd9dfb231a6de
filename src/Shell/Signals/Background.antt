-- ===== src/Shell/Signals/Background.antt =====
-- The signals of a job that is not in the foreground.
use system_programming_lab.Base.{
  ℕ, zero, suc, ◌≡◌, ◌≢◌, ◌∙◌, sym, refl, ap, inl, inr, false, some, List, [], ◌∷◌, ltb, Bool-cases,
  Option-cases, get_elem?, find_index, get_elem?-set_ne, All-get, arith,
}
use system_programming_lab.Shell.State.{Job, Shell, ok}
use system_programming_lab.Shell.Jobs.{cleared, has_pid, in_fg, deletejob, fgpid, clearjob}
use system_programming_lab.Shell.Jobs.Table.{IsAbsent, IsDistinct, IsTable}
use system_programming_lab.Shell.Signals.{finished, reap_status, sigchld_handler}
use system_programming_lab.Shell.Signals.Aligned.{IsAligned, pid-of_find, sigchld-one}

fgpid-ne_of_absent : (p : ℕ) (jobs : List Job) → IsAbsent p jobs → p ≢ 0 → fgpid jobs ≢ p
unfolding fgpid
fgpid-ne_of_absent p [] a n = λ e. n (sym e)
fgpid-ne_of_absent p (x ∷ xs) a n = let ih = fgpid-ne_of_absent p xs a.1 n in ground arith

-- `fgpid` is not the pid of a job that is elsewhere.
fgpid-ne :
    (jobs : List Job) (i : ℕ) {j : Job}
    → IsDistinct jobs
    → get_elem? jobs i ≡ some j
    → j.pid ≢ 0
    → in_fg j ≡ false
    → fgpid jobs ≢ j.pid
unfolding fgpid
fgpid-ne [] i d g n f = cc
fgpid-ne (x ∷ xs) zero {j} d g n f =
    let q : x ≡ j = cc in
    let other = fgpid-ne_of_absent x.pid xs (d.0 (rw q n)) (rw q n) in
    let same : x.pid ≡ j.pid = ap (λ (y : Job). y.pid) q in
    rw (ap in_fg q ∙ f) (λ e. other (e ∙ sym same))
fgpid-ne (x ∷ xs) (suc i) {j} d g n f = elim (Bool-cases (in_fg x)) [
  | inl h ↦
      rw h (λ e. All-get (λ (k : Job). k.pid ≢ x.pid) xs i (d.0 (λ z. n (sym e ∙ z))) g (sym e))
  | inr h ↦ rw h (fgpid-ne xs i d.1 g n f)
]

-- `deletejob` leaves every entry with another pid.
deletejob-other :
    (s : Shell) (p : ℕ) (i : ℕ) {j : Job}
    → get_elem? s.jobs i ≡ some j
    → p ≢ j.pid
    → get_elem? (deletejob s p).0.jobs i ≡ some j
unfolding deletejob clearjob
deletejob-other s p i {j} g n = elim (Bool-cases (ltb p 1)) [
  | inl small ↦ rw small g
  | inr big ↦ rw big (elim (Option-cases (find_index (has_pid p) s.jobs)) [
    | inl missing ↦ rw missing g
    | inr (k, e) ↦
        let apart : k ≢ i = λ z.
          let e' : find_index (has_pid p) s.jobs ≡ some i = e ∙ ap some z in
          n (sym (pid-of_find s.jobs p e' g)) in
        rw e (get_elem?-set_ne s.jobs cleared apart ∙ g)
  ])
]

deletejob-jobs :
    (s : Shell) (p : ℕ)
    → (deletejob (record s { get_int_or_stp = false }) p).0.jobs ≡ (deletejob s p).0.jobs
unfolding deletejob
deletejob-jobs s p = ground arith

-- In a list that keeps its invariant and in which job n is in slot n - 1, when a job that is not
-- in the foreground exits, the handler keeps its entry in the list, and deletes the foreground
-- job's instead if there is one.
pub sigchld-background :
    (s : Shell) (i code : ℕ) {j : Job}
    → IsTable s.jobs
    → IsAligned s.jobs
    → get_elem? s.jobs i ≡ some j
    → j.pid ≢ 0
    → in_fg j ≡ false
    → (s' : Shell) × (sigchld_handler ((j.pid, finished code) ∷ []) s ≡ ok s')
      × (get_elem? s'.jobs i ≡ some j)
      × (s'.jobs ≡ (deletejob s (fgpid s.jobs)).0.jobs)
unfolding reap_status
sigchld-background s i code {j} t a g n f =
    let s1 : Shell = record s { get_int_or_stp = false } in
    (
      (deletejob s1 (fgpid s.jobs)).0,
      sigchld-one s i (finished code) t a g n ∙ rw f refl,
      deletejob-other s1 (fgpid s.jobs) i g (fgpid-ne s.jobs i t.distinct g n f),
      deletejob-jobs s (fgpid s.jobs),
    )
