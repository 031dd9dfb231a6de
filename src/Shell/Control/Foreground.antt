-- ===== src/Shell/Control/Foreground.antt =====
-- The foreground job through the loop of `main` of shelllab/tsh.c: the shell waits for it before it
-- reads another line.
use system_programming_lab.Base.{
  ℕ, zero, suc, ◌≡◌, refl, sym, inl, inr, ◌⊎◌, Bool, true, false, none, some, List, [], ◌∷◌, ltb,
  ◌==◌, All, All-set, Option-cases, Bool-cases, arith, get_elem?, find_index,
}
use mathlib.Core.Path.{subst}
use system_programming_lab.Shell.State.{
  st, Job, Shell, Run, ok, fault, blocked, exited, ◌>>=◌, job_at,
}
use system_programming_lab.Shell.Jobs.{in_fg, cleared, clearjob, deletejob, fgpid, has_pid, pid2jid}
use system_programming_lab.Shell.Signals.{
  WaitStatus, stopped, signaled, finished, reap_status, reap_one, reap, sigchld_handler,
  sigint_handler, sigtstp_handler, Event, chld, intr, tstp, quit, deliver, wait_loop,
}
use system_programming_lab.Shell.Control.{deliver_all}

-- No job is in the foreground.
abbrev pub NoFg : List Job → Type 0
NoFg jobs = All (λ j. in_fg j ≡ false) jobs

-- Every job in the foreground has the pid.
abbrev pub OnlyFg : ℕ → List Job → Type 0
OnlyFg pid jobs = All (λ j. in_fg j ≡ true → j.pid ≡ pid) jobs

fgpid-cases : (pid : ℕ) (jobs : List Job) → OnlyFg pid jobs → NoFg jobs ⊎ (fgpid jobs ≡ pid)
unfolding fgpid
fgpid-cases pid [] h = inl tt
fgpid-cases pid (j ∷ js) h = elim (Bool-cases (in_fg j)) [
  | inl e ↦ inr (rw e (h.0 e))
  | inr e ↦ elim (fgpid-cases pid js h.1) [ inl n ↦ inl (e, n) | inr q ↦ inr (rw e q) ]
]

-- What a run that returns has reached satisfies the predicate.
abbrev pub Reaches : {A : Type 0} → (A → Type 0) → Run A → Type 0
Reaches Q (ok a) = Q a
Reaches Q fault = Unit
Reaches Q blocked = Unit
Reaches Q exited = Unit

pub >>=-Reaches :
    {A B : Type 0} (Q : A → Type 0) (R : B → Type 0) (m : Run A) (f : A → Run B)
    → Reaches Q m
    → ((a : A) → Q a → Reaches R (f a))
    → Reaches R (m >>= f)
>>=-Reaches Q R (ok a) f h step = step a h
>>=-Reaches Q R fault f h step = tt
>>=-Reaches Q R blocked f h step = tt
>>=-Reaches Q R exited f h step = tt

-- The entry that `job_at` finds is the one behind its index.
abbrev IsEntry : List Job → ℕ → ℕ × Job → Type 0
IsEntry jobs jid (i, j) = job_at jobs jid ≡ ok (i, j)

Reaches-fault : {A : Type 0} (Q : A → Type 0) {m : Run A} → m ≡ fault → Reaches Q m
Reaches-fault Q e = subst (Reaches Q) (sym e) tt

pub Reaches-ok : {A : Type 0} (Q : A → Type 0) {m : Run A} {a : A} → m ≡ ok a → Q a → Reaches Q m
Reaches-ok Q e q = subst (Reaches Q) (sym e) q

pub Reaches-eq : {A : Type 0} (Q : A → Type 0) {m n : Run A} → m ≡ n → Reaches Q n → Reaches Q m
Reaches-eq Q e r = subst (Reaches Q) (sym e) r

job_at-missing : (jobs : List Job) (i : ℕ) → get_elem? jobs i ≡ none → job_at jobs (suc i) ≡ fault
unfolding job_at
job_at-missing jobs i e = rw (e, job_at) refl

job_at-found :
    (jobs : List Job) (i : ℕ) (j : Job)
    → get_elem? jobs i ≡ some j
    → job_at jobs (suc i) ≡ ok (i, j)
unfolding job_at
job_at-found jobs i j e = rw (e, job_at) refl

pub job_at-Reaches : (jobs : List Job) (jid : ℕ) → Reaches (IsEntry jobs jid) (job_at jobs jid)
unfolding job_at
job_at-Reaches jobs zero = tt
job_at-Reaches jobs (suc i) = elim (Option-cases (get_elem? jobs i)) [
  | inl e ↦ Reaches-fault (IsEntry jobs (suc i)) (job_at-missing jobs i e)
  | inr (j, e) ↦
      Reaches-ok (IsEntry jobs (suc i)) (job_at-found jobs i j e) (job_at-found jobs i j e)
]

-- A property of a job that a cleared slot and a stopped job have: the handlers keep it.
module _ (P : Job → Type 0) (at_clear : P cleared)
    (at_stop : (j : Job) → P (record j { state = st })) where
  abbrev AllJobs : Shell → Type 0
  AllJobs s = All P s.jobs

  deletejob-All : (s : Shell) (pid : ℕ) → AllJobs s → AllJobs (deletejob s pid).0
  unfolding deletejob clearjob
  deletejob-All s pid h = elim (Bool-cases (ltb pid 1)) [
    | inl small ↦ rw small h
    | inr big ↦ rw big (elim (Option-cases (find_index (has_pid pid) s.jobs)) [
      | inl missing ↦ rw missing h
      | inr (i, e) ↦ rw e (All-set P s.jobs i cleared h at_clear)
    ])
  ]

  reap_status-All :
      (foreground pid : ℕ) (w : WaitStatus) (i : ℕ) (j : Job) (s : Shell)
      → AllJobs s
      → AllJobs (reap_status foreground pid w i j s)
  unfolding reap_status
  reap_status-All foreground pid (stopped sig) i j s h =
      All-set P s.jobs i (record j { state = st }) h (at_stop j)
  reap_status-All foreground pid (signaled sig) i j s h = deletejob-All _ foreground h
  reap_status-All foreground pid (finished code) i j s h = deletejob-All s foreground h

  reap_one-All :
      (foreground pid : ℕ) (w : WaitStatus) (s : Shell)
      → AllJobs s
      → Reaches AllJobs (reap_one foreground pid w s)
  unfolding reap_one
  reap_one-All foreground pid w s h =
      >>=-Reaches _ AllJobs (job_at s.jobs (pid2jid s.jobs pid)) _
        (job_at-Reaches s.jobs (pid2jid s.jobs pid))
        λ (i, j) e. elim (Bool-cases (in_fg j)) [
          | inl f ↦
              rw f (reap_status-All foreground pid w i j (record s { get_int_or_stp = true }) h)
          | inr f ↦ rw f (reap_status-All foreground pid w i j s h)
        ]

  reap-All :
      (foreground : ℕ) (ws : List (ℕ × WaitStatus)) (s : Shell)
      → AllJobs s
      → Reaches AllJobs (reap foreground ws s)
  unfolding reap
  reap-All foreground [] s h = h
  reap-All foreground ((pid, w) ∷ ws) s h =
      >>=-Reaches AllJobs AllJobs (reap_one foreground pid w s) _
        (reap_one-All foreground pid w s h) λ s' h'. reap-All foreground ws s' h'

  sigint_handler-All :
      (killed : Bool) (s : Shell) → AllJobs s → Reaches AllJobs (sigint_handler killed s)
  unfolding sigint_handler
  sigint_handler-All true s h = h
  sigint_handler-All false s h = h

  sigtstp_handler-All :
      (killed : Bool) (s : Shell) → AllJobs s → Reaches AllJobs (sigtstp_handler killed s)
  unfolding sigtstp_handler
  sigtstp_handler-All false s h = h
  sigtstp_handler-All true s h =
      let jid : ℕ = pid2jid s.jobs (fgpid s.jobs) in
      >>=-Reaches _ AllJobs (job_at s.jobs jid) _ (job_at-Reaches s.jobs jid)
        λ (i, j) e. All-set P s.jobs i (record j { state = st }) h (at_stop j)

  deliver-All : (e : Event) (s : Shell) → AllJobs s → Reaches AllJobs (deliver e s)
  unfolding deliver sigchld_handler
  deliver-All (chld ws) s h = reap-All (fgpid s.jobs) ws (record s { get_int_or_stp = false }) h
  deliver-All (intr killed) s h = sigint_handler-All killed s h
  deliver-All (tstp killed) s h = sigtstp_handler-All killed s h
  deliver-All quit s h = tt

  pub deliver_all-All :
      (es : List Event) (s : Shell) → AllJobs s → Reaches AllJobs (deliver_all es s)
  unfolding deliver_all
  deliver_all-All [] s h = h
  deliver_all-All (e ∷ es) s h =
      >>=-Reaches AllJobs AllJobs (deliver e s) _ (deliver-All e s h)
        λ s' h'. deliver_all-All es s' h'

-- The table behind a command: no job is in the foreground.
abbrev pub Settled : Shell × List Event → Type 0
Settled (s, es) = NoFg s.jobs

-- A round of the wait that leaves the loop.
left_wait : (pid : ℕ) (jobs : List Job) → OnlyFg pid jobs → (pid == fgpid jobs) ≡ false → NoFg jobs
left_wait pid jobs h e = elim (fgpid-cases pid jobs h) [ inl n ↦ n | inr q ↦ ground arith ]

wait_loop-more :
    (pid : ℕ) (e : Event) (es : List Event) (s : Shell)
    → (pid == fgpid s.jobs) ≡ true
    → wait_loop pid (e ∷ es) s ≡ (deliver e s >>= wait_loop pid es)
unfolding wait_loop
wait_loop-more pid e es s q = rw (q, wait_loop) refl

wait_loop-left :
    (pid : ℕ) (e : Event) (es : List Event) (s : Shell)
    → (pid == fgpid s.jobs) ≡ false
    → wait_loop pid (e ∷ es) s ≡ ok (s, e ∷ es)
unfolding wait_loop
wait_loop-left pid e es s q = rw (q, wait_loop) refl

pub wait_loop-Settled :
    (pid : ℕ) (es : List Event) (s : Shell)
    → OnlyFg pid s.jobs
    → Reaches Settled (wait_loop pid es s)
unfolding wait_loop
wait_loop-Settled pid [] s h = elim (Bool-cases (pid == fgpid s.jobs)) [
  | inl e ↦ rw e tt
  | inr e ↦ rw e (left_wait pid s.jobs h e)
]
wait_loop-Settled pid (e ∷ es) s h = elim (Bool-cases (pid == fgpid s.jobs)) [
  | inl q ↦ Reaches-eq Settled (wait_loop-more pid e es s q) (
      >>=-Reaches (λ s'. OnlyFg pid s'.jobs) Settled (deliver e s) _
        (deliver-All (λ j. in_fg j ≡ true → j.pid ≡ pid) (λ f. cc) (λ j f. cc) e s h)
        λ s' h'. wait_loop-Settled pid es s' h')
  | inr q ↦ Reaches-ok Settled (wait_loop-left pid e es s q) (left_wait pid s.jobs h q)
]
