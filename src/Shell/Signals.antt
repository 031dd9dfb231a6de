-- ===== src/Shell/Signals.antt =====
-- The signal handlers and `waitfg` of shelllab/tsh.c. What the kernel does is an argument: the
-- results of waitpid, whether a call of kill succeeds, and the signals that arrive during a wait.
pub mod Aligned
pub mod Foreground
pub mod Background
use system_programming_lab.Base.{ℕ, Bool, true, false, List, [], ◌∷◌, ◌==◌, if◌then◌else◌}
use system_programming_lab.Shell.State.{
  JobState, fg, st, Job, Signal, sigint, sigtstp, stopped_by, terminated_by, kill_error_int,
  kill_error_tstp, Shell, print, kill, Run, ok, blocked, exited, ◌>>=◌, job_at, set_state,
}
use system_programming_lab.Shell.Jobs.{is_fg, in_fg, deletejob, fgpid, pid2jid}

-- WIFSTOPPED with WSTOPSIG, WIFSIGNALED with WTERMSIG, and a normal exit.
pub data WaitStatus : Type 0 where
  stopped : ℕ → WaitStatus
  signaled : ℕ → WaitStatus
  finished : ℕ → WaitStatus

-- SIGINT as a number
abbrev pub sigint_number : ℕ
sigint_number = 2

-- The three branches on `status`, for the entry `j` in slot `i` that `jobs[jid-1]` names.
unfoldable pub reap_status : (foreground pid : ℕ) → WaitStatus → (i : ℕ) → Job → Shell → Shell
reap_status foreground pid (stopped sig) i j s =
    set_state (print (stopped_by (pid2jid s.jobs pid) pid sig) s) i j st
reap_status foreground pid (signaled sig) i j s =
    (deletejob (print (terminated_by (pid2jid s.jobs pid) pid sigint_number) s) foreground).0
reap_status foreground pid (finished code) i j s = (deletejob s foreground).0

-- One round of the loop, for a child that waitpid returns.
unfoldable pub reap_one : (foreground pid : ℕ) → WaitStatus → Shell → Run Shell
unfolding job_at reap_status
reap_one foreground pid status s = do
  (i, j) ← job_at s.jobs (pid2jid s.jobs pid)
  ok (
      reap_status foreground pid status i j
        (if in_fg j then record s { get_int_or_stp = true } else s))

-- The loop, over the children that waitpid returns before it returns 0 or an error.
unfoldable pub reap : ℕ → List (ℕ × WaitStatus) → Shell → Run Shell
unfolding reap_one
reap foreground [] s = ok s
reap foreground ((pid, status) ∷ ws) s = reap_one foreground pid status s >>= reap foreground ws

unfoldable pub sigchld_handler : List (ℕ × WaitStatus) → Shell → Run Shell
unfolding reap fgpid
sigchld_handler ws s = reap (fgpid s.jobs) ws (record s { get_int_or_stp = false })

-- `killed` says that the call of kill succeeds.
unfoldable pub sigint_handler : Bool → Shell → Run Shell
unfolding fgpid
sigint_handler killed s =
    let pid : ℕ = fgpid s.jobs in
    let s' : Shell = kill pid sigint s in
    if killed then ok s' else ok (print (kill_error_int pid) s')

unfoldable pub sigtstp_handler : Bool → Shell → Run Shell
unfolding fgpid job_at
sigtstp_handler killed s =
    let pid : ℕ = fgpid s.jobs in
    let s' : Shell = kill pid sigtstp s in
    let stop : Run Shell = (do
      (i, j) ← job_at s'.jobs (pid2jid s'.jobs pid)
      ok (record (set_state s' i j st) { get_int_or_stp = true })) in
    if killed then stop else ok (print kill_error_tstp s')

-- The signals that the shell catches.
pub data Event : Type 0 where
  chld : List (ℕ × WaitStatus) → Event
  intr : Bool → Event
  tstp : Bool → Event
  quit : Event

-- `sigquit_handler` ends the shell.
unfoldable pub deliver : Event → Shell → Run Shell
unfolding sigchld_handler sigint_handler sigtstp_handler
deliver (chld ws) s = sigchld_handler ws s
deliver (intr killed) s = sigint_handler killed s
deliver (tstp killed) s = sigtstp_handler killed s
deliver quit s = exited

-- `while (pid == fgpid(jobs)) sleep(0)`: each round that goes on takes the next signal. The signals
-- that are left arrive later.
unfoldable pub wait_loop : ℕ → List Event → Shell → Run (Shell × List Event)
unfolding deliver
wait_loop pid [] s = if pid == fgpid s.jobs then blocked else ok (s, [])
wait_loop pid (e ∷ es) s = elim (pid == fgpid s.jobs) [
  | true ↦ deliver e s >>= wait_loop pid es
  | false ↦ ok (s, e ∷ es)
]

unfoldable pub waitfg : ℕ → List Event → Shell → Run (Shell × List Event)
unfolding wait_loop
waitfg pid es s = wait_loop pid es (record s { get_int_or_stp = false })
