-- ===== src/Shell/Control/Launch.antt =====
-- A command that is not built in: the job that `eval` adds, and its way out of the job list.
use system_programming_lab.Base.{
  ℕ, suc, ◌+◌, ◌<◌, ◌≡◌, ◌∙◌, refl, ap, false, none, some, List, [], ◌∷◌, set, find_index,
  find_index-some, All-get, arith, set-set, set-get,
}
use system_programming_lab.Shell.State.{Text, fg, Job, Shell, ok}
use system_programming_lab.Shell.Jobs.{cleared, has_pid, addjob, fgpid, maxjid}
use system_programming_lab.Shell.Jobs.Table.{IsClean, fg_count, IsTable, addjob-IsTable}
use system_programming_lab.Shell.Jobs.Lookup.{entry, addjob-some, addjob-stored, fgpid-get}
use system_programming_lab.Shell.Signals.{finished, Event, chld, waitfg}
use system_programming_lab.Shell.Signals.Aligned.{IsAligned, IsAligned-set}
use system_programming_lab.Shell.Signals.Foreground.{sigchld-finished, wait_loop-one}
use system_programming_lab.Shell.Control.{child, launch}

-- A foreground command that runs to its end leaves the job list as it was: `eval` adds the job,
-- waits, takes the one signal of its exit, and returns with the slot cleared again and the next job
-- number one more than the largest in use. The conditions are an aligned list with no foreground job
-- and a free slot whose number is the next one, and a new pid.
pub launch-foreground :
    (s : Shell) (cmdline : Text) (pid code : ℕ) (es : List Event) {i : ℕ}
    → IsTable s.jobs
    → IsAligned s.jobs
    → fg_count s.jobs ≡ 0
    → find_index (has_pid 0) s.jobs ≡ some i
    → s.nextjid ≡ suc i
    → 0 < pid
    → find_index (has_pid pid) s.jobs ≡ none
    → (s' : Shell) × (launch false cmdline (child pid) (chld ((pid, finished code) ∷ []) ∷ es) s
        ≡ ok (s', es))
      × (s'.jobs ≡ s.jobs)
      × (s'.nextjid ≡ maxjid s.jobs + 1)
unfolding launch waitfg
launch-foreground s cmdline pid code es {i} t a idle e next pos new =
    let (x, g, free, b) = find_index-some (has_pid 0) s.jobs e in
    let s1 : Shell = record (addjob s pid fg cmdline).0 { get_int_or_stp = false } in
    let job : Job = entry s pid fg cmdline in
    let (js, r, n) = addjob-some s pid fg cmdline e pos in
    let (r', l, here, n') = addjob-stored s pid fg cmdline e pos new in
    let t1 = addjob-IsTable s pid fg cmdline t new (omega arith) in
    let a1 : IsAligned s1.jobs = rw js (IsAligned-set s.jobs i job a (λ z. next)) in
    let now : fgpid s1.jobs ≡ pid = fgpid-get s1.jobs i t1.one_fg here refl in
    let (s2, done, js2, n2, z) = sigchld-finished s1 i t1 a1 here refl code in
    let blank : x ≡ cleared = All-get IsClean s.jobs i t.clean g (ground arith) in
    let back : set s1.jobs i cleared ≡ s.jobs =
      rw js (set-set s.jobs i job cleared ∙ set-get s.jobs i (g ∙ ap some blank)) in
    (
      s2,
      wait_loop-one pid (chld ((pid, finished code) ∷ [])) es s1 now done (omega arith),
      js2 ∙ back,
      n2 ∙ ap (λ js. maxjid js + 1) back,
    )
