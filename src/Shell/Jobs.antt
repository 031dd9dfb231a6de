-- ===== src/Shell/Jobs.antt =====
-- The job list routines of shelllab/tsh.c. A `struct job_t *` that they return is a slot's index.
pub mod Table
pub mod Lookup
pub mod Ids
use system_programming_lab.Base.{
  ℕ, zero, suc, ◌+◌, Bool, true, false, Option, none, some, List, [], ◌∷◌, ◌++◌, ltb, ◌==◌,
  if◌then◌else◌, get_elem?, set, find_index, map,
}
use system_programming_lab.Shell.State.{
  Text, max_jobs, JobState, undef, fg, Job, Message, added, too_many, job_entry, bad_entry, Shell,
  print,
}

-- `clearjob`: the values that it writes.
abbrev pub cleared : Job
cleared = record { pid = 0; jid = 0; state = undef; cmdline = [] }

unfoldable pub clearjob : List Job → ℕ → List Job
clearjob jobs i = set jobs i cleared

unfoldable pub initjobs : List Job → List Job
initjobs jobs = map (λ _. cleared) jobs

-- the loop of `maxjid`
unfoldable pub maxjid_from : List Job → ℕ → ℕ
maxjid_from [] max = max
maxjid_from (j ∷ js) max = maxjid_from js (if ltb max j.jid then j.jid else max)

unfoldable pub maxjid : List Job → ℕ
unfolding maxjid_from
maxjid jobs = maxjid_from jobs 0

abbrev pub is_fg : JobState → Bool
is_fg fg = true
is_fg _ = false

abbrev pub has_pid : ℕ → Job → Bool
has_pid pid j = j.pid == pid

abbrev pub has_jid : ℕ → Job → Bool
has_jid jid j = j.jid == jid

abbrev pub in_fg : Job → Bool
in_fg j = is_fg j.state

-- The counter after `nextjid++` and its reset past MAXJOBS.
abbrev pub next_after : ℕ → ℕ
next_after n = if ltb max_jobs (n + 1) then 1 else n + 1

-- The entry is written field by field; all four fields are given.
unfoldable pub addjob_at : Shell → ℕ → ℕ → JobState → Text → Shell
addjob_at s i pid state cmdline =
    let job : Job = record { pid = pid; jid = s.nextjid; state = state; cmdline = cmdline } in
    let s' : Shell = record s { jobs = set s.jobs i job; nextjid = next_after s.nextjid } in
    if s.verbose then print (added s.nextjid pid cmdline) s' else s'

unfoldable pub addjob : Shell → ℕ → JobState → Text → Shell × Bool
unfolding addjob_at
addjob s pid state cmdline =
    if ltb pid 1 then (s, false) else elim (find_index (has_pid 0) s.jobs) [
      | none ↦ (print too_many s, false)
      | some i ↦ (addjob_at s i pid state cmdline, true)
    ]

unfoldable pub deletejob : Shell → ℕ → Shell × Bool
unfolding clearjob maxjid
deletejob s pid = if ltb pid 1 then (s, false) else elim (find_index (has_pid pid) s.jobs) [
  | none ↦ (s, false)
  | some i ↦
      let jobs' : List Job = clearjob s.jobs i in
      (record s { jobs = jobs'; nextjid = maxjid jobs' + 1 }, true)
]

unfoldable pub fgpid : List Job → ℕ
fgpid [] = 0
fgpid (j ∷ js) = if in_fg j then j.pid else fgpid js

unfoldable pub getjobpid : List Job → ℕ → Option ℕ
getjobpid jobs pid = if ltb pid 1 then none else find_index (has_pid pid) jobs

unfoldable pub getjobjid : List Job → ℕ → Option ℕ
getjobjid jobs jid = if ltb jid 1 then none else find_index (has_jid jid) jobs

-- the loop of `pid2jid`
unfoldable pub jid_of : List Job → ℕ → ℕ
jid_of [] pid = 0
jid_of (j ∷ js) pid = if j.pid == pid then j.jid else jid_of js pid

unfoldable pub pid2jid : List Job → ℕ → ℕ
unfolding jid_of
pid2jid jobs pid = if ltb pid 1 then 0 else jid_of jobs pid

-- What `listjobs` prints of the used slot `i`.
abbrev pub listed : ℕ → Job → Message
listed i j = elim j.state [
  | undef ↦ bad_entry i j.jid j.pid j.state j.cmdline
  | _ ↦ job_entry j.jid j.pid j.state j.cmdline
]

-- The loop of `listjobs` over the slots from `i` on.
unfoldable pub listing : ℕ → List Job → List Message
listing i [] = []
listing i (j ∷ js) =
    let rest : List Message = listing (i + 1) js in if j.pid == 0 then rest else listed i j ∷ rest

unfoldable pub listjobs : Shell → Shell
listjobs s = record s { out = s.out ++ listing 0 s.jobs }
