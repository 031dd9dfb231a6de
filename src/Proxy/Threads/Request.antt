-- ===== src/Proxy/Threads/Request.antt =====
-- The thread of a client of proxylab/proxy.c gives back each semaphore before it takes another.
use system_programming_lab.Base.{
  refl, List, [], ◌∷◌, ◌++◌, false, zero, suc, ℤ, ℕ, Bool-cases, Option-cases, inl, inr, length,
  ◌+◌, ltb,
}
use system_programming_lab.Proxy.State.{
  Text, Reading, failed, end_of_file, line, detached, freed_args, warned, request_error,
  no_arguments, equals, Library, Session, Run, ran, exits, M, rio_readlineb_w, rio_writen_w,
  open_clientfd_ts, print_log, max_line, emit, skip, c_string, ◌>>◌,
}
use system_programming_lab.Proxy.Scan.{Scanned, request, incomplete, empty, sscanf, atoi}
use system_programming_lab.Proxy.Format.{deal_log_format}
use system_programming_lab.Proxy.Request.{
  newline, error_msg, incomplete_msg, open_once, log_answer, receive, serve, request_loop,
  close_both, is_minus_one, process_request, events_of, Connection, first_session,
}
use system_programming_lab.Proxy.Threads.Balanced.{IsBalanced, Tidy, >>=-Tidy}

rio_readlineb_w-Tidy : (r : Reading) (s : Session) → Tidy (rio_readlineb_w r s)
unfolding rio_readlineb_w
rio_readlineb_w-Tidy (failed cs) s = (refl, tt)
rio_readlineb_w-Tidy end_of_file s = (refl, tt)
rio_readlineb_w-Tidy (line n cs) s = (refl, tt)

print_log-Tidy : (cs : Text) (s : Session) → Tidy (print_log cs s)
unfolding print_log
print_log-Tidy cs s = (refl, (refl, (refl, (refl, (refl, tt)))))

log_answer-Tidy : (cs : Text) (s : Session) → Tidy (log_answer cs s)
unfolding log_answer
log_answer-Tidy cs s = elim (Bool-cases (ltb (length cs) max_line)) [
  | inl e ↦ rw e (print_log-Tidy cs s)
  | inr e ↦ rw e (refl, tt)
]

close_both-Tidy : (s : Session) → Tidy (close_both s)
unfolding close_both
close_both-Tidy s = elim (Bool-cases (is_minus_one s.fd_server)) [
  | inl e ↦ rw (e, close_both) (refl, tt)
  | inr e ↦ rw (e, close_both) (refl, tt)
]

module _ (lib : Library) where
  rio_writen_w-Tidy : (fd : ℤ) (cs : Text) (s : Session) → Tidy (rio_writen_w lib fd cs s)
  unfolding rio_writen_w
  rio_writen_w-Tidy fd cs s =
      elim (Bool-cases (equals (lib.rio_writen fd cs s.writes) (length cs))) [
        | inl e ↦ rw e (refl, tt)
        | inr e ↦ rw e (refl, tt)
      ]

  open_clientfd_ts-Tidy : (h : Text) (p : ℤ) (s : Session) → Tidy (open_clientfd_ts lib h p s)
  unfolding open_clientfd_ts
  open_clientfd_ts-Tidy h p s = elim (Option-cases (lib.open_clientfd h p)) [
    | inl e ↦ rw (e, open_clientfd_ts) (refl, (refl, (refl, tt)))
    | inr (fd, e) ↦ rw (e, open_clientfd_ts) (refl, (refl, (refl, (refl, tt))))
  ]

  open_once-Tidy : (h p : Text) (s : Session) → Tidy (open_once lib h p s)
  unfolding open_once
  open_once-Tidy h p s = elim (Bool-cases s.init_flag) [
    | inl e ↦
        rw (e, open_once)
          (>>=-Tidy (open_clientfd_ts lib h (atoi p))
            (λ fd s'. ran [] tt (record s' { init_flag = false; fd_server = fd })) s
            (open_clientfd_ts-Tidy h (atoi p) s) (λ _ _. (refl, tt)))
    | inr e ↦ rw (e, open_once) (refl, tt)
  ]

  receive-Tidy : (s : Session) → Tidy (receive lib s)
  unfolding receive
  receive-Tidy s =
      >>=-Tidy (rio_readlineb_w (lib.rio_readlineb s.fd_server s.reads)) _ s
        (rio_readlineb_w-Tidy (lib.rio_readlineb s.fd_server s.reads) s) logs
    where
      logs :
          (nn : ℕ) (s' : Session)
          → Tidy (elim nn as (λ _. Run (Unit {0})) [
            | zero ↦ ran [] tt (record s' { reads = s'.reads + 1 })
            | suc _ ↦
                log_answer
                  (deal_log_format s'.sock (lib.asctime s'.times) (c_string s'.buf))
                  (record s' { reads = s'.reads + 1; times = s'.times + 1 })
          ])
      logs zero s' = (refl, tt)
      logs (suc n) s' =
          log_answer-Tidy (deal_log_format s'.sock (lib.asctime s'.times) (c_string s'.buf))
            (record s' { reads = s'.reads + 1; times = s'.times + 1 })

  serve-Tidy : (sc : Scanned) (s : Session) → Tidy (serve lib sc s)
  unfolding serve
  serve-Tidy empty s =
      >>=-Tidy (emit (warned request_error)) (λ _. rio_writen_w lib s.fd_client error_msg) s
        (refl, tt) (λ _. rio_writen_w-Tidy s.fd_client error_msg)
  serve-Tidy incomplete s =
      >>=-Tidy (emit (warned no_arguments)) (λ _. rio_writen_w lib s.fd_client incomplete_msg) s
        (refl, tt) (λ _. rio_writen_w-Tidy s.fd_client incomplete_msg)
  serve-Tidy (request h p x) s = >>=-Tidy (open_once lib h p) _ s (open_once-Tidy h p s) (λ _ s1.
      >>=-Tidy (λ s2. rio_writen_w lib s2.fd_server (x ++ newline ∷ []) s2) _ s1
        (rio_writen_w-Tidy s1.fd_server (x ++ newline ∷ []) s1)
        (λ _ s2.
          >>=-Tidy (receive lib) (λ _ s3. rio_writen_w lib s3.fd_client (c_string s3.buf) s3) s2
            (receive-Tidy s2) (λ _ s3. rio_writen_w-Tidy s3.fd_client (c_string s3.buf) s3)))

  request_loop-Tidy : (rs : List Reading) (s : Session) → Tidy (request_loop lib rs s)
  unfolding request_loop
  request_loop-Tidy [] s = (refl, tt)
  request_loop-Tidy (r ∷ rs) s =
      >>=-Tidy (rio_readlineb_w r) _ s (rio_readlineb_w-Tidy r s) (turns (request_loop-Tidy rs))
    where
      turns :
          ((s' : Session) → Tidy (request_loop lib rs s'))
          → (n : ℕ) (s' : Session)
          → Tidy (
              (elim n as (λ _. M (Unit {0})) [
                | zero ↦ skip
                | suc _ ↦ (λ s. serve lib (sscanf (c_string s.buf)) s) >> request_loop lib rs
              ])
                s')
      turns ih zero s' = (refl, tt)
      turns ih (suc n) s' =
          >>=-Tidy (λ s. serve lib (sscanf (c_string s.buf)) s) _ s'
            (serve-Tidy (sscanf (c_string s'.buf)) s') (λ _ s''. ih s'')

  events_of-Tidy : (r : Run (Unit {0})) → Tidy r → IsBalanced (events_of r)
  events_of-Tidy (ran es a s) h = h
  events_of-Tidy (exits es) h = h

  pub process_request-IsBalanced : (c : Connection) → IsBalanced (process_request lib c)
  unfolding process_request
  process_request-IsBalanced c = events_of-Tidy _ (
      >>=-Tidy (emit detached) _ (first_session c) (refl, tt)
        (λ _ s.
          >>=-Tidy (emit freed_args) _ s (refl, tt)
            (λ _ s'.
              >>=-Tidy (request_loop lib c.lines) _ s' (request_loop-Tidy c.lines s')
                (λ _ s''. close_both-Tidy s''))))
