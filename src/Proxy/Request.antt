-- ===== src/Proxy/Request.antt =====
-- process_request of proxylab/proxy.c, the thread of one client.
pub mod Buffers
pub mod Events
pub mod Writes
pub mod Serve
pub mod Hangup
pub mod Overrun
pub mod Loop
pub mod Traffic
use system_programming_lab.Base.{
  ℕ, zero, suc, ◌+◌, Bool, true, false, List, [], ◌∷◌, ◌++◌, ℤ, pos, negsuc, codes, ltb,
  if◌then◌else◌, length,
}
use system_programming_lab.Proxy.State.{
  Text, SockAddr, Reading, Event, detached, freed_args, overrun, max_line, closed, warned,
  no_arguments, request_error, Library, Session, Run, ran, exits, M, ◌>>=◌, ◌>>◌, skip, emit,
  c_string, rio_readlineb_w, rio_writen_w, open_clientfd_ts, print_log,
}
use system_programming_lab.Proxy.Scan.{request, incomplete, empty, Scanned, sscanf, atoi}
use system_programming_lab.Proxy.Format.{deal_log_format}

abbrev pub newline : ℕ
newline = 10

abbrev pub escape : ℕ
escape = 27

abbrev pub incomplete_msg : Text
incomplete_msg =
    escape ∷ codes "[0;33m[WARNING]Please input the argument of hostname, port, content!"
    ++ escape ∷ codes "[0m"
    ++ newline ∷ []

abbrev pub error_msg : Text
error_msg =
    escape ∷ codes "[1;31m[ERROR]There need a argument or occured a request error"
    ++ escape ∷ codes "[0m"
    ++ newline ∷ []

-- `struct thread_args`, what the client sends in the order of the calls that read it, and what the
-- array `buf` holds before anything is written to it.
pub record Connection : Type 0 where
  pub fd : ℕ
  pub addr : SockAddr
  pub lines : List Reading
  pub garbage : Text

abbrev pub is_minus_one : ℤ → Bool
is_minus_one (pos n) = false
is_minus_one (negsuc zero) = true
is_minus_one (negsuc (suc n)) = false

unfoldable pub close_both : M (Unit {0})
close_both s = elim (is_minus_one s.fd_server) [
  | true ↦ skip s
  | false ↦ (emit (closed s.fd_client) >> emit (closed s.fd_server)) s
]

abbrev pub first_session : Connection → Session
first_session c = record {
  fd_client = pos c.fd;
  sock = c.addr;
  buf = c.garbage;
  init_flag = true;
  fd_server = negsuc 0;
  reads = 0;
  writes = 0;
  times = 0;
}

abbrev pub events_of : Run (Unit {0}) → List Event
events_of (ran es _ _) = es
events_of (exits es) = es

-- The log line in `log_format`, with a NUL behind it, and its printing.
unfoldable pub log_answer : Text → M (Unit {0})
unfolding print_log
log_answer log_format =
    if ltb (length log_format) max_line then print_log log_format else λ s. exits (overrun ∷ [])

module _ (lib : Library) where
  -- "Create file descriptor and initialize Once!"
  unfoldable pub open_once : Text → Text → M (Unit {0})
  unfolding open_clientfd_ts atoi
  open_once hostname port s = elim s.init_flag [
    | true ↦
        (open_clientfd_ts lib hostname (atoi port) >>= λ fd s'.
        ran [] tt (record s' { init_flag = false; fd_server = fd }))
          s
    | false ↦ skip s
  ]

  -- The line from the server, and the log line for it.
  unfoldable pub receive : M (Unit {0})
  unfolding rio_readlineb_w log_answer deal_log_format
  receive s =
      (rio_readlineb_w (lib.rio_readlineb s.fd_server s.reads) >>= λ nn s'. elim nn [
        | zero ↦ ran [] tt (record s' { reads = s'.reads + 1 })
        | suc _ ↦
            log_answer (deal_log_format s'.sock (lib.asctime s'.times) (c_string s'.buf))
              (record s' { reads = s'.reads + 1; times = s'.times + 1 })
      ])
        s

  -- The body of the loop behind a line that is read. The array `line` holds the content and a newline,
  -- since the content is a word behind two others in `buf`.
  unfoldable pub serve : Scanned → M (Unit {0})
  unfolding open_once receive rio_writen_w
  serve empty s = (emit (warned request_error) >> rio_writen_w lib s.fd_client error_msg) s
  serve incomplete s = (emit (warned no_arguments) >> rio_writen_w lib s.fd_client incomplete_msg) s
  serve (request hostname port content) s =
      (do
        open_once hostname port
        λ s1. rio_writen_w lib s1.fd_server (content ++ newline ∷ []) s1
        receive
        λ s1. rio_writen_w lib s1.fd_client (c_string s1.buf) s1)
        s

  -- A client that sends nothing more has closed its end.
  unfoldable pub request_loop : List Reading → M (Unit {0})
  unfolding serve sscanf rio_readlineb_w
  request_loop [] = skip
  request_loop (r ∷ rs) = do
    n ← rio_readlineb_w r
    elim n [ zero ↦ skip | suc _ ↦ (λ s. serve (sscanf (c_string s.buf)) s) >> request_loop rs ]

  -- All that the thread does.
  unfoldable pub process_request : Connection → List Event
  unfolding request_loop close_both
  process_request c =
      events_of
        ((do emit detached; emit freed_args; request_loop c.lines; close_both) (first_session c))
