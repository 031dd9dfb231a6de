-- ===== src/Proxy/Request/Serve.antt =====
-- One line of a client in proxylab/proxy.c, where the server answers every line that it gets.
use system_programming_lab.Base.{
  ℕ, ◌+◌, ◌≡◌, ◌≢◌, refl, sym, Bool, true, false, Option, none, List, [], ◌∷◌, ◌++◌, pos, ltb,
  length, arith,
}
use system_programming_lab.Proxy.State.{
  Text, SockAddr, sent, Event, Library, Run, ran, max_line, c_string, store, >>=-ran,
  rio_readlineb_w, rio_writen_w, open_clientfd_ts, print_log, warned, Warning, no_arguments,
  request_error, emit, ◌>>◌, locked, unlocked, opened, mutex_sem, mutex_log, logged, flushed, shown,
}
use system_programming_lab.Proxy.Scan.{request, incomplete, empty}
use system_programming_lab.Proxy.Scan.{atoi}
use system_programming_lab.Proxy.Format.{deal_log_format}
use system_programming_lab.Proxy.Format.Line.{length-deal_log_format}
use system_programming_lab.Proxy.Request.{
  newline, log_answer, error_msg, incomplete_msg, open_once, receive, serve,
}
use system_programming_lab.Proxy.Request.Buffers.{Serves, length-store, c_string-store}
use system_programming_lab.Proxy.Request.Writes.{
  session, warning, write, collect-sent, collect-sent_ne, collect-warning,
}
use system_programming_lab.Proxy.Request.Events.{
  collect, collect-append, text_to, text_logged, descriptor_closed,
}

module _ (lib : Library) (client server : ℕ) (sock : SockAddr) (answers : ℕ → Text) where
  abbrev pub log_line : ℕ → Text
  log_line k = deal_log_format sock (lib.asctime k) (answers k)

  -- What a line makes the thread do.
  pub record Does (is_open : Bool) (buf : Text) (k w : ℕ) (now_open : Bool) (j : ℕ)
      (to_server to_client log : List Text) (result : Run (Unit {0})) : Type 0 where
    pub events : List Event
    pub buf' : Text
    pub writes : ℕ
    pub is_run : result ≡ ran events tt (session client server sock now_open buf' j writes j)
    pub size : length buf' ≡ length buf
    pub server_gets : collect (text_to server) events ≡ to_server
    pub client_gets : collect (text_to client) events ≡ to_client
    pub log_gets : collect text_logged events ≡ log
    pub closes : collect descriptor_closed events ≡ []

  -- The answer to a line that is no request.
  module _ (apart : client ≢ server) where
    refuse :
        (cause : Warning) (msg : Text) (o : Bool) (buf : Text) (k w : ℕ)
        → Does o buf k w o k [] (msg ∷ []) [] (
            (emit (warned cause) >> rio_writen_w lib (pos client) msg)
              (session client server sock o buf k w k))
    refuse cause msg o buf k w = record {
      events = warned cause ∷ sent (pos client) msg ∷ warning lib (pos client) msg w;
      buf' = buf;
      writes = w + 1;
      is_run = rw (write lib (pos client) msg (session client server sock o buf k w k));
      size = refl;
      server_gets = collect-sent_ne lib server client msg w apart;
      client_gets = collect-sent lib client msg w;
      log_gets = collect-warning lib text_logged refl (pos client) msg w;
      closes = collect-warning lib descriptor_closed refl (pos client) msg w;
    }

    opening : Bool → Text → Text → List Event
    opening true h p = []
    opening false h p = locked mutex_sem ∷ opened h (atoi p) ∷ unlocked mutex_sem ∷ []

    module _ (serves : Serves lib server answers) where
      open serves use {connects, answered, are_lines, dated, short}

      log_line-fits : (k : ℕ) → ltb (length (log_line k)) max_line ≡ true
      log_line-fits k =
          let small = short k in
          let bound =
            length-deal_log_format sock (lib.asctime k) (answers k) (dated k) (omega arith) in
          ground arith

      open_once-opening :
          (h p : Text) (o : Bool) (buf : Text) (k w : ℕ)
          → open_once lib h p (session client server sock o buf k w k)
            ≡ ran (opening o h p) tt (session client server sock true buf k w k)
      unfolding open_once opening open_clientfd_ts
      open_once-opening h p true buf k w = refl
      open_once-opening h p false buf k w = ground (arith, connects h p)

      receive-answers :
          (buf : Text) (k w : ℕ)
          → length buf ≡ max_line
          → receive lib (session client server sock true buf k w k)
            ≡ ran
                (locked mutex_log
                  ∷ logged (log_line k)
                  ∷ flushed
                  ∷ unlocked mutex_log
                  ∷ shown (log_line k)
                  ∷ [])
                tt
                (session client server sock true
                  (store (answers k ++ 0 ∷ []) buf)
                  (k + 1)
                  w
                  (k + 1))
      unfolding receive log_answer rio_readlineb_w print_log
      receive-answers buf k w e =
          let (fits, nonzero) = are_lines k in
          let same : c_string (store (answers k ++ 0 ∷ []) buf) ≡ answers k =
            c_string-store (answers k) buf nonzero (omega arith) in
          rw (answered k, same, log_line-fits k)

      exchange : (h p x : Text) (o : Bool) (k w : ℕ) → List Event
      exchange h p x o k w =
          opening o h p
          ++ ((sent (pos server) x ∷ warning lib (pos server) x w)
              ++ ((locked mutex_log
                    ∷ logged (log_line k)
                    ∷ flushed
                    ∷ unlocked mutex_log
                    ∷ shown (log_line k)
                    ∷ [])
                  ++ (sent (pos client) (answers k)
                      ∷ warning lib (pos client) (answers k) (w + 1))))

      collect-opening {ℓ} :
          {A : Type ℓ} (f : Event → Option A)
          → f (locked mutex_sem) ≡ none
          → ((h p : Text) → f (opened h (atoi p)) ≡ none)
          → f (unlocked mutex_sem) ≡ none
          → (o : Bool) (h p : Text) → collect f (opening o h p) ≡ []
      unfolding opening
      collect-opening f a b c true h p = refl
      collect-opening f a b c false h p = ground (arith, a, b h p, c)

      pub serve-request :
          (h p x : Text) (o : Bool) (buf : Text) (k w : ℕ)
          → length buf ≡ max_line
          → Does o buf k w true
              (k + 1)
              ((x ++ newline ∷ []) ∷ [])
              (answers k ∷ [])
              (log_line k ∷ [])
              (serve lib (request h p x) (session client server sock o buf k w k))
      unfolding serve exchange
      serve-request h p x o buf k w e =
          let l : Text = x ++ newline ∷ [] in
          let (fits, nonzero) = are_lines k in
          let same : c_string (store (answers k ++ 0 ∷ []) buf) ≡ answers k =
            c_string-store (answers k) buf nonzero (omega arith) in
          record {
            events = exchange h p l o k w;
            buf' = store (answers k ++ 0 ∷ []) buf;
            writes = w + 1 + 1;
            is_run = >>=-ran (open_once lib h p) _ (open_once-opening h p o buf k w) (
                >>=-ran (λ s1. rio_writen_w lib s1.fd_server l s1) _
                  (write lib (pos server) l (session client server sock true buf k w k))
                  (>>=-ran (receive lib) _ (receive-answers buf k (w + 1) e) (
                    rw same (
                      write lib (pos client) (answers k) (
                        session client server sock true (store (answers k ++ 0 ∷ []) buf) (k + 1)
                          (w + 1) (k + 1))))));
            size = length-store (answers k ++ 0 ∷ []) buf;
            server_gets = simp (
              collect-append,
              collect-opening (text_to server) refl (λ _ _. refl) refl o,
              collect-sent lib server l w,
              collect-sent_ne lib server client (answers k) (w + 1) apart,
            );
            client_gets = simp (
              collect-append,
              collect-opening (text_to client) refl (λ _ _. refl) refl o,
              collect-sent lib client (answers k) (w + 1),
              collect-sent_ne lib client server l w (λ q. apart (sym q)),
            );
            log_gets = simp (
              collect-append,
              collect-opening text_logged refl (λ _ _. refl) refl o,
              collect-warning lib text_logged refl,
            );
            closes = simp (
              collect-append,
              collect-opening descriptor_closed refl (λ _ _. refl) refl o,
              collect-warning lib descriptor_closed refl,
            );
          }

      pub serve-empty :
          (o : Bool) (buf : Text) (k w : ℕ)
          → Does o buf k w o k []
              (error_msg ∷ [])
              []
              (serve lib empty (session client server sock o buf k w k))
      unfolding serve
      serve-empty o buf k w = refuse request_error error_msg o buf k w

      pub serve-incomplete :
          (o : Bool) (buf : Text) (k w : ℕ)
          → Does o buf k w o k []
              (incomplete_msg ∷ [])
              []
              (serve lib incomplete (session client server sock o buf k w k))
      unfolding serve
      serve-incomplete o buf k w = refuse no_arguments incomplete_msg o buf k w
