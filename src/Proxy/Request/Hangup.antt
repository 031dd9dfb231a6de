-- ===== src/Proxy/Request/Hangup.antt =====
-- A server of proxylab/proxy.c that sends nothing more.
use system_programming_lab.Base.{
  ℕ, ◌+◌, ◌≡◌, ◌≢◌, refl, ap, sym, arith, true, length, List, [], ◌∷◌, ◌++◌, pos,
}
use system_programming_lab.Proxy.State.{
  Text, SockAddr, Event, sent, end_of_file, ran, Library, M, ◌>>◌, >>=-ran, c_string, max_line,
  rio_readlineb_w, rio_writen_w,
}
use system_programming_lab.Proxy.Scan.{request, sscanf}
use system_programming_lab.Proxy.Request.{newline, receive, serve, open_once, events_of}
use system_programming_lab.Proxy.Request.Events.{collect, collect-append, text_to, text_logged}
use system_programming_lab.Proxy.Request.Writes.{
  session, write, warning, collect-sent, collect-sent_ne, collect-warning,
}

module _ (lib : Library) (client server : ℕ) (sock : SockAddr) (apart : client ≢ server)
    (h p x buf : Text) (k w t : ℕ) (ended : lib.rio_readlineb (pos server) k ≡ end_of_file) where
  receive-end :
      receive lib (session client server sock true buf k (w + 1) t)
      ≡ ran [] tt (session client server sock true buf (k + 1) (w + 1) t)
  unfolding receive rio_readlineb_w
  receive-end = ground (arith, ended)

  open_once-open :
      open_once lib h p (session client server sock true buf k w t)
      ≡ ran [] tt (session client server sock true buf k w t)
  unfolding open_once
  open_once-open = refl

  abbrev exchange : List Event
  exchange =
      (sent (pos server) (x ++ newline ∷ []) ∷ warning lib (pos server) (x ++ newline ∷ []) w)
      ++ (sent (pos client) (c_string buf) ∷ warning lib (pos client) (c_string buf) (w + 1))

  serve-ran :
      serve lib (request h p x) (session client server sock true buf k w t)
      ≡ ran exchange tt (session client server sock true buf (k + 1) (w + 1 + 1) t)
  unfolding serve
  serve-ran =
      let ask : M (Unit {0}) = λ s1. rio_writen_w lib s1.fd_server (x ++ newline ∷ []) s1 in
      let reply : M (Unit {0}) = λ s1. rio_writen_w lib s1.fd_client (c_string s1.buf) s1 in
      >>=-ran (open_once lib h p) (λ _. ask >> (receive lib >> reply))
        {s = session client server sock true buf k w t} open_once-open
        (>>=-ran ask (λ _. receive lib >> reply)
          (write lib (pos server) (x ++ newline ∷ []) (session client server sock true buf k w t))
          (>>=-ran (receive lib) (λ _. reply) receive-end
            (write lib (pos client) (c_string buf)
              (session client server sock true buf (k + 1) (w + 1) t))))

  serve-exchange :
      events_of (serve lib (request h p x) (session client server sock true buf k w t)) ≡ exchange
  serve-exchange = ap events_of serve-ran

  abbrev served : List Event
  served = events_of (serve lib (sscanf (c_string buf)) (session client server sock true buf k w t))

  served-exchange : sscanf (c_string buf) ≡ request h p x → served ≡ exchange
  served-exchange scanned = rw scanned serve-exchange

  -- Where `buf`, an array of 8192 characters, holds a line of three words or more, the connection to
  -- the server is open and the server has closed its end, the third word is still sent to it, nothing
  -- is logged, and the client gets its own line back. The two descriptors are not the same.
  pub serve-end_of_file :
      length buf ≡ max_line
      → sscanf (c_string buf) ≡ request h p x
      → (collect (text_to server) (
            events_of
              (serve lib (sscanf (c_string buf)) (session client server sock true buf k w t)))
          ≡ (x ++ newline ∷ []) ∷ [])
        × (collect (text_to client) (
              events_of
                (serve lib (sscanf (c_string buf)) (session client server sock true buf k w t)))
            ≡ c_string buf ∷ [])
        × (collect text_logged (
              events_of
                (serve lib (sscanf (c_string buf)) (session client server sock true buf k w t)))
            ≡ [])
  serve-end_of_file room scanned = (
    rw (served-exchange scanned) (
        simp (
          collect-append,
          collect-sent lib server (x ++ newline ∷ []) w,
          collect-sent_ne lib server client (c_string buf) (w + 1) apart,
        )),
    rw (served-exchange scanned) (
        simp (
          collect-append,
          collect-sent lib client (c_string buf) (w + 1),
          collect-sent_ne lib client server (x ++ newline ∷ []) w (λ q. apart (sym q)),
        )),
    rw (served-exchange scanned) (simp (collect-append, collect-warning lib text_logged refl)),
  )
