-- ===== src/Proxy/Request/Overrun.antt =====
-- An answer of a server in proxylab/proxy.c whose log line `log_format` does not hold.
use system_programming_lab.Base.{ℕ, ◌≤◌, ◌≡◌, refl, false, [], ◌∷◌, ◌++◌, ltb, length, arith}
use system_programming_lab.Proxy.State.{
  Text, Library, Session, line, overrun, exits, max_line, c_string, store, rio_readlineb_w,
}
use system_programming_lab.Proxy.Format.{deal_log_format}
use system_programming_lab.Proxy.Format.Line.{length-deal_log_format}
use system_programming_lab.Proxy.Request.{receive, log_answer}
use system_programming_lab.Proxy.Request.Buffers.{IsLine, c_string-store}

log_answer-overrun :
    (text : Text) (s : Session) → max_line ≤ length text → log_answer text s ≡ exits (overrun ∷ [])
unfolding log_answer
log_answer-overrun text s long =
    let no_room : ltb (length text) max_line ≡ false = ground arith in rw no_room refl

-- Where the server sends a line of 8152 characters or more, which the array `buf` of 8192 holds, and
-- asctime returns 25 characters, the thread writes past the end of `log_format` before it logs or
-- answers anything.
pub receive-overrun :
    (lib : Library) (s : Session) (n : ℕ) (t : Text)
    → lib.rio_readlineb s.fd_server s.reads ≡ line n t
    → IsLine t
    → length s.buf ≡ max_line
    → length (lib.asctime s.times) ≡ 25
    → 8152 ≤ length t
    → receive lib s ≡ exits (overrun ∷ [])
unfolding receive rio_readlineb_w
receive-overrun lib s n t read (fits, nonzero) room dated long =
    let same : c_string (store (t ++ 0 ∷ []) s.buf) ≡ t =
      c_string-store t s.buf nonzero (omega arith) in
    let bound = length-deal_log_format s.sock (lib.asctime s.times) t dated (omega arith) in
    rw
      (
        read,
        same,
        log_answer-overrun (deal_log_format s.sock (lib.asctime s.times) t) _
            (omega (arith, bound)),
      )
      refl
