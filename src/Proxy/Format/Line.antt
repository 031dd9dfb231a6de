-- ===== src/Proxy/Format/Line.antt =====
-- The line of the log of proxylab/proxy.c: whom it names, and when `log_format` holds it.
use system_programming_lab.Base.{
  ℕ, zero, suc, ◌+◌, ◌-◌, ◌*◌, ◌/◌, ◌%◌, ◌^◌, ◌≤◌, ◌<◌, ◌≡◌, refl, ap, [], ◌∷◌, ◌++◌, length,
  length-append, replicate, arith,
}
use system_programming_lab.Proxy.State.{Text, SockAddr}
use system_programming_lab.Proxy.Format.{
  decimal, decimal3, ntohl, ntohs, drop_last, deal_log_format,
}
use system_programming_lab.Proxy.Format.Numbers.{
  length-decimal_pos, length-decimal_octet, length-decimal_port, length-decimal_size,
}

-- The address whose bytes lie in the memory as the network sends them.
abbrev pub address : (a b c d port : ℕ) → SockAddr
address a b c d port = record {
  sin_addr = a + 256 * b + 65536 * c + 16777216 * d;
  sin_port = port / 256 + 256 * (port % 256);
}

-- The line of the log for an answer to a client with the address a.b.c.d and a port, as texts.
abbrev pub log_text : (a b c d port : ℕ) → (time buf : Text) → Text
log_text a b c d port time buf =
    time
    ++ b':' ∷ b' ' ∷ decimal a
    ++ b'.' ∷ decimal b
    ++ b'.' ∷ decimal c
    ++ b'.' ∷ decimal d
    ++ b' ' ∷ decimal port
    ++ b' ' ∷ decimal3 (length buf)
    ++ b' ' ∷ buf

-- For a client whose address is a.b.c.d on the network, and its port there, the line names these four
-- numbers in their order and the port, behind the time without its last character and before the
-- length of the answer and the answer.
pub deal_log_format-address :
    (a b c d port : ℕ) (asctime buf : Text)
    → a < 256
    → b < 256
    → c < 256
    → d < 256
    → port < 65536
    → deal_log_format (address a b c d port) asctime buf
      ≡ log_text a b c d port (drop_last asctime) buf
unfolding deal_log_format ntohl ntohs
deal_log_format-address a b c d port asctime buf ha hb hc hd hp =
    let x = a + 256 * b + 65536 * c + 16777216 * d in
    let y = port / 256 + 256 * (port % 256) in
    let e1 : ntohl x / 2 ^ 24 % 256 ≡ a = omega arith in
    let e2 : ntohl x / 2 ^ 16 % 256 ≡ b = omega arith in
    let e3 : ntohl x / 2 ^ 8 % 256 ≡ c = omega arith in
    let e4 : ntohl x % 256 ≡ d = omega arith in
    let e5 : ntohs y ≡ port = omega arith in rw (e1, e2, e3, e4, e5)

length-drop_last : (cs : Text) → length (drop_last cs) ≡ length cs - 1
unfolding drop_last
length-drop_last [] = refl
length-drop_last (c ∷ []) = refl
length-drop_last (c ∷ d ∷ cs) = omega (arith, length-drop_last (d ∷ cs))

length-replicate {ℓ} : {A : Type ℓ} (n : ℕ) (a : A) → length (replicate n a) ≡ n
length-replicate zero a = refl
length-replicate (suc n) a = ap suc (length-replicate n a)

length-decimal3_pos : (n : ℕ) → 3 ≤ length (decimal3 n)
unfolding decimal3
length-decimal3_pos n = omega (
  arith,
  length-append (replicate (3 - length (decimal n)) b' ') (decimal n),
  length-replicate {A = ℕ} (3 - length (decimal n)) b' ',
)

length-decimal3_size : (n : ℕ) → n < 10000 → length (decimal3 n) ≤ 4
unfolding decimal3
length-decimal3_size n h = omega (
  arith,
  length-append (replicate (3 - length (decimal n)) b' ') (decimal n),
  length-replicate {A = ℕ} (3 - length (decimal n)) b' ',
  length-decimal_size n h,
)

length-log_text :
    (a b c d port : ℕ) (time buf : Text)
    → length (log_text a b c d port time buf)
      ≡ length time
        + length (decimal a)
        + length (decimal b)
        + length (decimal c)
        + length (decimal d)
        + length (decimal port)
        + length (decimal3 (length buf))
        + length buf
        + 8
length-log_text a b c d port time buf = simp (length-append {0}) (omega arith)

log_text_bounds :
    (a b c d port : ℕ) (time buf : Text)
    → a < 256
    → b < 256
    → c < 256
    → d < 256
    → port < 65536
    → length time ≡ 24
    → length buf < 10000
    → (length buf + 40 ≤ length (log_text a b c d port time buf))
      × (length (log_text a b c d port time buf) ≤ length buf + 53)
log_text_bounds a b c d port time buf ha hb hc hd hp h short =
    let total = length-log_text a b c d port time buf in
    (
      omega (
        arith,
        total,
        length-decimal_pos a,
        length-decimal_pos b,
        length-decimal_pos c,
        length-decimal_pos d,
        length-decimal_pos port,
        length-decimal3_pos (length buf),
      ),
      omega (
        arith,
        total,
        length-decimal_octet a ha,
        length-decimal_octet b hb,
        length-decimal_octet c hc,
        length-decimal_octet d hd,
        length-decimal_port port hp,
        length-decimal3_size (length buf) short,
      ),
    )

ntohs-lt : (x : ℕ) → ntohs x < 65536
unfolding ntohs
ntohs-lt x = omega arith

-- Where asctime returns 25 characters and the answer has fewer than 10000, the line is at least 40 and
-- at most 53 characters longer than the answer. So the line for an answer that fills its array of
-- 8192 characters is written past the end of `log_format`, which is no larger.
pub length-deal_log_format :
    (sockaddr : SockAddr) (asctime buf : Text)
    → length asctime ≡ 25
    → length buf < 10000
    → (length buf + 40 ≤ length (deal_log_format sockaddr asctime buf))
      × (length (deal_log_format sockaddr asctime buf) ≤ length buf + 53)
unfolding deal_log_format
length-deal_log_format sockaddr asctime buf h short =
    let haddrp = ntohl sockaddr.sin_addr in
    log_text_bounds (haddrp / 2 ^ 24 % 256) (haddrp / 2 ^ 16 % 256) (haddrp / 2 ^ 8 % 256)
      (haddrp % 256) (ntohs sockaddr.sin_port) (drop_last asctime) buf (omega arith) (omega arith)
      (omega arith) (omega arith) (ntohs-lt sockaddr.sin_port)
      (omega (arith, length-drop_last asctime)) short
