-- ===== src/Proxy/Format.antt =====
-- deal_log_format of proxylab/proxy.c: the line of the log for an answer.
pub mod Numbers
pub mod Line
use system_programming_lab.Base.{
  ℕ, zero, suc, ◌+◌, ◌-◌, ◌*◌, ◌/◌, ◌%◌, ◌^◌, List, [], ◌∷◌, ◌++◌, ◌==◌, if◌then◌else◌, length,
  replicate,
}
use system_programming_lab.Proxy.State.{Text, SockAddr}

-- The digits of a number before those that are there. A number has no more digits than its value
-- and one.
unfoldable pub digits_before : ℕ → ℕ → Text → Text
digits_before zero n cs = cs
digits_before (suc fuel) n cs =
    let longer = digits_before fuel (n / 10) ((48 + n % 10) ∷ cs) in
    if n / 10 == 0 then (48 + n % 10) ∷ cs else longer

-- "%d" of a number that is not negative.
unfoldable pub decimal : ℕ → Text
unfolding digits_before
decimal n = digits_before (suc n) n []

-- "%3d"
unfoldable pub decimal3 : ℕ → Text
unfolding decimal
decimal3 n = replicate (3 - length (decimal n)) b' ' ++ decimal n

-- On a machine whose words begin with their lowest byte.
unfoldable pub ntohl : ℕ → ℕ
ntohl x = x % 256 * 2 ^ 24 + x / 256 % 256 * 2 ^ 16 + x / 2 ^ 16 % 256 * 256 + x / 2 ^ 24 % 256

unfoldable pub ntohs : ℕ → ℕ
ntohs x = x % 256 * 256 + x / 256 % 256

-- `tt[strlen(tt)-1] = '\0'`; asctime never returns an empty text.
unfoldable pub drop_last : Text → Text
drop_last [] = []
drop_last (c ∷ []) = []
drop_last (c ∷ d ∷ cs) = c ∷ drop_last (d ∷ cs)

-- The text that sprintf writes to `log_buf`, where asctime returns `asctime`. Whether the array holds it
-- is tested where the text is taken.
unfoldable pub deal_log_format : SockAddr → Text → Text → Text
unfolding ntohl ntohs drop_last
deal_log_format sockaddr asctime buf =
    let haddrp = ntohl sockaddr.sin_addr in
    let a = haddrp / 2 ^ 24 % 256 in
    let b = haddrp / 2 ^ 16 % 256 in
    let c = haddrp / 2 ^ 8 % 256 in
    let d = haddrp % 256 in
    let client_port = ntohs sockaddr.sin_port in
    drop_last asctime
    ++ b':' ∷ b' ' ∷ decimal a
    ++ b'.' ∷ decimal b
    ++ b'.' ∷ decimal c
    ++ b'.' ∷ decimal d
    ++ b' ' ∷ decimal client_port
    ++ b' ' ∷ decimal3 (length buf)
    ++ b' ' ∷ buf
