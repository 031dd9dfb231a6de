-- ===== src/Proxy/Format/Numbers.antt =====
-- The numbers in the log of proxylab/proxy.c: how long they are, and that they can be read back.
use system_programming_lab.Base.{
  ℕ, zero, suc, ◌+◌, ◌*◌, ◌/◌, ◌%◌, ◌≤◌, ◌<◌, ◌≡◌, ◌∙◌, ap, [], ◌∷◌, pos, length, arith,
}
use system_programming_lab.Proxy.State.{Text}
use system_programming_lab.Proxy.Scan.{skip_white, number_from, signed, atoi}
use system_programming_lab.Proxy.Format.{digits_before, decimal}

abbrev power : ℕ → ℕ
power zero = 1
power (suc k) = 10 * power k

length-digits_before :
    (k fuel n : ℕ) (cs : Text)
    → n < power (suc k)
    → length (digits_before fuel n cs) ≤ suc k + length cs
unfolding digits_before
length-digits_before k zero n cs h = omega arith
length-digits_before zero (suc fuel) n cs h = ground arith
length-digits_before (suc k) (suc fuel) n cs h =
    ground (arith, length-digits_before k fuel (n / 10) ((48 + n % 10) ∷ cs))

length-digits_before_pos :
    (fuel n : ℕ) (cs : Text) → suc (length cs) ≤ length (digits_before (suc fuel) n cs)
unfolding digits_before
length-digits_before_pos zero n cs = ground arith
length-digits_before_pos (suc fuel) n cs =
    ground (arith, length-digits_before_pos fuel (n / 10) ((48 + n % 10) ∷ cs))

pub length-decimal_pos : (n : ℕ) → 1 ≤ length (decimal n)
unfolding decimal
length-decimal_pos n = length-digits_before_pos n n []

pub length-decimal_octet : (n : ℕ) → n < 256 → length (decimal n) ≤ 3
unfolding decimal
length-decimal_octet n h = omega (arith, length-digits_before 2 (suc n) n [] (omega arith))

pub length-decimal_port : (n : ℕ) → n < 65536 → length (decimal n) ≤ 5
unfolding decimal
length-decimal_port n h = omega (arith, length-digits_before 4 (suc n) n [] (omega arith))

pub length-decimal_size : (n : ℕ) → n < 10000 → length (decimal n) ≤ 4
unfolding decimal
length-decimal_size n h = omega (arith, length-digits_before 3 (suc n) n [] (omega arith))

number_from-digits_before :
    (fuel n : ℕ) (cs : Text) → n < fuel → number_from 0 (digits_before fuel n cs) ≡ number_from n cs
unfolding digits_before
number_from-digits_before zero n cs h = elim h [ ]
number_from-digits_before (suc fuel) n cs h =
    ground (arith, number_from-digits_before fuel (n / 10) ((48 + n % 10) ∷ cs))

-- A text that begins with a digit.
abbrev StartsWithDigit : Text → Type 0
StartsWithDigit [] = ⊥
StartsWithDigit (c ∷ cs) = (48 ≤ c) × (c ≤ 57)

digits_before-StartsWithDigit :
    (fuel n : ℕ) (cs : Text) → StartsWithDigit (digits_before (suc fuel) n cs)
unfolding digits_before
digits_before-StartsWithDigit zero n cs = ground arith
digits_before-StartsWithDigit (suc fuel) n cs =
    let ih = digits_before-StartsWithDigit fuel (n / 10) ((48 + n % 10) ∷ cs) in ground (arith, ih)

signed-digits : (cs : Text) → StartsWithDigit cs → signed (skip_white cs) ≡ pos (number_from 0 cs)
unfolding skip_white
signed-digits [] h = absurd h
signed-digits (c ∷ cs) h = ground arith

-- atoi reads back what "%d" prints.
pub atoi-decimal : (n : ℕ) → atoi (decimal n) ≡ pos n
unfolding atoi decimal
atoi-decimal n =
    signed-digits (digits_before (suc n) n []) (digits_before-StartsWithDigit n n [])
    ∙ ap pos (number_from-digits_before (suc n) n [] (omega arith))
