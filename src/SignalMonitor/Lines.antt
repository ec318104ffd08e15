-- ===== src/SignalMonitor/Lines.antt =====
-- Lab5b/intfMonitor.cpp: the size of a line of the log.
use unx.Prelude.{
  ℕ, zero, suc, ◌+◌, ◌/◌, ◌%◌, ◌^◌, ◌≤◌, ◌<◌, Option, none, some, [], ◌∷◌, ◌++◌, arith, length,
  length-append,
}
use unx.Prelude.Bytes.{Bytes, codes, decimal, decimal_fuel}
use unx.SignalMonitor.{Statistics, int_max, read_int, maxbuf, stat_line}

length-decimal_fuel : (f k n : ℕ) → n < 10 ^ suc k → length (decimal_fuel f n) ≤ suc k
unfolding decimal_fuel
length-decimal_fuel zero k n h = omega arith
length-decimal_fuel (suc f) zero n h = ground (arith, h)
length-decimal_fuel (suc f) (suc k) n h =
    let smaller : n / 10 < 10 ^ suc k = omega (arith, h) in
    let later = length-decimal_fuel f k (n / 10) smaller in
    ground (arith, length-append (decimal_fuel f (n / 10)) ((b'0' + n % 10) ∷ []), later)

length-decimal : (n : ℕ) → n ≤ int_max → length (decimal n) ≤ 10
unfolding decimal
length-decimal n h = length-decimal_fuel (suc n) 9 n (omega (arith, h))

read_int-≤ : (o : Option ℕ) → read_int o ≤ int_max
read_int-≤ none = omega arith
read_int-≤ (some n) = ground arith

number-short : (o : Option ℕ) → length (decimal (read_int o)) ≤ 10
number-short o = length-decimal (read_int o) (read_int-≤ o)

-- The line of an interface whose name has at most 40 characters fits into the buffer with its NUL, whatever
-- the numbers are.
pub stat_line-fits :
    (interface : Bytes) (st : Statistics)
    → length interface ≤ 40
    → length (stat_line interface st) + 1 ≤ maxbuf
unfolding stat_line
stat_line-fits interface st h =
    let a = decimal (read_int st.tx_bytes) in
    let b = decimal (read_int st.rx_bytes) in
    let c = decimal (read_int st.tx_packets) in
    let d = decimal (read_int st.rx_packets) in
    let r4 = codes " rx_packets: " ++ (d ++ codes "\n") in
    let r3 = codes " tx_packets:" ++ (c ++ r4) in
    let r2 = codes " rx_bytes:" ++ (b ++ r3) in
    let r1 = codes ": tx_bytes:" ++ (a ++ r2) in
    omega (
      arith,
      h,
      length-append interface r1,
      length-append a r2,
      length-append b r3,
      length-append c r4,
      length-append d (codes "\n"),
      number-short st.tx_bytes,
      number-short st.rx_bytes,
      number-short st.tx_packets,
      number-short st.rx_packets,
    )
