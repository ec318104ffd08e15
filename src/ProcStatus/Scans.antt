-- ===== src/ProcStatus/Scans.antt =====
-- Lab1: what the scans of a status file find.
use unx.Prelude.{
  ℕ, zero, suc, ◌≤◌, ◌<◌, ◌^◌, true, false, some, List, [], ◌∷◌, ◌++◌, ◌≡◌, ltb, if◌then◌else◌,
  refl, ap, ◌∙◌, arith, All, replicate, length, ◌↔◌,
}
use unx.Prelude.Bytes.{Bytes, codes, starts_with, digits, decimal}
use unx.Prelude.Decimal.{IsDigit, decimal-digits, length-decimal, digits-append, digits-decimal}
use unx.ProcStatus.{
  drop, Number, plus, as_plus, signed_int, scan_int, scan_word, or_else, vm_rss, scan_rss,
  is_number, scan_status, rss_threshold, check_entry,
}

-- `%d` passes over white space, and stops at the first byte that is no digit.
scan_int-spaces : (k : ℕ) (s : Bytes) → scan_int (replicate k 32 ++ s) ≡ scan_int s
unfolding scan_int
scan_int-spaces zero s = refl
scan_int-spaces (suc k) s = scan_int-spaces k s

scan_int-digits :
    (ds rest : Bytes)
    → All IsDigit ds
    → 1 ≤ length ds
    → scan_int (ds ++ rest) ≡ some (as_plus (digits 0 (ds ++ rest)))
unfolding scan_int signed_int
scan_int-digits [] rest h l = absurd (omega arith)
scan_int-digits (d ∷ ds) rest h l = ground (arith, h.0)

-- The line that the kernel prints for a resident size of `n` kB.
pub rss_line : ℕ → ℕ → Bytes
rss_line k n = codes "VmRSS:\t" ++ (replicate k 32 ++ (decimal n ++ codes " kB\n"))

digits-end : (n : ℕ) → digits n (codes " kB\n") ≡ n
unfolding digits
digits-end n = refl

as_plus-fits : (n : ℕ) → n < 2 ^ 31 → as_plus n ≡ plus n
unfolding as_plus
as_plus-fits n h = ground arith

-- A number that fits an int is read back.
scan_int-rss_line : (k n : ℕ) → n < 2 ^ 31 → scan_int (drop 6 (rss_line k n)) ≡ some (plus n)
unfolding rss_line drop scan_int
scan_int-rss_line k n fits =
    scan_int-spaces k (decimal n ++ codes " kB\n")
    ∙ scan_int-digits (decimal n) (codes " kB\n") (decimal-digits n) (length-decimal n)
    ∙ ap (λ m. some (as_plus m))
        (digits-append 0 (decimal n) (codes " kB\n") (decimal-digits n)
          ∙ ap (λ m. digits m (codes " kB\n")) (digits-decimal n)
          ∙ digits-end n)
    ∙ ap some (as_plus-fits n fits)

-- The scan passes over lines that are not the one.
scan_rss-skips :
    (rss : Number) (before rest : List Bytes)
    → All (λ l. starts_with vm_rss l ≡ false) before
    → scan_rss rss (before ++ rest) ≡ scan_rss rss rest
unfolding scan_rss
scan_rss-skips rss [] rest h = refl
scan_rss-skips rss (l ∷ before) rest h = ground (arith, h.0, scan_rss-skips rss before rest h.1)

scan_rss-here :
    (rss : Number) (after : List Bytes) (k n : ℕ)
    → n < 2 ^ 31
    → scan_rss rss (rss_line k n ∷ after) ≡ plus n
unfolding scan_rss starts_with rss_line
scan_rss-here rss after k n fits = ap (λ o. or_else o rss) (scan_int-rss_line k n fits)

-- The scan of a status file finds the resident size that the first VmRSS line has, where it fits an int, whatever was
-- in the variable and whatever comes after that line.
pub scan_rss-rss_line :
    (rss : Number) (before after : List Bytes) (k n : ℕ)
    → n < 2 ^ 31
    → All (λ l. starts_with vm_rss l ≡ false) before
    → scan_rss rss (before ++ rss_line k n ∷ after) ≡ plus n
scan_rss-rss_line rss before after k n fits h =
    scan_rss-skips rss before _ h ∙ scan_rss-here rss after k n fits

-- Lab1's scan, which reads the name too, finds the same number as the workers' scan.
pub scan_status-rss :
    (name : Bytes) (rss : Number) (lines : List Bytes)
    → (scan_status name rss lines).1 ≡ scan_rss rss lines
unfolding scan_status scan_rss
scan_status-rss name rss [] = refl
scan_status-rss name rss (l ∷ lines) =
    let named =
      if starts_with (codes "Name:") l then or_else (scan_word (drop 5 l)) name else name in
    ground (arith, scan_status-rss named rss lines)

pub is_number_iff : (s : Bytes) → (is_number s ≡ true) ↔ All IsDigit s
unfolding is_number
is_number_iff [] = (λ h. tt, λ h. refl)
is_number_iff (c ∷ s) = ground (arith, is_number_iff s)

-- For a process, an entry of /proc whose name is all digits, with the kernel's line of its resident size, an int, memcheck
-- prints one line with that size where it is above 10000 kB, and nothing else.
pub check_entry-rss_line :
    (pid : Bytes) (before after : List Bytes) (k n : ℕ)
    → n < 2 ^ 31
    → All IsDigit pid
    → All (λ l. starts_with vm_rss l ≡ false) before
    → (name : Bytes) × (check_entry
          (record { d_name = pid; status = some (before ++ rss_line k n ∷ after) })
        ≡ (if ltb rss_threshold n then (pid, name, plus n) ∷ [] else []))
unfolding check_entry
check_entry-rss_line pid before after k n fits hp hb =
    let lines = before ++ rss_line k n ∷ after in
    let found : (scan_status [] (plus 0) lines).1 ≡ plus n =
      scan_status-rss [] (plus 0) lines ∙ scan_rss-rss_line (plus 0) before after k n fits hb in
    ((scan_status [] (plus 0) lines).0, rw ((is_number_iff pid).1 hp, found))
