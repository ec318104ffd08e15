-- ===== src/ProcStatus/Examples.antt =====
-- Lab1: the theorems at a status file.
use unx.Prelude.{false, some, [], ◌∷◌, ◌≡◌, refl, All, arith}
use unx.Prelude.Bytes.{Bytes, codes, starts_with}
use unx.ProcStatus.{plus, minus, scan_int, scan_rss, vm_rss}
use unx.ProcStatus.Scans.{rss_line, scan_rss-rss_line}

abbrev name_line : Bytes
name_line = codes "Name:\tsshd\n"

name_passes : All (λ l. starts_with vm_rss l ≡ false) (name_line ∷ [])
unfolding starts_with
name_passes = (refl, tt)

scan_rss-rss_line_example : scan_rss (plus 7) (name_line ∷ rss_line 4 12345 ∷ []) ≡ plus 12345
scan_rss-rss_line_example =
    scan_rss-rss_line (plus 7) (name_line ∷ []) [] 4 12345 (omega arith) name_passes

-- 2 to the 32 less 1 is -1 in an int.
scan_beyond : scan_int (codes "4294967295") ≡ some (minus 1)
unfolding scan_int unx.Prelude.Bytes.digits
scan_beyond = refl
