-- ===== src/MemoryWorkers/Parent/Counts.antt =====
-- Assignment1, part 4: how often the parent printed its lines.
use unx.Prelude.{ℕ, suc, ◌+◌, List, [], ◌∷◌, ◌++◌, ◌≡◌, arith}
use unx.MemoryWorkers.Parent.{
  Line, memory_limit_exceeded, worker_1_completed, worker_2_completed, done_waiting,
}

-- How often the parent printed a line.
unfoldable pub warnings : List Line → ℕ
warnings [] = 0
warnings (memory_limit_exceeded ∷ ls) = suc (warnings ls)
warnings (_ ∷ ls) = warnings ls

unfoldable pub first_lines : List Line → ℕ
first_lines [] = 0
first_lines (worker_1_completed ∷ ls) = suc (first_lines ls)
first_lines (_ ∷ ls) = first_lines ls

unfoldable pub second_lines : List Line → ℕ
second_lines [] = 0
second_lines (worker_2_completed ∷ ls) = suc (second_lines ls)
second_lines (_ ∷ ls) = second_lines ls

unfoldable pub last_lines : List Line → ℕ
last_lines [] = 0
last_lines (done_waiting ∷ ls) = suc (last_lines ls)
last_lines (_ ∷ ls) = last_lines ls

pub warnings-append : (ks ls : List Line) → warnings (ks ++ ls) ≡ warnings ks + warnings ls
unfolding warnings
warnings-append [] ls = omega arith
warnings-append (memory_limit_exceeded ∷ ks) ls = omega (arith, warnings-append ks ls)
warnings-append (_ ∷ ks) ls = warnings-append ks ls

pub first_lines-append :
    (ks ls : List Line) → first_lines (ks ++ ls) ≡ first_lines ks + first_lines ls
unfolding first_lines
first_lines-append [] ls = omega arith
first_lines-append (worker_1_completed ∷ ks) ls = omega (arith, first_lines-append ks ls)
first_lines-append (_ ∷ ks) ls = first_lines-append ks ls

pub second_lines-append :
    (ks ls : List Line) → second_lines (ks ++ ls) ≡ second_lines ks + second_lines ls
unfolding second_lines
second_lines-append [] ls = omega arith
second_lines-append (worker_2_completed ∷ ks) ls = omega (arith, second_lines-append ks ls)
second_lines-append (_ ∷ ks) ls = second_lines-append ks ls

pub last_lines-append : (ks ls : List Line) → last_lines (ks ++ ls) ≡ last_lines ks + last_lines ls
unfolding last_lines
last_lines-append [] ls = omega arith
last_lines-append (done_waiting ∷ ks) ls = omega (arith, last_lines-append ks ls)
last_lines-append (_ ∷ ks) ls = last_lines-append ks ls
