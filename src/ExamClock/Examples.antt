-- ===== src/ExamClock/Examples.antt =====
-- Exam/exam.c: a key that ends the clock without being a blank.
use unx.Prelude.{◌≡◌, refl}
use unx.ExamClock.{process_input, command_finish}

-- The code of F24.
f24_finishes : process_input 288 ≡ command_finish
unfolding process_input
f24_finishes = refl
