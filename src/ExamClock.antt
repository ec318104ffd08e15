-- ===== src/ExamClock.antt =====
-- Exam/exam.c: a clock on a curses screen that a blank ends. The keys that `getch` gives and the time are parameters.
use unx.Prelude.{
  ℕ, zero, suc, ◌*◌, ◌%◌, Bool, true, false, Option, none, some, List, [], ◌∷◌, ◌++◌, ◌==◌,
  if◌then◌else◌,
}
pub mod Finish
pub mod Examples

pub data Command : Type 0 where
  command_nop command_finish : Command

-- The calls that change the screen, and the pause.
pub data Screening : Type 0 where
  initscr cbreak noecho endwin clear refresh : Screening
  nodelay intrflush keypad : Bool → Screening
  curs_set nanosleep : ℕ → Screening
  mvprintw : ℕ → ℕ → ℕ → Screening

abbrev pub init : List Screening
init = initscr ∷ cbreak ∷ nodelay true ∷ noecho ∷ intrflush false ∷ keypad true ∷ curs_set 0 ∷ []

abbrev pub deinit : List Screening
deinit = endwin ∷ []

-- The time in seconds at a place of the screen.
abbrev pub print_time : ℕ → ℕ → ℕ → List Screening
print_time tv_sec x y = mvprintw y x tv_sec ∷ []

-- `(char)key`, the low byte of what `getch` gives.
unfoldable pub process_input : ℕ → Command
process_input key = if key % 256 == b' ' then command_finish else command_nop

unfoldable pub paused : Command → List Screening × Bool
paused command_finish = ([], false)
paused command_nop = (nanosleep (100 * 1000000) ∷ refresh ∷ [], true)

-- A round, for the time and the key that it gets.
unfoldable pub main_loop : ℕ → ℕ → List Screening × Bool
unfolding process_input paused
main_loop tv_sec key =
    let p = paused (process_input key) in (clear ∷ print_time tv_sec 2 1 ++ p.0, p.1)

unfoldable pub looped : Bool → List Screening → Option (List Screening) → Option (List Screening)
looped again done none = if again then none else some done
looped again done (some rest) = some (if again then done ++ rest else done)

-- `while (main_loop());` for a number of rounds; `none` where it goes on after them.
unfoldable pub rounds_of : (ℕ → ℕ) → (ℕ → ℕ) → ℕ → ℕ → Option (List Screening)
unfolding main_loop looped
rounds_of time getch zero n = none
rounds_of time getch (suc rounds) n =
    let m = main_loop (time n) (getch n) in looped m.1 m.0 (rounds_of time getch rounds (suc n))

unfoldable pub ended : Option (List Screening) → Option (List Screening)
ended none = none
ended (some screen) = some (init ++ screen ++ deinit)

unfoldable pub main : (ℕ → ℕ) → (ℕ → ℕ) → ℕ → Option (List Screening)
unfolding rounds_of ended
main time getch rounds = ended (rounds_of time getch rounds 0)
