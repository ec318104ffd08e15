-- ===== src/ExamSemaphore.antt =====
-- Exam/FinalExam1.c: five processes that take turns in a critical section by one System V semaphore.
use unx.Prelude.{
  ℕ, zero, suc, ◌+◌, Bool, true, false, Option, none, some, List, [], ◌∷◌, ◌++◌, ◌==◌, ltb,
  if◌then◌else◌,
}
use unx.Prelude.Slots.{get_elem?, set, total}
pub mod Exclusion
pub mod Good
pub mod Progress
pub mod Entries
pub mod Examples

abbrev pub num_processes : ℕ
num_processes = 5

-- Whether a system call succeeds.
pub data Outcome : Type 0 where
  proceeds fails : Outcome

-- A child before it prints, at the semaphore, in its critical section, and at its end.
pub data ChildPc : Type 0 where
  attempts waits critical : ChildPc
  exited : ℕ → ChildPc

-- `main`: with so many children to fork, and so many waited for.
pub data MainPc : Type 0 where
  creates sets removes : MainPc
  forks reaps ended : ℕ → MainPc

pub record World : Type 0 where
  pub exists : Bool
  pub value : ℕ
  pub children : List ChildPc
  pub main_pc : MainPc

pub data Line : Type 0 where
  attempting entered : ℕ → Line

-- `sem_op`: -1 or 1.
pub data SemOp : Type 0 where
  take give : SemOp

pub data Performed : Type 0 where
  blocked failed : Performed
  done : ℕ → Performed

-- `semop` fails where the semaphore is gone, and to take from 0 has to wait.
unfoldable pub perform_semaphore_operation : SemOp → Outcome → Bool → ℕ → Performed
perform_semaphore_operation op fails exists value = failed
perform_semaphore_operation op proceeds false value = failed
perform_semaphore_operation take proceeds true zero = blocked
perform_semaphore_operation take proceeds true (suc n) = done n
perform_semaphore_operation give proceeds true value = done (suc value)

-- What the operation leaves of a process that is at one place and goes on to another.
unfoldable pub goes :
    ChildPc → ChildPc → List Line → World → Performed → ChildPc × World × List Line
goes here next ls w blocked = (here, w, [])
goes here next ls w failed = (exited 1, w, [])
goes here next ls w (done n) = (next, record w { value = n }, ls)

-- The body of the child with number `i`.
unfoldable pub child : ℕ → ChildPc → Outcome → World → ChildPc × World × List Line
unfolding perform_semaphore_operation goes
child i attempts e w = (waits, w, attempting i ∷ [])
child i waits e w =
    goes waits critical (entered i ∷ []) w (perform_semaphore_operation take e w.exists w.value)
child i critical e w =
    goes critical (exited 0) [] w (perform_semaphore_operation give e w.exists w.value)
child i (exited status) e w = (exited status, w, [])

abbrev pub has_ended : ChildPc → ℕ
has_ended (exited status) = 1
has_ended _ = 0

-- A round of the loop over `wait`, at its end and where `wait` returns.
unfoldable pub reap : Bool → Bool → ℕ → World → World
reap true returns n w = record w { main_pc = removes }
reap false true n w = record w { main_pc = reaps (suc n) }
reap false false n w = w

-- `main`. The result of `wait` is not looked at; it waits where no child is left that ended.
unfoldable pub main : MainPc → Outcome → World → World
unfolding total reap
main creates proceeds w = record w { exists = true; main_pc = sets }
main creates fails w = record w { main_pc = ended 1 }
main sets proceeds w = record w { value = 1; main_pc = forks num_processes }
main sets fails w = record w { main_pc = ended 1 }
main (forks zero) e w = record w { main_pc = reaps 0 }
main (forks (suc k)) proceeds w = record w {
  children = w.children ++ attempts ∷ [];
  main_pc = forks k;
}
main (forks (suc k)) fails w = record w { main_pc = ended 1 }
main (reaps n) proceeds w = reap (n == num_processes) (ltb n (total has_ended w.children)) n w
main (reaps n) fails w = reap (n == num_processes) true n w
main removes proceeds w = record w { exists = false; main_pc = ended 0 }
main removes fails w = record w { main_pc = ended 1 }
main (ended status) e w = w

pub data Move : Type 0 where
  by_main : Outcome → Move
  by_child : ℕ → Outcome → Move

-- The child with a number, where there is one.
unfoldable pub child_move : ℕ → Option ChildPc → Outcome → World → World × List Line
unfolding child set
child_move i none e w = (w, [])
child_move i (some t) e w =
    let m = child i t e w in (record (m.1) { children = set i m.0 w.children }, m.2)

unfoldable pub move : Move → World → World × List Line
unfolding main child_move get_elem?
move (by_main e) w = (main w.main_pc e w, [])
move (by_child i e) w = child_move i (get_elem? w.children i) e w

unfoldable pub moves : List Move → World → World × List Line
unfolding move
moves [] w = (w, [])
moves (m ∷ ms) w = let r = move m w in let rest = moves ms r.0 in (rest.0, r.1 ++ rest.1)

-- Before `main`, with the semaphore of that key as an earlier run may have left it.
abbrev pub before : Bool → ℕ → World
before exists value = record { exists = exists; value = value; children = []; main_pc = creates }
