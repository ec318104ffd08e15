-- ===== src/MemoryWorkers/Examples.antt =====
-- Assignment1: the theorems at concrete workers and signals.
use unx.Prelude.{
  ℕ, ◌+◌, ◌*◌, ◌≤◌, Bool, true, false, Option, none, some, List, [], ◌∷◌, ◌++◌, ◌≡◌, ◌≢◌, ◌↔◌, refl,
  arith, All, replicate,
}
use unx.Prelude.Bytes.{Bytes, codes, bytes_eq, starts_with}
use unx.MemoryWorkers.{sigusr1, sigusr2, kill, close, exit, statuses}
use unx.MemoryWorkers.Worker.{Setup, Chunk, dhsb_worker_process}
use unx.MemoryWorkers.Worker.Sending.{Sends, as_count, alarm, opened, dhsb_worker_process-Sends}
use unx.MemoryWorkers.Parent.{Parent, finished, send, deliver, own, Move, moves, forked}
use unx.MemoryWorkers.Parent.{memory_limit_exceeded, log_exceeded}
use unx.MemoryWorkers.Parent.Once.{IsOrderly}
use unx.MemoryWorkers.Parent.Startup.{Event, sends, delivers, runs, gives, happening, launched}
use unx.MemoryWorkers.Parent.Startup.Flags.{IsSilent}
use unx.MemoryWorkers.Parent.Startup.Early.{happening-IsSilent}
use unx.MemoryWorkers.Parent.Startup.Whole.{happening-prints}
use unx.MemoryWorkers.Parent.Needs.{IsMissing, moves-hang}
use unx.MemoryWorkers.Programs.{Calls, all_succeed, test_worker_main, test_worker_main_iff}

abbrev big : List Bytes
big = codes "Name:\tworker\n" ∷ codes "VmRSS:\t   58000 kB\n" ∷ []

abbrev setup : Setup
setup = record { file = some 3; first_alloc = true; first_status = some big; second_alloc = true }

abbrev chunks : List Chunk
chunks =
    record { bytes_read = 4096; status = some big } ∷ record { bytes_read = 10; status = none } ∷ []

worker_fails : dhsb_worker_process setup chunks ≡ kill sigusr1 ∷ close 3 ∷ exit 1 ∷ []
unfolding dhsb_worker_process starts_with unx.Prelude.Bytes.digits
worker_fails = refl

dhsb_worker_process-Sends_example :
    Sends (dhsb_worker_process setup chunks) (as_count (alarm setup chunks)) (opened (some 3))
dhsb_worker_process-Sends_example = dhsb_worker_process-Sends setup chunks

abbrev calls : Calls
calls = record {
  file = record { fd = some 3; writes = λ i. some (1024 * 1024) };
  sigaction1 = true;
  sigaction2 = true;
  fork = true;
  waitpid = true;
}

test_worker_main_iff_example :
    ((test_worker_main calls (dhsb_worker_process setup chunks)).status ≡ 0)
    ↔ ((all_succeed calls ≡ true) × (statuses (dhsb_worker_process setup chunks) ≡ 0 ∷ []))
test_worker_main_iff_example = test_worker_main_iff calls setup chunks

abbrev pids : ℕ × ℕ × ℕ
pids = (101, 102, 103)

-- Workers 1 and 2 complete before the kernel delivers a signal.
abbrev together : List Move
together = send sigusr2 101 ∷ send sigusr2 102 ∷ []

abbrev one_lost : Parent
one_lost = (moves together (forked pids)).0

one_lost-IsMissing : IsMissing pids one_lost
unfolding moves
one_lost-IsMissing = record { mine = refl; undone = refl; unsent = λ e. ground arith }

-- Worker 3 warns while the parent still stores the numbers, and is heard when it waits.
abbrev early_warning : List Event
early_warning =
    replicate 8 (runs (gives 0))
    ++ (runs (gives 101)
        ∷ runs (gives 102)
        ∷ runs (gives 103)
        ∷ sends sigusr1 103
        ∷ delivers sigusr1
        ∷ runs (gives 0)
        ∷ [])

happening-prints_example :
    IsOrderly (happening (early_warning ++ runs (gives 0) ∷ delivers sigusr1 ∷ []) launched).1
happening-prints_example =
    happening-prints (early_warning ++ runs (gives 0) ∷ delivers sigusr1 ∷ [])

warned_once :
    (happening (early_warning ++ runs (gives 0) ∷ delivers sigusr1 ∷ []) launched).1
    ≡ memory_limit_exceeded ∷ log_exceeded ∷ []
unfolding happening
warned_once = refl

happening-IsSilent_example : IsSilent (happening early_warning launched).0.parent
unfolding happening
happening-IsSilent_example =
    happening-IsSilent early_warning
      (
        tt,
        (
          tt,
          (
            tt,
            (
              tt,
              (tt, (tt, (tt, (tt, (tt, (tt, (tt, ((λ e. omega (arith, e)), (tt, (tt, tt)))))))))),
            ),
          ),
        ),
      )
      (λ e. cc)

moves-hang_example :
    (moves (send sigusr1 103 ∷ deliver sigusr1 ∷ deliver sigusr2 ∷ own ∷ own ∷ []) one_lost).0.pc
    ≢ finished
unfolding moves
moves-hang_example =
    moves-hang (send sigusr1 103 ∷ deliver sigusr1 ∷ deliver sigusr2 ∷ own ∷ own ∷ []) one_lost tt
      one_lost-IsMissing (ground arith)
