-- ===== src/MemoryWorkers/Counting/Examples.antt =====
-- Assignment1/Part3/test_worker_main.c: the theorems at concrete orders of the events.
use unx.Prelude.{true, some, none, List, [], ◌∷◌, ◌++◌, ◌≡◌, ◌↔◌, refl, replicate}
use unx.Prelude.Bytes.{Bytes, codes, starts_with}
use unx.MemoryWorkers.{sigusr1, sigusr2, statuses}
use unx.MemoryWorkers.Waiting.{signals}
use unx.MemoryWorkers.Worker.{Setup, Chunk, dhsb_worker_process}
use unx.MemoryWorkers.Worker.Sending.{alarm}
use unx.MemoryWorkers.Counting.{
  returned, Parent, Event, sends, delivers, exits, runs, happen, sent, begun,
}
use unx.MemoryWorkers.Counting.Needs.{ReturnsWith, happen_iff}

abbrev big : List Bytes
big = codes "Name:\tworker\n" ∷ codes "VmRSS:\t   58000 kB\n" ∷ []

abbrev setup : Setup
setup = record { file = some 3; first_alloc = true; first_status = some big; second_alloc = true }

-- SIGUSR2 comes inside the handler of SIGUSR1, before that has loaded the count.
abbrev nested : List Event
nested =
    runs true
    ∷ runs true
    ∷ runs true
    ∷ runs true
    ∷ runs true
    ∷ sends sigusr1
    ∷ sends sigusr2
    ∷ delivers sigusr1
    ∷ delivers sigusr2
    ∷ (replicate 6 (runs true) ++ exits ∷ runs true ∷ runs true ∷ [])

-- A worker whose status file is read to its end.
abbrev good_chunks : List Chunk
good_chunks = record { bytes_read = 4096; status = some big } ∷ []

nested_returns : (happen nested begun).pc ≡ returned 0
unfolding happen
nested_returns = refl

happen_iff_example : ReturnsWith (dhsb_worker_process setup good_chunks) ↔ (
    (statuses (dhsb_worker_process setup good_chunks) ≡ 0 ∷ []) × (alarm setup good_chunks ≡ true))
happen_iff_example = happen_iff setup good_chunks

-- This worker exits with 0 and warns.
good_worker :
    (statuses (dhsb_worker_process setup good_chunks) ≡ 0 ∷ []) × (alarm setup good_chunks ≡ true)
unfolding dhsb_worker_process starts_with signals sent unx.Prelude.Bytes.digits
good_worker = (happen_iff setup good_chunks).0 (nested, [], refl, nested_returns)

-- SIGUSR2 comes between the test of the count and pause.
abbrev too_late : List Event
too_late =
    runs true
    ∷ runs true
    ∷ runs true
    ∷ sends sigusr1
    ∷ delivers sigusr1
    ∷ runs true
    ∷ runs true
    ∷ runs true
    ∷ sends sigusr2
    ∷ delivers sigusr2
    ∷ runs true
    ∷ runs true
    ∷ runs true
    ∷ []

abbrev sleeper : Parent
sleeper = happen too_late begun

-- It has counted both signals.
counted_both : sleeper.dhsb_signals_received ≡ 2
unfolding happen
counted_both = refl
