-- ===== src/MemoryWorkers/Programs.antt =====
-- Assignment1/Part1/file_generator.c and Part2/test_worker_main.c: the whole `main` functions.
use unx.Prelude.{
  ℕ, Bool, true, false, ◌&&◌, Option, none, some, List, [], ◌∷◌, ◌≡◌, ◌↔◌, arith, if◌then◌else◌,
}
use unx.ProcStatus.{Number, plus}
use unx.MemoryWorkers.{Effect, statuses}
use unx.MemoryWorkers.Files.{dhsb_generate_binary_file, create_dummy_binary_file}
use unx.MemoryWorkers.Worker.{Setup, Chunk, dhsb_worker_process}
use unx.MemoryWorkers.Waiting.{test_main, test_main_iff}

-- What open and each write of a file give.
pub record File : Type 0 where
  pub fd : Option ℕ
  pub writes : ℕ → Option ℕ

abbrev nothing : List ℕ → Bool
nothing [] = true
nothing (s ∷ ss) = false

-- Whether a part of `main` has not ended the program.
abbrev pub goes_on : List Effect → Bool
goes_on es = nothing (statuses es)

-- Part 1: the three files with the sizes that scanf has read; the first that fails ends the program.
unfoldable pub generate : List (File × Number) → Bool
unfolding dhsb_generate_binary_file statuses
generate [] = true
generate (f ∷ fs) =
    let rest = generate fs in
    if goes_on (dhsb_generate_binary_file f.0.fd f.0.writes f.1).1 then rest else false

-- What the calls of part 2 give: the file, the two calls of sigaction, fork, and the loop over waitpid.
pub record Calls : Type 0 where
  pub file : File
  pub sigaction1 : Bool
  pub sigaction2 : Bool
  pub fork : Bool
  pub waitpid : Bool

-- Whether the test file is there in the end, and the status.
pub record Left : Type 0 where
  pub has_file : Bool
  pub status : ℕ

unfoldable pub test_forked : Calls → List Effect → Bool → Left
unfolding test_main
test_forked k es false = record { has_file = false; status = 1 }
test_forked k es true = record { has_file = false; status = test_main k.waitpid es }

-- `setup_parent_signal_handlers`.
unfoldable pub test_handlers : Calls → List Effect → Bool → Bool → Left
unfolding test_forked
test_handlers k es false second = record { has_file = true; status = 1 }
test_handlers k es true false = record { has_file = true; status = 1 }
test_handlers k es true true = test_forked k es k.fork

-- Where create_dummy_binary_file fails, the file is there if it could be opened.
abbrev pub was_opened : Option ℕ → Bool
was_opened none = false
was_opened (some fd) = true

unfoldable pub test_files : Calls → List Effect → Bool → Left
unfolding test_handlers
test_files k es false = record { has_file = was_opened k.file.fd; status = 1 }
test_files k es true = test_handlers k es k.sigaction1 k.sigaction2

abbrev pub megabytes : Number
megabytes = plus 60

-- Part 2's `main`, with what its worker does.
unfoldable pub test_worker_main : Calls → List Effect → Left
unfolding test_files create_dummy_binary_file statuses
test_worker_main k es =
    test_files k es (goes_on (create_dummy_binary_file k.file.fd k.file.writes megabytes).1)

-- The calls of part 2 up to the fork, and waitpid, all succeed.
abbrev pub all_succeed : Calls → Bool
all_succeed k =
    goes_on (create_dummy_binary_file k.file.fd k.file.writes megabytes).1
    && k.sigaction1
    && k.sigaction2
    && k.fork
    && k.waitpid

forked-status :
    (k : Calls) (es : List Effect) (b : Bool)
    → ((test_forked k es b).status ≡ 0) ↔ ((b && k.waitpid ≡ true) × (test_main true es ≡ 0))
unfolding test_forked test_main
forked-status k es false = ground arith
forked-status k es true = ground arith

handlers-status :
    (k : Calls) (es : List Effect) (a b : Bool)
    → ((test_handlers k es a b).status ≡ 0)
      ↔ ((a && b && k.fork && k.waitpid ≡ true) × (test_main true es ≡ 0))
unfolding test_handlers
handlers-status k es false b = ground arith
handlers-status k es true false = ground arith
handlers-status k es true true = forked-status k es k.fork

files-status :
    (k : Calls) (es : List Effect) (a : Bool)
    → ((test_files k es a).status ≡ 0) ↔ (
        (a && k.sigaction1 && k.sigaction2 && k.fork && k.waitpid ≡ true) × (test_main true es ≡ 0))
unfolding test_files
files-status k es false = ground arith
files-status k es true = handlers-status k es k.sigaction1 k.sigaction2

-- The test program of part 2 returns 0 just where each of its calls succeeds, the file of 60 megabytes included, and
-- its worker exits with 0.
pub test_worker_main_iff :
    (k : Calls) (s : Setup) (cs : List Chunk)
    → ((test_worker_main k (dhsb_worker_process s cs)).status ≡ 0)
      ↔ ((all_succeed k ≡ true) × (statuses (dhsb_worker_process s cs) ≡ 0 ∷ []))
unfolding test_worker_main
test_worker_main_iff k s cs =
    let es = dhsb_worker_process s cs in
    let whole =
      files-status k es (goes_on (create_dummy_binary_file k.file.fd k.file.writes megabytes).1) in
    let worker = test_main_iff s cs in
    ((λ h. let r = whole.0 h in (r.0, worker.0 r.1)), (λ h. whole.1 (h.0, worker.1 h.1)))
