-- ===== src/MemoryWorkers/LimitWorker.antt =====
-- Assignment1/Part4/worker_process.c: a worker that looks at its memory only while it reads.
use unx.Prelude.{
  ℕ, zero, suc, ◌+◌, ◌*◌, Bool, true, false, not, ◌&&◌, ◌||◌, Option, none, some, List, [], ◌∷◌,
  ◌++◌, ◌==◌, if◌then◌else◌, ◌≡◌, refl, sym, ap, ◌∙◌, arith,
}
use unx.Prelude.Bytes.{Bytes}
use unx.ProcStatus.{Number, plus, minus, scan_rss, exceeds}
use unx.MemoryWorkers.{Effect, kill, close, exit, sigusr1, sigusr2}
pub mod Warning

abbrev pub memory_limit : ℕ
memory_limit = 50000

pub alloc_size_mb : ℕ → ℕ
alloc_size_mb worker_id =
    if worker_id == 1 then 5 else if worker_id == 2 then 40 else if worker_id == 3 then 120 else 0

pub record Guard : Type 0 where
  pub mem_usage : Number
  pub warned : Bool

-- The round of a read that gave bytes, with the lines of the status file where it could be opened.
pub guard : Option (List Bytes) → Guard → Guard × List Effect
unfolding scan_rss
guard none g = (g, [])
guard (some lines) g =
    let m = scan_rss g.mem_usage lines in
    if not g.warned && exceeds m memory_limit
    then (record g { mem_usage = m; warned = true }, kill sigusr1 ∷ [])
    else (record g { mem_usage = m }, [])

pub guard_all : List (Option (List Bytes)) → Guard → List Effect
unfolding guard
guard_all [] g = []
guard_all (status ∷ rest) g = let r = guard status g in r.1 ++ guard_all rest r.0

-- `malloc` tells whether it gives that many bytes.
pub limit_worker : Option ℕ → (ℕ → Bool) → ℕ → List (Option (List Bytes)) → List Effect
unfolding alloc_size_mb guard_all
limit_worker none malloc worker_id looks = exit 1 ∷ []
limit_worker (some fd) malloc worker_id looks =
    if malloc (alloc_size_mb worker_id * 1024 * 1024)
    then guard_all looks (record { mem_usage = plus 0; warned = false })
      ++ (close fd ∷ kill sigusr2 ∷ exit 0 ∷ [])
    else close fd ∷ exit 1 ∷ []

-- `main`: a worker has three arguments, the last two of which are numbers.
pub limit_main : ℕ → Option ℕ → (ℕ → Bool) → ℕ → List (Option (List Bytes)) → List Effect
unfolding limit_worker
limit_main argc file malloc worker_id looks =
    if argc == 4 then limit_worker file malloc worker_id looks else exit 1 ∷ []
