-- ===== src/MemoryWorkers/Worker.antt =====
-- Assignment1/Part2/worker_process.c and Part3/worker_process.c, which differ in what they print.
use unx.Prelude.{
  ℕ, zero, suc, ◌+◌, ◌*◌, ◌^◌, ◌≤◌, Bool, true, false, not, ◌&&◌, ◌||◌, Option, none, some, List,
  [], ◌∷◌, ◌++◌, ltb, leb, if◌then◌else◌, ◌≡◌, refl, arith,
}
use unx.Prelude.Bytes.{Bytes}
use unx.ProcStatus.{Number, plus, minus, scan_rss, exceeds}
use unx.MemoryWorkers.{Effect, kill, close, exit, sigusr1, sigusr2}
pub mod Sending
pub mod Accumulating

abbrev pub limit : ℕ
limit = 50000

abbrev pub file_data_capacity : ℕ
file_data_capacity = 60 * 1024 * 1024

-- `mem_usage`, `sigusr1_already_sent` and `offset`.
pub record Watch : Type 0 where
  pub mem_usage : Number
  pub sent : Bool
  pub offset : ℕ

-- One look at /proc/self/status, with its lines.
unfoldable pub look : List Bytes → Watch → Watch × List Effect
unfolding scan_rss
look lines w =
    let m = scan_rss w.mem_usage lines in
    if exceeds m limit && not w.sent
    then (record w { mem_usage = m; sent = true }, kill sigusr1 ∷ [])
    else (record w { mem_usage = m }, [])

-- A read that gave bytes, and the status file of that round where it could be opened.
pub record Chunk : Type 0 where
  pub bytes_read : ℕ
  pub status : Option (List Bytes)

-- The copy into `accumulated_data`.
unfoldable pub accumulate : ℕ → Watch → Watch
accumulate bytes w =
    if leb (w.offset + bytes) file_data_capacity then record w { offset = w.offset + bytes } else w

-- The loop, up to a read that gives nothing; `fails` is where it exits with 1.
pub data Ended : Type 0 where
  reads_all : Watch → List Effect → Ended
  fails : List Effect → Ended

unfoldable pub preceded : List Effect → Ended → Ended
preceded es (reads_all w fs) = reads_all w (es ++ fs)
preceded es (fails fs) = fails (es ++ fs)

unfoldable pub read_loop : List Chunk → Watch → Ended
unfolding look accumulate preceded
read_loop [] w = reads_all w []
read_loop (c ∷ cs) w = elim c.status [
  | none ↦ fails []
  | some lines ↦ let l = look lines (accumulate c.bytes_read w) in preceded l.1 (read_loop cs l.0)
]

-- What `open`, the two calls of malloc and the first `fopen` give.
pub record Setup : Type 0 where
  pub file : Option ℕ
  pub first_alloc : Bool
  pub first_status : Option (List Bytes)
  pub second_alloc : Bool

abbrev pub at_start : Watch
at_start = record { mem_usage = plus 0; sent = false; offset = 0 }

-- The look after the first allocation, which is left out where the file cannot be opened.
unfoldable pub first_look : Option (List Bytes) → Watch → Watch × List Effect
unfolding look
first_look none w = (w, [])
first_look (some lines) w = look lines w

unfoldable pub ending : ℕ → Ended → List Effect
ending fd (reads_all w es) = es ++ (close fd ∷ kill sigusr2 ∷ exit 0 ∷ [])
ending fd (fails es) = es ++ (close fd ∷ exit 1 ∷ [])

unfoldable pub dhsb_worker_process : Setup → List Chunk → List Effect
unfolding first_look read_loop ending
dhsb_worker_process s cs = elim s.file [
  | none ↦ exit 1 ∷ []
  | some fd ↦
      if not s.first_alloc
      then close fd ∷ exit 1 ∷ []
      else let l = first_look s.first_status at_start in
        if not s.second_alloc
        then l.1 ++ (close fd ∷ exit 1 ∷ [])
        else l.1 ++ ending fd (read_loop cs l.0)
]
