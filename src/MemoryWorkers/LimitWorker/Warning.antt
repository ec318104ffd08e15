-- ===== src/MemoryWorkers/LimitWorker/Warning.antt =====
-- Assignment1, part 4: which signals a worker sends.
use unx.Prelude.{
  ℕ, Bool, true, false, not, ◌&&◌, ◌||◌, Option, none, some, List, [], ◌∷◌, ◌++◌, ◌*◌,
  if◌then◌else◌, ◌≡◌, refl, arith, inr,
}
use mathlib.Core.Path.{subst}
use unx.Prelude.Bytes.{Bytes}
use unx.ProcStatus.{Number, plus, scan_rss, exceeds}
use unx.MemoryWorkers.{kill, close, exit, sigusr2, alerts, completions, closings, statuses}
use unx.MemoryWorkers.Worker.Sending.{
  as_count, Ends, Sends, opened, Alerts, Alerts-append, nothing-Alerts, completing-Sends,
  failing-Sends, both_counts, and-unsent,
}
use unx.MemoryWorkers.LimitWorker.{
  memory_limit, alloc_size_mb, Guard, guard, guard_all, limit_worker,
}

-- Whether one of the looks finds more than the limit, where `m` was found before.
pub tops : List (Option (List Bytes)) → Number → Bool
tops [] m = false
tops (none ∷ rest) m = tops rest m
tops (some lines ∷ rest) m = exceeds (scan_rss m lines) memory_limit || tops rest (scan_rss m lines)

guard-Alerts :
    (lines : List Bytes) (g : Guard)
    → let e : Bool = exceeds (scan_rss g.mem_usage lines) memory_limit in
      Alerts (guard (some lines) g).1 (as_count (e && not g.warned))
      × ((guard (some lines) g).0.mem_usage ≡ scan_rss g.mem_usage lines)
      × ((guard (some lines) g).0.warned ≡ (g.warned || e))
unfolding guard alerts completions closings statuses
guard-Alerts lines g = (
  record {
    number = ground arith;
    incomplete = ground arith;
    open_still = ground arith;
    runs = ground arith;
  },
  ground arith,
  ground arith,
)

guard_all-Alerts :
    (looks : List (Option (List Bytes))) (g : Guard)
    → Alerts (guard_all looks g) (as_count (tops looks g.mem_usage && not g.warned))
unfolding guard_all guard tops
guard_all-Alerts [] g = nothing-Alerts
guard_all-Alerts (none ∷ rest) g = guard_all-Alerts rest g
guard_all-Alerts (some lines ∷ rest) g =
    let r = guard (some lines) g in
    let m = scan_rss g.mem_usage lines in
    let e : Bool = exceeds m memory_limit in
    let (here, mem, warned) = guard-Alerts lines g in
    let next : Alerts (guard_all rest r.0) (as_count (tops rest m && not (g.warned || e))) =
      subst (λ x. Alerts (guard_all rest r.0) (as_count (tops rest x && not (g.warned || e)))) mem
        (subst (λ x. Alerts (guard_all rest r.0) (as_count (tops rest r.0.mem_usage && not x)))
          warned (guard_all-Alerts rest r.0)) in
    subst (Alerts (r.1 ++ guard_all rest r.0)) (both_counts e (tops rest m) g.warned)
      (Alerts-append _ _ _ _ here next)

-- Whether a look that the worker makes finds more than the limit.
pub warns : Option ℕ → (ℕ → Bool) → ℕ → List (Option (List Bytes)) → Bool
unfolding tops
warns none malloc worker_id looks = false
warns (some fd) malloc worker_id looks =
    if malloc (alloc_size_mb worker_id * 1024 * 1024) then tops looks (plus 0) else false

-- A worker of part 4 warns its parent once if one of its looks finds more than 50000 kB, and never
-- otherwise; it closes its file once if it opened it; it exits with 0 and one completion, or with 1
-- and none.
pub limit_worker-Sends :
    (file : Option ℕ) (malloc : ℕ → Bool) (worker_id : ℕ) (looks : List (Option (List Bytes)))
    → Sends
        (limit_worker file malloc worker_id looks)
        (as_count (warns file malloc worker_id looks))
        (opened file)
unfolding limit_worker warns opened alerts closings statuses completions Ends
limit_worker-Sends none malloc worker_id looks = record {
  number = refl;
  closes = refl;
  ends = inr (refl, refl);
}
limit_worker-Sends (some fd) malloc worker_id looks =
    pick (malloc (alloc_size_mb worker_id * 1024 * 1024))
  where
    pick :
        (b : Bool)
        → Sends
            (if b
              then guard_all looks (record { mem_usage = plus 0; warned = false })
                ++ (close fd ∷ kill sigusr2 ∷ exit 0 ∷ [])
              else close fd ∷ exit 1 ∷ [])
            (as_count (if b then tops looks (plus 0) else false))
            1
    pick true =
        let g : Guard = record { mem_usage = plus 0; warned = false } in
        completing-Sends fd _ (guard_all looks g) (
          subst (λ b. Alerts (guard_all looks g) (as_count b)) (and-unsent (tops looks (plus 0)))
            (guard_all-Alerts looks g))
    pick false = failing-Sends fd 0 [] nothing-Alerts
