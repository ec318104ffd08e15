-- ===== src/MemoryWorkers/Counting/Needs.antt =====
-- Assignment1/Part3/test_worker_main.c: what the parent needs to return.
use unx.Prelude.{
  ℕ, ◌+◌, ◌≤◌, Bool, true, List, [], ◌∷◌, ◌++◌, ◌≡◌, ◌↔◌, refl, sym, replicate, ap, arith, length,
  length-append, inl, inr,
}
use mathlib.Core.Path.{subst}
use unx.MemoryWorkers.{Signal, sigusr1, sigusr2, Effect, kill, alerts, completions, statuses}
use unx.MemoryWorkers.Waiting.{signals}
use unx.MemoryWorkers.Worker.{Setup, Chunk, dhsb_worker_process}
use unx.MemoryWorkers.Worker.Sending.{
  as_count, opened, alarm, Ends, Sends, dhsb_worker_process-Sends,
}
use unx.MemoryWorkers.Counting.{returned, Event, sends, delivers, exits, runs, happen, sent, begun}
use unx.MemoryWorkers.Counting.Bounds.{Past, Counts, happen-Counts}

signals-count : (es : List Effect) → length (signals es) ≡ alerts es + completions es
unfolding signals alerts completions
signals-count [] = refl
signals-count (kill sigusr1 ∷ es) = omega (arith, signals-count es)
signals-count (kill sigusr2 ∷ es) = omega (arith, signals-count es)
signals-count (_ ∷ es) = signals-count es

-- A worker that sends two signals sends one of each.
both :
    (es : List Effect) (b : Bool) (n : ℕ)
    → Sends es (as_count b) n
    → 2 ≤ length (signals es)
    → (statuses es ≡ 0 ∷ []) × (b ≡ true)
unfolding Ends
both es b n s two = elim s.ends [
  | inl (ok, one) ↦ ground (arith, signals-count es, s.number)
  | inr (bad, nothing) ↦ ground (arith, signals-count es, s.number)
]

-- A run in which the parent returns 0, and in which the signals that are sent are the first ones of those of the worker.
abbrev pub ReturnsWith : List Effect → Type 0
ReturnsWith worker =
    (es : List Event) × (later : List Signal) × (sent es ++ later ≡ signals worker)
    × ((happen es begun).pc ≡ returned 0)

happen-needs :
    (s : Setup) (cs : List Chunk) (es : List Event) (later : List Signal)
    → sent es ++ later ≡ signals (dhsb_worker_process s cs)
    → (happen es begun).pc ≡ returned 0
    → (statuses (dhsb_worker_process s cs) ≡ 0 ∷ []) × (alarm s cs ≡ true)
happen-needs s cs es later h e =
    let start : Counts begun 0 = record { total = omega arith; under = tt; past = tt } in
    let c = happen-Counts es begun 0 start in
    let two : 2 ≤ 0 + length (sent es) = subst (λ c. Past c (0 + length (sent es))) e c.past in
    both (dhsb_worker_process s cs) (alarm s cs) _ (dhsb_worker_process-Sends s cs)
      (omega (arith, two, length-append (sent es) later, ap length h))

-- Each of two signals comes in a pause, and the worker exits behind them.
abbrev one_by_one : Signal → Signal → List Event
one_by_one s t =
    replicate 5 (runs true)
    ++ (sends s ∷ delivers s ∷ replicate 4 (runs true))
    ++ (sends t ∷ delivers t ∷ replicate 4 (runs true))
    ++ (exits ∷ runs true ∷ [])

one_by_one-returns : (s t : Signal) → (happen (one_by_one s t) begun).pc ≡ returned 0
unfolding happen
one_by_one-returns sigusr1 sigusr1 = refl
one_by_one-returns sigusr1 sigusr2 = refl
one_by_one-returns sigusr2 sigusr1 = refl
one_by_one-returns sigusr2 sigusr2 = refl

two-return :
    (worker : List Effect) (ss : List Signal)
    → signals worker ≡ ss
    → length ss ≡ 2
    → ReturnsWith worker
unfolding sent
two-return worker [] e h = absurd (omega (arith, h))
two-return worker (s ∷ []) e h = absurd (omega (arith, h))
two-return worker (s ∷ t ∷ []) e h = (one_by_one s t, [], sym e, one_by_one-returns s t)
two-return worker (s ∷ t ∷ u ∷ ss) e h = absurd (omega (arith, h))

-- A worker that exits with 0 and warns sends two signals.
two-signals :
    (es : List Effect) (n : ℕ) → Sends es 1 n → statuses es ≡ 0 ∷ [] → length (signals es) ≡ 2
unfolding Ends
two-signals es n s ok = elim s.ends [
  | inl (_, one) ↦ omega (arith, signals-count es, s.number, one)
  | inr (bad, nothing) ↦ ground (arith, ok, bad)
]

-- There is an order of the events in which the parent of Part3 returns 0, where the signals that are sent are the first
-- ones of those of its worker, just where the worker exits with 0 and one of its looks finds more than 50000 kB; in no
-- order does it return 0 with another worker.
pub happen_iff :
    (s : Setup) (cs : List Chunk)
    → let worker = dhsb_worker_process s cs in
      ReturnsWith worker ↔ ((statuses worker ≡ 0 ∷ []) × (alarm s cs ≡ true))
happen_iff s cs =
    let worker : List Effect = dhsb_worker_process s cs in
    let said = dhsb_worker_process-Sends s cs in
    (
      (λ r. happen-needs s cs r.0 r.1 r.2 r.3),
      (λ h. two-return worker (signals worker) refl (
          two-signals worker (opened s.file)
            (subst (λ b. Sends worker (as_count b) (opened s.file)) h.1 said) h.0)),
    )
