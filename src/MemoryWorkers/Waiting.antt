-- ===== src/MemoryWorkers/Waiting.antt =====
-- Assignment1/Part2/test_worker_main.c: the parent of one worker.
use unx.Prelude.{
  ℕ, Bool, true, false, ◌||◌, List, [], ◌∷◌, ltb, if◌then◌else◌, ◌≡◌, ◌↔◌, ◌∙◌, arith, inl, inr,
}
use unx.MemoryWorkers.{Signal, sigusr1, sigusr2, Effect, kill, completions, statuses}
use unx.MemoryWorkers.Worker.{Setup, Chunk, dhsb_worker_process}
use unx.MemoryWorkers.Worker.Sending.{Ends, Sends, dhsb_worker_process-Sends}

-- The flags of part 2.
pub record Received : Type 0 where
  pub sigusr1_received : Bool
  pub sigusr2_received : Bool

pub test_parent_signal_handler : Signal → Received → Received
test_parent_signal_handler sigusr1 r = record r { sigusr1_received = true }
test_parent_signal_handler sigusr2 r = record r { sigusr2_received = true }

-- The signals that a worker sends, each delivered before the next.
unfoldable pub signals : List Effect → List Signal
signals [] = []
signals (kill s ∷ es) = s ∷ signals es
signals (_ ∷ es) = signals es

pub handle_all : List Signal → Received → Received
unfolding test_parent_signal_handler
handle_all [] r = r
handle_all (s ∷ ss) r = handle_all ss (test_parent_signal_handler s r)

-- Part 2's `main` after the fork: the result of the loop over waitpid, and the exit status.
unfoldable pub test_main : Bool → List Effect → ℕ
unfolding signals handle_all
test_main waits es =
    let r =
      handle_all (signals es) (record { sigusr1_received = false; sigusr2_received = false }) in
    if waits then (if r.sigusr2_received then 0 else 1) else 1

handle_all-completions :
    (es : List Effect) (r : Received)
    → (handle_all (signals es) r).sigusr2_received ≡ (r.sigusr2_received || ltb 0 (completions es))
unfolding handle_all signals test_parent_signal_handler completions
handle_all-completions [] r = ground arith
handle_all-completions (kill sigusr1 ∷ es) r =
    handle_all-completions es (record r { sigusr1_received = true })
handle_all-completions (kill sigusr2 ∷ es) r =
    handle_all-completions es (record r { sigusr2_received = true }) ∙ ground arith
handle_all-completions (_ ∷ es) r = handle_all-completions es r

test_main-ends :
    (es : List Effect) (n m : ℕ) → Sends es n m → (test_main true es ≡ 0) ↔ (statuses es ≡ 0 ∷ [])
unfolding test_main Ends
test_main-ends es n m s =
    let r : Received = record { sigusr1_received = false; sigusr2_received = false } in
    elim s.ends [
      | inl (ok, one) ↦ ground (arith, handle_all-completions es r)
      | inr (bad, nothing) ↦ ground (arith, handle_all-completions es r)
    ]

-- The test of part 2 succeeds just where its worker exits with 0.
pub test_main_iff :
    (s : Setup) (cs : List Chunk)
    → let es = dhsb_worker_process s cs in (test_main true es ≡ 0) ↔ (statuses es ≡ 0 ∷ [])
test_main_iff s cs = test_main-ends (dhsb_worker_process s cs) _ _ (dhsb_worker_process-Sends s cs)
