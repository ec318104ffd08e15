-- ===== src/MemoryWorkers/Parent.antt =====
-- Assignment1/Part4/parent_main.c: a parent that waits for the signals of three workers. Of a signal
-- that is sent, the kernel keeps one that is not delivered yet, with its sender.
use unx.Prelude.{
  ℕ, zero, suc, ◌+◌, Bool, true, false, not, ◌&&◌, Option, none, some, List, [], ◌∷◌, ◌++◌, ◌==◌,
  if◌then◌else◌,
}
use unx.MemoryWorkers.{Signal, sigusr1, sigusr2}
pub mod Counts
pub mod Once
pub mod Needs
pub mod Startup

-- What the parent prints, and what it writes to its log.
pub data Line : Type 0 where
  memory_limit_exceeded worker_1_completed worker_2_completed done_waiting : Line
  log_exceeded log_completed_1 log_completed_2 log_completed_3 : Line

-- The flag that a loop waits for, in the order of the loops.
pub data Awaited : Type 0 where
  memory_warning first second : Awaited

-- Where `main` is after the forks: about to look at a flag, about to call sigsuspend, in it, in the
-- loop of waitpid, or at its end.
pub data ParentPc : Type 0 where
  testing suspending suspended : Awaited → ParentPc
  reaping : ℕ → ParentPc
  finished : ParentPc

pub record Parent : Type 0 where
  pub worker_pids : ℕ × ℕ × ℕ
  pub memory_warned_worker_3 : Bool
  pub worker_1_done : Bool
  pub worker_2_done : Bool
  pub worker_3_done : Bool
  pub pending1 : Option ℕ  -- the sender of a SIGUSR1 that is not delivered
  pub pending2 : Option ℕ
  pub pc : ParentPc

pub data WorkerId : Type 0 where
  worker1 worker2 worker3 : WorkerId

-- The loop over `worker_pids` that breaks at the sender.
unfoldable pub sender : ℕ × ℕ × ℕ → ℕ → Option WorkerId
sender pids pid =
    if pids.0 == pid
    then some worker1
    else if pids.1 == pid
    then some worker2
    else if pids.2 == pid
    then some worker3
    else none

unfoldable pub on_sigusr1 : Option WorkerId → Parent → Parent × List Line
on_sigusr1 (some worker3) p =
    if not p.memory_warned_worker_3
    then (record p { memory_warned_worker_3 = true }, memory_limit_exceeded ∷ log_exceeded ∷ [])
    else (p, [])
on_sigusr1 _ p = (p, [])

unfoldable pub on_sigusr2 : Option WorkerId → Parent → Parent × List Line
on_sigusr2 (some worker1) p =
    if not p.worker_1_done
    then (record p { worker_1_done = true }, worker_1_completed ∷ log_completed_1 ∷ [])
    else (p, [])
on_sigusr2 (some worker2) p =
    if not p.worker_2_done
    then (record p { worker_2_done = true }, worker_2_completed ∷ log_completed_2 ∷ [])
    else (p, [])
on_sigusr2 (some worker3) p =
    if not p.worker_3_done
    then (record p { worker_3_done = true }, log_completed_3 ∷ [])
    else (p, [])
on_sigusr2 none p = (p, [])

unfoldable pub dhsb_signal_handler : Signal → ℕ → Parent → Parent × List Line
unfolding sender on_sigusr1 on_sigusr2
dhsb_signal_handler sigusr1 pid p = on_sigusr1 (sender p.worker_pids pid) p
dhsb_signal_handler sigusr2 pid p = on_sigusr2 (sender p.worker_pids pid) p

abbrev pub flag : Awaited → Parent → Bool
flag memory_warning p = p.memory_warned_worker_3
flag first p = p.worker_1_done
flag second p = p.worker_2_done

abbrev pub next_wait : Awaited → ParentPc
next_wait memory_warning = testing first
next_wait first = testing second
next_wait second = reaping 3

-- A handler that ran ends sigsuspend.
abbrev pub wake : ParentPc → ParentPc
wake (suspended a) = testing a
wake c = c

-- A worker sends a signal, the kernel delivers one, or `main` makes a step.
pub data Move : Type 0 where
  send : Signal → ℕ → Move
  deliver : Signal → Move
  own : Move

-- Of a blocked or busy process's signals the kernel keeps one.
abbrev pub pend : Option ℕ → ℕ → Option ℕ
pend none pid = some pid
pend (some old) pid = some old

unfoldable pub handled : Parent × List Line → Parent × List Line
handled r = (record (r.0) { pc = wake r.0.pc }, r.1)

-- A step of `main`; in sigsuspend it has none. Each waitpid waits for a child that has ended.
unfoldable pub main_step : ParentPc → Parent → Parent × List Line
main_step (testing a) p = (record p { pc = if flag a p then next_wait a else suspending a }, [])
main_step (suspending a) p = (record p { pc = suspended a }, [])
main_step (suspended a) p = (p, [])
main_step (reaping zero) p = (record p { pc = finished }, done_waiting ∷ [])
main_step (reaping (suc n)) p = (record p { pc = reaping n }, [])
main_step finished p = (p, [])

unfoldable pub deliver_one : Signal → Option ℕ → Parent → Parent × List Line
unfolding dhsb_signal_handler handled
deliver_one sig none p = (p, [])
deliver_one sigusr1 (some pid) p =
    handled (dhsb_signal_handler sigusr1 pid (record p { pending1 = none }))
deliver_one sigusr2 (some pid) p =
    handled (dhsb_signal_handler sigusr2 pid (record p { pending2 = none }))

unfoldable pub move : Move → Parent → Parent × List Line
unfolding deliver_one main_step
move (send sigusr1 pid) p = (record p { pending1 = pend p.pending1 pid }, [])
move (send sigusr2 pid) p = (record p { pending2 = pend p.pending2 pid }, [])
move (deliver sigusr1) p = deliver_one sigusr1 p.pending1 p
move (deliver sigusr2) p = deliver_one sigusr2 p.pending2 p
move own p = main_step p.pc p

-- The parent and its lines after a sequence of moves.
unfoldable pub moves : List Move → Parent → Parent × List Line
unfolding move
moves [] p = (p, [])
moves (m ∷ ms) p = let r = move m p in let rest = moves ms r.0 in (rest.0, r.1 ++ rest.1)

-- The parent after the forks.
abbrev pub forked : ℕ × ℕ × ℕ → Parent
forked pids = record {
  worker_pids = pids;
  memory_warned_worker_3 = false;
  worker_1_done = false;
  worker_2_done = false;
  worker_3_done = false;
  pending1 = none;
  pending2 = none;
  pc = testing memory_warning;
}
