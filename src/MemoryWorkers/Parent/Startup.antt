-- ===== src/MemoryWorkers/Parent/Startup.antt =====
-- Assignment1/Part4/parent_main.c: `main` from its files and handlers to its forks, and then its loops.
use unx.Prelude.{ℕ, zero, suc, Bool, true, false, Option, none, some, List, [], ◌∷◌, ◌++◌, ◌==◌}
use unx.MemoryWorkers.{Signal, sigusr1, sigusr2}
use unx.MemoryWorkers.Parent.{Line, Parent, deliver_one, main_step, pend, forked}
pub mod Flags
pub mod Early
pub mod Whole

-- Where `main` is: with so many files to make, at its calls of sigaction, before and after it blocks the signals, with
-- so many workers forked, and in its loops. The default action of a signal kills it.
pub data StartPc : Type 0 where
  generates forks exited : ℕ → StartPc
  sets_sigusr1 sets_sigusr2 sets_sigchld blocks unblocks waits killed : StartPc

-- What a call gives; for fork, the number of the child.
pub data Result : Type 0 where
  fails : Result
  gives : ℕ → Result

pub record Process : Type 0 where
  pub start : StartPc
  pub blocked : Bool
  pub parent : Parent

-- `worker_pids[i] = pid`.
abbrev pub store_pid : ℕ → ℕ → ℕ × ℕ × ℕ → ℕ × ℕ × ℕ
store_pid zero pid (a, b, c) = (pid, b, c)
store_pid (suc zero) pid (a, b, c) = (a, pid, c)
store_pid (suc (suc zero)) pid (a, b, c) = (a, b, pid)
store_pid _ pid pids = pids

abbrev pub goes_to : StartPc → Process → Process × List Line
goes_to c p = (record p { start = c }, [])

-- A round of the loop over the forks, at its end and before it.
unfoldable pub fork_round : Bool → ℕ → Result → Process → Process × List Line
fork_round true i r p = goes_to unblocks p
fork_round false i fails p = goes_to (exited 1) p
fork_round false i (gives pid) p =
    let a = p.parent in
    (
      record p {
        start = forks (suc i);
        parent = record a { worker_pids = store_pid i pid a.worker_pids };
      },
      [],
    )

unfoldable pub in_loops : Process → Parent × List Line → Process × List Line
in_loops p r = (record p { parent = r.0 }, r.1)

-- A step of `main`.
unfoldable pub main : StartPc → Result → Process → Process × List Line
unfolding main_step fork_round in_loops
main (generates zero) r p = goes_to sets_sigusr1 p
main (generates (suc n)) (gives fd) p = goes_to (generates n) p
main sets_sigusr1 (gives r) p = goes_to sets_sigusr2 p
main sets_sigusr2 (gives r) p = goes_to sets_sigchld p
main sets_sigchld (gives r) p = goes_to blocks p
main blocks (gives r) p = (record p { start = forks 0; blocked = true }, [])
main (forks i) r p = fork_round (i == 3) i r p
main unblocks (gives r) p = (record p { start = waits; blocked = false }, [])
main waits r p = in_loops p (main_step p.parent.pc p.parent)
main (exited status) r p = (p, [])
main killed r p = (p, [])
main c fails p = goes_to (exited 1) p

-- Whether the handler is there for a signal.
abbrev pub caught : StartPc → Signal → Bool
caught (generates n) s = false
caught sets_sigusr1 s = false
caught sets_sigusr2 sigusr2 = false
caught _ s = true

abbrev pub has_ended : StartPc → Bool
has_ended (exited status) = true
has_ended killed = true
has_ended _ = false

abbrev pub pending : Signal → Parent → Option ℕ
pending sigusr1 a = a.pending1
pending sigusr2 a = a.pending2

-- The delivery of a pending signal to a process that has not ended, that blocks it or not, and catches it or not.
unfoldable pub delivered :
    (ended blocked caught : Bool) → Signal → Option ℕ → Process → Process × List Line
unfolding deliver_one in_loops
delivered true blocked catches s o p = (p, [])
delivered false true catches s o p = (p, [])
delivered false false catches s none p = (p, [])
delivered false false false s (some pid) p = goes_to killed p
delivered false false true s (some pid) p = in_loops p (deliver_one s (some pid) p.parent)

abbrev pub keep : Signal → ℕ → Parent → Parent
keep sigusr1 pid a = record a { pending1 = pend a.pending1 pid }
keep sigusr2 pid a = record a { pending2 = pend a.pending2 pid }

-- A process sends a signal, the kernel delivers one, or `main` makes a step.
pub data Event : Type 0 where
  sends : Signal → ℕ → Event
  delivers : Signal → Event
  runs : Result → Event

unfoldable pub happens : Event → Process → Process × List Line
unfolding delivered main
happens (sends s pid) p = (record p { parent = keep s pid p.parent }, [])
happens (delivers s) p =
    delivered (has_ended p.start) p.blocked (caught p.start s) s (pending s p.parent) p
happens (runs r) p = main p.start r p

unfoldable pub happening : List Event → Process → Process × List Line
unfolding happens
happening [] p = (p, [])
happening (e ∷ es) p = let r = happens e p in let rest = happening es r.0 in (rest.0, r.1 ++ rest.1)

abbrev pub launched : Process
launched = record { start = generates 3; blocked = false; parent = forked (0, 0, 0) }
