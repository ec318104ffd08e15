-- ===== src/MemoryWorkers/Parent/Startup/Whole.antt =====
-- Assignment1/Part4/parent_main.c: what the whole program prints.
use unx.Prelude.{ℕ, zero, suc, Bool, true, false, Option, none, some, List, [], ◌∷◌, ◌==◌, refl}
use unx.MemoryWorkers.{Signal, sigusr1, sigusr2}
use unx.MemoryWorkers.Parent.{Line}
use unx.MemoryWorkers.Parent.Once.{
  Tallies, main_step-Tallies, nothing-Tallies, pending-Tallies, deliver_one-Tallies, then-Tallies,
  IsOrderly, Tallies-IsOrderly,
}
use unx.MemoryWorkers.Parent.Startup.{
  StartPc, generates, forks, exited, waits, killed, Result, fails, gives, Process, fork_round,
  in_loops, main, delivered, Event, sends, delivers, runs, happens, happening, launched, has_ended,
  caught, pending,
}

-- The lines of a step are those of the flags of the parent that it sets.
abbrev TellsAll : Process → Process × List Line → Type 0
TellsAll p r = Tallies p.parent (r.0.parent, r.1)

fork_round-Tallies : (t : Bool) (i : ℕ) (r : Result) (p : Process) → TellsAll p (fork_round t i r p)
unfolding fork_round
fork_round-Tallies true i r p = nothing-Tallies p.parent
fork_round-Tallies false i fails p = nothing-Tallies p.parent
fork_round-Tallies false i (gives pid) p = pending-Tallies p.parent _ refl refl refl refl

main-Tallies : (c : StartPc) (r : Result) (p : Process) → TellsAll p (main c r p)
unfolding main in_loops
main-Tallies (forks i) r p = fork_round-Tallies (i == 3) i r p
main-Tallies waits r p = main_step-Tallies p.parent.pc p.parent refl
main-Tallies (generates zero) r p = nothing-Tallies p.parent
main-Tallies (generates (suc n)) fails p = nothing-Tallies p.parent
main-Tallies (generates (suc n)) (gives fd) p = nothing-Tallies p.parent
main-Tallies (exited status) r p = nothing-Tallies p.parent
main-Tallies killed r p = nothing-Tallies p.parent
main-Tallies c fails p = nothing-Tallies p.parent
main-Tallies c (gives r) p = nothing-Tallies p.parent

delivered-Tallies :
    (ended blocked catches : Bool) (s : Signal) (o : Option ℕ) (p : Process)
    → TellsAll p (delivered ended blocked catches s o p)
unfolding delivered in_loops
delivered-Tallies true blocked catches s o p = nothing-Tallies p.parent
delivered-Tallies false true catches s o p = nothing-Tallies p.parent
delivered-Tallies false false catches s none p = nothing-Tallies p.parent
delivered-Tallies false false false s (some pid) p = nothing-Tallies p.parent
delivered-Tallies false false true s (some pid) p = deliver_one-Tallies s (some pid) p.parent

happens-Tallies : (e : Event) (p : Process) → TellsAll p (happens e p)
unfolding happens
happens-Tallies (sends sigusr1 pid) p = pending-Tallies p.parent _ refl refl refl refl
happens-Tallies (sends sigusr2 pid) p = pending-Tallies p.parent _ refl refl refl refl
happens-Tallies (delivers s) p =
    delivered-Tallies (has_ended p.start) p.blocked (caught p.start s) s (pending s p.parent) p
happens-Tallies (runs r) p = main-Tallies p.start r p

happening-Tallies : (es : List Event) (p : Process) → TellsAll p (happening es p)
unfolding happening
happening-Tallies [] p = nothing-Tallies p.parent
happening-Tallies (e ∷ es) p =
    let r : Process × List Line = happens e p in
    let later : Process × List Line = happening es r.0 in
    then-Tallies p.parent (r.0.parent, r.1) (later.0.parent, later.1) (happens-Tallies e p)
      (happening-Tallies es r.0)

-- Whatever signals come to the program, from its start on and in whatever order, and whichever calls fail, the parent
-- prints the warning, each of the two completions and its last line at most once, and the last one only with the
-- three others printed.
pub happening-prints : (es : List Event) → IsOrderly (happening es launched).1
happening-prints es = Tallies-IsOrderly (0, 0, 0) _ _ (happening-Tallies es launched)
