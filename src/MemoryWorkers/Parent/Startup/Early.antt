-- ===== src/MemoryWorkers/Parent/Startup/Early.antt =====
-- Assignment1/Part4/parent_main.c: signals that come before the parent waits.
use unx.Prelude.{
  ℕ, zero, suc, Bool, true, false, Option, none, some, List, [], ◌∷◌, ◌==◌, ◌≡◌, ◌≢◌, refl, sym, ap,
  ◌∙◌, All,
}
use mathlib.Core.Path.{subst}
use unx.MemoryWorkers.{Signal, sigusr1, sigusr2}
use unx.MemoryWorkers.Parent.{Parent, deliver_one}
use unx.MemoryWorkers.Parent.Startup.{
  StartPc, generates, forks, exited, sets_sigusr1, sets_sigusr2, sets_sigchld, blocks, unblocks,
  waits, killed, Result, fails, gives, Process, fork_round, in_loops, main, delivered, Event, sends,
  delivers, runs, happens, happening, launched, has_ended, caught, pending, keep,
}
use unx.MemoryWorkers.Parent.Startup.Flags.{
  IsSilent, IsAlone, Place, Place-IsSilent, IsFromProcess, keep-IsAlone, keep-IsSilent,
  deliver_one-IsAlone,
}

fork_round-Place :
    (t : Bool) (i : ℕ) (r : Result) (p : Process)
    → p.blocked ≡ true
    → IsSilent p.parent
    → let q = (fork_round t i r p).0 in Place q.start q.blocked q.parent
unfolding fork_round
fork_round-Place true i r p b h = (b, h)
fork_round-Place false i fails p b h = h
fork_round-Place false i (gives pid) p b h = (
  b,
  record { unwarned = h.unwarned; undone1 = h.undone1; undone2 = h.undone2; undone3 = h.undone3 },
)

waits-Place :
    (r : Result) (p : Process)
    → p.start ≡ waits
    → let q = (main waits r p).0 in Place q.start q.blocked q.parent
unfolding main in_loops
waits-Place r p at =
    let q : Process = (main waits r p).0 in subst (λ c. Place c q.blocked q.parent) (sym at) tt

main-Place :
    (c : StartPc) (r : Result) (p : Process)
    → p.start ≡ c
    → Place c p.blocked p.parent
    → let q = (main c r p).0 in Place q.start q.blocked q.parent
unfolding main
main-Place (forks i) r p at h = fork_round-Place (i == 3) i r p h.0 h.1
main-Place waits r p at h = waits-Place r p at
main-Place (exited status) r p at h = subst (λ c. Place c p.blocked p.parent) (sym at) h
main-Place killed r p at h = subst (λ c. Place c p.blocked p.parent) (sym at) h
main-Place (generates zero) r p at h = h
main-Place (generates (suc n)) fails p at h = h.silent
main-Place (generates (suc n)) (gives fd) p at h = h
main-Place sets_sigusr1 fails p at h = h.silent
main-Place sets_sigusr1 (gives r) p at h = h
main-Place sets_sigusr2 fails p at h = h.silent
main-Place sets_sigusr2 (gives r) p at h = h
main-Place sets_sigchld fails p at h = h.silent
main-Place sets_sigchld (gives r) p at h = h
main-Place blocks fails p at h = h.silent
main-Place blocks (gives r) p at h = (refl, h.silent)
main-Place unblocks fails p at h = h.1
main-Place unblocks (gives r) p at h = tt

pending-IsAlone : (s : Signal) (pid : ℕ) (a : Parent) → IsAlone a → some pid ≡ pending s a → pid ≢ 0
pending-IsAlone sigusr1 pid a h e z = h.none1 (sym e ∙ ap some z)
pending-IsAlone sigusr2 pid a h e z = h.none2 (sym e ∙ ap some z)

-- The handler that runs before the loops knows no sender.
handler-Place :
    (c : StartPc) (b : Bool) (s : Signal) (pid : ℕ) (a : Parent)
    → Place c b a
    → b ≡ false
    → has_ended c ≡ false
    → some pid ≡ pending s a
    → Place c b (deliver_one s (some pid) a).0
handler-Place waits b s pid a h f n e = tt
handler-Place (forks i) b s pid a h f n e = absurd (cc (h.0))
handler-Place unblocks b s pid a h f n e = absurd (cc (h.0))
handler-Place (exited status) b s pid a h f n e = absurd cc
handler-Place killed b s pid a h f n e = absurd cc
handler-Place (generates m) b s pid a h f n e =
    deliver_one-IsAlone s pid a (pending-IsAlone s pid a h e) h
handler-Place sets_sigusr1 b s pid a h f n e =
    deliver_one-IsAlone s pid a (pending-IsAlone s pid a h e) h
handler-Place sets_sigusr2 b s pid a h f n e =
    deliver_one-IsAlone s pid a (pending-IsAlone s pid a h e) h
handler-Place sets_sigchld b s pid a h f n e =
    deliver_one-IsAlone s pid a (pending-IsAlone s pid a h e) h
handler-Place blocks b s pid a h f n e = deliver_one-IsAlone s pid a (pending-IsAlone s pid a h e) h

uncaught-early : (c : StartPc) (s : Signal) → caught c s ≡ false → c ≢ waits
uncaught-early c s h e = cc (ap (λ x. caught x s) e)

delivered-Place :
    (ended blocked catches : Bool) (s : Signal) (o : Option ℕ) (p : Process)
    → ended ≡ has_ended p.start
    → blocked ≡ p.blocked
    → catches ≡ caught p.start s
    → o ≡ pending s p.parent
    → Place p.start p.blocked p.parent
    → let q = (delivered ended blocked catches s o p).0 in Place q.start q.blocked q.parent
unfolding delivered in_loops
delivered-Place true blocked catches s o p en bl ca op h = h
delivered-Place false true catches s o p en bl ca op h = h
delivered-Place false false catches s none p en bl ca op h = h
delivered-Place false false false s (some pid) p en bl ca op h =
    Place-IsSilent p.start p.blocked p.parent (uncaught-early p.start s (sym ca)) h
delivered-Place false false true s (some pid) p en bl ca op h =
    handler-Place p.start p.blocked s pid p.parent h (sym bl) (sym en) op

sends-Place :
    (c : StartPc) (b : Bool) (s : Signal) (pid : ℕ) (a : Parent)
    → pid ≢ 0
    → Place c b a
    → Place c b (keep s pid a)
sends-Place waits b s pid a n h = tt
sends-Place (forks i) b s pid a n h = (h.0, keep-IsSilent s pid a h.1)
sends-Place unblocks b s pid a n h = (h.0, keep-IsSilent s pid a h.1)
sends-Place (exited status) b s pid a n h = keep-IsSilent s pid a h
sends-Place killed b s pid a n h = keep-IsSilent s pid a h
sends-Place (generates m) b s pid a n h = keep-IsAlone s pid a n h
sends-Place sets_sigusr1 b s pid a n h = keep-IsAlone s pid a n h
sends-Place sets_sigusr2 b s pid a n h = keep-IsAlone s pid a n h
sends-Place sets_sigchld b s pid a n h = keep-IsAlone s pid a n h
sends-Place blocks b s pid a n h = keep-IsAlone s pid a n h

happens-Place :
    (e : Event) (p : Process)
    → IsFromProcess e
    → Place p.start p.blocked p.parent
    → let q = (happens e p).0 in Place q.start q.blocked q.parent
unfolding happens
happens-Place (sends s pid) p n h = sends-Place p.start p.blocked s pid p.parent n h
happens-Place (delivers s) p n h =
    delivered-Place (has_ended p.start) p.blocked (caught p.start s) s (pending s p.parent) p refl
      refl refl refl h
happens-Place (runs r) p n h = main-Place p.start r p refl h

happening-Place :
    (es : List Event) (p : Process)
    → All IsFromProcess es
    → Place p.start p.blocked p.parent
    → let q = (happening es p).0 in Place q.start q.blocked q.parent
unfolding happening
happening-Place [] p n h = h
happening-Place (e ∷ es) p n h = happening-Place es (happens e p).0 n.1 (happens-Place e p n.0 h)

launched-IsAlone : IsAlone launched.parent
launched-IsAlone = record {
  pids = refl;
  silent = record { unwarned = refl; undone1 = refl; undone2 = refl; undone3 = refl };
  none1 = λ e. cc;
  none2 = λ e. cc;
}

-- Whatever signals come from processes, and whichever calls fail, no flag is set before the parent waits: what a worker
-- sends while the others are forked is not handled until all their numbers are stored.
pub happening-IsSilent :
    (es : List Event)
    → All IsFromProcess es
    → (happening es launched).0.start ≢ waits
    → IsSilent (happening es launched).0.parent
happening-IsSilent es n early =
    let q : Process = (happening es launched).0 in
    Place-IsSilent q.start q.blocked q.parent early (happening-Place es launched n launched-IsAlone)
