-- ===== src/MemoryWorkers/Parent/Needs.antt =====
-- Assignment1, part 4: signals without which the parent does not end.
use unx.Prelude.{
  ℕ, zero, suc, false, Option, none, some, List, [], ◌∷◌, ◌≡◌, ◌≢◌, refl, ap, ◌∙◌, arith, All,
  replicate,
}
use unx.MemoryWorkers.{Signal, sigusr1, sigusr2}
use unx.MemoryWorkers.Parent.{
  Awaited, ParentPc, testing, suspending, suspended, finished, Parent, WorkerId, worker1, worker2,
  worker3, sender, on_sigusr1, on_sigusr2, dhsb_signal_handler, wake, Move, send, deliver, own,
  pend, handled, main_step, deliver_one, move, moves,
}
use unx.MemoryWorkers.Parent.Once.{Tells, moves-Tallies, end-flags, as_end}

-- Worker 2 is not done, and its completion is not on its way.
pub record IsMissing (pids : ℕ × ℕ × ℕ) (p : Parent) : Type 0 where
  pub mine : p.worker_pids ≡ pids
  pub undone : p.worker_2_done ≡ false
  pub unsent : p.pending2 ≢ some pids.1

main_step-IsMissing :
    {pids : ℕ × ℕ × ℕ} (c : ParentPc) (p : Parent)
    → IsMissing pids p
    → IsMissing pids (main_step c p).0
unfolding main_step
main_step-IsMissing (testing a) p h = record { mine = h.mine; undone = h.undone; unsent = h.unsent }
main_step-IsMissing c p h = ground arith

on_sigusr1-IsMissing :
    {pids : ℕ × ℕ × ℕ} (w : Option WorkerId) (p : Parent)
    → IsMissing pids p
    → IsMissing pids (handled (on_sigusr1 w p)).0
unfolding handled on_sigusr1
on_sigusr1-IsMissing (some worker3) p h = ground arith
on_sigusr1-IsMissing w p h = ground arith

on_sigusr2-IsMissing :
    {pids : ℕ × ℕ × ℕ} (w : Option WorkerId) (p : Parent)
    → w ≢ some worker2
    → IsMissing pids p
    → IsMissing pids (handled (on_sigusr2 w p)).0
unfolding handled on_sigusr2
on_sigusr2-IsMissing (some worker2) p n h = absurd (n refl)
on_sigusr2-IsMissing w p n h = ground arith

sender-worker2 : (pids : ℕ × ℕ × ℕ) (pid : ℕ) → pid ≢ pids.1 → sender pids pid ≢ some worker2
unfolding sender
sender-worker2 pids pid n h = ground arith

deliver_one-IsMissing :
    {pids : ℕ × ℕ × ℕ} (s : Signal) (o : Option ℕ) (p : Parent)
    → (s ≡ sigusr2 → o ≢ some pids.1)
    → IsMissing pids p
    → IsMissing pids (deliver_one s o p).0
unfolding deliver_one dhsb_signal_handler
deliver_one-IsMissing s none p n h = h
deliver_one-IsMissing sigusr1 (some pid) p n h =
    on_sigusr1-IsMissing (sender p.worker_pids pid) (record p { pending1 = none })
      (record { mine = h.mine; undone = h.undone; unsent = h.unsent })
deliver_one-IsMissing sigusr2 (some pid) p n h =
    on_sigusr2-IsMissing (sender p.worker_pids pid) (record p { pending2 = none })
      (sender-worker2 p.worker_pids pid (λ e. n refl (ap some (e ∙ ap (λ x. x.1) h.mine))))
      (record { mine = h.mine; undone = h.undone; unsent = λ e. cc })

pend-missing : {x : ℕ} (o : Option ℕ) (pid : ℕ) → o ≢ some x → pid ≢ x → pend o pid ≢ some x
pend-missing none pid n k e = ground arith
pend-missing (some old) pid n k e = n e

move-IsMissing :
    {pids : ℕ × ℕ × ℕ} (m : Move) (p : Parent)
    → m ≢ send sigusr2 pids.1
    → IsMissing pids p
    → IsMissing pids (move m p).0
unfolding move
move-IsMissing (send sigusr1 pid) p n h = record {
  mine = h.mine;
  undone = h.undone;
  unsent = h.unsent;
}
move-IsMissing (send sigusr2 pid) p n h = record {
  mine = h.mine;
  undone = h.undone;
  unsent = pend-missing p.pending2 pid h.unsent (λ e. n (ap (send sigusr2) e));
}
move-IsMissing (deliver sigusr1) p n h = deliver_one-IsMissing sigusr1 p.pending1 p (λ e. cc) h
move-IsMissing (deliver sigusr2) p n h =
    deliver_one-IsMissing sigusr2 p.pending2 p (λ e. h.unsent) h
move-IsMissing own p n h = main_step-IsMissing p.pc p h

moves-IsMissing :
    {pids : ℕ × ℕ × ℕ} (ms : List Move) (p : Parent)
    → All (λ m. m ≢ send sigusr2 pids.1) ms
    → IsMissing pids p
    → IsMissing pids (moves ms p).0
unfolding moves
moves-IsMissing [] p n h = h
moves-IsMissing (m ∷ ms) p n h = moves-IsMissing ms (move m p).0 n.1 (move-IsMissing m p n.0 h)

-- A parent that has not handled the completion of worker 2, and has not got it pending either, does not
-- come to its end as long as worker 2 does not send it again, whatever else happens. A completion that
-- is sent while another worker's is pending is lost in this way.
pub moves-hang :
    {pids : ℕ × ℕ × ℕ} (ms : List Move) (p : Parent)
    → Tells p.pc p
    → IsMissing pids p
    → All (λ m. m ≢ send sigusr2 pids.1) ms
    → (moves ms p).0.pc ≢ finished
moves-hang ms p tells h n e =
    let t = moves-Tallies ms p in
    let q : Parent = (moves ms p).0 in
    let (_, _, done) = end-flags q.pc q (ap as_end e) (t.tells tells) in
    let undone = (moves-IsMissing ms p n h).undone in cc

sleep-on :
    (c : ParentPc) (p : Parent) (a : Awaited)
    → c ≡ suspended a
    → p.pc ≡ c
    → (main_step c p).0.pc ≡ suspended a
unfolding main_step
sleep-on (testing b) p a e h = cc
sleep-on c p a e h = ground arith

fall-asleep :
    (c : ParentPc) (p : Parent) (a : Awaited)
    → c ≡ suspending a
    → (main_step c p).0.pc ≡ suspended a
unfolding main_step
fall-asleep (testing b) p a e = cc
fall-asleep c p a e = ground arith

on_sigusr1-pc : (w : Option WorkerId) (p : Parent) → (handled (on_sigusr1 w p)).0.pc ≡ wake p.pc
unfolding handled on_sigusr1
on_sigusr1-pc (some worker3) p = ground arith
on_sigusr1-pc w p = ground arith

on_sigusr2-pc : (w : Option WorkerId) (p : Parent) → (handled (on_sigusr2 w p)).0.pc ≡ wake p.pc
unfolding handled on_sigusr2
on_sigusr2-pc (some worker1) p = ground arith
on_sigusr2-pc w p = ground arith

deliver_one-pc :
    (s : Signal) (o : Option ℕ) (p : Parent) (a : Awaited)
    → p.pc ≡ suspending a
    → (deliver_one s o p).0.pc ≡ suspending a
unfolding deliver_one dhsb_signal_handler
deliver_one-pc s none p a h = h
deliver_one-pc sigusr1 (some pid) p a h =
    on_sigusr1-pc (sender p.worker_pids pid) (record p { pending1 = none }) ∙ ap wake h
deliver_one-pc sigusr2 (some pid) p a h =
    on_sigusr2-pc (sender p.worker_pids pid) (record p { pending2 = none }) ∙ ap wake h

deliver-pc :
    (s : Signal) (p : Parent) (a : Awaited)
    → p.pc ≡ suspending a
    → (move (deliver s) p).0.pc ≡ suspending a
unfolding move
deliver-pc sigusr1 p a h = deliver_one-pc sigusr1 p.pending1 p a h
deliver-pc sigusr2 p a h = deliver_one-pc sigusr2 p.pending2 p a h

still_asleep :
    (n : ℕ) (p : Parent) (a : Awaited)
    → p.pc ≡ suspended a
    → (moves (replicate n own) p).0.pc ≡ suspended a
unfolding moves move
still_asleep zero p a h = h
still_asleep (suc n) p a h = still_asleep n (main_step p.pc p).0 a (sleep-on p.pc p a h refl)

-- A signal that arrives after the parent has looked at a flag, and before it is in sigsuspend, does not
-- wake it: it goes to sleep, though the flag may be set, and stays asleep by itself.
pub deliver-sleeps :
    (n : ℕ) (s : Signal) (p : Parent) (a : Awaited)
    → p.pc ≡ suspending a
    → (moves (deliver s ∷ own ∷ replicate n own) p).0.pc ≡ suspended a
unfolding moves move
deliver-sleeps n s p a h =
    let q : Parent = (move (deliver s) p).0 in
    still_asleep n (main_step q.pc q).0 a (fall-asleep q.pc q a (deliver-pc s p a h))
