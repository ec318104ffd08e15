-- ===== src/MemoryWorkers/Parent/Once.antt =====
-- Assignment1, part 4: what the parent prints, and when.
use unx.Prelude.{
  ℕ, ◌+◌, ◌≤◌, Bool, true, false, Option, none, some, List, [], ◌∷◌, ◌++◌, ◌≡◌, refl, sym, ◌∙◌,
  arith,
}
use mathlib.Core.Path.{subst}
use unx.MemoryWorkers.{Signal, sigusr1, sigusr2}
use unx.MemoryWorkers.Parent.{
  Line, memory_warning, first, second, ParentPc, testing, suspending, suspended, finished, Parent,
  WorkerId, worker1, worker3, sender, on_sigusr1, on_sigusr2, dhsb_signal_handler, Move, send,
  deliver, own, handled, main_step, deliver_one, move, moves, forked,
}
use unx.MemoryWorkers.Parent.Counts.{
  first_lines, first_lines-append, last_lines, last_lines-append, second_lines, second_lines-append,
  warnings, warnings-append,
}

abbrev pub as_count : Bool → ℕ
as_count true = 1
as_count false = 0

abbrev pub as_end : ParentPc → ℕ
as_end finished = 1
as_end _ = 0

-- The flags that a place of `main` tells.
abbrev pub Tells : ParentPc → Parent → Type 0
Tells (testing memory_warning) p = Unit
Tells (suspending memory_warning) p = Unit
Tells (suspended memory_warning) p = Unit
Tells (testing first) p = p.memory_warned_worker_3 ≡ true
Tells (suspending first) p = p.memory_warned_worker_3 ≡ true
Tells (suspended first) p = p.memory_warned_worker_3 ≡ true
Tells (testing second) p = (p.memory_warned_worker_3 ≡ true) × (p.worker_1_done ≡ true)
Tells (suspending second) p = (p.memory_warned_worker_3 ≡ true) × (p.worker_1_done ≡ true)
Tells (suspended second) p = (p.memory_warned_worker_3 ≡ true) × (p.worker_1_done ≡ true)
Tells _ p = (p.memory_warned_worker_3 ≡ true) × (p.worker_1_done ≡ true) × (p.worker_2_done ≡ true)

-- The lines that a move prints are those of the flags that it sets.
pub record Tallies (p : Parent) (r : Parent × List Line) : Type 0 where
  warned : as_count p.memory_warned_worker_3 + warnings r.1 ≡ as_count r.0.memory_warned_worker_3
  done1 : as_count p.worker_1_done + first_lines r.1 ≡ as_count r.0.worker_1_done
  done2 : as_count p.worker_2_done + second_lines r.1 ≡ as_count r.0.worker_2_done
  ended : as_end p.pc + last_lines r.1 ≡ as_end r.0.pc
  pub tells : Tells p.pc p → Tells r.0.pc r.0

pub main_step-Tallies : (c : ParentPc) (p : Parent) → p.pc ≡ c → Tallies p (main_step c p)
unfolding main_step warnings first_lines second_lines last_lines
main_step-Tallies (testing memory_warning) p e = record {
  warned = ground arith;
  done1 = ground arith;
  done2 = ground arith;
  ended = ground arith;
  tells = ground arith;
}
main_step-Tallies (testing first) p e = record {
  warned = ground arith;
  done1 = ground arith;
  done2 = ground arith;
  ended = ground arith;
  tells = ground arith;
}
main_step-Tallies c p e = ground arith

handler1-Tallies :
    (w : Option WorkerId) (p : Parent) (c : ParentPc)
    → p.pc ≡ c
    → Tallies p (handled (on_sigusr1 w p))
unfolding handled on_sigusr1 warnings first_lines second_lines last_lines
handler1-Tallies (some worker3) p (testing memory_warning) e = ground arith
handler1-Tallies w p c e = ground arith

handler2-Tallies :
    (w : Option WorkerId) (p : Parent) (c : ParentPc)
    → p.pc ≡ c
    → Tallies p (handled (on_sigusr2 w p))
unfolding handled on_sigusr2 warnings first_lines second_lines last_lines
handler2-Tallies (some worker1) p (testing memory_warning) e = ground arith
handler2-Tallies w p c e = ground arith

pub nothing-Tallies : (p : Parent) → Tallies p (p, [])
unfolding warnings first_lines second_lines last_lines
nothing-Tallies p = record {
  warned = omega arith;
  done1 = omega arith;
  done2 = omega arith;
  ended = omega arith;
  tells = λ h. h;
}

-- What is pending is no flag.
Tells-pending :
    (c : ParentPc) (p q : Parent)
    → p.memory_warned_worker_3 ≡ q.memory_warned_worker_3
    → p.worker_1_done ≡ q.worker_1_done
    → p.worker_2_done ≡ q.worker_2_done
    → Tells c p
    → Tells c q
Tells-pending (testing memory_warning) p q a b c h = tt
Tells-pending (testing first) p q a b c h = sym a ∙ h
Tells-pending d p q a b c h = ground arith

pub pending-Tallies :
    (p q : Parent)
    → p.memory_warned_worker_3 ≡ q.memory_warned_worker_3
    → p.worker_1_done ≡ q.worker_1_done
    → p.worker_2_done ≡ q.worker_2_done
    → p.pc ≡ q.pc
    → Tallies p (q, [])
unfolding warnings first_lines second_lines last_lines
pending-Tallies p q a b c d = record {
  warned = ground arith;
  done1 = ground arith;
  done2 = ground arith;
  ended = ground arith;
  tells = λ h. Tells-pending q.pc p q a b c (subst (λ x. Tells x p) d h);
}

pub deliver_one-Tallies : (s : Signal) (o : Option ℕ) (p : Parent) → Tallies p (deliver_one s o p)
unfolding deliver_one dhsb_signal_handler
deliver_one-Tallies s none p = nothing-Tallies p
deliver_one-Tallies sigusr1 (some pid) p =
    let t = handler1-Tallies (sender p.worker_pids pid) (record p { pending1 = none }) p.pc refl in
    record {
      warned = t.warned;
      done1 = t.done1;
      done2 = t.done2;
      ended = t.ended;
      tells = λ h. t.tells (Tells-pending p.pc p (record p { pending1 = none }) refl refl refl h);
    }
deliver_one-Tallies sigusr2 (some pid) p =
    let t = handler2-Tallies (sender p.worker_pids pid) (record p { pending2 = none }) p.pc refl in
    record {
      warned = t.warned;
      done1 = t.done1;
      done2 = t.done2;
      ended = t.ended;
      tells = λ h. t.tells (Tells-pending p.pc p (record p { pending2 = none }) refl refl refl h);
    }

move-Tallies : (m : Move) (p : Parent) → Tallies p (move m p)
unfolding move warnings first_lines second_lines last_lines
move-Tallies (send sigusr1 pid) p = pending-Tallies p _ refl refl refl refl
move-Tallies (send sigusr2 pid) p = pending-Tallies p _ refl refl refl refl
move-Tallies (deliver sigusr1) p = deliver_one-Tallies sigusr1 p.pending1 p
move-Tallies (deliver sigusr2) p = deliver_one-Tallies sigusr2 p.pending2 p
move-Tallies own p = main_step-Tallies p.pc p refl

pub then-Tallies :
    (p : Parent) (r : Parent × List Line) (q : Parent × List Line)
    → Tallies p r
    → Tallies r.0 q
    → Tallies p (q.0, r.1 ++ q.1)
then-Tallies p r q a b = record {
  warned = omega (arith, a.warned, b.warned, warnings-append r.1 q.1);
  done1 = omega (arith, a.done1, b.done1, first_lines-append r.1 q.1);
  done2 = omega (arith, a.done2, b.done2, second_lines-append r.1 q.1);
  ended = omega (arith, a.ended, b.ended, last_lines-append r.1 q.1);
  tells = λ h. b.tells (a.tells h);
}

pub moves-Tallies : (ms : List Move) (p : Parent) → Tallies p (moves ms p)
unfolding moves
moves-Tallies [] p = nothing-Tallies p
moves-Tallies (m ∷ ms) p =
    then-Tallies p (move m p) (moves ms (move m p).0) (move-Tallies m p)
      (moves-Tallies ms (move m p).0)

pub end-flags :
    (c : ParentPc) (p : Parent)
    → as_end c ≡ 1
    → Tells c p
    → (p.memory_warned_worker_3 ≡ true) × (p.worker_1_done ≡ true) × (p.worker_2_done ≡ true)
end-flags finished p e h = h
end-flags (testing memory_warning) p e h = absurd (omega arith)
end-flags _ p e h = absurd (omega arith)

count-≤ : (b : Bool) → as_count b ≤ 1
count-≤ b = ground arith

end-Tells :
    (c : ParentPc) (p : Parent)
    → Tells c p
    → (as_end c ≤ as_count p.memory_warned_worker_3)
      × (as_end c ≤ as_count p.worker_1_done)
      × (as_end c ≤ as_count p.worker_2_done)
end-Tells finished p h = ground (arith, h)
end-Tells _ p h = (omega arith, omega arith, omega arith)

-- Of the warning, the two completions and the last line each is printed at most once, and the last one only
-- with the three others.
abbrev pub IsOrderly : List Line → Type 0
IsOrderly ls =
    (warnings ls ≤ 1)
    × (first_lines ls ≤ 1)
    × (second_lines ls ≤ 1)
    × (last_lines ls ≤ warnings ls)
    × (last_lines ls ≤ first_lines ls)
    × (last_lines ls ≤ second_lines ls)

pub Tallies-IsOrderly :
    (pids : ℕ × ℕ × ℕ) (p : Parent) (ls : List Line) → Tallies (forked pids) (p, ls) → IsOrderly ls
Tallies-IsOrderly pids p ls t =
    let (w, a, b) = end-Tells p.pc p (t.tells tt) in
    (
      omega (arith, t.warned, count-≤ p.memory_warned_worker_3),
      omega (arith, t.done1, count-≤ p.worker_1_done),
      omega (arith, t.done2, count-≤ p.worker_2_done),
      omega (arith, t.ended, t.warned, w),
      omega (arith, t.ended, t.done1, a),
      omega (arith, t.ended, t.done2, b),
    )

-- Whatever signals come to the parent behind its forks and in whatever order, it prints in this way.
pub moves-prints : (pids : ℕ × ℕ × ℕ) (ms : List Move) → IsOrderly (moves ms (forked pids)).1
moves-prints pids ms = Tallies-IsOrderly pids _ _ (moves-Tallies ms (forked pids))
