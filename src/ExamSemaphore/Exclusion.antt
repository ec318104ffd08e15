-- ===== src/ExamSemaphore/Exclusion.antt =====
-- Exam/FinalExam1.c: the critical section.
use unx.Prelude.{
  ℕ, ltb, ◌==◌, zero, suc, ◌+◌, ◌≤◌, Bool, true, false, Option, none, some, List, [], ◌∷◌, ◌++◌,
  ◌≡◌, refl, sym, arith, ◌⊎◌, inl, inr,
}
use mathlib.Core.Path.{subst}
use unx.Prelude.Slots.{get_elem?, total, total-set, total-append}
use unx.ExamSemaphore.{
  num_processes, Outcome, proceeds, fails, ChildPc, attempts, waits, critical, exited, MainPc,
  creates, sets, removes, forks, reaps, ended, World, take, give, child,
  perform_semaphore_operation, goes, Performed, blocked, failed, done, Line, entered, main, reap,
  has_ended, Move, by_main, by_child, child_move, move, moves, before,
}

abbrev pub inside : ChildPc → ℕ
inside critical = 1
inside _ = 0

-- At most one of those in the critical section and the value of the semaphore; before it is set, and where
-- `main` has failed by then, there is no child.
abbrev pub Excludes : MainPc → World → Type 0
Excludes creates w = w.children ≡ []
Excludes sets w = w.children ≡ []
Excludes (ended status) w = (w.children ≡ []) ⊎ (total inside w.children + w.value ≤ 1)
Excludes _ w = total inside w.children + w.value ≤ 1

none-inside : (cs : List ChildPc) → cs ≡ [] → total inside cs ≤ 1
unfolding total
none-inside cs h = rw h (omega arith)

Excludes-inside : (c : MainPc) (w : World) → Excludes c w → total inside w.children ≤ 1
Excludes-inside creates w h = none-inside w.children h
Excludes-inside sets w h = none-inside w.children h
Excludes-inside (ended status) w (inl h) = none-inside w.children h
Excludes-inside (ended status) w (inr h) = omega (arith, h)
Excludes-inside _ w h = omega (arith, h)

take-lowers :
    (e : Outcome) (x : Bool) (v n : ℕ) → perform_semaphore_operation take e x v ≡ done n → v ≡ suc n
unfolding perform_semaphore_operation
take-lowers fails x v n h = cc
take-lowers proceeds false v n h = cc
take-lowers proceeds true zero n h = cc
take-lowers proceeds true (suc v) n h = cc

give-raises :
    (e : Outcome) (x : Bool) (v n : ℕ) → perform_semaphore_operation give e x v ≡ done n → n ≡ suc v
unfolding perform_semaphore_operation
give-raises fails x v n h = cc
give-raises proceeds false v n h = cc
give-raises proceeds true v n h = cc

-- What an operation keeps of a sum.
goes-sum :
    (here next : ChildPc) (ls : List Line) (w : World) (p : Performed)
    → ((n : ℕ) → p ≡ done n → inside next + n ≤ inside here + w.value)
    → let m = goes here next ls w p in
      (inside m.0 + m.1.value ≤ inside here + w.value) × (m.1.main_pc ≡ w.main_pc)
unfolding goes
goes-sum here next ls w blocked h = (omega arith, refl)
goes-sum here next ls w failed h = (omega arith, refl)
goes-sum here next ls w (done n) h = (h n refl, refl)

child-sum :
    (i : ℕ) (t : ChildPc) (e : Outcome) (w : World)
    → let m = child i t e w in
      (inside m.0 + m.1.value ≤ inside t + w.value) × (m.1.main_pc ≡ w.main_pc)
unfolding child
child-sum i attempts e w = (omega arith, refl)
child-sum i waits e w =
    goes-sum waits critical (entered i ∷ []) w (perform_semaphore_operation take e w.exists w.value)
      (λ n p. omega (arith, take-lowers e w.exists w.value n p))
child-sum i critical e w =
    goes-sum critical (exited 0) [] w (perform_semaphore_operation give e w.exists w.value)
      (λ n p. omega (arith, give-raises e w.exists w.value n p))
child-sum i (exited status) e w = (omega arith, refl)

-- The children, the value and the place of `main` after a move of a child.
child_move-sum :
    (i : ℕ) (o : Option ChildPc) (e : Outcome) (w : World)
    → get_elem? w.children i ≡ o
    → let w' = (child_move i o e w).0 in
      (total inside w'.children + w'.value ≤ total inside w.children + w.value)
      × (w'.main_pc ≡ w.main_pc)
unfolding child_move
child_move-sum i none e w at = (omega arith, refl)
child_move-sum i (some t) e w at =
    let m = child i t e w in
    let (sum, pc) = child-sum i t e w in
    (omega (arith, sum, total-set inside i t m.0 w.children at), pc)

child_move-none :
    (i : ℕ) (e : Outcome) (w : World)
    → w.children ≡ []
    → (child_move i (get_elem? w.children i) e w).0 ≡ w
unfolding child_move get_elem?
child_move-none i e w h = rw h refl

child_move-Excludes :
    (c : MainPc) (i : ℕ) (e : Outcome) (w : World)
    → w.main_pc ≡ c
    → Excludes c w
    → Excludes c (child_move i (get_elem? w.children i) e w).0
child_move-Excludes creates i e w at h = subst (Excludes creates) (sym (child_move-none i e w h)) h
child_move-Excludes sets i e w at h = subst (Excludes sets) (sym (child_move-none i e w h)) h
child_move-Excludes (ended s) i e w at (inl h) =
    inl (subst (λ u. u.children ≡ []) (sym (child_move-none i e w h)) h)
child_move-Excludes (ended s) i e w at (inr h) =
    inr (omega (arith, h, (child_move-sum i (get_elem? w.children i) e w refl).0))
child_move-Excludes (forks k) i e w at h =
    omega (arith, h, (child_move-sum i (get_elem? w.children i) e w refl).0)
child_move-Excludes _ i e w at h =
    omega (arith, h, (child_move-sum i (get_elem? w.children i) e w refl).0)

-- `main` forks a child that is not inside.
forked : (cs : List ChildPc) → total inside (cs ++ attempts ∷ []) ≡ total inside cs
unfolding total
forked cs = omega (arith, total-append inside cs (attempts ∷ []))

reap-Excludes :
    (b r : Bool) (n : ℕ) (w : World)
    → w.main_pc ≡ reaps n
    → Excludes (reaps n) w
    → Excludes (reap b r n w).main_pc (reap b r n w)
unfolding reap
reap-Excludes true r n w at h = h
reap-Excludes false true n w at h = h
reap-Excludes false false n w at h = subst (λ c. Excludes c w) (sym at) h

main-Excludes :
    (c : MainPc) (e : Outcome) (w : World)
    → w.main_pc ≡ c
    → Excludes c w
    → Excludes (main c e w).main_pc (main c e w)
unfolding main
main-Excludes creates proceeds w at h = h
main-Excludes creates fails w at h = inl h
main-Excludes sets proceeds w at h = rw h (omega arith)
main-Excludes sets fails w at h = inl h
main-Excludes (forks zero) e w at h = h
main-Excludes (forks (suc zero)) proceeds w at h = omega (arith, h, forked w.children)
main-Excludes (forks (suc k)) proceeds w at h = omega (arith, h, forked w.children)
main-Excludes (forks (suc k)) fails w at h = inr h
main-Excludes (reaps n) proceeds w at h =
    reap-Excludes (n == num_processes) (ltb n (total has_ended w.children)) n w at h
main-Excludes (reaps n) fails w at h = reap-Excludes (n == num_processes) true n w at h
main-Excludes removes proceeds w at h = inr h
main-Excludes removes fails w at h = inr h
main-Excludes (ended s) e w at h = subst (λ c. Excludes c w) (sym at) h

move-Excludes :
    (m : Move) (w : World) → Excludes w.main_pc w → Excludes (move m w).0.main_pc (move m w).0
unfolding move
move-Excludes (by_main e) w h = main-Excludes w.main_pc e w refl h
move-Excludes (by_child i e) w h =
    let w' : World = (child_move i (get_elem? w.children i) e w).0 in
    let (_, pc) = child_move-sum i (get_elem? w.children i) e w refl in
    subst (λ c. Excludes c w') (sym pc) (child_move-Excludes w.main_pc i e w refl h)

moves-Excludes :
    (ms : List Move) (w : World)
    → Excludes w.main_pc w
    → Excludes (moves ms w).0.main_pc (moves ms w).0
unfolding moves
moves-Excludes [] w h = h
moves-Excludes (m ∷ ms) w h = moves-Excludes ms (move m w).0 (move-Excludes m w h)

-- However the processes are interleaved, whichever calls fail, and whatever an earlier run has left of the
-- semaphore, at most one child is in the critical section.
pub moves-one_inside :
    (exists : Bool) (value : ℕ) (ms : List Move)
    → total inside (moves ms (before exists value)).0.children ≤ 1
moves-one_inside exists value ms =
    let w : World = (moves ms (before exists value)).0 in
    Excludes-inside w.main_pc w (moves-Excludes ms (before exists value) refl)
