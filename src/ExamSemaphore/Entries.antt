-- ===== src/ExamSemaphore/Entries.antt =====
-- Exam/FinalExam1.c: how often a child enters its critical section.
use unx.Prelude.{
  ℕ, zero, suc, ◌+◌, ◌≤◌, Bool, true, false, Option, none, some, List, [], ◌∷◌, ◌++◌, ◌==◌, ltb,
  ◌≡◌, ◌≢◌, refl, sym, ap, arith, if◌then◌else◌, Bool-cases, inl, inr,
}
use mathlib.Core.Path.{subst}
use unx.Prelude.Slots.{get_elem?, set, total, get_elem?-set, get_elem?-set_other}
use unx.ExamSemaphore.{
  num_processes, Outcome, proceeds, fails, ChildPc, attempts, waits, critical, exited, MainPc,
  creates, sets, removes, forks, reaps, ended, World, take, give, child,
  perform_semaphore_operation, goes, Performed, blocked, failed, done, Line, attempting, entered,
  has_ended, main, reap, Move, by_main, by_child, child_move, move, moves, before,
}

-- How often the child with number `i` printed that it is in the critical section.
pub entries : ℕ → List Line → ℕ
entries i [] = 0
entries i (attempting j ∷ ls) = entries i ls
entries i (entered j ∷ ls) = (if i == j then 1 else 0) + entries i ls

entries-append : (i : ℕ) (ls ms : List Line) → entries i (ls ++ ms) ≡ entries i ls + entries i ms
unfolding entries
entries-append i [] ms = omega arith
entries-append i (attempting j ∷ ls) ms = entries-append i ls ms
entries-append i (entered j ∷ ls) ms = omega (arith, entries-append i ls ms)

-- 1 for a child that is not forked, or has not been inside.
abbrev pub may_enter : Option ChildPc → ℕ
may_enter (some critical) = 0
may_enter (some (exited s)) = 0
may_enter _ = 1

abbrev pub failed_out : Option ChildPc → ℕ
failed_out (some (exited (suc s))) = 1
failed_out _ = 0

-- The entries of a move of a child from one place to another, with those that it may still make.
record Enters (i : ℕ) (o o' : Option ChildPc) (ls : List Line) : Type 0 where
  pub most : entries i ls + may_enter o' ≤ may_enter o
  pub least : may_enter o ≤ entries i ls + may_enter o' + failed_out o'
  pub stays : failed_out o ≤ failed_out o'

goes-Enters :
    (i : ℕ) (w : World) (p : Performed)
    → let m = goes waits critical (entered i ∷ []) w p in Enters i (some waits) (some m.0) m.2
unfolding goes entries
goes-Enters i w blocked = record { most = omega arith; least = omega arith; stays = omega arith }
goes-Enters i w failed = record { most = omega arith; least = omega arith; stays = omega arith }
goes-Enters i w (done n) = record { most = ground arith; least = ground arith; stays = omega arith }

leaves-Enters :
    (i : ℕ) (w : World) (p : Performed)
    → let m = goes critical (exited 0) [] w p in Enters i (some critical) (some m.0) m.2
unfolding goes entries
leaves-Enters i w blocked = record { most = omega arith; least = omega arith; stays = omega arith }
leaves-Enters i w failed = record { most = omega arith; least = omega arith; stays = omega arith }
leaves-Enters i w (done n) = record { most = omega arith; least = omega arith; stays = omega arith }

child-Enters :
    (i : ℕ) (t : ChildPc) (e : Outcome) (w : World)
    → let m = child i t e w in Enters i (some t) (some m.0) m.2
unfolding child entries
child-Enters i attempts e w = record {
  most = omega arith;
  least = omega arith;
  stays = omega arith;
}
child-Enters i waits e w = goes-Enters i w (perform_semaphore_operation take e w.exists w.value)
child-Enters i critical e w =
    leaves-Enters i w (perform_semaphore_operation give e w.exists w.value)
child-Enters i (exited s) e w = record {
  most = omega arith;
  least = omega arith;
  stays = omega arith;
}

-- A child prints its own number only.
goes-others :
    (i j : ℕ) (w : World) (here next : ChildPc) (p : Performed)
    → i ≢ j
    → entries i (goes here next (entered j ∷ []) w p).2 ≡ 0
unfolding goes entries
goes-others i j w here next blocked n = refl
goes-others i j w here next failed n = refl
goes-others i j w here next (done k) n = ground arith

leaves-others :
    (i : ℕ) (w : World) (here next : ChildPc) (p : Performed)
    → entries i (goes here next [] w p).2 ≡ 0
unfolding goes entries
leaves-others i w here next blocked = refl
leaves-others i w here next failed = refl
leaves-others i w here next (done k) = refl

child-others :
    (i j : ℕ) (t : ChildPc) (e : Outcome) (w : World) → i ≢ j → entries i (child j t e w).2 ≡ 0
unfolding child entries
child-others i j attempts e w n = refl
child-others i j waits e w n =
    goes-others i j w waits critical (perform_semaphore_operation take e w.exists w.value) n
child-others i j critical e w n =
    leaves-others i w critical (exited 0) (perform_semaphore_operation give e w.exists w.value)
child-others i j (exited s) e w n = refl

still-Enters :
    (i : ℕ) (o o' : Option ChildPc) (ls : List Line) → o' ≡ o → entries i ls ≡ 0 → Enters i o o' ls
still-Enters i o o' ls h e = record {
  most = omega (arith, e, ap may_enter h);
  least = omega (arith, e, ap may_enter h);
  stays = omega (arith, ap failed_out h);
}

may_enter-≤ : (o : Option ChildPc) → may_enter o ≤ 1
may_enter-≤ o = ground arith

then-Enters :
    (i : ℕ) (o o' o'' : Option ChildPc) (ls ms : List Line)
    → Enters i o o' ls
    → Enters i o' o'' ms
    → Enters i o o'' (ls ++ ms)
then-Enters i o o' o'' ls ms a b = record {
  most = omega (arith, a.most, b.most, entries-append i ls ms);
  least = omega (arith, a.least, b.least, b.stays, entries-append i ls ms, may_enter-≤ o);
  stays = omega (arith, a.stays, b.stays);
}

child_move-Enters :
    (i j : ℕ) (o : Option ChildPc) (e : Outcome) (w : World)
    → get_elem? w.children j ≡ o
    → let r = child_move j o e w in Enters i (get_elem? w.children i) (get_elem? r.0.children i) r.1
unfolding child_move entries
child_move-Enters i j none e w at = still-Enters i _ _ [] refl refl
child_move-Enters i j (some t) e w at = elim (Bool-cases (i == j)) [
  | inl same ↦
      let here : i ≡ j = ground (arith, same) in
      subst
        (λ k.
          Enters k (get_elem? w.children k) (get_elem? (set j (child j t e w).0 w.children) k)
            (child j t e w).2)
        (sym here)
        (rw (at, get_elem?-set j t (child j t e w).0 w.children at) (child-Enters j t e w))
  | inr other ↦
      let apart : i ≢ j = (λ e. ground (arith, other, e)) in
      still-Enters i _ _ (child j t e w).2
        (get_elem?-set_other i j (child j t e w).0 w.children apart) (child-others i j t e w apart)
]

-- A child that is forked may enter, as before.
forks-Enters :
    (i : ℕ) (cs : List ChildPc) → Enters i (get_elem? cs i) (get_elem? (cs ++ attempts ∷ []) i) []
unfolding get_elem? entries
forks-Enters zero [] = record { most = omega arith; least = omega arith; stays = omega arith }
forks-Enters (suc i) [] = record { most = omega arith; least = omega arith; stays = omega arith }
forks-Enters zero (c ∷ cs) = still-Enters 0 (some c) (some c) [] refl refl
forks-Enters (suc i) (c ∷ cs) =
    let later = forks-Enters i cs in
    record { most = later.most; least = later.least; stays = later.stays }

reap-children : (b r : Bool) (n : ℕ) (w : World) → (reap b r n w).children ≡ w.children
unfolding reap
reap-children true r n w = refl
reap-children false true n w = refl
reap-children false false n w = refl

main-Enters :
    (i : ℕ) (c : MainPc) (e : Outcome) (w : World)
    → Enters i (get_elem? w.children i) (get_elem? (main c e w).children i) []
unfolding main entries
main-Enters i creates proceeds w = still-Enters i _ _ [] refl refl
main-Enters i creates fails w = still-Enters i _ _ [] refl refl
main-Enters i sets proceeds w = still-Enters i _ _ [] refl refl
main-Enters i sets fails w = still-Enters i _ _ [] refl refl
main-Enters i (forks zero) e w = still-Enters i _ _ [] refl refl
main-Enters i (forks (suc k)) proceeds w = forks-Enters i w.children
main-Enters i (forks (suc k)) fails w = still-Enters i _ _ [] refl refl
main-Enters i (reaps n) proceeds w =
    still-Enters i _ _ []
      (ap (λ cs. get_elem? cs i)
        (reap-children (n == num_processes) (ltb n (total has_ended w.children)) n w))
      refl
main-Enters i (reaps n) fails w =
    still-Enters i _ _ [] (ap (λ cs. get_elem? cs i) (reap-children (n == num_processes) true n w))
      refl
main-Enters i removes proceeds w = still-Enters i _ _ [] refl refl
main-Enters i removes fails w = still-Enters i _ _ [] refl refl
main-Enters i (ended s) e w = still-Enters i _ _ [] refl refl

moves-Enters :
    (i : ℕ) (ms : List Move) (w : World)
    → let r = moves ms w in Enters i (get_elem? w.children i) (get_elem? r.0.children i) r.1
unfolding moves move entries
moves-Enters i [] w = still-Enters i _ _ [] refl refl
moves-Enters i (by_main e ∷ ms) w =
    let w' : World = main w.main_pc e w in
    then-Enters i _ (get_elem? w'.children i) _ [] (moves ms w').1 (main-Enters i w.main_pc e w)
      (moves-Enters i ms w')
moves-Enters i (by_child j e ∷ ms) w =
    let r : World × List Line = child_move j (get_elem? w.children j) e w in
    then-Enters i _ (get_elem? r.0.children i) _ r.1 (moves ms r.0).1
      (child_move-Enters i j (get_elem? w.children j) e w refl) (moves-Enters i ms r.0)

-- 1 for a child that has exited with 0.
abbrev pub succeeded : Option ChildPc → ℕ
succeeded (some (exited zero)) = 1
succeeded _ = 0

succeeded-entered : (o : Option ChildPc) → may_enter o + failed_out o + succeeded o ≤ 1
succeeded-entered (some (exited zero)) = omega arith
succeeded-entered (some (exited (suc s))) = omega arith
succeeded-entered _ = omega arith

-- However the processes are interleaved and whichever calls fail, no child enters its critical section twice, and
-- one that has exited with 0 has entered it.
pub moves-once :
    (exists : Bool) (value : ℕ) (ms : List Move) (i : ℕ)
    → let r = moves ms (before exists value) in
      (entries i r.1 ≤ 1) × (succeeded (get_elem? r.0.children i) ≤ entries i r.1)
unfolding get_elem?
moves-once exists value ms i =
    let h = moves-Enters i ms (before exists value) in
    let o : Option ChildPc = get_elem? (moves ms (before exists value)).0.children i in
    (omega (arith, h.most), omega (arith, h.most, h.least, succeeded-entered o))
