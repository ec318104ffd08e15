-- ===== src/ExamSemaphore/Progress.antt =====
-- Exam/FinalExam1.c: runs in which no call fails come to their end.
use unx.Prelude.{
  ℕ, zero, suc, ◌+◌, ◌≤◌, ◌<◌, Bool, true, false, some, List, [], ◌∷◌, ◌==◌, ltb, ◌≡◌, refl, sym,
  ap, arith, All, length, ◌⊎◌, inl, inr, Bool-cases,
}
use mathlib.Core.Path.{subst}
use unx.Prelude.Slots.{get_elem?, set, total, total-set, counted, uncounted}
use unx.ExamSemaphore.{
  num_processes, proceeds, fails, ChildPc, attempts, waits, critical, exited, MainPc, creates, sets,
  removes, forks, reaps, ended, World, child, perform_semaphore_operation, goes, has_ended, main,
  reap, Move, by_main, by_child, child_move, move, moves, before,
}
use unx.ExamSemaphore.Exclusion.{inside}
use unx.ExamSemaphore.Good.{
  has_failed, weight, main_weight, rank, IsCounted, AllEnded, Place, IsGood, child_move-Good,
  main-Good, forked, ended-≤,
}

abbrev pub is_proceeding : Move → Bool
is_proceeding (by_main proceeds) = true
is_proceeding (by_child i proceeds) = true
is_proceeding _ = false

move-Good : (m : Move) (w : World) → is_proceeding m ≡ true → IsGood w → IsGood (move m w).0
unfolding move
move-Good (by_main proceeds) w p h = main-Good w.main_pc w refl h.sound h.place
move-Good (by_main fails) w p h = cc
move-Good (by_child i proceeds) w p h = child_move-Good i (get_elem? w.children i) w refl h
move-Good (by_child i fails) w p h = cc

moves-Good :
    (ms : List Move) (w : World)
    → All (λ m. is_proceeding m ≡ true) ms
    → IsGood w
    → IsGood (moves ms w).0
unfolding moves
moves-Good [] w p h = h
moves-Good (m ∷ ms) w p h = moves-Good ms (move m w).0 p.1 (move-Good m w p.0 h)

before-Good : (exists : Bool) (value : ℕ) → IsGood (before exists value)
unfolding total
before-Good exists value = record { sound = refl; place = refl }

-- A move that comes nearer to the end.
pub record Nearer (w : World) : Type 0 where
  pub next : Move
  pub proceeding : is_proceeding next ≡ true
  pub nearer : rank (move next w).0 < rank w

-- A child that gets lighter.
child-Nearer :
    (i : ℕ) (t : ChildPc) (w : World)
    → get_elem? w.children i ≡ some t
    → let m = child i t proceeds w in (m.1.main_pc ≡ w.main_pc) × (weight m.0 < weight t) → Nearer w
unfolding move child_move
child-Nearer i t w at (pc, lighter) = record {
  next = by_child i proceeds;
  proceeding = refl;
  nearer = rw at (
      omega (
        arith,
        ap main_weight pc,
        lighter,
        total-set weight i t (child i t proceeds w).0 w.children at,
      ));
}

critical-lighter :
    (i : ℕ) (w : World)
    → w.exists ≡ true
    → let m = child i critical proceeds w in (m.1.main_pc ≡ w.main_pc) × (weight m.0 < 1)
unfolding child goes perform_semaphore_operation
critical-lighter i w x = rw x (refl, omega arith)

waits-lighter :
    (i v : ℕ) (w : World)
    → w.exists ≡ true
    → w.value ≡ suc v
    → let m = child i waits proceeds w in (m.1.main_pc ≡ w.main_pc) × (weight m.0 < 2)
unfolding child goes perform_semaphore_operation
waits-lighter i v w x e = rw (x, e) (refl, omega arith)

inside-Nearer :
    (i : ℕ) (t : ChildPc) (w : World)
    → get_elem? w.children i ≡ some t
    → 1 ≤ inside t
    → w.exists ≡ true
    → Nearer w
inside-Nearer i critical w at one x = child-Nearer i critical w at (critical-lighter i w x)
inside-Nearer i attempts w at one x = absurd (omega (arith, one))
inside-Nearer i _ w at one x = absurd (omega (arith, one))

-- With the semaphore set, a child that waits can go in, or the one that is inside can go on.
waiting-Nearer :
    (i v : ℕ) (w : World)
    → get_elem? w.children i ≡ some waits
    → w.value ≡ v
    → IsCounted w
    → Nearer w
waiting-Nearer i zero w at e (x, s) =
    let (j, t, there, one) = counted inside w.children (omega (arith, s, e)) in
    inside-Nearer j t w there one x
waiting-Nearer i (suc v) w at e (x, s) = child-Nearer i waits w at (waits-lighter i v w x e)

going-Nearer :
    (i : ℕ) (t : ChildPc) (w : World)
    → get_elem? w.children i ≡ some t
    → has_ended t ≡ 0
    → IsCounted w
    → Nearer w
unfolding child
going-Nearer i attempts w at o h = child-Nearer i attempts w at (refl, omega arith)
going-Nearer i waits w at o h = waiting-Nearer i w.value w at refl h
going-Nearer i critical w at o h = inside-Nearer i critical w at (omega arith) h.0
going-Nearer i (exited s) w at o h = absurd (omega (arith, o))

open-Nearer : (w : World) → IsCounted w → total has_ended w.children < length w.children → Nearer w
open-Nearer w h l =
    let (i, t, at, going) = uncounted has_ended ended-≤ w.children l in
    going-Nearer i t w at going h

-- A move of `main` that comes nearer.
main-Nearer : (w : World) → rank (main w.main_pc proceeds w) < rank w → Nearer w
unfolding move
main-Nearer w h = record { next = by_main proceeds; proceeding = refl; nearer = h }

main-at :
    (c : MainPc) (w : World)
    → w.main_pc ≡ c
    → rank (main c proceeds w) < main_weight c + total weight w.children
    → Nearer w
main-at c w at h =
    main-Nearer w
      (subst (λ k. rank (main k proceeds w) < main_weight k + total weight w.children) (sym at) h)

reaping-Nearer : (n : ℕ) (w : World) → w.main_pc ≡ reaps n → Place (reaps n) w → Nearer w
unfolding main reap
reaping-Nearer n w at (len, reaped, few, set) = elim (Bool-cases (n == num_processes)) [
  | inl last ↦ main-at (reaps n) w at (rw last (ground (arith, last)))
  | inr more ↦ elim (Bool-cases (ltb n (total has_ended w.children))) [
    | inl returns ↦ main-at (reaps n) w at (rw (more, returns) (ground (arith, more, few)))
    | inr blocks ↦ open-Nearer w set (ground (arith, more, blocks, few, len))
  ]
]

-- The end of the program, at which no step is left.
abbrev pub IsOver : World → Type 0
IsOver w = (w.main_pc ≡ ended 0) × AllEnded w × (total has_failed w.children ≡ 0)

goes_on :
    (c : MainPc) (w : World)
    → w.main_pc ≡ c
    → total has_failed w.children ≡ 0
    → Place c w
    → IsOver w ⊎ Nearer w
unfolding main
goes_on creates w at f p = inr (main-at creates w at (omega arith))
goes_on sets w at f p = inr (main-at sets w at (omega arith))
goes_on (forks zero) w at f p = inr (main-at (forks zero) w at (omega arith))
goes_on (forks (suc k)) w at f p =
    inr (main-at (forks (suc k)) w at (omega (arith, forked weight w.children)))
goes_on (reaps n) w at f p = inr (reaping-Nearer n w at p)
goes_on removes w at f p = inr (main-at removes w at (omega arith))
goes_on (ended zero) w at f p = inl (at, p, f)
goes_on (ended (suc n)) w at f p = absurd (cc p)

-- However the processes are interleaved, as long as no call fails, `main` has returned 0 with five children that
-- exited with 0, or one of the processes has a move after which fewer steps are left.
pub moves-progress :
    (exists : Bool) (value : ℕ) (ms : List Move)
    → All (λ m. is_proceeding m ≡ true) ms
    → let w = (moves ms (before exists value)).0 in IsOver w ⊎ Nearer w
moves-progress exists value ms p =
    let w : World = (moves ms (before exists value)).0 in
    let h = moves-Good ms (before exists value) p (before-Good exists value) in
    goes_on w.main_pc w refl h.sound h.place
