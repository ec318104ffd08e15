-- ===== src/ExamSemaphore/Examples.antt =====
-- Exam/FinalExam1.c: the theorems at a run of two children.
use unx.Prelude.{◌≤◌, true, some, List, [], ◌∷◌, ◌++◌, ◌≡◌, refl, ◌⊎◌, replicate}
use unx.Prelude.Slots.{get_elem?, total}
use unx.ExamSemaphore.{proceeds, fails, exited, Move, by_main, by_child, moves, before}
use unx.ExamSemaphore.Exclusion.{inside, moves-one_inside}
use unx.ExamSemaphore.Progress.{IsOver, Nearer, moves-progress}
use unx.ExamSemaphore.Entries.{entries, succeeded, moves-once}

-- Both are forked before the first one is in its section.
abbrev run : List Move
run =
    replicate 4 (by_main proceeds)
    ++ (by_child 0 proceeds
        ∷ by_child 1 proceeds
        ∷ by_child 0 proceeds
        ∷ by_child 1 proceeds
        ∷ by_child 0 proceeds
        ∷ [])

moves-one_inside_example :
    total inside (moves (run ++ by_child 1 fails ∷ []) (before true 7)).0.children ≤ 1
moves-one_inside_example = moves-one_inside true 7 (run ++ by_child 1 fails ∷ [])

moves-progress_example : let w = (moves run (before true 7)).0 in IsOver w ⊎ Nearer w
moves-progress_example =
    moves-progress true 7 run
      (refl, (refl, (refl, (refl, (refl, (refl, (refl, (refl, (refl, tt)))))))))

moves-once_example :
    let r = moves run (before true 7) in
    (entries 0 r.1 ≤ 1) × (succeeded (get_elem? r.0.children 0) ≤ entries 0 r.1)
moves-once_example = moves-once true 7 run 0

first_done : get_elem? (moves run (before true 7)).0.children 0 ≡ some (exited 0)
unfolding moves
first_done = refl
