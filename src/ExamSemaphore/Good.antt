-- ===== src/ExamSemaphore/Good.antt =====
-- Exam/FinalExam1.c: what holds in runs in which no call fails.
use unx.Prelude.{
  ℕ, zero, suc, ◌+◌, ◌-◌, ◌*◌, ◌≤◌, Bool, true, false, Option, none, some, List, [], ◌∷◌, ◌++◌,
  ◌==◌, ltb, ◌≡◌, refl, sym, ◌∙◌, arith, length, length-append,
}
use mathlib.Core.Path.{subst}
use unx.Prelude.Slots.{
  get_elem?, set, total, total-set, total-append, length-set, total-≤, each_counts,
}
use unx.ExamSemaphore.{
  num_processes, proceeds, ChildPc, attempts, waits, critical, exited, MainPc, creates, sets,
  removes, forks, reaps, ended, World, take, give, child, perform_semaphore_operation, goes, Line,
  entered, has_ended, main, reap, child_move,
}
use unx.ExamSemaphore.Exclusion.{inside}

abbrev pub has_failed : ChildPc → ℕ
has_failed (exited (suc n)) = 1
has_failed _ = 0

-- Steps that are left.
abbrev pub weight : ChildPc → ℕ
weight attempts = 3
weight waits = 2
weight critical = 1
weight (exited status) = 0

abbrev pub main_weight : MainPc → ℕ
main_weight creates = 30
main_weight sets = 29
main_weight (forks k) = 8 + 4 * k
main_weight (reaps n) = 7 - n
main_weight removes = 1
main_weight (ended status) = 0

abbrev pub rank : World → ℕ
rank w = main_weight w.main_pc + total weight w.children

-- The semaphore counts those that may still go in.
abbrev pub IsCounted : World → Type 0
IsCounted w = (w.exists ≡ true) × (w.value + total inside w.children ≡ 1)

abbrev pub AllEnded : World → Type 0
AllEnded w = (length w.children ≡ num_processes) × (total has_ended w.children ≡ num_processes)

abbrev pub Place : MainPc → World → Type 0
Place creates w = length w.children ≡ 0
Place sets w = (length w.children ≡ 0) × (w.exists ≡ true)
Place (forks k) w = (length w.children + k ≡ num_processes) × IsCounted w
Place (reaps n) w =
    (length w.children ≡ num_processes)
    × (n ≤ total has_ended w.children)
    × (n ≤ num_processes)
    × IsCounted w
Place removes w = AllEnded w
Place (ended zero) w = AllEnded w
Place (ended (suc n)) w = true ≡ false

pub record IsGood (w : World) : Type 0 where
  pub sound : total has_failed w.children ≡ 0
  pub place : Place w.main_pc w

-- What a child's move does where the semaphore is set, with `others` of the sum elsewhere.
record Moves (t : ChildPc) (w : World) (others : ℕ) (m : ChildPc × World) : Type 0 where
  pub exists : m.1.exists ≡ true
  pub sum : m.1.value + (others + inside m.0) ≡ 1
  pub pc : m.1.main_pc ≡ w.main_pc
  pub failures : has_failed m.0 ≡ has_failed t
  pub ends : has_ended t ≤ has_ended m.0
  pub lower : weight m.0 ≤ weight t

waits-Moves :
    (ls : List Line) (b : Bool) (v : ℕ) (w : World) (others : ℕ)
    → b ≡ true
    → w.exists ≡ true
    → w.value ≡ v
    → w.value + (others + 0) ≡ 1
    → let m = goes waits critical ls w (perform_semaphore_operation take proceeds b v) in
      Moves waits w others (m.0, m.1)
unfolding goes perform_semaphore_operation
waits-Moves ls false v w others b x e s = cc
waits-Moves ls true zero w others b x e s = record {
  exists = x;
  sum = s;
  pc = refl;
  failures = refl;
  ends = omega arith;
  lower = omega arith;
}
waits-Moves ls true (suc v) w others b x e s = record {
  exists = x;
  sum = omega (arith, s, e);
  pc = refl;
  failures = refl;
  ends = omega arith;
  lower = omega arith;
}

critical-Moves :
    (b : Bool) (w : World) (others : ℕ)
    → b ≡ true
    → w.exists ≡ true
    → w.value + (others + 1) ≡ 1
    → let m = goes critical (exited 0) [] w (perform_semaphore_operation give proceeds b w.value) in
      Moves critical w others (m.0, m.1)
unfolding goes perform_semaphore_operation
critical-Moves false w others b x s = cc
critical-Moves true w others b x s = record {
  exists = x;
  sum = omega (arith, s);
  pc = refl;
  failures = refl;
  ends = omega arith;
  lower = omega arith;
}

child-Moves :
    (i : ℕ) (t : ChildPc) (w : World) (others : ℕ)
    → w.exists ≡ true
    → w.value + (others + inside t) ≡ 1
    → let m = child i t proceeds w in Moves t w others (m.0, m.1)
unfolding child
child-Moves i attempts w others x s = record {
  exists = x;
  sum = s;
  pc = refl;
  failures = refl;
  ends = omega arith;
  lower = omega arith;
}
child-Moves i waits w others x s = waits-Moves (entered i ∷ []) w.exists w.value w others x x refl s
child-Moves i critical w others x s = critical-Moves w.exists w others x x s
child-Moves i (exited status) w others x s = record {
  exists = x;
  sum = s;
  pc = refl;
  failures = refl;
  ends = omega arith;
  lower = omega arith;
}

-- The sums over the children after a move of one.
child_move-sums :
    (i : ℕ) (t : ChildPc) (w : World)
    → get_elem? w.children i ≡ some t
    → IsCounted w
    → let w' = (child_move i (some t) proceeds w).0 in
      IsCounted w'
      × (total has_failed w'.children ≡ total has_failed w.children)
      × (total has_ended w.children ≤ total has_ended w'.children)
      × (w'.main_pc ≡ w.main_pc)
unfolding child_move
child_move-sums i t w at (x, s) =
    let m = child i t proceeds w in
    let rest = total-set inside i t (exited 0) w.children at in
    let k =
      child-Moves i t w (total inside (set i (exited 0) w.children)) x (omega (arith, s, rest)) in
    (
      (k.exists, omega (arith, k.sum, rest, total-set inside i t m.0 w.children at)),
      omega (arith, k.failures, total-set has_failed i t m.0 w.children at),
      omega (arith, k.ends, total-set has_ended i t m.0 w.children at),
      k.pc,
    )

nothing_there :
    (cs : List ChildPc) (i : ℕ) (t : ChildPc)
    → length cs ≡ 0
    → get_elem? cs i ≡ some t
    → (true ≡ false)
unfolding get_elem?
nothing_there [] i t h at = cc
nothing_there (c ∷ cs) i t h at = absurd (omega (arith, h))

pub ended-≤ : (t : ChildPc) → has_ended t ≤ 1
ended-≤ t = ground arith

-- A child's move where all have ended.
over-Good :
    (i : ℕ) (t : ChildPc) (w : World)
    → get_elem? w.children i ≡ some t
    → has_ended t ≡ 1
    → total has_failed w.children ≡ 0
    → AllEnded w
    → let w' = (child_move i (some t) proceeds w).0 in
      (total has_failed w'.children ≡ 0) × AllEnded w' × (w'.main_pc ≡ w.main_pc)
unfolding child_move child
over-Good i (exited s) w at e f (len, all) = (
  omega (arith, f, total-set has_failed i (exited s) (exited s) w.children at),
  (
    omega (arith, len, length-set i (exited s) w.children),
    omega (arith, all, total-set has_ended i (exited s) (exited s) w.children at),
  ),
  refl,
)
over-Good i attempts w at e f h = cc
over-Good i _ w at e f h = cc

child-length :
    (i : ℕ) (t : ChildPc) (w : World)
    → length (child_move i (some t) proceeds w).0.children ≡ length w.children
unfolding child_move
child-length i t w = length-set i (child i t proceeds w).0 w.children

good :
    (w : World) (c : MainPc)
    → w.main_pc ≡ c
    → total has_failed w.children ≡ 0
    → Place c w
    → IsGood w
good w c at f p = record { sound = f; place = subst (λ k. Place k w) (sym at) p }

child_move-Place :
    (i : ℕ) (t : ChildPc) (w : World) (c : MainPc)
    → get_elem? w.children i ≡ some t
    → w.main_pc ≡ c
    → total has_failed w.children ≡ 0
    → Place c w
    → IsGood (child_move i (some t) proceeds w).0
child_move-Place i t w creates at pc f p = absurd (cc (nothing_there w.children i t p at))
child_move-Place i t w sets at pc f p = absurd (cc (nothing_there w.children i t p.0 at))
child_move-Place i t w (forks k) at pc f (len, set) =
    let (still, bad, more, same) = child_move-sums i t w at set in
    good (child_move i (some t) proceeds w).0 (forks k) (same ∙ pc) (bad ∙ f)
      (omega (arith, len, child-length i t w), still)
child_move-Place i t w (reaps n) at pc f (len, reaped, few, set) =
    let (still, bad, more, same) = child_move-sums i t w at set in
    good (child_move i (some t) proceeds w).0 (reaps n) (same ∙ pc) (bad ∙ f)
      (omega (arith, len, child-length i t w), omega (arith, reaped, more), few, still)
child_move-Place i t w removes at pc f (len, all) =
    let (bad, over, same) =
      over-Good i t w at (each_counts has_ended ended-≤ w.children i t (omega (arith, len, all)) at)
        f (len, all) in
    good (child_move i (some t) proceeds w).0 removes (same ∙ pc) bad over
child_move-Place i t w (ended zero) at pc f (len, all) =
    let (bad, over, same) =
      over-Good i t w at (each_counts has_ended ended-≤ w.children i t (omega (arith, len, all)) at)
        f (len, all) in
    good (child_move i (some t) proceeds w).0 (ended zero) (same ∙ pc) bad over
child_move-Place i t w (ended (suc n)) at pc f p = absurd (cc p)

pub child_move-Good :
    (i : ℕ) (o : Option ChildPc) (w : World)
    → get_elem? w.children i ≡ o
    → IsGood w
    → IsGood (child_move i o proceeds w).0
unfolding child_move
child_move-Good i none w at h = h
child_move-Good i (some t) w at h = child_move-Place i t w w.main_pc at refl h.sound h.place

pub forked :
    (f : ChildPc → ℕ) (cs : List ChildPc) → total f (cs ++ attempts ∷ []) ≡ total f cs + f attempts
unfolding total
forked f cs = omega (arith, total-append f cs (attempts ∷ []))

pub no_child : (f : ChildPc → ℕ) (cs : List ChildPc) → length cs ≡ 0 → total f cs ≡ 0
unfolding total
no_child f [] h = refl
no_child f (c ∷ cs) h = absurd (omega (arith, h))

reap-Good :
    (b r : Bool) (n : ℕ) (w : World)
    → (n == num_processes) ≡ b
    → ltb n (total has_ended w.children) ≡ r
    → w.main_pc ≡ reaps n
    → total has_failed w.children ≡ 0
    → Place (reaps n) w
    → IsGood (reap b r n w)
unfolding reap
reap-Good true r n w b l at f (len, reaped, few, set) = record {
  sound = f;
  place = (len, ground (arith, b, reaped, len, total-≤ has_ended ended-≤ w.children));
}
reap-Good false true n w b l at f (len, reaped, few, set) = record {
  sound = f;
  place = (len, ground (arith, l), ground (arith, b, few), set);
}
reap-Good false false n w b l at f p = good w (reaps n) at f p

pub main-Good :
    (c : MainPc) (w : World)
    → w.main_pc ≡ c
    → total has_failed w.children ≡ 0
    → Place c w
    → IsGood (main c proceeds w)
unfolding main
main-Good creates w at f p = record { sound = f; place = (p, refl) }
main-Good sets w at f p = record {
  sound = f;
  place = (omega (arith, p.0), (p.1, omega (arith, no_child inside w.children p.0)));
}
main-Good (forks zero) w at f (len, set) = record {
  sound = f;
  place = (omega (arith, len), omega arith, omega arith, set);
}
main-Good (forks (suc k)) w at f (len, (x, s)) = record {
  sound = omega (arith, f, forked has_failed w.children);
  place = (
    omega (arith, len, length-append w.children (attempts ∷ [])),
    (x, omega (arith, s, forked inside w.children)),
  );
}
main-Good (reaps n) w at f p =
    reap-Good (n == num_processes) (ltb n (total has_ended w.children)) n w refl refl at f p
main-Good removes w at f p = record { sound = f; place = p }
main-Good (ended zero) w at f p = good w (ended zero) at f p
main-Good (ended (suc n)) w at f p = absurd (cc p)
