-- ===== src/ExamClock/Finish.antt =====
-- Exam/exam.c: which key ends the clock.
use unx.Prelude.{
  ℕ, zero, suc, ◌+◌, ◌<◌, ◌%◌, true, false, Option, none, some, List, [], ◌∷◌, ◌++◌, ◌≡◌, ◌≢◌, refl,
  sym, ap, ◌∙◌, arith,
}
use mathlib.Core.Path.{subst}
use unx.ExamClock.{
  Screening, clear, mvprintw, nanosleep, refresh, init, deinit, process_input, command_nop,
  command_finish, paused, main_loop, looped, rounds_of, ended, main,
}

-- What so many whole rounds do, from the one with number `n` on.
unfoldable pub whole : (ℕ → ℕ) → ℕ → ℕ → List Screening
whole time n zero = []
whole time n (suc k) =
    let rest = whole time (suc n) k in
    clear ∷ mvprintw 1 2 (time n) ∷ nanosleep 100000000 ∷ refresh ∷ rest

nop : (key : ℕ) → key % 256 ≢ b' ' → process_input key ≡ command_nop
unfolding process_input
nop key h = ground arith

finish : (key : ℕ) → key % 256 ≡ b' ' → process_input key ≡ command_finish
unfolding process_input
finish key h = ground arith

rounds_of-next :
    (time getch : ℕ → ℕ) (rounds n : ℕ)
    → getch n % 256 ≢ b' '
    → rounds_of time getch (suc rounds) n
      ≡ looped true
          (clear ∷ mvprintw 1 2 (time n) ∷ nanosleep 100000000 ∷ refresh ∷ [])
          (rounds_of time getch rounds (suc n))
unfolding rounds_of main_loop paused
rounds_of-next time getch rounds n h = rw (nop (getch n) h) refl

rounds_of-last :
    (time getch : ℕ → ℕ) (rounds n : ℕ)
    → getch n % 256 ≡ b' '
    → rounds_of time getch (suc rounds) n ≡ some (clear ∷ mvprintw 1 2 (time n) ∷ [])
unfolding rounds_of main_loop paused looped
rounds_of-last time getch rounds n h =
    rw (finish (getch n) h) (last (rounds_of time getch rounds (suc n)))
  where
    last :
        (o : Option (List Screening))
        → looped false (clear ∷ mvprintw 1 2 (time n) ∷ []) o
          ≡ some (clear ∷ mvprintw 1 2 (time n) ∷ [])
    last none = refl
    last (some rest) = refl

moved : (n k : ℕ) → suc n + k ≡ n + suc k
moved n k = omega arith

from_zero : (n : ℕ) → 0 + n ≡ n
from_zero n = omega arith

stays : (n : ℕ) → n + zero ≡ n
stays n = omega arith

rounds_of-whole :
    (time getch : ℕ → ℕ) (r rounds n : ℕ)
    → ((k : ℕ) → k < r → getch (n + k) % 256 ≢ b' ')
    → getch (n + r) % 256 ≡ b' '
    → r < rounds
    → rounds_of time getch rounds n
      ≡ some (whole time n r ++ clear ∷ mvprintw 1 2 (time (n + r)) ∷ [])
unfolding whole looped
rounds_of-whole time getch r zero n before key l = absurd (omega (arith, l))
rounds_of-whole time getch zero (suc rounds) n before key l =
    rounds_of-last time getch rounds n (subst (λ m. getch m % 256 ≡ b' ') (stays n) key)
    ∙ ap (λ m. some (clear ∷ mvprintw 1 2 (time m) ∷ [])) (sym (stays n))
rounds_of-whole time getch (suc r) (suc rounds) n before key l =
    let next =
      rounds_of-whole time getch r rounds (suc n)
        (λ k h.
          subst (λ m. getch m % 256 ≢ b' ') (sym (moved n k)) (before (suc k) (omega (arith, h))))
        (subst (λ m. getch m % 256 ≡ b' ') (sym (moved n r)) key) (omega (arith, l)) in
    rounds_of-next time getch rounds n
      (subst (λ m. getch m % 256 ≢ b' ') (stays n) (before zero (omega arith)))
    ∙ ap (looped true (clear ∷ mvprintw 1 2 (time n) ∷ nanosleep 100000000 ∷ refresh ∷ [])) next
    ∙ ap (λ m. some (whole time n (suc r) ++ clear ∷ mvprintw 1 2 (time m) ∷ [])) (moved n r)

rounds_of-endless :
    (time getch : ℕ → ℕ) (rounds n : ℕ)
    → ((k : ℕ) → getch k % 256 ≢ b' ')
    → rounds_of time getch rounds n ≡ none
unfolding rounds_of looped
rounds_of-endless time getch zero n h = refl
rounds_of-endless time getch (suc rounds) n h =
    rounds_of-next time getch rounds n (h n)
    ∙ ap (looped true (clear ∷ mvprintw 1 2 (time n) ∷ nanosleep 100000000 ∷ refresh ∷ []))
        (rounds_of-endless time getch rounds (suc n) h)

-- The clock ends with the first key whose low byte is a blank, whatever key that is: after as many whole rounds as
-- there are keys before it, it clears the screen and shows the time once more, and gives the terminal back.
pub main-finish :
    (time getch : ℕ → ℕ) (r rounds : ℕ)
    → ((k : ℕ) → k < r → getch k % 256 ≢ b' ')
    → getch r % 256 ≡ b' '
    → r < rounds
    → main time getch rounds
      ≡ some (init ++ (whole time 0 r ++ clear ∷ mvprintw 1 2 (time r) ∷ []) ++ deinit)
unfolding main ended
main-finish time getch r rounds before key l = ap ended (
    rounds_of-whole time getch r rounds 0
      (λ k h. subst (λ m. getch m % 256 ≢ b' ') (sym (from_zero k)) (before k h))
      (subst (λ m. getch m % 256 ≡ b' ') (sym (from_zero r)) key) l
    ∙ ap (λ m. some (whole time 0 r ++ clear ∷ mvprintw 1 2 (time m) ∷ [])) (from_zero r))

-- Without such a key it goes on for ever.
main-endless :
    (time getch : ℕ → ℕ) (rounds : ℕ)
    → ((k : ℕ) → getch k % 256 ≢ b' ')
    → main time getch rounds ≡ none
unfolding main ended
main-endless time getch rounds h = ap ended (rounds_of-endless time getch rounds 0 h)
