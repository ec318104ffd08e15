-- ===== src/Menus/Screen/Scripts.antt =====
-- Lab4/Lab4.cpp: what the menu does with the lines that a user types, and at the end of its input.
use unx.Prelude.{
  ℕ, zero, suc, ◌≤◌, ◌<◌, true, false, Option, none, some, List, [], ◌∷◌, ◌++◌, ◌≡◌, ◌≢◌, refl, ap,
  ◌∙◌, arith, All, length,
}
use unx.Prelude.Bytes.{Bytes, decimal, is_space, is_digit}
use unx.Prelude.Console.{
  Console, Signed, up, int_limit, extract_int, skip_space, with_sign, digits_in_front, as_number,
  extract_int-decimal, extract_int-newline, extract_int-bad,
}
use unx.Menus.{is_zero, not_zero}
use unx.Menus.Screen.{
  Device, Line, asked, turn, screen_loop, screen, with_lines, exited, exited_successfully,
}

-- What ends the loop: a line with 0, or one that starts with no number.
pub data Ending : Bytes → Type 0 where
  types_zero : (s : Bytes) → Ending (decimal 0 ++ 10 ∷ s)
  types_word :
      (c : ℕ) (s : Bytes)
      → is_digit c ≡ false
      → is_space c ≡ false
      → c ≢ b'-'
      → c ≢ b'+'
      → Ending (c ∷ s)

-- A choice that is not 0 and fits an int.
pub record IsGoing (choice : ℕ) : Type 0 where
  pub going : choice ≢ 0
  pub fits : choice ≤ int_limit

-- Lines with these choices, and what ends them.
unfoldable pub lines_of : List ℕ → Bytes → Bytes
lines_of [] ending = ending
lines_of (n ∷ ns) ending = let rest = lines_of ns ending in decimal n ++ 10 ∷ rest

is_zero-word :
    (old : Signed) (c : ℕ) (s : Bytes)
    → is_digit c ≡ false
    → is_space c ≡ false
    → c ≢ b'-'
    → c ≢ b'+'
    → is_zero (extract_int old (record { chars = c ∷ s; good = true })).0 ≡ true
unfolding extract_int skip_space with_sign digits_in_front as_number
is_zero-word old c s d w m p = ground (arith, d, w, m, p)

is_zero-Ending :
    (old : Signed) {s : Bytes}
    → Ending s
    → is_zero (extract_int old (record { chars = s; good = true })).0 ≡ true
is_zero-Ending old (types_zero s) =
    ap (λ r. is_zero r.0) (extract_int-decimal old 0 s (omega arith))
is_zero-Ending old (types_word c s d w m p) = is_zero-word old c s d w m p

module _ (dev : Device) where
  -- The answers to the choices, each at its round.
  unfoldable pub answers : ℕ → List ℕ → List Line
  answers n [] = []
  answers n (c ∷ cs) = let rest = answers (suc n) cs in asked dev n (up c) ++ rest

  turn-zero :
      (rest : Signed → Console → Option (List Line)) (n : ℕ) (r : Signed × Console)
      → is_zero r.0 ≡ true
      → turn dev rest n r ≡ some []
  unfolding turn
  turn-zero rest n r z = rw (z, turn) refl

  turn-going :
      (rest : Signed → Console → Option (List Line)) (n : ℕ) (s : Signed) (c : Console)
      (later : Option (List Line))
      → is_zero s ≡ false
      → rest s c ≡ later
      → turn dev rest n (s, c) ≡ with_lines (asked dev n s) later
  unfolding turn
  turn-going rest n s c later z e = rw (z, e, turn) refl

  screen_loop-newline :
      (rounds n : ℕ) (old : Signed) (s : Bytes)
      → screen_loop dev rounds n old (record { chars = 10 ∷ s; good = true })
        ≡ screen_loop dev rounds n old (record { chars = s; good = true })
  unfolding screen_loop
  screen_loop-newline zero n old s = refl
  screen_loop-newline (suc rounds) n old s =
      ap (turn dev (λ t c. screen_loop dev rounds (suc n) t c) n) (extract_int-newline old s)

  screen_loop-typed :
      (cs : List ℕ) (ending : Bytes) (rounds n : ℕ) (old : Signed)
      → All IsGoing cs
      → Ending ending
      → length cs < rounds
      → screen_loop dev rounds n old (record { chars = lines_of cs ending; good = true })
        ≡ some (answers n cs)
  unfolding screen_loop answers lines_of
  screen_loop-typed cs ending zero n old h e l = absurd (omega (arith, l))
  screen_loop-typed [] ending (suc rounds) n old h e l =
      turn-zero (λ s c. screen_loop dev rounds (suc n) s c) n
        (extract_int old (record { chars = ending; good = true })) (is_zero-Ending old e)
  screen_loop-typed (c ∷ cs) ending (suc rounds) n old h e l =
      let next : Signed → Console → Option (List Line) =
        λ s c. screen_loop dev rounds (suc n) s c in
      let rest = lines_of cs ending in
      ap (turn dev next n) (extract_int-decimal old c rest h.0.fits)
      ∙ turn-going next n (up c) (record { chars = 10 ∷ rest; good = true })
          (some (answers (suc n) cs)) (not_zero c h.0.going)
          (screen_loop-newline rounds (suc n) (up c) rest
            ∙ screen_loop-typed cs ending rounds (suc n) (up c) h.1 e (omega (arith, l)))

  -- With its log file and its device open, the program that is given choices that fit an int and are not 0, and then
  -- a 0 or a line that starts with no number, prints the answer to each choice that is a question, at its round, and
  -- ends with 0 in as many rounds as there are lines.
  pub screen-typed :
      (cs : List ℕ) (ending : Bytes) (rounds : ℕ) (old : Signed)
      → All IsGoing cs
      → Ending ending
      → length cs < rounds
      → screen dev rounds true true old (record { chars = lines_of cs ending; good = true })
        ≡ some (true, answers 0 cs ++ exited_successfully ∷ [])
  unfolding screen exited
  screen-typed cs ending rounds old h e l =
      ap exited (screen_loop-typed cs ending rounds 0 old h e l)

  -- At the end of the input a choice that is not 0 stays, and the loop goes on for ever.
  screen_loop-endless :
      (rounds n : ℕ) (choice : Signed) (cin : Console)
      → cin.good ≡ false
      → is_zero choice ≡ false
      → screen_loop dev rounds n choice cin ≡ none
  unfolding screen_loop with_lines
  screen_loop-endless zero n choice cin g z = refl
  screen_loop-endless (suc rounds) n choice cin g z =
      let next : Signed → Console → Option (List Line) =
        λ s c. screen_loop dev rounds (suc n) s c in
      ap (turn dev next n) (extract_int-bad choice cin g)
      ∙ turn-going next n choice cin none z (screen_loop-endless rounds (suc n) choice cin g z)
