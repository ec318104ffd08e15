-- ===== src/Automobile/Examples.antt =====
-- Assignment3/Automobile.cpp: the theorems at a car, with whole numbers of hundredths in place of double.
use unx.Prelude.{
  ℕ, zero, suc, ◌+◌, ◌-◌, ◌*◌, ◌/◌, ◌≤◌, Bool, true, false, not, ◌&&◌, List, [], ◌∷◌, ◌==◌, ltb,
  leb, if◌then◌else◌, ◌≡◌, ◌↔◌, refl, length, some, All, replicate, ◌++◌,
}
use unx.Automobile.{
  Double, Identity, Automobile, Method, add_fuel, drive, automobile, calls, call, and_then,
  log_message, full_message, empty_message, message_size, distances,
}
use unx.Prelude.Bytes.{codes}
use unx.Automobile.Messages.{words, messages-fit}
use unx.Automobile.Simulator.{main, simulate, created, round, each, overruns, civic}

data Signed : Type 0 where
  up down : ℕ → Signed

-- Hundredths: a literal with two decimals is itself.
abbrev hundredths : ℕ → ℕ → Signed
hundredths n zero = up (n * 100)
hundredths n (suc zero) = up (n * 10)
hundredths n _ = up n

abbrev plus : Signed → Signed → Signed
plus (up a) (up b) = up (a + b)
plus (up a) (down b) = if leb b a then up (a - b) else down (b - a)
plus (down a) (up b) = if leb a b then up (b - a) else down (a - b)
plus (down a) (down b) = down (a + b)

abbrev minus : Signed → Signed → Signed
minus a (up b) = plus a (down b)
minus a (down b) = plus a (up b)

abbrev times : Signed → Signed → Signed
times (up a) (up b) = up (a * b / 100)
times (up a) (down zero) = up 0
times (up a) (down (suc b)) = down (a * suc b / 100)
times (down zero) b = up 0
times (down (suc a)) (up b) = down (suc a * b / 100)
times (down (suc a)) (down b) = up (suc a * b / 100)

-- Only a quotient by 100 is used.
abbrev over : Signed → Signed → Signed
over (up a) b = up (a / 100)
over (down a) b = down (a / 100)

abbrev less : Signed → Signed → Bool
less (up a) (up b) = ltb a b
less (up a) (down b) = false
less (down a) (up b) = not ((a == 0) && (b == 0))
less (down a) (down b) = ltb b a

abbrev money : Double
money = record {
  Value = Signed;
  literal = hundredths;
  plus = plus;
  minus = minus;
  times = times;
  over = over;
  less = less;
}

-- A car whose name is short enough: its words have 16 characters.
abbrev fiat : Identity
fiat = record { make = codes "Fiat"; model = codes "Panda"; colour = codes "red"; year = 2012 }

abbrev new_fiat : Automobile money
new_fiat = record { identity = fiat; fuel_in_tank = up 0; fuel_efficiency = up 580 }

-- It is filled twice, which is too much, and driven further than it comes.
abbrev too_far : List (Method money)
too_far = add_fuel (up 4000) ∷ add_fuel (up 4000) ∷ drive (up 200000) ∷ []

-- The four cars of the program write behind their buffers in the first round.
main_overruns : main money (true ∷ []) (up 0) (up 0) (up 0) (up 0) ≡ overruns
unfolding main simulate created automobile round each calls call and_then log_message full_message
    empty_message distances unx.Prelude.Bytes.decimal
main_overruns = refl

messages-fit_example :
    ((length (full_message civic) + 1 ≤ message_size) ↔ (words civic ≤ 16))
    × ((length (empty_message civic) + 1 ≤ message_size) ↔ (words civic ≤ 27))
messages-fit_example = messages-fit civic

-- Its words have 17 characters.
civic-words : words civic ≡ 17
unfolding words unx.Prelude.Bytes.decimal
civic-words = refl
