-- ===== src/Prelude/Console.antt =====
-- std::cin as the menus use it: `>>` of an int and of a char.
use Prim.Native.Nat.{ℕ, ◌+◌, ◌≤◌}
use mathlib.Core.Path.{◌≡◌, refl, ap, ◌∙◌}
use mathlib.Core.Bool.{Bool, true, false, not}
use mathlib.Core.List.{[], ◌∷◌, ◌++◌}
use native.Mathlib.Omega.{arith}
use unx.Prelude.Tests.{leb, ◌==◌, if◌then◌else◌}
use unx.Prelude.Lists.{All, length}
use unx.Prelude.Bytes.{Bytes, is_digit, is_space, digits, decimal}
use unx.Prelude.Decimal.{IsDigit, decimal-digits, length-decimal, digits-decimal}

-- The characters to come, and whether no read has failed or met their end.
pub record Console : Type 0 where
  pub chars : Bytes
  pub good : Bool

-- An int.
pub data Signed : Type 0 where
  up down : ℕ → Signed

abbrev pub int_limit : ℕ
int_limit = 2147483647

unfoldable pub skip_space : Bytes → Bytes
skip_space [] = []
skip_space (c ∷ s) = let rest = skip_space s in if is_space c then rest else c ∷ s

-- The digits in front, and what is behind them.
unfoldable pub digits_in_front : Bytes → Bytes × Bytes
digits_in_front [] = ([], [])
digits_in_front (c ∷ s) =
    let r = digits_in_front s in if is_digit c then (c ∷ r.0, r.1) else ([], c ∷ s)

-- A value in its range, or the limit on a stream that is not good any more.
unfoldable pub in_limit : Bool → Signed → Signed → Console → Signed × Console
in_limit true n most c = (n, c)
in_limit false n most c = (most, record c { good = false })

abbrev ends : Bytes → Bool
ends [] = true
ends (c ∷ s) = false

-- A number whose digits have met the end of the input leaves the stream at its end.
unfoldable pub as_number : (ℕ → Signed) → ℕ → Bytes × Bytes → Signed × Console
unfolding in_limit
as_number sign limit ([], rest) = (up 0, record { chars = rest; good = false })
as_number sign limit (d ∷ ds, rest) =
    let n = digits 0 (d ∷ ds) in
    in_limit (leb n limit) (sign n) (sign limit) (record { chars = rest; good = not (ends rest) })

unfoldable pub with_sign : Signed → Bytes → Signed × Console
unfolding as_number digits_in_front
with_sign old [] = (old, record { chars = []; good = false })
with_sign old (c ∷ s) =
    if c == b'-'
    then as_number down (int_limit + 1) (digits_in_front s)
    else if c == b'+'
    then as_number up int_limit (digits_in_front s)
    else as_number up int_limit (digits_in_front (c ∷ s))

-- `std::cin >> n`: on a stream that is not good, or has only spaces left, `n` keeps its value; where no
-- number stands it gets 0, and where one is out of range the limit, and the stream is not good any more.
unfoldable pub extract_int : Signed → Console → Signed × Console
unfolding with_sign skip_space
extract_int old c = if c.good then with_sign old (skip_space c.chars) else (old, c)

-- `std::cin >> key`, whose character is not used.
unfoldable pub drop_one : Bytes → Console
drop_one [] = record { chars = []; good = false }
drop_one (c ∷ s) = record { chars = s; good = true }

unfoldable pub extract_char : Console → Console
unfolding drop_one skip_space
extract_char c = if c.good then drop_one (skip_space c.chars) else c

digits_in_front-stop :
    (ds : Bytes) (c : ℕ) (s : Bytes)
    → All IsDigit ds
    → is_digit c ≡ false
    → digits_in_front (ds ++ c ∷ s) ≡ (ds, c ∷ s)
unfolding digits_in_front
digits_in_front-stop [] c s h n = ground (arith, n)
digits_in_front-stop (d ∷ ds) c s h n =
    let later = digits_in_front-stop ds c s h.1 n in rw later (ground (arith, h.0))

unsigned :
    (old : Signed) (d : ℕ) (s : Bytes)
    → IsDigit d
    → with_sign old (d ∷ s) ≡ as_number up int_limit (digits_in_front (d ∷ s))
unfolding with_sign
unsigned old d s h = pick (d == b'-') (d == b'+') refl refl
  where
    pick :
        (x y : Bool)
        → (d == b'-') ≡ x
        → (d == b'+') ≡ y
        → (if x
            then as_number down (int_limit + 1) (digits_in_front s)
            else if y
            then as_number up int_limit (digits_in_front s)
            else as_number up int_limit (digits_in_front (d ∷ s)))
          ≡ as_number up int_limit (digits_in_front (d ∷ s))
    pick false false e f = refl
    pick true y e f = absurd (ground (arith, e, h))
    pick false true e f = absurd (ground (arith, f, h))

le→leb : (a b : ℕ) → a ≤ b → leb a b ≡ true
le→leb a b h = ground arith

as_number-fits :
    (d : ℕ) (ds : Bytes) (c : ℕ) (s : Bytes)
    → digits 0 (d ∷ ds) ≤ int_limit
    → as_number up int_limit (d ∷ ds, c ∷ s)
      ≡ (up (digits 0 (d ∷ ds)), record { chars = c ∷ s; good = true })
unfolding as_number in_limit
as_number-fits d ds c s h =
    ap
      (λ b.
        in_limit b (up (digits 0 (d ∷ ds))) (up int_limit) (record { chars = c ∷ s; good = true }))
      (le→leb (digits 0 (d ∷ ds)) int_limit h)

-- A text of digits with a newline behind it.
with_sign-digits :
    (old : Signed) (ds : Bytes) (s : Bytes)
    → All IsDigit ds
    → 1 ≤ length ds
    → digits 0 ds ≤ int_limit
    → with_sign old (ds ++ 10 ∷ s) ≡ (up (digits 0 ds), record { chars = 10 ∷ s; good = true })
with_sign-digits old [] s h l r = absurd (omega (arith, l))
with_sign-digits old (d ∷ ds) s h l r =
    unsigned old d (ds ++ 10 ∷ s) h.0
    ∙ ap (as_number up int_limit) (digits_in_front-stop (d ∷ ds) 10 s h refl)
    ∙ as_number-fits d ds 10 s r

skip_space-digits : (ds s : Bytes) → All IsDigit ds → 1 ≤ length ds → skip_space (ds ++ s) ≡ ds ++ s
unfolding skip_space
skip_space-digits [] s h l = absurd (omega (arith, l))
skip_space-digits (d ∷ ds) s h l = ground (arith, h.0)

-- A number is read as it was printed, whatever the variable held.
pub extract_int-decimal :
    (old : Signed) (n : ℕ) (s : Bytes)
    → n ≤ int_limit
    → extract_int old (record { chars = decimal n ++ 10 ∷ s; good = true })
      ≡ (up n, record { chars = 10 ∷ s; good = true })
unfolding extract_int
extract_int-decimal old n s h =
    let long = length-decimal n in
    ap (with_sign old) (skip_space-digits (decimal n) (10 ∷ s) (decimal-digits n) long)
    ∙ with_sign-digits old (decimal n) s (decimal-digits n) long
        (omega (arith, h, digits-decimal n))
    ∙ ap (λ m. (up m, record { chars = 10 ∷ s; good = true })) (digits-decimal n)

-- White space in front changes nothing.
pub extract_int-newline :
    (old : Signed) (s : Bytes)
    → extract_int old (record { chars = 10 ∷ s; good = true })
      ≡ extract_int old (record { chars = s; good = true })
unfolding extract_int skip_space
extract_int-newline old s = refl

-- A stream that is not good gives nothing and stays.
pub extract_int-bad : (old : Signed) (c : Console) → c.good ≡ false → extract_int old c ≡ (old, c)
unfolding extract_int
extract_int-bad old c g = rw g refl

pub extract_char-bad : (c : Console) → c.good ≡ false → extract_char c ≡ c
unfolding extract_char
extract_char-bad c g = rw g refl
