-- ===== src/Prelude/Decimal.antt =====
-- Decimal numbers are read as they are printed.
use unx.Prelude.{
  ℕ, zero, suc, ◌+◌, ◌-◌, ◌*◌, ◌/◌, ◌%◌, ◌≤◌, ◌<◌, Bool, true, false, [], ◌∷◌, ◌++◌, ◌≡◌, ltb,
  if◌then◌else◌, refl, ap, ◌∙◌, arith, All, All-append, length, length-append,
}
use unx.Prelude.Bytes.{Bytes, decimal_fuel, decimal, digits}

abbrev pub IsDigit : ℕ → Type 0
IsDigit c = (48 ≤ c) × (c ≤ 57)

-- One round of the printer, whose test is made first.
round-digits :
    (n : ℕ) (more : Bytes)
    → All IsDigit more
    → All IsDigit (if ltb n 10 then (b'0' + n) ∷ [] else more ++ (b'0' + n % 10) ∷ [])
round-digits n more all = pick (ltb n 10) refl
  where
    pick :
        (b : Bool)
        → ltb n 10 ≡ b
        → All IsDigit (if b then (b'0' + n) ∷ [] else more ++ (b'0' + n % 10) ∷ [])
    pick true e = ((omega arith, ground arith), tt)
    pick false e = All-append IsDigit more _ all ((omega arith, omega arith), tt)

decimal_fuel-digits : (f n : ℕ) → All IsDigit (decimal_fuel f n)
unfolding decimal_fuel
decimal_fuel-digits zero n = tt
decimal_fuel-digits (suc f) n =
    round-digits n (decimal_fuel f (n / 10)) (decimal_fuel-digits f (n / 10))

pub decimal-digits : (n : ℕ) → All IsDigit (decimal n)
unfolding decimal
decimal-digits n = decimal_fuel-digits (suc n) n

pub length-decimal : (n : ℕ) → 1 ≤ length (decimal n)
unfolding decimal decimal_fuel
length-decimal n = pick (ltb n 10)
  where
    pick :
        (b : Bool)
        → 1
          ≤ length (if b then (b'0' + n) ∷ [] else decimal_fuel n (n / 10) ++ (b'0' + n % 10) ∷ [])
    pick true = omega arith
    pick false = omega (arith, length-append (decimal_fuel n (n / 10)) ((b'0' + n % 10) ∷ []))

pub digits-append :
    (a : ℕ) (s t : Bytes) → All IsDigit s → digits a (s ++ t) ≡ digits (digits a s) t
unfolding digits
digits-append a [] t h = refl
digits-append a (c ∷ s) t h = ground (arith, h.0, digits-append (10 * a + (c - 48)) s t h.1)

digits-last : (m d : ℕ) → d < 10 → digits m ((b'0' + d) ∷ []) ≡ 10 * m + d
unfolding digits
digits-last m d h = ground arith

round-number :
    (f n : ℕ)
    → n < suc f
    → (n / 10 < f → digits 0 (decimal_fuel f (n / 10)) ≡ n / 10)
    → digits 0
        (if ltb n 10 then (b'0' + n) ∷ [] else decimal_fuel f (n / 10) ++ (b'0' + n % 10) ∷ [])
      ≡ n
round-number f n h later = pick (ltb n 10) refl
  where
    pick :
        (b : Bool)
        → ltb n 10 ≡ b
        → digits 0 (if b then (b'0' + n) ∷ [] else decimal_fuel f (n / 10) ++ (b'0' + n % 10) ∷ [])
          ≡ n
    pick true e = digits-last 0 n (ground arith) ∙ omega arith
    pick false e =
        digits-append 0 (decimal_fuel f (n / 10)) ((b'0' + n % 10) ∷ [])
          (decimal_fuel-digits f (n / 10))
        ∙ ap (λ m. digits m ((b'0' + n % 10) ∷ [])) (later (ground arith))
        ∙ digits-last (n / 10) (n % 10) (omega arith)
        ∙ omega arith

digits-fuel : (f n : ℕ) → n < f → digits 0 (decimal_fuel f n) ≡ n
unfolding decimal_fuel
digits-fuel zero n h = absurd (omega arith)
digits-fuel (suc f) n h = round-number f n h (digits-fuel f (n / 10))

-- The number that a text with the digits of `n` in front makes.
pub digits-decimal : (n : ℕ) → digits 0 (decimal n) ≡ n
unfolding decimal
digits-decimal n = digits-fuel (suc n) n (omega arith)
