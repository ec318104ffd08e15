-- ===== src/HardwareDevice/Displays.antt =====
-- Lab5a: what the stores of the thread do to the buffer that the clock shows.
use unx.Prelude.{
  ℕ, zero, suc, ◌+◌, ◌-◌, ◌%◌, ◌^◌, ◌<◌, [], ◌∷◌, ◌++◌, ◌≡◌, replicate, refl, ap, ◌∙◌, arith,
}
use unx.Prelude.Bytes.{Bytes}
use mathlib.Core.Path.{ap₂}
use unx.HardwareDevice.{store, change, increment, wrapped, wrap}
use unx.HardwareDevice.Clock.{letter, display, changing}

incremented-letter : (n : ℕ) → (letter n + 1) % 2 ^ 8 ≡ letter n + 1
incremented-letter n = ground arith

wrapped-letter : (n : ℕ) → wrapped (letter n + 1) ≡ letter (n + 1)
unfolding wrapped
wrapped-letter n = ground arith

change-at :
    (f : ℕ → ℕ) (i a b c : ℕ) (t : Bytes)
    → f b ≡ c
    → change f i (replicate i a ++ (b ∷ t)) ≡ replicate i a ++ (c ∷ t)
unfolding change
change-at f zero a b c t h = ap (λ x. x ∷ t) h
change-at f (suc i) a b c t h = ap (◌∷◌ a) (change-at f i a b c t h)

replicate-next : (i a : ℕ) (t : Bytes) → replicate i a ++ (a ∷ t) ≡ replicate (suc i) a ++ t
replicate-next zero a t = refl
replicate-next (suc i) a t = ap (◌∷◌ a) (replicate-next i a t)

store-at :
    (i k a b : ℕ)
    → store i a (replicate i a ++ replicate (suc k) b) ≡ replicate (suc i) a ++ replicate k b
unfolding store
store-at zero k a b = refl
store-at (suc i) k a b = ap (◌∷◌ a) (store-at i k a b)

pub increment-display : (n i : ℕ) → i < 15 → increment i (display n i) ≡ changing n i
unfolding display changing increment
increment-display n i h =
    let old : 15 - i ≡ suc (14 - i) = omega arith in
    let add : ℕ → ℕ = λ c. (c + 1) % 2 ^ 8 in
    ap (λ k. change add i (replicate i (letter (n + 1)) ++ (replicate k (letter n) ++ 0 ∷ []))) old
    ∙ change-at add i (letter (n + 1)) (letter n) (letter n + 1)
        (replicate (14 - i) (letter n) ++ 0 ∷ []) (incremented-letter n)

pub wrap-changing : (n i : ℕ) → i < 15 → wrap i (changing n i) ≡ display n (i + 1)
unfolding display changing wrap
wrap-changing n i h =
    let new : suc i ≡ i + 1 = omega arith in
    let fewer : 14 - i ≡ 15 - (i + 1) = omega arith in
    let rest : Bytes = replicate (14 - i) (letter n) ++ 0 ∷ [] in
    change-at wrapped i (letter (n + 1)) (letter n + 1) (letter (n + 1)) rest (wrapped-letter n)
    ∙ replicate-next i (letter (n + 1)) rest
    ∙ ap₂ (λ j k. replicate j (letter (n + 1)) ++ (replicate k (letter n) ++ 0 ∷ [])) new fewer

pub store-filling :
    (i : ℕ)
    → i < 15
    → store i b'a' (replicate i b'a' ++ replicate (16 - i) 0)
      ≡ replicate (i + 1) b'a' ++ replicate (16 - (i + 1)) 0
store-filling i h =
    let old : 16 - i ≡ suc (15 - i) = omega arith in
    let new : suc i ≡ i + 1 = omega arith in
    let fewer : 15 - i ≡ 16 - (i + 1) = omega arith in
    ap (λ k. store i b'a' (replicate i b'a' ++ replicate k 0)) old
    ∙ store-at i (15 - i) b'a' 0
    ∙ ap₂ (λ j k. replicate j b'a' ++ replicate k 0) new fewer

-- The last round of a loop puts the NUL back.
pub store-last : (n : ℕ) → store 15 0 (display n 15) ≡ display (n + 1) 0
unfolding store display
store-last n = refl
