-- ===== src/Prelude/Slots.antt =====
-- Items of a list by their number, an item replaced, and a sum over the items.
use Prim.Native.Nat.{ℕ, zero, suc, ◌+◌, ◌≤◌, ◌<◌}
use mathlib.Core.Path.{◌≡◌, refl, ap}
use mathlib.Core.Logic.{◌≢◌}
use mathlib.Core.Option.{Option, none, some}
use mathlib.Core.List.{List, [], ◌∷◌, ◌++◌}
use native.Mathlib.Omega.{arith}
use unx.Prelude.Lists.{length}

module _ {ℓ} {A : Type ℓ} where
  unfoldable pub get_elem? : List A → ℕ → Option A
  get_elem? [] i = none
  get_elem? (x ∷ xs) zero = some x
  get_elem? (x ∷ xs) (suc i) = get_elem? xs i

  unfoldable pub set : ℕ → A → List A → List A
  set i y [] = []
  set zero y (x ∷ xs) = y ∷ xs
  set (suc i) y (x ∷ xs) = x ∷ set i y xs

  unfoldable pub total : (A → ℕ) → List A → ℕ
  total f [] = 0
  total f (x ∷ xs) = f x + total f xs

  pub total-set :
      (f : A → ℕ) (i : ℕ) (x y : A) (xs : List A)
      → get_elem? xs i ≡ some x
      → total f (set i y xs) + f x ≡ total f xs + f y
  unfolding total get_elem? set
  total-set f i x y [] h = cc
  total-set f zero x y (z ∷ xs) h = ground (arith, h)
  total-set f (suc i) x y (z ∷ xs) h = omega (arith, total-set f i x y xs h)

  pub total-append : (f : A → ℕ) (xs ys : List A) → total f (xs ++ ys) ≡ total f xs + total f ys
  unfolding total
  total-append f [] ys = omega arith
  total-append f (x ∷ xs) ys = omega (arith, total-append f xs ys)

  pub length-set : (i : ℕ) (y : A) (xs : List A) → length (set i y xs) ≡ length xs
  unfolding set
  length-set i y [] = refl
  length-set zero y (x ∷ xs) = refl
  length-set (suc i) y (x ∷ xs) = omega (arith, length-set i y xs)

  pub get_elem?-set :
      (i : ℕ) (x y : A) (xs : List A) → get_elem? xs i ≡ some x → get_elem? (set i y xs) i ≡ some y
  unfolding get_elem? set
  get_elem?-set i x y [] h = cc
  get_elem?-set zero x y (z ∷ xs) h = refl
  get_elem?-set (suc i) x y (z ∷ xs) h = get_elem?-set i x y xs h

  pub get_elem?-set_other :
      (i j : ℕ) (y : A) (xs : List A) → i ≢ j → get_elem? (set j y xs) i ≡ get_elem? xs i
  unfolding get_elem? set
  get_elem?-set_other i j y [] h = refl
  get_elem?-set_other zero zero y (z ∷ xs) h = absurd (h refl)
  get_elem?-set_other zero (suc j) y (z ∷ xs) h = refl
  get_elem?-set_other (suc i) zero y (z ∷ xs) h = refl
  get_elem?-set_other (suc i) (suc j) y (z ∷ xs) h =
      get_elem?-set_other i j y xs (λ e. h (ap suc e))

  -- An item that counts.
  pub counted :
      (f : A → ℕ) (xs : List A)
      → 1 ≤ total f xs
      → (i : ℕ) × (x : A) × (get_elem? xs i ≡ some x) × (1 ≤ f x)
  unfolding total get_elem?
  counted f [] h = absurd (omega arith)
  counted f (x ∷ xs) h = pick (f x) refl (counted f xs)
    where
      pick :
          (n : ℕ)
          → f x ≡ n
          → (1 ≤ total f xs → (i : ℕ) × (y : A) × (get_elem? xs i ≡ some y) × (1 ≤ f y))
          → (i : ℕ) × (y : A) × (get_elem? (x ∷ xs) i ≡ some y) × (1 ≤ f y)
      pick zero e later = let (i, y, at, one) = later (omega (arith, h, e)) in (suc i, y, at, one)
      pick (suc n) e later = (0, x, refl, omega (arith, e))

  module _ (f : A → ℕ) (small : (x : A) → f x ≤ 1) where
    pub total-≤ : (xs : List A) → total f xs ≤ length xs
    unfolding total
    total-≤ [] = omega arith
    total-≤ (x ∷ xs) = omega (arith, small x, total-≤ xs)

    -- Where all items count, each does.
    pub each_counts :
        (xs : List A) (i : ℕ) (x : A) → total f xs ≡ length xs → get_elem? xs i ≡ some x → f x ≡ 1
    unfolding total get_elem?
    each_counts [] i x h at = cc
    each_counts (y ∷ xs) zero x h at = ground (arith, h, at, small y, total-≤ xs)
    each_counts (y ∷ xs) (suc i) x h at =
        each_counts xs i x (omega (arith, h, small y, total-≤ xs)) at

    -- An item that does not count.
    pub uncounted :
        (xs : List A)
        → total f xs < length xs
        → (i : ℕ) × (x : A) × (get_elem? xs i ≡ some x) × (f x ≡ 0)
    unfolding total get_elem?
    uncounted [] h = absurd (omega arith)
    uncounted (x ∷ xs) h = pick (f x) refl (uncounted xs)
      where
        pick :
            (n : ℕ)
            → f x ≡ n
            → (total f xs < length xs → (i : ℕ) × (y : A) × (get_elem? xs i ≡ some y) × (f y ≡ 0))
            → (i : ℕ) × (y : A) × (get_elem? (x ∷ xs) i ≡ some y) × (f y ≡ 0)
        pick zero e later = (0, x, refl, e)
        pick (suc n) e later =
            let (i, y, at, out) = later (omega (arith, h, e)) in (suc i, y, at, out)
