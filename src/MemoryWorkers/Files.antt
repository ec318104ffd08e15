-- ===== src/MemoryWorkers/Files.antt =====
-- Assignment1: the files that the workers read. Part1/file_generator.c, Part3/file_generator.c and
-- Part4/dhsb_logger.c have the same dhsb_generate_binary_file; Part2/test_worker_main.c has a stricter
-- create_dummy_binary_file.
use unx.Prelude.{
  ℕ, zero, suc, ◌+◌, ◌*◌, Bool, true, false, Option, none, some, List, [], ◌∷◌, ◌==◌, if◌then◌else◌,
  ◌≡◌, refl, ap, ◌∙◌, arith,
}
use unx.ProcStatus.{Number, plus, minus}
use unx.MemoryWorkers.{Effect, close, exit, statuses}

abbrev pub megabyte : ℕ
megabyte = 1024 * 1024

-- The rounds of `for (i = 0; i < size_mb; i++)`.
abbrev pub rounds : Number → ℕ
rounds (plus n) = n
rounds (minus n) = 0

-- The bytes that come into the file, and whether no round failed. `w i` is the result of the write of
-- round `i`: the number of bytes, or `none` for -1.
pub any_round : Option ℕ → ℕ × Bool → ℕ × Bool
any_round none rest = (0, false)
any_round (some k) rest = (k + rest.0, rest.1)

pub write_all : (ℕ → Option ℕ) → ℕ → ℕ → ℕ × Bool
unfolding any_round
write_all w i zero = (0, true)
write_all w i (suc n) = let rest = write_all w (i + 1) n in any_round (w i) rest

unfoldable pub closing : ℕ → ℕ × Bool → ℕ × List Effect
closing fd r = (r.0, if r.1 then close fd ∷ [] else close fd ∷ exit 1 ∷ [])

unfoldable pub dhsb_generate_binary_file : Option ℕ → (ℕ → Option ℕ) → Number → ℕ × List Effect
unfolding write_all closing
dhsb_generate_binary_file none w size_mb = (0, exit 1 ∷ [])
dhsb_generate_binary_file (some fd) w size_mb = closing fd (write_all w 0 (rounds size_mb))

-- The loop of part 2, for which a write of fewer bytes fails too.
unfoldable pub whole_round : Option ℕ → ℕ × Bool → ℕ × Bool
whole_round none rest = (0, false)
whole_round (some k) rest = if k == megabyte then (k + rest.0, rest.1) else (k, false)

unfoldable pub write_whole : (ℕ → Option ℕ) → ℕ → ℕ → ℕ × Bool
unfolding whole_round
write_whole w i zero = (0, true)
write_whole w i (suc n) = let rest = write_whole w (i + 1) n in whole_round (w i) rest

unfoldable pub create_dummy_binary_file : Option ℕ → (ℕ → Option ℕ) → Number → ℕ × List Effect
unfolding write_whole closing
create_dummy_binary_file none w size_mb = (0, exit 1 ∷ [])
create_dummy_binary_file (some fd) w size_mb = closing fd (write_whole w 0 (rounds size_mb))

whole_round-size :
    (o : Option ℕ) (rest : ℕ × Bool) (n : ℕ)
    → (rest.1 ≡ true → rest.0 ≡ n * megabyte)
    → (whole_round o rest).1 ≡ true
    → (whole_round o rest).0 ≡ suc n * megabyte
unfolding whole_round
whole_round-size none rest n later e = cc
whole_round-size (some k) rest n later e = ground (arith, later)

write_whole-size :
    (w : ℕ → Option ℕ) (i n : ℕ)
    → (write_whole w i n).1 ≡ true
    → (write_whole w i n).0 ≡ n * megabyte
unfolding write_whole
write_whole-size w i zero h = refl
write_whole-size w i (suc n) h =
    whole_round-size (w i) (write_whole w (i + 1) n) n (write_whole-size w (i + 1) n) h

-- A write is whole, or it fails.
abbrev pub WholeOrFails : Option ℕ → Type 0
WholeOrFails none = Unit
WholeOrFails (some k) = k ≡ megabyte

round-same :
    (o : Option ℕ) (rest : ℕ × Bool) → WholeOrFails o → any_round o rest ≡ whole_round o rest
unfolding any_round whole_round
round-same none rest h = refl
round-same (some k) rest h = ground arith

write_all-same :
    (w : ℕ → Option ℕ) (i n : ℕ)
    → ((j : ℕ) → WholeOrFails (w j))
    → write_all w i n ≡ write_whole w i n
unfolding write_all write_whole
write_all-same w i zero h = refl
write_all-same w i (suc n) h =
    ap (any_round (w i)) (write_all-same w (i + 1) n h)
    ∙ round-same (w i) (write_whole w (i + 1) n) (h i)

closed_well : (fd : ℕ) (r : ℕ × Bool) → statuses (closing fd r).1 ≡ [] → r.1 ≡ true
unfolding closing statuses
closed_well fd r h = ground arith

-- Where create_dummy_binary_file does not exit, the file has the megabytes that were asked for.
pub create_dummy_binary_file-size :
    (file : Option ℕ) (w : ℕ → Option ℕ) (size_mb : Number)
    → statuses (create_dummy_binary_file file w size_mb).1 ≡ []
    → (create_dummy_binary_file file w size_mb).0 ≡ rounds size_mb * megabyte
unfolding create_dummy_binary_file closing statuses
create_dummy_binary_file-size none w size_mb h = cc
create_dummy_binary_file-size (some fd) w size_mb h =
    write_whole-size w 0 (rounds size_mb) (closed_well fd (write_whole w 0 (rounds size_mb)) h)

-- Where each write is whole or fails, the two functions that make a file do the same.
pub dhsb_generate_binary_file-create :
    (file : Option ℕ) (w : ℕ → Option ℕ) (size_mb : Number)
    → ((j : ℕ) → WholeOrFails (w j))
    → dhsb_generate_binary_file file w size_mb ≡ create_dummy_binary_file file w size_mb
unfolding dhsb_generate_binary_file create_dummy_binary_file
dhsb_generate_binary_file-create none w size_mb h = refl
dhsb_generate_binary_file-create (some fd) w size_mb h =
    ap (closing fd) (write_all-same w 0 (rounds size_mb) h)

-- The bytes of `n` writes from round `i` on.
pub total : (ℕ → ℕ) → ℕ → ℕ → ℕ
total f i zero = 0
total f i (suc n) = f i + total f (i + 1) n

write_all-total : (f : ℕ → ℕ) (i n : ℕ) → write_all (λ j. some (f j)) i n ≡ (total f i n, true)
unfolding write_all any_round total
write_all-total f i zero = refl
write_all-total f i (suc n) = ap (λ r. (f i + r.0, r.1)) (write_all-total f (i + 1) n)

-- dhsb_generate_binary_file takes writes of any number of bytes for good: it closes the file and does
-- not exit, and the file has just the bytes that were written.
pub dhsb_generate_binary_file-short :
    (fd : ℕ) (f : ℕ → ℕ) (size_mb : Number)
    → dhsb_generate_binary_file (some fd) (λ j. some (f j)) size_mb
      ≡ (total f 0 (rounds size_mb), close fd ∷ [])
unfolding dhsb_generate_binary_file closing
dhsb_generate_binary_file-short fd f size_mb =
    ap (closing fd) (write_all-total f 0 (rounds size_mb))
