-- ===== src/Pipeline/Startup.antt =====
-- Lab7: `main`. `execvp`, which gives a status where it fails, is what each process ends with.
use unx.Prelude.{
  ℕ, ◌≤◌, ◌<◌, Bool, true, false, Option, none, some, List, [], ◌∷◌, ◌≡◌, ◌≢◌, ◌⊎◌, refl, arith,
  take, length, All, ltb, if◌then◌else◌,
}
use unx.Prelude.Bytes.{Bytes}
use unx.Pipeline.Ends.{ends_joined}
use unx.Pipeline.{Table, read_end, write_end, pipe, child, parent, arguments}
use unx.Pipeline.Arguments.{arguments-split}
use unx.Pipeline.Words.{words, arguments-words}

-- The bytes of `argument1`, and of each row of `arg1`.
abbrev pub len : ℕ
len = 64

-- Whether `strcpy` of a text and its final 0 stays inside.
abbrev fits : Bytes → Bool
fits text = ltb (length text) len

unfoldable rows_fit : List Bytes → Bool
rows_fit [] = true
rows_fit (t ∷ ts) = let rest = rows_fit ts in if fits t then rest else false

-- `cmd1` or `cmd2` without its final NULL, and the descriptors at `execvp`.
pub record Execution : Type 0 where
  pub cmd : List Bytes
  pub files : Table

-- How `main` goes: `runs` has the child and the parent at their `execvp`, `overflow` a strcpy behind its buffer.
pub data Course : Type 0 where
  usage pipe_fails fork_fails overflow : Course
  runs : Execution → Execution → Course

-- What `pipe` and `fork` give.
pub record Kernel : Type 0 where
  pub pipefd : Option (ℕ × ℕ)
  pub pid : Bool

unfoldable forked : Bool → ℕ → ℕ → Table → List Bytes → List Bytes → Course
forked false r w t cmd1 cmd2 = fork_fails
forked true r w t cmd1 cmd2 =
    runs (record { cmd = cmd1; files = child r w t }) (record { cmd = cmd2; files = parent r w t })

unfoldable piped : Kernel → Table → List Bytes → List Bytes → Course
unfolding forked
piped k t cmd1 cmd2 = elim k.pipefd [
  | none ↦ pipe_fails
  | some p ↦ forked k.pid p.0 p.1 (pipe p.0 p.1 t) cmd1 cmd2
]

-- The two copies and the two loops.
unfoldable copied : Kernel → Table → Bytes → Bytes → Course
unfolding rows_fit piped
copied k t argument1 argument2 =
    if fits argument1
    then if fits argument2
      then if rows_fit (arguments argument1)
        then if rows_fit (arguments argument2)
          then piped k t (arguments argument1) (arguments argument2)
          else overflow
        else overflow
      else overflow
    else overflow

unfoldable pub main : Kernel → Table → List Bytes → Course
unfolding copied
main k t [] = usage
main k t (a ∷ []) = usage
main k t (a ∷ b ∷ []) = usage
main k t (a ∷ b ∷ c ∷ []) = copied k t b c
main k t (a ∷ b ∷ c ∷ d ∷ more) = usage

rows_fit-short :
    (ts : List Bytes) (n : ℕ) → n < len → All (λ t. length t ≤ n) ts → rows_fit ts ≡ true
unfolding rows_fit
rows_fit-short [] n h a = refl
rows_fit-short (t ∷ ts) n h a = let rest = rows_fit-short ts n h a.1 in ground (arith, a.0)

rows_fit-arguments : (s : Bytes) → length s < len → rows_fit (arguments s) ≡ true
rows_fit-arguments s h = rows_fit-short (arguments s) (length s) h (arguments-split s).2

fits-shorter : (s : Bytes) → length s < len → fits s ≡ true
fits-shorter s h = ground arith

copied-fits :
    (k : Kernel) (t : Table) (a b : Bytes)
    → length a < len
    → length b < len
    → copied k t a b ≡ piped k t (arguments a) (arguments b)
unfolding copied
copied-fits k t a b ha hb =
    rw (fits-shorter a ha, fits-shorter b hb, rows_fit-arguments a ha, rows_fit-arguments b hb) refl

-- The program has come to the two calls of execvp, with these commands, and with the pipe from the output of the child
-- to the input of the parent: both have closed the two descriptors of the pipe, and the others are as before.
pub record IsPiped (t : Table) (r w : ℕ) (cmd1 cmd2 : List Bytes) (course : Course) : Type 0 where
  pub first : Execution
  pub second : Execution
  pub reached : course ≡ runs first second
  pub cmds : (first.cmd ≡ cmd1) × (second.cmd ≡ cmd2)
  pub output : first.files 1 ≡ some write_end
  pub input : second.files 0 ≡ some read_end
  pub inherited :
      (x : ℕ) → x ≢ r → x ≢ w → (x ≢ 1 → first.files x ≡ t x) × (x ≢ 0 → second.files x ≡ t x)
  pub closed : (x : ℕ) → x ≡ r ⊎ x ≡ w → (first.files x ≡ none) × (second.files x ≡ none)

-- Given two commands that are shorter than the buffers, a pipe with descriptors above the standard ones, and a process,
-- the program comes to its two calls of execvp, with the first three words of each command; the child has the write end
-- of the pipe as its output, the parent the read end as its input, both have closed the two descriptors of the pipe,
-- and their others are as before.
pub main-runs :
    (t : Table) (r w : ℕ) (name first second : Bytes)
    → 3 ≤ r
    → 3 ≤ w
    → r ≢ w
    → length first < len
    → length second < len
    → IsPiped t r w
        (take 3 (words first))
        (take 3 (words second))
        (main (record { pipefd = some (r, w); pid = true }) t (name ∷ first ∷ second ∷ []))
unfolding main piped forked
main-runs t r w name first second hr hw differ ha hb =
    let (output, input, closed, others) = ends_joined r w t hr hw differ in
    record {
      first = record { cmd = arguments first; files = child r w (pipe r w t) };
      second = record { cmd = arguments second; files = parent r w (pipe r w t) };
      reached = copied-fits (record { pipefd = some (r, w); pid = true }) t first second ha hb;
      cmds = (arguments-words first, arguments-words second);
      output = output;
      input = input;
      inherited = others;
      closed = closed;
    }

-- A command that is not shorter is written behind its copy.
main-overflow :
    (k : Kernel) (t : Table) (name first second : Bytes)
    → len ≤ length first ⊎ len ≤ length second
    → main k t (name ∷ first ∷ second ∷ []) ≡ overflow
unfolding main copied
main-overflow k t name first second h = ground arith
