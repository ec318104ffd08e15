-- ===== src/Pipeline.antt =====
-- Lab7/Lab7.cpp: two commands, split into arguments and joined by a pipe.
use unx.Prelude.{ℕ, zero, suc, Option, none, some, List, [], ◌∷◌, ◌==◌, ◌+◌, if◌then◌else◌}
use unx.Prelude.Bytes.{Bytes}
pub mod Arguments
pub mod Words
pub mod Startup
pub mod Ends
pub mod Examples

abbrev pub max_args : ℕ
max_args = 3

abbrev pub space : ℕ
space = 32

-- The two parts of `strtok (…, " ")`: it passes over spaces, and ends the token at the next one.
pub skip : Bytes → Bytes
skip [] = []
skip (c ∷ s) = let rest = skip s in if c == space then rest else c ∷ s

pub cut : Bytes → Bytes × Bytes
cut [] = ([], [])
cut (c ∷ s) = let rest = cut s in if c == space then ([], s) else (c ∷ rest.0, rest.1)

abbrev pub token_of : Bytes → Option (Bytes × Bytes)
token_of [] = none
token_of (c ∷ s) = some (cut (c ∷ s))

-- The token, and what the next call goes on with.
pub strtok : Bytes → Option (Bytes × Bytes)
unfolding skip cut
strtok s = token_of (skip s)

-- The loop `while (token != NULL && len < MAX_ARGS)`, with `k` arguments still free.
pub tokenize : ℕ → Bytes → List Bytes
unfolding strtok
tokenize zero s = []
tokenize (suc k) s = elim (strtok s) [ none ↦ [] | some t ↦ t.0 ∷ tokenize k t.1 ]

-- `arg1` or `arg2` for an argument of the program.
pub arguments : Bytes → List Bytes
unfolding tokenize
arguments s = tokenize max_args s

-- What a descriptor stands for.
pub data File : Type 0 where
  standard : ℕ → File
  read_end write_end : File

abbrev pub Table : Type 0
Table = ℕ → Option File

abbrev pub close : ℕ → Table → Table
close fd t x = if x == fd then none else t x

abbrev pub dup2 : ℕ → ℕ → Table → Table
dup2 old new t x = if x == new then t old else t x

-- `pipe`, which gives two descriptors.
abbrev pub pipe : ℕ → ℕ → Table → Table
pipe r w t x = if x == r then some read_end else if x == w then some write_end else t x

-- The descriptors of the child and of the parent at `execvp`.
pub child : ℕ → ℕ → Table → Table
child r w t = close w (dup2 w 1 (close r t))

pub parent : ℕ → ℕ → Table → Table
parent r w t = close r (dup2 r 0 (close w t))
