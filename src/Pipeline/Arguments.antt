-- ===== src/Pipeline/Arguments.antt =====
-- Lab7: what the splitting of a command gives.
use unx.Prelude.{
  ℕ, zero, suc, ◌+◌, ◌≤◌, Option, none, some, List, [], ◌∷◌, ◌++◌, ◌≡◌, ◌≢◌, ◌==◌, if◌then◌else◌,
  length, All, refl, sym, ap, ◌∙◌, arith,
}
use unx.Prelude.Bytes.{Bytes}
use mathlib.Core.List.{append_assoc}
use mathlib.Core.Option.{some-injective}
use mathlib.Core.Path.{subst}
use unx.Pipeline.{space, skip, cut, token_of, strtok, tokenize, arguments, max_args}

-- A command without its spaces.
pub dense : Bytes → Bytes
dense [] = []
dense (c ∷ s) = let rest = dense s in if c == space then rest else c ∷ rest

pub joined : List Bytes → Bytes
joined [] = []
joined (t ∷ ts) = t ++ joined ts

-- A text that is not empty and has no space.
pub record IsWord (t : Bytes) : Type 0 where
  pub filled : 1 ≤ length t
  pub solid : All (λ c. c ≢ space) t

dense-skip : (s : Bytes) → dense (skip s) ≡ dense s
unfolding dense skip
dense-skip [] = refl
dense-skip (c ∷ s) = ground (arith, dense-skip s)

length-skip : (s : Bytes) → length (skip s) ≤ length s
unfolding skip
length-skip [] = omega arith
length-skip (c ∷ s) = ground (arith, length-skip s)

pub skip-starts : (s r : Bytes) (c : ℕ) → skip s ≡ c ∷ r → c ≢ space
unfolding skip
skip-starts [] r c h = cc
skip-starts (d ∷ s) r c h = ground (arith, skip-starts s r c)

dense-cut : (s : Bytes) → dense s ≡ (cut s).0 ++ dense (cut s).1
unfolding dense cut
dense-cut [] = refl
dense-cut (c ∷ s) = ground (arith, dense-cut s)

cut-solid : (s : Bytes) → All (λ c. c ≢ space) (cut s).0
unfolding cut
cut-solid [] = tt
cut-solid (c ∷ s) = ground (arith, cut-solid s)

length-cut : (s : Bytes) → length (cut s).0 + length (cut s).1 ≤ length s
unfolding cut
length-cut [] = omega arith
length-cut (c ∷ s) = ground (arith, length-cut s)

-- What one call of strtok promises.
record IsSplit (s : Bytes) (t : Bytes × Bytes) : Type 0 where
  word : IsWord t.0
  parts : dense s ≡ t.0 ++ dense t.1
  size : length t.0 + length t.1 ≤ length s

token_of-IsSplit :
    (s : Bytes) (t : Bytes × Bytes)
    → ((c : ℕ) (r : Bytes) → s ≡ c ∷ r → c ≢ space)
    → token_of s ≡ some t
    → IsSplit s t
unfolding cut
token_of-IsSplit [] t h e = cc
token_of-IsSplit (c ∷ s) t h e =
    let starts : (c ≢ space) = h c s refl in
    let whole : IsSplit (c ∷ s) (cut (c ∷ s)) = record {
      word = record { filled = ground arith; solid = cut-solid (c ∷ s) };
      parts = dense-cut (c ∷ s);
      size = length-cut (c ∷ s);
    } in
    subst (IsSplit (c ∷ s)) (some-injective _ _ e) whole

strtok-IsSplit : (s : Bytes) (t : Bytes × Bytes) → strtok s ≡ some t → IsSplit s t
unfolding strtok
strtok-IsSplit s t e =
    let split = token_of-IsSplit (skip s) t (λ c r. skip-starts s r c) e in
    record {
      word = split.word;
      parts = sym (dense-skip s) ∙ split.parts;
      size = omega (arith, split.size, length-skip s);
    }

-- A list of arguments that is a first part of a command, at most `k`, each no longer than the command.
record IsParsed (k : ℕ) (s : Bytes) (args : List Bytes) : Type 0 where
  words : All IsWord args
  few : length args ≤ k
  short : All (λ t. length t ≤ length s) args
  rest : Bytes
  in_order : dense s ≡ joined args ++ rest

All-longer :
    (args : List Bytes) (m n : ℕ)
    → m ≤ n
    → All (λ t. length t ≤ m) args
    → All (λ t. length t ≤ n) args
All-longer [] m n h a = tt
All-longer (t ∷ args) m n h a = (omega (arith, a.0), All-longer args m n h a.1)

tokenize-IsParsed : (k : ℕ) (s : Bytes) → IsParsed k s (tokenize k s)
unfolding tokenize joined
tokenize-IsParsed zero s = record {
  words = tt;
  few = omega arith;
  short = tt;
  rest = dense s;
  in_order = refl;
}
tokenize-IsParsed (suc k) s = cons (strtok s) refl (λ t. tokenize-IsParsed k t)
  where
    cons :
        (o : Option (Bytes × Bytes))
        → strtok s ≡ o
        → ((t : Bytes) → IsParsed k t (tokenize k t))
        → IsParsed
            (suc k)
            s
            (elim o as (λ x. List Bytes) [ none ↦ [] | some t ↦ t.0 ∷ tokenize k t.1 ])
    cons none e later = record {
      words = tt;
      few = omega arith;
      short = tt;
      rest = dense s;
      in_order = refl;
    }
    cons (some t) e later =
        let split = strtok-IsSplit s t e in
        let more = later t.1 in
        record {
          words = (split.word, more.words);
          few = omega (arith, more.few);
          short = (
            omega (arith, split.size),
            All-longer (tokenize k t.1) _ _ (omega (arith, split.size)) more.short,
          );
          rest = more.rest;
          in_order = split.parts ∙ ap (◌++◌ t.0) more.in_order ∙ sym (append_assoc t.0 _ _);
        }

-- The arguments of a command are at most three; each has a character, no space, and no more
-- characters than the command, so that it fits where the command fits; joined, they are a first part
-- of the command without its spaces.
pub arguments-split :
    (s : Bytes)
    → (length (arguments s) ≤ 3)
      × All IsWord (arguments s)
      × All (λ t. length t ≤ length s) (arguments s)
      × ((rest : Bytes) × (dense s ≡ joined (arguments s) ++ rest))
unfolding arguments
arguments-split s =
    let parsed = tokenize-IsParsed max_args s in
    (parsed.few, parsed.words, parsed.short, (parsed.rest, parsed.in_order))
