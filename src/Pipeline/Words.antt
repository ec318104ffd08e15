-- ===== src/Pipeline/Words.antt =====
-- Lab7: the arguments of a command against a splitting that is not written with strtok.
use unx.Prelude.{
  ℕ, zero, suc, Option, none, some, List, [], ◌∷◌, ◌≡◌, ◌≢◌, ◌==◌, if◌then◌else◌, refl, sym, ap,
  ◌∙◌, arith, take,
}
use unx.Prelude.Bytes.{Bytes}
use unx.Pipeline.{space, skip, cut, token_of, strtok, tokenize, arguments, max_args}
use unx.Pipeline.Arguments.{skip-starts}

abbrev with_word : Bytes → List Bytes → List Bytes
with_word [] ts = ts
with_word (c ∷ t) ts = (c ∷ t) ∷ ts

-- The characters before the first space, and the words behind it.
unfoldable fields : Bytes → Bytes × List Bytes
fields [] = ([], [])
fields (c ∷ s) = let r = fields s in if c == space then ([], with_word r.0 r.1) else (c ∷ r.0, r.1)

-- The longest parts of a text without spaces, in order.
unfoldable pub words : Bytes → List Bytes
unfolding fields
words s = with_word (fields s).0 (fields s).1

words-skip : (s : Bytes) → words (skip s) ≡ words s
unfolding words skip
words-skip [] = refl
words-skip (c ∷ s) = ground (arith, words-skip s)

fields-cut : (s : Bytes) → fields s ≡ ((cut s).0, words (cut s).1)
unfolding fields cut words
fields-cut [] = refl
fields-cut (c ∷ s) = ground (arith, fields-cut s)

-- A text that starts with a word.
words-cut :
    (c : ℕ) (s : Bytes) → c ≢ space → words (c ∷ s) ≡ (cut (c ∷ s)).0 ∷ words (cut (c ∷ s)).1
unfolding words cut
words-cut c s h = ground (arith, fields-cut s)

abbrev as_words : Option (Bytes × Bytes) → List Bytes
as_words none = []
as_words (some t) = t.0 ∷ words t.1

words-token_of :
    (s : Bytes) → ((c : ℕ) (r : Bytes) → s ≡ c ∷ r → c ≢ space) → words s ≡ as_words (token_of s)
unfolding words
words-token_of [] h = refl
words-token_of (c ∷ s) h = words-cut c s (h c s refl)

words-strtok : (s : Bytes) → words s ≡ as_words (strtok s)
unfolding strtok
words-strtok s = sym (words-skip s) ∙ words-token_of (skip s) (λ c r. skip-starts s r c)

tokenize-words : (k : ℕ) (s : Bytes) → tokenize k s ≡ take k (words s)
unfolding tokenize
tokenize-words zero s = refl
tokenize-words (suc k) s = cons (strtok s) (words-strtok s) (λ t. tokenize-words k t)
  where
    cons :
        (o : Option (Bytes × Bytes))
        → words s ≡ as_words o
        → ((t : Bytes) → tokenize k t ≡ take k (words t))
        → elim o as (λ x. List Bytes) [ none ↦ [] | some t ↦ t.0 ∷ tokenize k t.1 ]
          ≡ take (suc k) (words s)
    cons none e later = rw e refl
    cons (some t) e later = rw e (ap (◌∷◌ t.0) (later t.1))

-- The arguments of a command are the first three of its words, the longest parts without a space.
pub arguments-words : (s : Bytes) → arguments s ≡ take 3 (words s)
unfolding arguments
arguments-words s = tokenize-words max_args s
