-- ===== src/ProcStatus.antt =====
-- Lab1/memcheck.c, and the scan of /proc/<pid>/status that it shares with the workers of Assignment1.
use unx.Prelude.{
  ℕ, zero, suc, ◌+◌, ◌-◌, ◌*◌, ◌%◌, ◌^◌, Bool, true, false, Option, none, some, List, [], ◌∷◌, ◌++◌,
  ◌==◌, ◌&&◌, ltb, leb, if◌then◌else◌,
}
use unx.Prelude.Bytes.{Bytes, codes, starts_with, is_digit, is_space, digits}
pub mod Scans
pub mod Examples

-- What is left after the first `n` bytes.
unfoldable pub drop : ℕ → Bytes → Bytes
drop zero s = s
drop (suc n) [] = []
drop (suc n) (c ∷ s) = drop n s

-- An int that `%d` gives.
pub data Number : Type 0 where
  plus minus : ℕ → Number

-- `%d` of glibc: a long that stops at its limits, and the low 32 bits of it.
unfoldable pub as_plus : ℕ → Number
as_plus n =
    let m = if ltb n (2 ^ 63) then n else 2 ^ 63 - 1 in
    let v = m % 2 ^ 32 in if ltb v (2 ^ 31) then plus v else minus (2 ^ 32 - v)

unfoldable pub as_minus : ℕ → Number
as_minus n =
    let m = if ltb n (2 ^ 63) then n else 2 ^ 63 in
    let v = m % 2 ^ 32 in if leb v (2 ^ 31) then minus v else plus (2 ^ 32 - v)

pub signed_int : (ℕ → Number) → Bytes → Option Number
signed_int f [] = none
signed_int f (c ∷ s) = if is_digit c then some (f (digits 0 (c ∷ s))) else none

-- `sscanf(s, "%d", …)`, which leaves the variable alone where it finds no number.
unfoldable pub scan_int : Bytes → Option Number
unfolding signed_int as_plus as_minus
scan_int [] = none
scan_int (c ∷ s) =
    let later = scan_int s in
    if is_space c
    then later
    else if c == b'-'
    then signed_int as_minus s
    else if c == b'+'
    then signed_int as_plus s
    else signed_int as_plus (c ∷ s)

-- `sscanf(s, "%s", …)`: a word, after spaces.
unfoldable pub word : Bytes → Bytes
word [] = []
word (c ∷ s) = let rest = word s in if is_space c then [] else c ∷ rest

unfoldable pub scan_word : Bytes → Option Bytes
unfolding word
scan_word [] = none
scan_word (c ∷ s) = let later = scan_word s in if is_space c then later else some (word (c ∷ s))

abbrev pub or_else {ℓ} : {A : Type ℓ} → Option A → A → A
or_else none a = a
or_else (some b) a = b

abbrev pub vm_rss : Bytes
vm_rss = codes "VmRSS:"

-- `while (fgets(line, …)) if (strncmp(line, "VmRSS:", 6) == 0) { sscanf(line + 6, "%d", &rss); break; }`
unfoldable pub scan_rss : Number → List Bytes → Number
unfolding drop scan_int
scan_rss rss [] = rss
scan_rss rss (line ∷ rest) =
    let later = scan_rss rss rest in
    if starts_with vm_rss line then or_else (scan_int (drop 6 line)) rss else later

-- `rss > limit`
abbrev pub exceeds : Number → ℕ → Bool
exceeds (plus n) limit = ltb limit n
exceeds (minus n) limit = false

-- Lab1's `is_number`.
pub is_number : Bytes → Bool
is_number [] = true
is_number (c ∷ s) = let rest = is_number s in if is_digit c then rest else false

-- Lab1's loop over the lines, for the name and the number.
pub scan_status : Bytes → Number → List Bytes → Bytes × Number
unfolding drop scan_int scan_word
scan_status name rss [] = (name, rss)
scan_status name rss (line ∷ rest) =
    let named =
      if starts_with (codes "Name:") line then or_else (scan_word (drop 5 line)) name else name in
    let later = scan_status named rss rest in
    if starts_with vm_rss line then (named, or_else (scan_int (drop 6 line)) rss) else later

-- An entry of /proc: its name, and the lines of its status file where that can be opened.
pub record Entry : Type 0 where
  pub d_name : Bytes
  pub status : Option (List Bytes)

abbrev pub rss_threshold : ℕ
rss_threshold = 10000

-- The round for an entry: what it prints.
pub check_entry : Entry → List (Bytes × Bytes × Number)
unfolding is_number scan_status
check_entry e =
    if is_number e.d_name
    then elim e.status [
      | none ↦ []
      | some lines ↦
          let found = scan_status [] (plus 0) lines in
          if exceeds found.1 rss_threshold then (e.d_name, found.0, found.1) ∷ [] else []
    ]
    else []

-- Lab1's `main`, with the entries that `readdir` gives.
pub memcheck : Option (List Entry) → ℕ × List (Bytes × Bytes × Number)
unfolding check_entry
memcheck none = (1, [])
memcheck (some entries) = (0, check_all entries)
  where
    check_all : List Entry → List (Bytes × Bytes × Number)
    check_all [] = []
    check_all (e ∷ es) = check_entry e ++ check_all es
