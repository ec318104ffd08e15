-- ===== src/Logging/Levels.antt =====
-- Assignment3: levels that the server sets, lines that the logger sends, and lines that are dumped.
use unx.Prelude.{
  ℕ, ◌≤◌, true, false, none, some, List, [], ◌∷◌, ◌++◌, ◌≡◌, ltb, refl, sym, arith, inl, inr,
  Bool-cases, Option-cases,
}
use unx.Prelude.Bytes.{Bytes, codes, decimal, starts_with}
use mathlib.Core.Path.{subst}
use unx.Logging.{
  LogLevel, debug, warning, error, critical, rank, Logger, contains, on_command, level_str,
  log_text, log, level_command, get_log_level_from_string, dump_log_file, valid_level, Parsed,
  throws, number, negative, stoi, after_equals,
}

starts_with_self : (w s : Bytes) → starts_with w (w ++ s) ≡ true
unfolding starts_with
starts_with_self [] s = refl
starts_with_self (x ∷ w) s = ground (arith, starts_with_self w s)

contains-later : (w : Bytes) (y : ℕ) (s : Bytes) → contains w s ≡ true → contains w (y ∷ s) ≡ true
unfolding contains
contains-later w y s h = ground arith

contains-nil : (s : Bytes) → contains [] s ≡ true
unfolding contains
contains-nil [] = refl
contains-nil (y ∷ s) = refl

contains-front : (w s : Bytes) → contains w (w ++ s) ≡ true
unfolding contains
contains-front [] s = contains-nil s
contains-front (x ∷ w) s = ground (arith, starts_with_self (x ∷ w) s)

contains-skip : (w a s : Bytes) → contains w s ≡ true → contains w (a ++ s) ≡ true
contains-skip w [] s h = h
contains-skip w (y ∷ a) s h = contains-later w y (a ++ s) (contains-skip w a s h)

-- A level that was found is at least that of any level word in the text, DEBUG too.
level-found :
    (level : LogLevel) (line : Bytes)
    → contains (level_str level) line ≡ true
    → rank level ≤ rank (get_log_level_from_string line)
unfolding get_log_level_from_string
level-found debug line h = ground arith
level-found warning line h = ground arith
level-found error line h = ground arith
level-found critical line h = ground arith

pub valid_level-small : (p : Parsed) (n : ℕ) → valid_level p ≡ some n → n ≤ 3
unfolding valid_level
valid_level-small throws n h = ground arith
valid_level-small (number k) n h = ground arith
valid_level-small (negative k) n h = ground arith

-- The line of a message has the word of its level.
log_text-found :
    (time file function message : Bytes) (level : LogLevel) (line : ℕ)
    → rank level ≤ rank (get_log_level_from_string (log_text time level file function line message))
unfolding log_text
log_text-found time file function message level line = level-found level _ (
    contains-skip (level_str level) time _
      (contains-skip (level_str level) (codes " ") _ (contains-front (level_str level) _)))

-- A line that the logger sends is one that the cumulative dump prints, in its place, where the level of the
-- server is not above that of the logger.
pub log-shown :
    (time file function message : Bytes) (level chosen : LogLevel) (line : ℕ) (l : Logger)
    (sent : ℕ × Bytes) (rest : List Bytes)
    → rank chosen ≤ l.log_level
    → log time level file function line message l ≡ some sent
    → dump_log_file false chosen (sent.1 ∷ rest) ≡ sent.1 ∷ dump_log_file false chosen rest
unfolding log dump_log_file
log-shown time file function message level chosen line l sent rest low e =
    let found = log_text-found time file function message level line in
    elim (Bool-cases (ltb (rank level) l.log_level)) [
      | inl below ↦ let no_line : none ≡ some sent = rw (below, log) at e in absurd (ground arith)
      | inr above ↦
          let is : sent.1 ≡ log_text time level file function line message = ground arith in
          let high : rank level ≤ rank (get_log_level_from_string sent.1) =
            subst (λ s. rank level ≤ rank (get_log_level_from_string s)) (sym is) found in
          ground arith
    ]

log_text-contains :
    (w time file function message : Bytes) (level : LogLevel) (line : ℕ)
    → contains w message ≡ true
    → contains w (log_text time level file function line message) ≡ true
unfolding log_text
log_text-contains w time file function message level line h =
    let place =
      codes " "
      ++ (file ++ (codes ":" ++ (function ++ (codes ":" ++ (decimal line ++ codes " "))))) in
    let tail = level_str level ++ (place ++ message) in
    contains-skip w time (codes " " ++ tail) (
      contains-skip w (codes " ") tail
        (contains-skip w (level_str level) (place ++ message) (contains-skip w place message h)))

-- A line whose message has the word CRITICAL is dumped as a critical one, whatever its level.
pub message-misleads :
    (time file function message : Bytes) (level : LogLevel) (line : ℕ) (rest : List Bytes)
    → contains (codes "CRITICAL") message ≡ true
    → dump_log_file true critical (log_text time level file function line message ∷ rest)
      ≡ log_text time level file function line message ∷ dump_log_file true critical rest
unfolding dump_log_file get_log_level_from_string
message-misleads time file function message level line rest h =
    let here : contains (codes "CRITICAL") (log_text time level file function line message) ≡ true =
      log_text-contains (codes "CRITICAL") time file function message level line h in
    ground arith

-- The command of the server for a level sets that level, and no other part of the logger.
pub on_command-level_command :
    (level : LogLevel) (l : Logger)
    → on_command (level_command (rank level)) l ≡ record l { log_level = rank level }
unfolding on_command level_command contains stoi after_equals valid_level decimal
on_command-level_command debug l = refl
on_command-level_command warning l = refl
on_command-level_command error l = refl
on_command-level_command critical l = refl

-- Whatever arrives, the level stays one of the four, and the socket is the same.
pub on_command-bounded :
    (command : Bytes) (l : Logger)
    → l.log_level ≤ 3
    → ((on_command command l).log_level ≤ 3) × ((on_command command l).client_fd ≡ l.client_fd)
unfolding on_command
on_command-bounded command l h = elim (Option-cases (valid_level (stoi (after_equals command)))) [
  | inl bad ↦ ground arith
  | inr (n, good) ↦ ground (arith, valid_level-small (stoi (after_equals command)) n good)
]
