-- ===== src/Logging.antt =====
-- Assignment3/Logger.cpp, the client side of a logger, and the parts of Assignment3/LogServer.cpp that
-- meet it: the command that sets a level, the filter of `Log`, and the dump of the server.
use unx.Prelude.{
  ℕ, zero, suc, ◌+◌, ◌-◌, ◌*◌, ◌≤◌, Bool, true, false, Option, none, some, List, [], ◌∷◌, ◌++◌,
  ◌&&◌, ◌||◌, ltb, leb, ◌==◌, if◌then◌else◌,
}
use unx.Prelude.Bytes.{Bytes, codes, decimal, starts_with, is_digit, is_space, digits}
pub mod Levels
pub mod Menu
pub mod Lifecycle
pub mod Examples

pub data LogLevel : Type 0 where
  debug warning error critical : LogLevel

abbrev pub rank : LogLevel → ℕ
rank debug = 0
rank warning = 1
rank error = 2
rank critical = 3

-- The globals of Logger.cpp; a `client_fd` of -1 is `none`.
pub record Logger : Type 0 where
  pub log_level : ℕ
  pub client_fd : Option ℕ

-- Whether `std::string::find` finds `w` in a text.
unfoldable pub contains : Bytes → Bytes → Bool
unfolding starts_with
contains w [] = starts_with w []
contains w (y ∷ s) = let later = contains w s in if starts_with w (y ∷ s) then true else later

-- `command.substr(command.find("=") + 1)`
pub after_equals : Bytes → Bytes
after_equals [] = []
after_equals (c ∷ s) = let later = after_equals s in if c == b'=' then s else later

-- A number of a command, as `std::stoi` reads it: nothing where that throws. A value out of the range
-- of int throws.
pub data Parsed : Type 0 where
  throws : Parsed
  number : ℕ → Parsed
  negative : ℕ → Parsed

abbrev in_range : ℕ → ℕ → (ℕ → Parsed) → Parsed
in_range limit n f = if leb n limit then f n else throws

pub signed : (ℕ → Parsed) → ℕ → Bytes → Parsed
unfolding digits
signed f limit [] = throws
signed f limit (c ∷ s) = if is_digit c then in_range limit (digits 0 (c ∷ s)) f else throws

pub stoi : Bytes → Parsed
unfolding signed
stoi [] = throws
stoi (c ∷ s) =
    let later = stoi s in
    if is_space c
    then later
    else if c == b'-'
    then signed negative 2147483648 s
    else if c == b'+'
    then signed number 2147483647 s
    else signed number 2147483647 (c ∷ s)

-- The guard `new_level >= DEBUG && new_level <= CRITICAL`; -0 is 0.
pub valid_level : Parsed → Option ℕ
valid_level throws = none
valid_level (number n) = if leb n 3 then some n else none
valid_level (negative n) = if n == 0 then some 0 else none

-- One datagram of `listen_for_commands`.
pub on_command : Bytes → Logger → Logger
unfolding contains after_equals stoi valid_level
on_command command l =
    if contains (codes "Set Log Level=") command
    then elim (valid_level (stoi (after_equals command))) [
      | none ↦ l
      | some n ↦ record l { log_level = n }
    ]
    else l

abbrev pub level_str : LogLevel → Bytes
level_str debug = codes "DEBUG"
level_str warning = codes "WARNING"
level_str error = codes "ERROR"
level_str critical = codes "CRITICAL"

-- The text that `Log` sends, at the time that `put_time` printed.
pub log_text : Bytes → LogLevel → Bytes → Bytes → ℕ → Bytes → Bytes
log_text time level file function line message =
    let place = file ++ (codes ":" ++ (function ++ (codes ":" ++ (decimal line ++ codes " ")))) in
    time ++ (codes " " ++ (level_str level ++ ((codes " " ++ place) ++ message)))

-- `Log`: what it gives to `sendto`, if it sends.
pub log : Bytes → LogLevel → Bytes → Bytes → ℕ → Bytes → Logger → Option (ℕ × Bytes)
unfolding log_text
log time level file function line message l =
    if ltb (rank level) l.log_level then none else elim l.client_fd [
      | none ↦ none
      | some fd ↦ some (fd, log_text time level file function line message)
    ]

-- The server's command for a level.
pub level_command : ℕ → Bytes
level_command level = codes "Set Log Level=" ++ decimal level

pub get_log_level_from_string : Bytes → LogLevel
unfolding contains
get_log_level_from_string line =
    if contains (codes "CRITICAL") line
    then critical
    else if contains (codes "ERROR") line
    then error
    else if contains (codes "WARNING") line
    then warning
    else debug

-- `dump_log_file` on the lines of the file.
pub dump_log_file : Bool → LogLevel → List Bytes → List Bytes
unfolding get_log_level_from_string
dump_log_file exact_match level [] = []
dump_log_file exact_match level (line ∷ rest) =
    let found = rank (get_log_level_from_string line) in
    let later = dump_log_file exact_match level rest in
    if (if exact_match then found == rank level else leb (rank level) found)
    then line ∷ later
    else later
