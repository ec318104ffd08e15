-- ===== src/Logging/Menu.antt =====
-- Assignment3/LogServer.cpp: the menu of `main` and the file of the receiving thread. A round has the
-- datagrams that the thread writes during it.
use unx.Prelude.{
  ℕ, zero, suc, Bool, true, false, Option, none, some, List, [], ◌∷◌, ◌++◌, ◌==◌, if◌then◌else◌,
}
use unx.Prelude.Bytes.{Bytes, codes}
use unx.Logging.{
  LogLevel, debug, warning, error, critical, Parsed, throws, number, negative, stoi, valid_level,
  level_command, dump_log_file,
}
pub mod Agreement
pub mod AtEnd
pub mod Examples

-- std::cin: the characters to come, and whether a read has met their end.
pub record Input : Type 0 where
  pub chars : Bytes
  pub at_end : Bool

-- A line up to its newline, what comes after it, and whether the newline was there.
unfoldable pub line_of : Bytes → Bytes × Bytes × Bool
line_of [] = ([], [], false)
line_of (c ∷ s) = let r = line_of s in if c == 10 then ([], s, true) else (c ∷ r.0, r.1, r.2)

-- `std::getline`, which leaves its string alone once the end was met.
unfoldable pub getline : Bytes → Input → Bytes × Input
unfolding line_of
getline old i =
    let r = line_of i.chars in
    if i.at_end
    then (old, i)
    else (r.0, record { chars = r.1; at_end = if r.2 then false else true })

-- `std::cin.ignore()`: one character.
unfoldable pub ignore : Input → Input
ignore i = elim i.chars [ [] ↦ record i { at_end = true } | c ∷ s ↦ record i { chars = s } ]

-- The globals and locals of `main`, and the file as `getline` will give it.
pub record LogServer : Type 0 where
  pub current_server_log_level : LogLevel
  pub server_log : List Bytes
  pub shutdown_flag : Bool
  pub input : Bytes
  pub cin : Input

pub data Output : Type 0 where
  command : Bytes → Output
  dumped : List Bytes → Output
  invalid_level invalid_choice no_socket : Output

-- The lines of a message in the file, with the empty one behind it.
unfoldable pub lines_in : Bytes → List Bytes
lines_in [] = [] ∷ []
lines_in (c ∷ s) = let rest = lines_in s in if c == 10 then [] ∷ rest else onto c rest
  where
    onto : ℕ → List Bytes → List Bytes
    onto c [] = (c ∷ []) ∷ []
    onto c (l ∷ ls) = (c ∷ l) ∷ ls

-- `log_message`, of each datagram that came.
unfoldable pub log_messages : List Bytes → List Bytes → List Bytes
unfolding lines_in
log_messages [] log = log
log_messages (m ∷ ms) log = log_messages ms (log ++ (lines_in m ++ [] ∷ []))

-- The LOG_LEVEL of a number from 0 to 3.
unfoldable pub level_of : ℕ → LogLevel
level_of zero = debug
level_of (suc zero) = warning
level_of (suc (suc zero)) = error
level_of _ = critical

-- What a round ends with: the loop goes on, or an exception of `std::stoi` ends the process.
pub data Round : Type 0 where
  continues : LogServer → List Output → Round
  terminates : Round

-- "Press ENTER to continue..."
unfoldable pub press_enter : LogServer → LogServer
unfolding ignore
press_enter s = record s { cin = ignore s.cin }

-- A level that is valid: the command goes out, where a socket can be made, and after five seconds the
-- lines of just that level are dumped.
unfoldable pub set_level : ℕ → Bool → List Bytes → LogServer → Round
unfolding press_enter log_messages level_of dump_log_file
set_level level false arrived s =
    continues (record s { current_server_log_level = level_of level }) (no_socket ∷ [])
set_level level true arrived s =
    let log = log_messages arrived s.server_log in
    continues
      (press_enter (record s { current_server_log_level = level_of level; server_log = log }))
      (command (level_command level) ∷ dumped (dump_log_file true (level_of level) log) ∷ [])

unfoldable pub chosen_level : Parsed → Bool → List Bytes → LogServer → Round
unfolding set_level valid_level press_enter
chosen_level throws socket arrived s = terminates
chosen_level p socket arrived s = elim (valid_level p) [
  | some level ↦ set_level level socket arrived s
  | none ↦ continues (press_enter s) (invalid_level ∷ [])
]

-- `case '1'`.
unfoldable pub ask_level : Bool → List Bytes → LogServer → Round
unfolding getline stoi chosen_level press_enter
ask_level socket arrived s =
    let r = getline [] s.cin in
    let t : LogServer = record s { cin = r.1 } in
    elim r.0 [
      | [] ↦ continues (press_enter t) []
      | c ∷ cs ↦ chosen_level (stoi (c ∷ cs)) socket arrived t
    ]

-- `choice`: the first character of the line, or a space.
unfoldable pub choice : Bytes → ℕ
choice [] = 32
choice (c ∷ s) = c

unfoldable pub choose : ℕ → Bool → List Bytes → LogServer → Round
unfolding ask_level press_enter dump_log_file
choose c socket arrived s =
    if c == b'1'
    then ask_level socket arrived s
    else if c == b'2'
    then continues (press_enter s)
        (dumped (dump_log_file false s.current_server_log_level s.server_log) ∷ [])
    else if c == b'0'
    then continues (record s { shutdown_flag = true }) []
    else continues s (invalid_choice ∷ [])

-- What happens around a round: whether a socket can be made, and the datagrams that arrive before its
-- line is read, and while it sleeps.
pub record Surroundings : Type 0 where
  pub socket : Bool
  pub before : List Bytes
  pub asleep : List Bytes

-- A round of the loop of `main`.
unfoldable pub menu_round : Surroundings → LogServer → Round
unfolding getline choose choice log_messages
menu_round e s =
    let r = getline s.input s.cin in
    choose (choice r.0) e.socket e.asleep
      (record s { input = r.0; cin = r.1; server_log = log_messages e.before s.server_log })

unfoldable pub preceded : List Output → Round → Round
preceded outs terminates = terminates
preceded outs (continues t more) = continues t (outs ++ more)

unfoldable pub and_then : Round → (LogServer → Round) → Round
unfolding preceded
and_then terminates f = terminates
and_then (continues t outs) f = preceded outs (f t)

-- The loop, for the rounds of a list.
unfoldable pub menu : List Surroundings → LogServer → Round
unfolding menu_round and_then
menu [] s = continues s []
menu (e ∷ es) s =
    if s.shutdown_flag then continues s [] else and_then (menu_round e s) (λ t. menu es t)

-- `main` after the file was cleared.
abbrev pub at_menu : Bytes → LogServer
at_menu chars = record {
  current_server_log_level = debug;
  server_log = [];
  shutdown_flag = false;
  input = [];
  cin = record { chars = chars; at_end = false };
}
