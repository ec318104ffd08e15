-- ===== src/Logging/Menu/Agreement.antt =====
-- Assignment3/LogServer.cpp: the command and the level of the server.
use unx.Prelude.{
  ℕ, ◌≤◌, Bool, true, false, Option, none, some, List, [], ◌∷◌, ◌==◌, if◌then◌else◌, ◌≡◌, refl, sym,
  ap, ◌∙◌, arith, All,
}
use unx.Prelude.Bytes.{Bytes}
use unx.Logging.{
  rank, Logger, Parsed, throws, number, negative, stoi, valid_level, level_command, on_command,
  dump_log_file,
}
use unx.Logging.Levels.{valid_level-small, on_command-level_command}
use unx.Logging.Menu.{
  LogServer, Output, command, dumped, invalid_level, invalid_choice, Round, continues, terminates,
  level_of, set_level, chosen_level, ask_level, choice, choose, getline, Surroundings, menu_round,
  log_messages, press_enter,
}

-- The commands that a round sends.
pub commands : List Output → List Bytes
commands [] = []
commands (command c ∷ os) = c ∷ commands os
commands (_ ∷ os) = commands os

-- A client that gets what a round sends has the level that the server has after it.
abbrev pub Agrees : Logger → Round → Type 0
Agrees l terminates = Unit
Agrees l (continues t outs) =
    All (λ c. on_command c l ≡ record l { log_level = rank t.current_server_log_level })
      (commands outs)

rank-level_of : (n : ℕ) → n ≤ 3 → rank (level_of n) ≡ n
unfolding level_of
rank-level_of n h = ground (arith, h)

set_level-Agrees :
    (l : Logger) (n : ℕ) (socket : Bool) (arrived : List Bytes) (s : LogServer)
    → n ≤ 3
    → Agrees l (set_level n socket arrived s)
unfolding set_level commands press_enter
set_level-Agrees l n false arrived s h = tt
set_level-Agrees l n true arrived s h = (
  ap (λ k. on_command (level_command k) l) (sym (rank-level_of n h))
      ∙ on_command-level_command (level_of n) l,
  tt,
)

valid-Agrees :
    (l : Logger) (o : Option ℕ) (socket : Bool) (arrived : List Bytes) (s : LogServer)
    → ((n : ℕ) → o ≡ some n → n ≤ 3)
    → Agrees l (elim o as (λ o. Round) [
      | some level ↦ set_level level socket arrived s
      | none ↦ continues (press_enter s) (invalid_level ∷ [])
    ])
unfolding commands
valid-Agrees l none socket arrived s h = tt
valid-Agrees l (some n) socket arrived s h = set_level-Agrees l n socket arrived s (h n refl)

chosen_level-Agrees :
    (l : Logger) (p : Parsed) (socket : Bool) (arrived : List Bytes) (s : LogServer)
    → Agrees l (chosen_level p socket arrived s)
unfolding chosen_level
chosen_level-Agrees l throws socket arrived s = tt
chosen_level-Agrees l (number n) socket arrived s =
    valid-Agrees l (valid_level (number n)) socket arrived s (valid_level-small (number n))
chosen_level-Agrees l (negative n) socket arrived s =
    valid-Agrees l (valid_level (negative n)) socket arrived s (valid_level-small (negative n))

ask_level-Agrees :
    (l : Logger) (socket : Bool) (arrived : List Bytes) (s : LogServer)
    → Agrees l (ask_level socket arrived s)
unfolding ask_level commands
ask_level-Agrees l socket arrived s =
    let t : LogServer = record s { cin = (getline [] s.cin).1 } in
    elim (getline [] s.cin).0
      as (λ line. Agrees l (elim line as (λ line. Round) [
        | [] ↦ continues (press_enter t) []
        | c ∷ cs ↦ chosen_level (stoi (c ∷ cs)) socket arrived t
      ])) [ [] ↦ tt | c ∷ cs ↦ chosen_level-Agrees l (stoi (c ∷ cs)) socket arrived t ]

choose-Agrees :
    (l : Logger) (c : ℕ) (socket : Bool) (arrived : List Bytes) (s : LogServer)
    → Agrees l (choose c socket arrived s)
unfolding choose commands
choose-Agrees l c socket arrived s = pick (c == b'1') (c == b'2') (c == b'0')
  where
    pick :
        (x y z : Bool)
        → Agrees l (
            if x
            then ask_level socket arrived s
            else if y
            then continues
                (press_enter s)
                (dumped (dump_log_file false s.current_server_log_level s.server_log) ∷ [])
            else if z
            then continues (record s { shutdown_flag = true }) []
            else continues s (invalid_choice ∷ []))
    pick true y z = ask_level-Agrees l socket arrived s
    pick false true z = tt
    pick false false true = tt
    pick false false false = tt

-- Whatever is typed and whatever arrives, a client that gets a command of a round of the server then has
-- the level that the server has after the round, and is else as it was.
pub menu_round-Agrees : (e : Surroundings) (s : LogServer) (l : Logger) → Agrees l (menu_round e s)
unfolding menu_round
menu_round-Agrees e s l =
    let r = getline s.input s.cin in
    choose-Agrees l (choice r.0) e.socket e.asleep
      (record s { input = r.0; cin = r.1; server_log = log_messages e.before s.server_log })
