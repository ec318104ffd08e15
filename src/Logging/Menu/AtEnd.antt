-- ===== src/Logging/Menu/AtEnd.antt =====
-- Assignment3/LogServer.cpp: the menu at the end of its input.
use unx.Prelude.{
  ℕ, Bool, true, false, List, [], ◌∷◌, ◌==◌, if◌then◌else◌, ◌≡◌, ◌≢◌, refl, sym, arith,
}
use mathlib.Core.Path.{subst}
use unx.Prelude.Bytes.{Bytes}
use unx.Logging.{stoi, dump_log_file}
use unx.Logging.Menu.{
  Input, LogServer, Output, dumped, invalid_choice, Round, continues, terminates, chosen_level,
  ask_level, choice, choose, getline, ignore, Surroundings, menu_round, log_messages, press_enter,
  preceded, and_then, menu,
}

-- The input has ended, and the last line that was read does not ask for the end of the server.
record IsStuck (s : LogServer) : Type 0 where
  pub ended : s.cin.at_end ≡ true
  pub line : choice s.input ≢ b'0'
  pub runs : s.shutdown_flag ≡ false

abbrev Stays : Round → Type 0
Stays terminates = true ≡ false
Stays (continues t outs) = IsStuck t

ignore-end : (i : Input) → i.at_end ≡ true → (ignore i).at_end ≡ true
unfolding ignore
ignore-end i h =
    elim i.chars
      as (λ l.
        (elim l as (λ l. Input) [
          | [] ↦ record i { at_end = true }
          | c ∷ s ↦ record i { chars = s }
        ]).at_end
        ≡ true) [ [] ↦ refl | c ∷ s ↦ h ]

press_enter-IsStuck : (s : LogServer) → IsStuck s → IsStuck (press_enter s)
unfolding press_enter
press_enter-IsStuck s h = record { ended = ignore-end s.cin h.ended; line = h.line; runs = h.runs }

getline-end : (old : Bytes) (i : Input) → i.at_end ≡ true → getline old i ≡ (old, i)
unfolding getline
getline-end old i h = rw h refl

ask_level-Stays :
    (socket : Bool) (arrived : List Bytes) (s : LogServer)
    → IsStuck s
    → Stays (ask_level socket arrived s)
unfolding ask_level
ask_level-Stays socket arrived s h =
    subst
      (λ (r : Bytes × Input).
        let t : LogServer = record s { cin = r.1 } in
        Stays (elim r.0 as (λ line. Round) [
          | [] ↦ continues (press_enter t) []
          | c ∷ cs ↦ chosen_level (stoi (c ∷ cs)) socket arrived t
        ]))
      (sym (getline-end [] s.cin h.ended)) (press_enter-IsStuck s h)

choose-Stays :
    (c : ℕ) (socket : Bool) (arrived : List Bytes) (s : LogServer)
    → IsStuck s
    → c ≢ b'0'
    → Stays (choose c socket arrived s)
unfolding choose
choose-Stays c socket arrived s h n = pick (c == b'1') (c == b'2') (c == b'0') refl
  where
    pick :
        (x y z : Bool)
        → (c == b'0') ≡ z
        → Stays (
            if x
            then ask_level socket arrived s
            else if y
            then continues
                (press_enter s)
                (dumped (dump_log_file false s.current_server_log_level s.server_log) ∷ [])
            else if z
            then continues (record s { shutdown_flag = true }) []
            else continues s (invalid_choice ∷ []))
    pick true y z e = ask_level-Stays socket arrived s h
    pick false true z e = press_enter-IsStuck s h
    pick false false true e = absurd (ground (arith, n, e))
    pick false false false e = h

menu_round-Stays : (e : Surroundings) (s : LogServer) → IsStuck s → Stays (menu_round e s)
unfolding menu_round
menu_round-Stays e s h =
    let logged : LogServer = record s { server_log = log_messages e.before s.server_log } in
    rw (getline-end s.input s.cin h.ended) (
      choose-Stays (choice s.input) e.socket e.asleep logged
        (record { ended = h.ended; line = h.line; runs = h.runs }) h.line)

preceded-Stays : (outs : List Output) (r : Round) → Stays r → Stays (preceded outs r)
unfolding preceded
preceded-Stays outs terminates h = h
preceded-Stays outs (continues t more) h = h

and_then-Stays :
    (r : Round) (f : LogServer → Round)
    → Stays r
    → ((t : LogServer) → IsStuck t → Stays (f t))
    → Stays (and_then r f)
unfolding and_then
and_then-Stays terminates f h k = h
and_then-Stays (continues t outs) f h k = preceded-Stays outs (f t) (k t h)

menu-Stays : (es : List Surroundings) (s : LogServer) → IsStuck s → Stays (menu es s)
unfolding menu
menu-Stays [] s h = h
menu-Stays (e ∷ es) s h =
    subst (λ b. Stays (if b then continues s [] else and_then (menu_round e s) (λ t. menu es t)))
      (sym h.runs)
      (and_then-Stays (menu_round e s) (λ t. menu es t) (menu_round-Stays e s h)
        (λ t k. menu-Stays es t k))

still_running :
    (r : Round)
    → Stays r
    → (t : LogServer) × (outs : List Output) × (r ≡ continues t outs) × (t.shutdown_flag ≡ false)
still_running terminates h = absurd cc
still_running (continues t outs) h = (t, outs, refl, h.runs)

-- A server whose input has ended, and whose last line does not begin with 0, makes its rounds for ever:
-- after any number of them it is in its loop, and not shut down.
pub menu-spins :
    (es : List Surroundings) (s : LogServer)
    → s.cin.at_end ≡ true
    → choice s.input ≢ b'0'
    → s.shutdown_flag ≡ false
    → (t : LogServer) × (outs : List Output) × (menu es s ≡ continues t outs)
      × (t.shutdown_flag ≡ false)
menu-spins es s ended line runs =
    still_running (menu es s) (menu-Stays es s (record { ended = ended; line = line; runs = runs }))
