-- ===== src/NetworkMonitor/Examples.antt =====
-- Runs of Assignment2's monitor, and its theorems at them.
use unx.Prelude.{ℕ, ◌<◌, ◌≡◌, refl, true, some, List, [], ◌∷◌, arith, ◌⊎◌}
use unx.Prelude.Bytes.{Bytes, codes, bytes_eq, c_string}
use unx.NetworkMonitor.Protocol.{eof, shut_down_text, link_down_text}
use unx.NetworkMonitor.Clients.{count, assign, touch}
use unx.NetworkMonitor.{
  Effect, Monitor, Input, Event, sigint, turn, ready, connected, happen, close, send, opens,
  connect, no_free_name, first_free, name_in_use, unlink, spawn,
}
use unx.NetworkMonitor.Main.{Startup, start_up, main}
use unx.NetworkMonitor.Names.{IsValid, happen-IsValid, uses, listed, connect_cases}
use unx.NetworkMonitor.Descriptors.{held, opened, closed}
use unx.NetworkMonitor.Closing.{main_closes}
use unx.NetworkMonitor.Replies.{deliver}

-- One interface, one client on descriptor 4, the master socket on 3.
abbrev lone : Monitor
lone = record {
  running = true;
  master = some 3;
  interface_names = codes "lo" ∷ codes "ens33" ∷ [];
  client_fds = (4, codes "lo") ∷ [];
}

lone-IsValid : IsValid lone
unfolding uses listed
lone-IsValid = record {
  rising = omega arith;
  single = λ x. ground arith;
  known = λ x h. ground arith;
}

-- A round in which the client on 4 reports its link down and a connection comes in on 5.
abbrev busy : Input
busy = record {
  activity = ready (3 ∷ 4 ∷ []);
  accepted = connected 5;
  received = λ fd. deliver link_down_text;
}

after_busy : (happen lone (turn busy)).0.client_fds ≡ (4, codes "lo") ∷ (5, codes "ens33") ∷ []
unfolding happen first_free name_in_use bytes_eq assign count c_string touch
after_busy = refl

happen-IsValid_example :
    IsValid (happen lone (turn busy)).0
    × ((happen lone (turn busy)).0.interface_names ≡ lone.interface_names)
happen-IsValid_example = happen-IsValid lone (turn busy) lone-IsValid

busy-IsFresh : (fd : ℕ) → connected 5 ≡ connected fd → held fd lone ≡ 0
unfolding count
busy-IsFresh fd e = ground arith

connect_cases_example :
    ((x : Bytes) × (uses x lone.client_fds ≡ 0)
      × (0 < listed x lone.interface_names)
      × (connect lone 5 ≡ (record lone { client_fds = assign 5 x lone.client_fds }, [])))
    ⊎ (((x : Bytes) → 0 < listed x lone.interface_names → 0 < uses x lone.client_fds)
        × (connect lone 5 ≡ (lone, no_free_name ∷ close 5 ∷ [])))
connect_cases_example = connect_cases lone 5

-- A whole run: one interface, one connection, SIGINT.
abbrev startup : Startup
startup = record {
  num_interfaces = 1;
  lines = codes "lo" ∷ [];
  socket = some 3;
  bind_ok = true;
  listen_ok = true;
  fork_ok = λ i. true;
}

abbrev history : List Event
history =
    turn (record { activity = ready (3 ∷ []); accepted = connected 4; received = λ fd. eof })
    ∷ sigint
    ∷ []

abbrev run_effects : List Effect
run_effects =
    opens 3
    ∷ unlink
    ∷ spawn (codes "lo")
    ∷ opens 4
    ∷ close 3
    ∷ send 4 shut_down_text
    ∷ close 4
    ∷ unlink
    ∷ []

main_closes_example : opened 4 run_effects ≡ closed 4 run_effects
unfolding main count start_up first_free name_in_use bytes_eq assign
main_closes_example =
    main_closes startup history [] (0, run_effects) (λ fd e. ground arith, (tt, tt)) refl 4
