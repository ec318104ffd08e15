-- ===== src/InterfaceMonitor/Examples.antt =====
-- Runs of Assignment2's intfMonitor, and its theorems at them.
use unx.Prelude.{ℕ, ◌≡◌, refl, true, none, some, List, [], ◌∷◌, ◌++◌, replicate, if◌then◌else◌}
use unx.Prelude.Bytes.{Bytes, codes, bytes_eq, c_string}
use unx.NetworkMonitor.Protocol.{
  ready_text, monitor_text, monitoring_text, link_down_text, set_link_up_text, shut_down_text,
  done_text,
}
use unx.NetworkMonitor.Clients.{count}
use unx.NetworkMonitor.{Monitor, handle_client_message}
use unx.NetworkMonitor.Replies.{deliver, sent_to}
use unx.InterfaceMonitor.{
  Intf, Effect, read_sysfs_string, Sysfs, Tick, Event, sigint, tick, iteration, handshake, starting,
  main,
}
use unx.InterfaceMonitor.Messages.{sent}
use unx.InterfaceMonitor.Session.{downs, welcomes, main-sent}
use unx.InterfaceMonitor.Conversation.{tries_up, link_repaired}

abbrev files : Bytes → Sysfs
files state = record { number = λ path. some 7; word = λ path. some state }

abbrev down_tick : Tick
down_tick = record {
  sysfs = files (codes "down");
  reply = deliver set_link_up_text;
  ioctl_socket = some 5;
  ioctl_ok = true;
}

abbrev up_tick : Tick
up_tick = record down_tick { sysfs = files (codes "up"); reply = deliver shut_down_text }

abbrev process : Intf
process = starting (codes "lo") 3

-- A monitor that has the process as its client on descriptor 4.
abbrev lone : Monitor
lone = record {
  running = true;
  master = some 3;
  interface_names = codes "lo" ∷ [];
  client_fds = (4, codes "lo") ∷ [];
}

abbrev events : List Event
events = tick up_tick ∷ tick down_tick ∷ sigint ∷ []

-- What the run gives.
run_of : ℕ × List Effect
unfolding main bytes_eq c_string
run_of = elim (main (some (codes "lo")) (some 3) true (deliver monitor_text) events) [
  | none ↦ (1, [])
  | some r ↦ r
]

main-sent_example :
    (◌≡◌ {A = ℕ} 0 0)
    × (sent run_of.1
        ≡ ready_text
          ∷ ((if welcomes (deliver monitor_text) then monitoring_text ∷ [] else [])
              ++ (replicate
                    (downs events (handshake process (deliver monitor_text)).0)
                    link_down_text
                  ++ done_text ∷ [])))
unfolding run_of
main-sent_example = main-sent (codes "lo") 3 (deliver monitor_text) events run_of refl

link_repaired_example :
    (tries_up (codes "lo") (iteration process down_tick).1 ≡ true)
    × ((iteration process down_tick).0 ≡ process)
unfolding count read_sysfs_string handle_client_message sent_to bytes_eq c_string
link_repaired_example =
    link_repaired lone 4 process down_tick 3 5 refl refl refl refl set_link_up_text refl refl
