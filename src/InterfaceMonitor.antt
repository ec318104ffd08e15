-- ===== src/InterfaceMonitor.antt =====
-- Assignment2/intfMonitor.cpp: one process for one network interface. What it does to the outside is
-- a list of effects; what the system calls give are arguments.
pub mod Messages
pub mod Session
pub mod Conversation
pub mod Examples
use unx.Prelude.{
  ℕ, ◌+◌, ◌≡◌, Bool, true, false, not, Option, none, some, List, [], ◌∷◌, ◌++◌, if◌then◌else◌,
}
use unx.Prelude.Bytes.{Bytes, codes, bytes_eq, c_string, decimal}
use unx.NetworkMonitor.Protocol.{
  Received, got, eof, interrupted, failed, ready_text, monitor_text, monitoring_text,
  link_down_text, set_link_up_text, shut_down_text, done_text,
}

-- The globals, with `none` for the descriptor -1, and the local `interface_name` of `main`.
pub record Intf : Type 0 where
  pub running : Bool
  pub client_socket_fd : Option ℕ
  pub interface_name : Bytes

pub data Effect : Type 0 where
  send : (message : Bytes) → Effect
  close : (fd : ℕ) → Effect
  set_link_up : (name : Bytes) → Effect  -- ioctl(SIOCSIFFLAGS) with IFF_UP
  print : (text : Bytes) → Effect
  warning : (path : Bytes) → Effect
  perror : Effect
  usage : Effect
  unexpected : (message : Bytes) → Effect

abbrev pub Outcome : Type 0
Outcome = Intf × List Effect

abbrev pub then_do : Outcome → (Intf → Outcome) → Outcome
then_do r f = let q = f r.0 in (q.0, r.1 ++ q.1)

pub sig_handler : Intf → Intf
sig_handler p = record p { running = false }

-- The files that open, and what `>>` reads from them.
pub record Sysfs : Type 0 where
  pub number : Bytes → Option ℕ
  pub word : Bytes → Option Bytes

pub read_sysfs_long : Sysfs → Bytes → ℕ × List Effect
read_sysfs_long fs path = elim (fs.number path) [ none ↦ (0, warning path ∷ []) | some v ↦ (v, []) ]

unfoldable pub read_sysfs_string : Sysfs → Bytes → Bytes × List Effect
read_sysfs_string fs path = elim (fs.word path) [
  | none ↦ (codes "unknown", warning path ∷ [])
  | some v ↦ (v, [])
]

pub send_message : Option ℕ → Bytes → List Effect
send_message none message = []
send_message (some fd) message = send message ∷ []

-- What the process does with a result of `recv`, once its socket is open.
pub heard : Intf → Received → Intf × Bytes × List Effect
heard p (got b bs) = (p, c_string (b ∷ bs), [])
heard p eof = (record p { running = false }, [], [])
heard p interrupted = (p, [], [])
heard p failed = (p, [], perror ∷ [])

pub receive_message : Intf → Received → Intf × Bytes × List Effect
unfolding heard
receive_message p r = elim p.client_socket_fd [ none ↦ (p, [], []) | some fd ↦ heard p r ]

-- "Ready", and "Monitoring" in answer to "Monitor".
pub handshake : Intf → Received → Outcome
unfolding send_message receive_message
handshake p r =
    let (q, nm_response, es) = receive_message p r in
    (
      if not (bytes_eq nm_response monitor_text) then record q { running = false } else q,
      send_message p.client_socket_fd ready_text
          ++ (es
              ++ (if not (bytes_eq nm_response monitor_text)
                  then unexpected nm_response ∷ []
                  else send_message p.client_socket_fd monitoring_text)),
    )

-- What one round of the loop meets.
pub record Tick : Type 0 where
  pub sysfs : Sysfs
  pub reply : Received
  pub ioctl_socket : Option ℕ
  pub ioctl_ok : Bool

abbrev pub base_path : Bytes → Bytes
base_path name = codes "/sys/class/net/" ++ (name ++ codes "/")

abbrev pub stats_path : Bytes → Bytes
stats_path name = base_path name ++ codes "statistics/"

-- The attempt to bring the link up.
pub bring_up : Intf → Tick → List Effect
bring_up p t = elim t.ioctl_socket [
  | none ↦ perror ∷ []
  | some sock ↦
      set_link_up p.interface_name ∷ ((if t.ioctl_ok then [] else perror ∷ []) ++ (close sock ∷ []))
]

-- The link is down: report it, and wait for the command.
pub report_down : Intf → Tick → Outcome
unfolding send_message receive_message bring_up
report_down p t =
    let (q, link_cmd, es) = receive_message p t.reply in
    (
      if bytes_eq link_cmd set_link_up_text
          then q
          else if bytes_eq link_cmd shut_down_text
          then record q { running = false }
          else q,
      send_message p.client_socket_fd link_down_text
          ++ (es ++ (if bytes_eq link_cmd set_link_up_text then bring_up q t else [])),
    )

-- The counters, in the order in which they are read and printed: the label before each one, and its
-- file, which is `true` below "statistics/".
abbrev counters : List (Bytes × Bool × Bytes)
counters =
    (codes " up_count:", false, codes "carrier_up_count")
    ∷ (codes " down_count:", false, codes "carrier_down_count")
    ∷ (codes "\nrx_bytes:", true, codes "rx_bytes")
    ∷ (codes " rx_dropped:", true, codes "rx_dropped")
    ∷ (codes " rx_errors:", true, codes "rx_errors")
    ∷ (codes " rx_packets:", true, codes "rx_packets")
    ∷ (codes "\ntx_bytes:", true, codes "tx_bytes")
    ∷ (codes " tx_dropped:", true, codes "tx_dropped")
    ∷ (codes " tx_errors:", true, codes "tx_errors")
    ∷ (codes " tx_packets:", true, codes "tx_packets")
    ∷ []

read_all : Sysfs → Bytes → List (Bytes × Bool × Bytes) → Bytes × List Effect
unfolding read_sysfs_long
read_all fs name [] = ([], [])
read_all fs name ((label, below, file) ∷ rest) =
    let (v, es) =
      read_sysfs_long fs ((if below then stats_path name else base_path name) ++ file) in
    let (text, fs') = read_all fs name rest in (label ++ (decimal v ++ text), es ++ fs')

-- The statistics that a round prints.
pub stats_line : Intf → Tick → Bytes
unfolding read_sysfs_string read_all
stats_line p t =
    codes "Interface:"
    ++ (p.interface_name
        ++ (codes " state:"
            ++ ((read_sysfs_string t.sysfs (base_path p.interface_name ++ codes "operstate")).0
                ++ ((read_all t.sysfs p.interface_name counters).0 ++ codes "\n\n"))))

-- One round of `while (running)`.
pub iteration : Intf → Tick → Outcome
unfolding read_sysfs_string read_all report_down stats_line
iteration p t =
    let (operstate, es) =
      read_sysfs_string t.sysfs (base_path p.interface_name ++ codes "operstate") in
    let fs = (read_all t.sysfs p.interface_name counters).1 in
    then_do (p, es ++ fs)
      (λ q.
        then_do (if bytes_eq operstate (codes "down") then report_down q t else (q, []))
          (λ q'. (q', print (stats_line p t) ∷ [])))

pub data Event : Type 0 where
  sigint : Event
  tick : (t : Tick) → Event

pub happen : Intf → Event → Outcome
unfolding sig_handler iteration
happen p sigint = (sig_handler p, [])
happen p (tick t) = iteration p t

-- The loop: `none` if the events end before it does.
pub main_loop : List Event → Intf → Option Outcome
unfolding happen
main_loop [] p = if p.running then none else some (p, [])
main_loop (e ∷ es) p =
    let r = happen p e in
    let rest : Option Outcome = elim (main_loop es r.0) [
      | none ↦ none
      | some q ↦ some (q.0, r.1 ++ q.1)
    ] in
    if p.running then rest else some (p, [])

pub farewell : Intf → List Effect
unfolding send_message
farewell p = elim p.client_socket_fd [
  | none ↦ []
  | some fd ↦ send_message (some fd) done_text ++ (close fd ∷ [])
]

abbrev pub starting : Bytes → ℕ → Intf
starting name fd = record { running = true; client_socket_fd = some fd; interface_name = name }

-- `main`, with its argument, if there is one: the results of `socket` and `connect`, and of the first `recv`.
unfoldable pub main :
    Option Bytes → Option ℕ → Bool → Received → List Event → Option (ℕ × List Effect)
unfolding handshake main_loop farewell
main none socket connects first events = some (1, usage ∷ [])
main (some name) none connects first events = some (1, perror ∷ [])
main (some name) (some fd) false first events = some (1, perror ∷ close fd ∷ [])
main (some name) (some fd) true first events =
    let greeted = handshake (starting name fd) first in
    elim (main_loop events greeted.0) [
      | none ↦ none
      | some q ↦ some (0, greeted.1 ++ (q.1 ++ farewell q.0))
    ]
