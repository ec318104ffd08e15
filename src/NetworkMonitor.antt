-- ===== src/NetworkMonitor.antt =====
-- Assignment2/networkMonitor.cpp: the parent that starts one intfMonitor for each interface, and
-- talks to them over stream sockets. What the process does to the outside is a list of effects.
pub mod Protocol
pub mod Clients
mod Keeping
pub mod Names
pub mod Descriptors
pub mod Closing
pub mod Replies
pub mod Main
pub mod Examples
use unx.Prelude.{
  ℕ, zero, suc, ◌+◌, ◌≡◌, Bool, true, false, ◌&&◌, ◌||◌, Option, none, some, List, [], ◌∷◌, ◌++◌,
  map, ltb, ◌==◌, not, if◌then◌else◌,
}
use unx.Prelude.Bytes.{Bytes, bytes_eq, c_string}
use Protocol.{
  Received, got, eof, interrupted, failed, ready_text, monitor_text, monitoring_text,
  link_down_text, set_link_up_text, shut_down_text, done_text,
}
use Clients.{ClientMap, count, assign, name_of, touch, erase, keys}

-- The globals, with `none` for the descriptor -1, and the local `interface_names` of `main`.
pub record Monitor : Type 0 where
  pub running : Bool
  pub master : Option ℕ
  pub interface_names : List Bytes
  pub client_fds : ClientMap

pub data Effect : Type 0 where
  opens : (fd : ℕ) → Effect  -- a descriptor that `socket` or `accept` gave
  send : (fd : ℕ) → (message : Bytes) → Effect
  close : (fd : ℕ) → Effect
  alert : (name : Bytes) → Effect  -- the line for a link that is down
  unknown_message : (name message : Bytes) → Effect
  recv_error : (name : Bytes) → Effect
  no_free_name : Effect
  spawn : (name : Bytes) → Effect  -- fork, and execve in the child
  perror : Effect
  unlink : Effect  -- of the socket's file
  reap : (pid : ℕ) → Effect

abbrev pub Outcome : Type 0
Outcome = Monitor × List Effect

-- A function's effects after those before it.
abbrev pub then_do : Outcome → (Monitor → Outcome) → Outcome
then_do r f = let q = f r.0 in (q.0, r.1 ++ q.1)

abbrev pub without : ℕ → Monitor → Monitor
without fd m = record m { client_fds = erase fd m.client_fds }

-- The ladder of comparisons in `handle_client_message`.
pub respond : Monitor → ℕ → Bytes → Bytes → Outcome
respond m fd name message =
    if bytes_eq message ready_text
    then (m, send fd monitor_text ∷ [])
    else if bytes_eq message monitoring_text
    then (m, [])
    else if bytes_eq message link_down_text
    then (m, alert name ∷ send fd set_link_up_text ∷ [])
    else if bytes_eq message done_text
    then (without fd m, close fd ∷ [])
    else (m, unknown_message name message ∷ [])

-- `client_fds[client_fd]` inserts a key that is not there, so it is a write as well.
unfoldable pub handle_client_message : Monitor → ℕ → Received → Outcome
unfolding respond
handle_client_message m fd (got b bs) =
    let named = record m { client_fds = touch fd m.client_fds } in
    respond named fd (name_of fd m.client_fds) (c_string (b ∷ bs))
handle_client_message m fd eof = (without fd m, close fd ∷ [])
handle_client_message m fd interrupted = (m, [])
handle_client_message m fd failed =
    let named = record m { client_fds = touch fd m.client_fds } in
    (without fd named, recv_error (name_of fd m.client_fds) ∷ close fd ∷ [])

unfoldable pub name_in_use : Bytes → ClientMap → Bool
name_in_use name [] = false
name_in_use name ((k, v) ∷ m) = bytes_eq v name || name_in_use name m

-- The first interface that no connection stands for.
pub first_free : List Bytes → ClientMap → Option Bytes
first_free [] m = none
first_free (name ∷ rest) m = if name_in_use name m then first_free rest m else some name

-- A new connection, in `main`.
pub connect : Monitor → ℕ → Outcome
connect m fd = elim (first_free m.interface_names m.client_fds) [
  | none ↦ (m, no_free_name ∷ close fd ∷ [])
  | some name ↦ (record m { client_fds = assign fd name m.client_fds }, [])
]

pub data Accepted : Type 0 where
  connected : (fd : ℕ) → Accepted
  accept_interrupted accept_failed : Accepted

pub data Activity : Type 0 where
  ready : (fds : List ℕ) → Activity  -- the descriptors that `select` leaves in the set
  select_interrupted select_failed : Activity

-- What the system calls of one round of the loop give.
pub record Input : Type 0 where
  pub activity : Activity
  pub accepted : Accepted
  pub received : ℕ → Received

abbrev pub is_set : ℕ → List ℕ → Bool
is_set fd [] = false
is_set fd (x ∷ xs) = (x == fd) || is_set fd xs

-- The descriptors handed to `select`, and the greatest of them.
pub watched : Monitor → List ℕ
watched m = elim m.master [ none ↦ keys m.client_fds | some fd ↦ fd ∷ keys m.client_fds ]

pub max_fd : ℕ → ClientMap → ℕ
max_fd top [] = top
max_fd top ((fd, name) ∷ m) = max_fd (if ltb top fd then fd else top) m

abbrev pub master_set : Monitor → List ℕ → Bool
master_set m fds = elim m.master [ none ↦ false | some fd ↦ is_set fd fds ]

-- The loop over `fds_to_check`.
pub attend_one : ℕ → List ℕ → (ℕ → Received) → Monitor → Outcome
unfolding handle_client_message
attend_one fd fds received m =
    if is_set fd fds && not (count fd m.client_fds == 0)
    then handle_client_message m fd (received fd)
    else (m, [])

pub attend : List ℕ → List ℕ → (ℕ → Received) → Monitor → Outcome
unfolding attend_one
attend [] fds received m = (m, [])
attend (fd ∷ rest) fds received m =
    then_do (attend_one fd fds received m) (attend rest fds received)

abbrev pub attend_all : List ℕ → (ℕ → Received) → Monitor → Outcome
attend_all fds received m = attend (keys m.client_fds) fds received m

-- The master socket is in the set. An interrupted `accept` skips the clients.
pub greet : Accepted → List ℕ → (ℕ → Received) → Monitor → Outcome
unfolding attend connect
greet (connected fd) fds received m =
    then_do (then_do (m, opens fd ∷ []) (λ q. connect q fd)) (attend_all fds received)
greet accept_interrupted fds received m = (m, [])
greet accept_failed fds received m = then_do (m, perror ∷ []) (attend_all fds received)

-- The rest of a round, once the set is known.
pub service : Monitor → List ℕ → Input → Outcome
unfolding greet
service m fds input =
    if master_set m fds
    then greet input.accepted fds input.received m
    else attend_all fds input.received m

-- One round of `while (running)`. When `select` fails it leaves the set as it was filled.
pub round : Monitor → Input → Outcome
unfolding service watched
round m input = elim input.activity [
  | ready fds ↦ service m fds input
  | select_interrupted ↦ (m, [])
  | select_failed ↦
      then_do (record m { running = false }, perror ∷ []) (λ q. service q (watched m) input)
]

abbrev pub close_master : Option ℕ → List Effect
close_master none = []
close_master (some fd) = close fd ∷ []

pub sig_handler : Monitor → Outcome
sig_handler m = (record m { running = false; master = none }, close_master m.master)

pub data Event : Type 0 where
  sigint : Event
  turn : (input : Input) → Event

pub happen : Monitor → Event → Outcome
unfolding sig_handler round
happen m sigint = sig_handler m
happen m (turn input) = round m input

-- The loop: `none` if the events end before it does.
pub main_loop : List Event → Monitor → Option Outcome
unfolding happen
main_loop [] m = if m.running then none else some (m, [])
main_loop (e ∷ es) m =
    let r = happen m e in
    let rest : Option Outcome = elim (main_loop es r.0) [
      | none ↦ none
      | some q ↦ some (q.0, r.1 ++ q.1)
    ] in
    if m.running then rest else some (m, [])

pub dismiss : ClientMap → List Effect
dismiss [] = []
dismiss ((fd, name) ∷ m) = send fd shut_down_text ∷ close fd ∷ dismiss m

-- The children that `waitpid` reports are an argument.
pub cleanup_sockets : List ℕ → Monitor → Outcome
unfolding dismiss
cleanup_sockets pids m = (
  record m { client_fds = []; master = none },
  dismiss m.client_fds ++ (close_master m.master ++ (unlink ∷ map reap pids)),
)
