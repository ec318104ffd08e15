-- ===== src/NetworkMonitor/Main.antt =====
-- `main` of Assignment2/networkMonitor.cpp: the interfaces, the socket, the children, and the loop.
use unx.Prelude.{
  ℕ, zero, suc, ◌+◌, Bool, true, false, Option, none, some, List, [], ◌∷◌, ◌++◌, not, if◌then◌else◌,
}
use unx.Prelude.Bytes.{Bytes}
use unx.NetworkMonitor.{
  Monitor, Effect, Event, opens, close, perror, unlink, spawn, main_loop, cleanup_sockets,
}

-- `getline` gives the empty string at the end of the input.
unfoldable pub read_names : ℕ → List Bytes → List Bytes
read_names zero lines = []
read_names (suc n) [] = [] ∷ read_names n []
read_names (suc n) (l ∷ lines) = l ∷ read_names n lines

-- The results of the calls before the loop.
pub record Startup : Type 0 where
  pub num_interfaces : ℕ
  pub lines : List Bytes
  pub socket : Option ℕ
  pub bind_ok : Bool
  pub listen_ok : Bool
  pub fork_ok : ℕ → Bool

pub data Started : Type 0 where
  quits : List Effect → Started  -- return 1
  serves : Monitor → List Effect → Started

unfoldable pub launch : (ℕ → Bool) → ℕ → List Bytes → List Effect
launch ok i [] = []
launch ok i (name ∷ rest) = (if ok i then spawn name else perror) ∷ launch ok (i + 1) rest

abbrev pub no_names : List Bytes → Bool
no_names [] = true
no_names (x ∷ xs) = false

-- From `socket` on.
unfoldable pub open_master : Startup → List Bytes → Option ℕ → Started
unfolding launch
open_master s names none = quits (perror ∷ [])
open_master s names (some fd) =
    if not s.bind_ok
    then quits (opens fd ∷ unlink ∷ perror ∷ close fd ∷ [])
    else if not s.listen_ok
    then quits (opens fd ∷ unlink ∷ perror ∷ close fd ∷ unlink ∷ [])
    else serves
        (record { running = true; master = some fd; interface_names = names; client_fds = [] })
        (opens fd ∷ unlink ∷ launch s.fork_ok 0 names)

unfoldable pub start_up : Startup → Started
unfolding read_names open_master
start_up s =
    let names = read_names s.num_interfaces s.lines in
    if no_names names then quits [] else open_master s names s.socket

-- The loop and the cleanup, with the exit status.
unfoldable pub finish : Started → List Event → List ℕ → Option (ℕ × List Effect)
unfolding main_loop cleanup_sockets
finish (quits es) events pids = some (1, es)
finish (serves m es) events pids = elim (main_loop events m) [
  | none ↦ none
  | some q ↦ some (0, es ++ (q.1 ++ (cleanup_sockets pids q.0).1))
]

unfoldable pub main : Startup → List Event → List ℕ → Option (ℕ × List Effect)
unfolding start_up finish
main s events pids = finish (start_up s) events pids
