-- ===== src/SocketServer.antt =====
-- Lab9/server.cpp: a server with a thread for each client, which put what they read into a queue that
-- main prints. Each move is one access to the shared state by one thread, or a SIGINT.
use unx.Prelude.{
  ℕ, zero, suc, ◌+◌, Bool, true, false, Option, none, some, List, [], ◌∷◌, ◌++◌, ◌==◌, ltb, length,
  if◌then◌else◌,
}
use unx.Prelude.Slots.{get_elem?, set}
use unx.Prelude.Bytes.{Bytes, c_string}
pub mod Printing
pub mod Locking
pub mod Farewell
pub mod Client
pub mod Examples

-- The size of `buffer`.
abbrev pub buffer_size : ℕ
buffer_size = 4096

-- What `read` gives: bytes, with those that the memory has behind the buffer, the end of the stream, or
-- -1, which is a timeout too.
pub data Read : Type 0 where
  gets : Bytes → Bytes → Read
  ended : Read
  fails : Read

-- `string(buffer)`, of a buffer that was cleared before the read.
unfoldable pub message_of : Bytes → Bytes → Bytes
unfolding c_string
message_of bytes behind =
    c_string (if ltb (length bytes) buffer_size then bytes else bytes ++ behind)

-- Where a receive thread is, with its descriptor.
pub data ThreadPc : Type 0 where
  testing reading unlocking : ℕ → ThreadPc
  locking pushing : ℕ → Bytes → ThreadPc
  exited : ThreadPc

-- Where `main` is: it quits the clients of a list, and joins the threads from a number on.
pub data MainPc : Type 0 where
  looping accepting taking draining releasing : MainPc
  quitting : List ℕ → MainPc
  joining : ℕ → MainPc
  finished : MainPc

pub record Server : Type 0 where
  pub is_running : Bool
  pub message_queue : List Bytes
  pub queue_mutex : Bool  -- held
  pub client_fds : List ℕ
  pub threads : List ThreadPc
  pub main_pc : MainPc

pub data Event : Type 0 where
  pushed printed : Bytes → Event
  quits closes : ℕ → Event

-- A thread's move: where it is after it.
unfoldable pub receive_thread : ThreadPc → Read → Server → ThreadPc × Server × List Event
unfolding message_of
receive_thread (testing fd) r s = ((if s.is_running then reading fd else exited), s, [])
receive_thread (reading fd) (gets bytes behind) s = (locking fd (message_of bytes behind), s, [])
receive_thread (reading fd) ended s = (exited, s, [])
receive_thread (reading fd) fails s = (testing fd, s, [])
receive_thread (locking fd text) r s =
    if s.queue_mutex
    then (locking fd text, s, [])
    else (pushing fd text, record s { queue_mutex = true }, [])
receive_thread (pushing fd text) r s =
    (unlocking fd, record s { message_queue = s.message_queue ++ text ∷ [] }, pushed text ∷ [])
receive_thread (unlocking fd) r s = (testing fd, record s { queue_mutex = false }, [])
receive_thread exited r s = (exited, s, [])

-- `accept` gives a descriptor, and a thread starts for it.
unfoldable pub connect : Option ℕ → Server → Server
connect none s = s
connect (some fd) s = record s {
  client_fds = s.client_fds ++ fd ∷ [];
  threads = s.threads ++ testing fd ∷ [];
}

-- The loop that empties the queue: one round.
unfoldable pub drain : List Bytes → Server → Server × List Event
drain [] s = (record s { main_pc = releasing }, [])
drain (text ∷ rest) s = (record s { message_queue = rest }, printed text ∷ [])

-- `pthread_join` of one thread.
unfoldable pub join : ℕ → Option ThreadPc → Server → Server
join n none s = record s { main_pc = finished }
join n (some exited) s = record s { main_pc = joining (suc n) }
join n (some (testing fd)) s = s
join n (some _) s = s

-- A move of `main`.
unfoldable pub main_move : MainPc → Option ℕ → Server → Server × List Event
unfolding connect drain join get_elem?
main_move looping a s =
    (record s { main_pc = if s.is_running then accepting else quitting s.client_fds }, [])
main_move accepting a s = (record (connect a s) { main_pc = taking }, [])
main_move taking a s =
    if s.queue_mutex then (s, []) else (record s { queue_mutex = true; main_pc = draining }, [])
main_move draining a s = drain s.message_queue s
main_move releasing a s = (record s { queue_mutex = false; main_pc = looping }, [])
main_move (quitting []) a s = (record s { main_pc = joining 0 }, [])
main_move (quitting (fd ∷ fds)) a s =
    (record s { main_pc = quitting fds }, quits fd ∷ closes fd ∷ [])
main_move (joining n) a s = (join n (get_elem? s.threads n) s, [])
main_move finished a s = (s, [])

pub data Move : Type 0 where
  main : Option ℕ → Move
  thread : ℕ → Read → Move
  interrupt : Move

-- The move of the thread with a number, where there is one.
unfoldable pub thread_move : ℕ → Option ThreadPc → Read → Server → Server × List Event
unfolding receive_thread set
thread_move i none r s = (s, [])
thread_move i (some t) r s =
    let m = receive_thread t r s in (record (m.1) { threads = set i m.0 s.threads }, m.2)

unfoldable pub move : Move → Server → Server × List Event
unfolding main_move thread_move get_elem?
move (main a) s = main_move s.main_pc a s
move (thread i r) s = thread_move i (get_elem? s.threads i) r s
move interrupt s = (record s { is_running = false }, [])

-- The server and the events after a sequence of moves.
unfoldable pub moves : List Move → Server → Server × List Event
unfolding move
moves [] s = (s, [])
moves (m ∷ ms) s = let r = move m s in let rest = moves ms r.0 in (rest.0, r.1 ++ rest.1)

-- The server that listens.
abbrev pub listening : Server
listening = record {
  is_running = true;
  message_queue = [];
  queue_mutex = false;
  client_fds = [];
  threads = [];
  main_pc = looping;
}

-- `main` up to its loop: it returns 1 without a port, and where it cannot bind.
pub start : ℕ → Bool → Option Server
start argc bound = if ltb argc 2 then none else (if bound then some listening else none)
