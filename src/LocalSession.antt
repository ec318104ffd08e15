-- ===== src/LocalSession.antt =====
-- Lab6/server.cpp and client.cpp: a server that gives a client three commands over a local stream socket.
-- A write adds bytes to a stream, and a read takes all that is there, or the first ones of it.
use unx.Prelude.{ℕ, zero, suc, Bool, true, false, List, [], ◌∷◌, ◌++◌, if◌then◌else◌, take}
use unx.Prelude.Bytes.{Bytes, codes, decimal, bytes_eq}
use unx.ProcStatus.{drop}
pub mod Phases
pub mod Splitting
pub mod Setup
pub mod Examples

-- `main` of the server after accept, and `main` of the client after connect.
pub data ServerPc : Type 0 where
  sends_pid reads_pid sends_sleep reads_done sends_quit closes down : ServerPc

pub data ClientPc : Type 0 where
  reads : ClientPc
  handles : Bytes → ClientPc
  stopped : ClientPc

pub record Session : Type 0 where
  pub server_pc : ServerPc
  pub client_pc : ClientPc
  pub to_client : Bytes
  pub to_server : Bytes
  pub printed : List Bytes  -- what the server received

-- How many bytes a read takes. The buffers have 256 bytes, more than any of the texts.
pub data Amount : Type 0 where
  all : Amount
  first : ℕ → Amount

unfoldable pub taken : Amount → Bytes → Bytes
taken all s = s
taken (first n) s = take n s

unfoldable pub left : Amount → Bytes → Bytes
unfolding drop
left all s = []
left (first n) s = drop n s

abbrev pub pid_response : ℕ → Bytes
pid_response pid = codes "This client has pid " ++ decimal pid

-- A read of the server: it waits where there is nothing. The client closes its end only after "Quit".
unfoldable pub receives : ServerPc → Amount → Bytes → Session → Session
unfolding taken left
receives next n [] s = s
receives next n (c ∷ cs) s = record s {
  server_pc = next;
  to_server = left n (c ∷ cs);
  printed = s.printed ++ taken n (c ∷ cs) ∷ [];
}

unfoldable pub server : ServerPc → Amount → Session → Session
unfolding receives
server sends_pid n s = record s { server_pc = reads_pid; to_client = s.to_client ++ codes "Pid" }
server reads_pid n s = receives sends_sleep n s.to_server s
server sends_sleep n s = record s {
  server_pc = reads_done;
  to_client = s.to_client ++ codes "Sleep";
}
server reads_done n s = receives sends_quit n s.to_server s
server sends_quit n s = record s { server_pc = closes; to_client = s.to_client ++ codes "Quit" }
server closes n s = record s { server_pc = down }
server down n s = s

-- A read of the client: at the end of the stream it gives nothing, which is no command.
unfoldable pub listens : ServerPc → Amount → Bytes → Session → Session
unfolding taken left
listens down n [] s = record s { client_pc = handles [] }
listens pc n [] s = s
listens pc n (c ∷ cs) s = record s {
  client_pc = handles (taken n (c ∷ cs));
  to_client = left n (c ∷ cs);
}

unfoldable pub obeys : ℕ → Bytes → Session → Session
unfolding bytes_eq
obeys pid command s =
    if bytes_eq command (codes "Pid")
    then record s { client_pc = reads; to_server = s.to_server ++ pid_response pid }
    else if bytes_eq command (codes "Sleep")
    then record s { client_pc = reads; to_server = s.to_server ++ codes "Done" }
    else if bytes_eq command (codes "Quit")
    then record s { client_pc = stopped }
    else record s { client_pc = reads }

unfoldable pub client : ℕ → ClientPc → Amount → Session → Session
unfolding listens obeys
client pid reads n s = listens s.server_pc n s.to_client s
client pid (handles command) n s = obeys pid command s
client pid stopped n s = s

pub data Move : Type 0 where
  by_server by_client : Amount → Move

unfoldable pub move : ℕ → Move → Session → Session
unfolding server client
move pid (by_server n) s = server s.server_pc n s
move pid (by_client n) s = client pid s.client_pc n s

unfoldable pub moves : ℕ → List Move → Session → Session
unfolding move
moves pid [] s = s
moves pid (m ∷ ms) s = moves pid ms (move pid m s)

abbrev pub connected : Session
connected = record {
  server_pc = sends_pid;
  client_pc = reads;
  to_client = [];
  to_server = [];
  printed = [];
}
