-- ===== src/MessageQueues.antt =====
-- Lab8: a server (Lab8/server.cpp) that dispatches messages between three clients
-- (Lab8/client1.cpp, client2.cpp, client3.cpp) through one System V message queue. The processes
-- start with the queue that msgget gave; ids are not reused, so a removed queue stays `none`.
-- A client has two threads, and each step is one access to what they or the processes share.
use unx.Prelude.{
  ℕ, zero, suc, ◌+◌, Bool, true, false, Option, none, some, List, [], ◌∷◌, ◌++◌, ◌==◌, leb,
  if◌then◌else◌, take, ◌≡◌,
}
use unx.Prelude.Bytes.{Bytes, codes, bytes_eq, decimal}
use unx.MessageQueues.Messages.{
  MesgBuffer, Message, Effect, Event, Queue, after, msgrcv, msgsnd, print, post, proceed, failing,
  interrupt,
}
use unx.MessageQueues.Dispatcher.{
  ServerPc, Server, quit_text, server_at, fetch, quit_order, server, looping, receiving, forwarding,
  quitting, removing, exited,
}
use unx.MessageQueues.Threads.{
  MainPc, RecvPc, Process, Outcome, client_text, main_at, no_mail, has_finished, send_out,
  main_thread, is_quit, recv_at, receive, arrive, recv_thread, creating, looping, testing, locking,
  popping, unlocking, sending, joining, removing, returned, idle, watching, receiving, locking,
  pushing, unlocking, finished,
}
pub mod Messages
pub mod Dispatcher
pub mod Threads
pub mod Clean
pub mod Flow
pub mod Delivery
pub mod Locking
pub mod Shutdown
pub mod Examples

-- Client 1 alternates between 2 and 3, client 2 between 3 and 1, client 3 between 1 and 2.
pub next_dest1 : ℕ → ℕ
next_dest1 dest = if dest == 2 then 3 else 2

pub next_dest2 : ℕ → ℕ
next_dest2 dest = if dest == 3 then 1 else 3

pub next_dest3 : ℕ → ℕ
next_dest3 dest = if dest == 1 then 2 else 1

pub data Client : Type 0 where
  one two three : Client

abbrev pub number : Client → ℕ
number one = 1
number two = 2
number three = 3

pub next_dest : Client → ℕ → ℕ
unfolding next_dest1 next_dest2 next_dest3
next_dest one = next_dest1
next_dest two = next_dest2
next_dest three = next_dest3

-- The two threads of each program.
abbrev pub MainThread : Type 0
MainThread = ℕ → MainPc → List MesgBuffer → Event → Option Queue → Process → Option Outcome

abbrev pub RecvThread : Type 0
RecvThread = RecvPc → Event → Option Queue → Process → Option Outcome

pub main1 : MainThread
unfolding main_thread next_dest1
main1 = main_thread 1 next_dest1

pub main2 : MainThread
unfolding main_thread next_dest2
main2 = main_thread 2 next_dest2

pub main3 : MainThread
unfolding main_thread next_dest3
main3 = main_thread 3 next_dest3

pub recv_func1 : RecvThread
unfolding recv_thread
recv_func1 = recv_thread 1

pub recv_func2 : RecvThread
unfolding recv_thread
recv_func2 = recv_thread 2

pub recv_func3 : RecvThread
unfolding recv_thread
recv_func3 = recv_thread 3

abbrev pub main_of : Client → MainThread
main_of one = main1
main_of two = main2
main_of three = main3

abbrev pub recv_of : Client → RecvThread
recv_of one = recv_func1
recv_of two = recv_func2
recv_of three = recv_func3

pub record World : Type 0 where
  pub queue : Option Queue
  pub dispatcher : Server
  pub clients : Client → Process

pub data Actor : Type 0 where
  main_server : Actor
  main_client : Client → Actor
  recv_client : Client → Actor

abbrev pub same : Client → Client → Bool
same c d = number c == number d

abbrev pub put : World → Client → Outcome → World × List Effect
put w c r = (record w { queue = r.0; clients = λ d. if same d c then r.1 else w.clients d }, r.2)

-- One thread of one process makes its next step, if it can.
pub step : (Client → ℕ) → World → Actor → Event → Option (World × List Effect)
unfolding server main1 main2 main3 recv_func1 recv_func2 recv_func3
step pids w main_server e =
    after (server w.dispatcher.pc e w.queue w.dispatcher)
      (λ r. (record w { queue = r.0; dispatcher = r.1 }, []))
step pids w (main_client c) e =
    let p = w.clients c in after (main_of c (pids c) p.main p.inbox e w.queue p) (put w c)
step pids w (recv_client c) e =
    let p = w.clients c in after (recv_of c p.recv e w.queue p) (put w c)

-- A client before `pthread_create`.
abbrev pub newborn : Process
newborn = record {
  is_running = true;
  locked = false;
  inbox = [];
  dest = 0;
  main = creating;
  recv = idle;
}

-- The buffer of the server is not initialised.
abbrev pub first_world : Message → World
first_world m = record {
  queue = some [];
  dispatcher = record { is_running = true; msg = m; pc = looping };
  clients = λ c. newborn;
}

-- The worlds that calls which do not fail reach, with the effects on the way.
pub data Reach (pids : Client → ℕ) (m : Message) : List Effect → World → Type 0 where
  start : Reach pids m [] (first_world m)
  move :
      (t : List Effect) (w : World) (a : Actor) (r : World × List Effect)
      → Reach pids m t w
      → step pids w a proceed ≡ some r
      → Reach pids m (t ++ r.1) r.0
  signal :
      (t : List Effect) (w : World) (a : Actor) (r : World × List Effect)
      → Reach pids m t w
      → step pids w a interrupt ≡ some r
      → Reach pids m (t ++ r.1) r.0
