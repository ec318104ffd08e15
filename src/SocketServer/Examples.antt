-- ===== src/SocketServer/Examples.antt =====
-- Lab9: the theorems at a session of two clients, and at clients.
use unx.Prelude.{ℕ, ◌+◌, ◌≤◌, true, none, some, List, [], ◌∷◌, ◌++◌, ◌≡◌, ◌≢◌, refl, arith}
use unx.Prelude.Bytes.{Bytes, codes}
use unx.ProcStatus.{drop}
use unx.Prelude.Slots.{total}
use unx.SocketServer.{
  gets, ended, fails, exited, finished, Server, Move, main, thread, interrupt, moves, listening,
}
use unx.SocketServer.Printing.{pushes, prints, moves-queue}
use unx.SocketServer.Locking.{main_inside, inside, moves-exclusive}
use unx.SocketServer.Farewell.{accepted, told, closed, moves-quits}
use unx.SocketServer.Client.{Client, writing, reads, stopped, joined, moves-quit}

-- Two clients connect, and each is read once, before `main` empties the queue.
abbrev session : List Move
session =
    main none
    ∷ main (some 4)
    ∷ main none
    ∷ main none
    ∷ main none
    ∷ thread 0 fails
    ∷ thread 0 (gets (codes "hello") [])
    ∷ thread 0 fails
    ∷ thread 0 fails
    ∷ main none
    ∷ main (some 5)
    ∷ thread 1 fails
    ∷ thread 1 (gets (codes "you") [])
    ∷ thread 1 fails
    ∷ thread 0 fails
    ∷ thread 1 fails
    ∷ thread 1 fails
    ∷ thread 1 fails
    ∷ main none
    ∷ main none
    ∷ main none
    ∷ main none
    ∷ main none
    ∷ []

abbrev shutdown : List Move
shutdown =
    interrupt
    ∷ main none
    ∷ main none
    ∷ main none
    ∷ main none
    ∷ thread 0 fails
    ∷ thread 1 fails
    ∷ main none
    ∷ main none
    ∷ main none
    ∷ []

both_printed : prints (moves (session ++ shutdown) listening).1 ≡ codes "hello" ∷ codes "you" ∷ []
unfolding moves prints
both_printed = refl

moves-queue_example :
    let r = moves (session ++ shutdown) listening in pushes r.1 ≡ prints r.1 ++ r.0.message_queue
moves-queue_example = moves-queue (session ++ shutdown)

moves-exclusive_example :
    let s = (moves session listening).0 in main_inside s.main_pc + total inside s.threads ≤ 1
moves-exclusive_example = moves-exclusive session

comes_to_end : (moves (session ++ shutdown) listening).0.main_pc ≡ finished
unfolding moves
comes_to_end = refl

moves-quits_example :
    let r = moves (session ++ shutdown) listening in
    (told r.1 ≡ accepted (session ++ shutdown) listening)
    × (closed r.1 ≡ accepted (session ++ shutdown) listening)
moves-quits_example = moves-quits (session ++ shutdown) comes_to_end

abbrev in_loop : Client
in_loop = record {
  is_running = true;
  main_pc = writing;
  recv_pc = reads;
  buf = 0 ∷ 0 ∷ 0 ∷ 0 ∷ 0 ∷ [];
}

moves-quit_example :
    (unx.SocketServer.Client.moves
      (unx.SocketServer.Client.recv (some (codes "Quit"))
        ∷ unx.SocketServer.Client.main
        ∷ unx.SocketServer.Client.main
        ∷ [])
      in_loop).0.main_pc
    ≡ stopped
unfolding drop unx.Prelude.Bytes.c_string
moves-quit_example = moves-quit in_loop refl (λ e. cc) refl
