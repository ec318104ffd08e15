-- ===== src/SocketServer/Printing.antt =====
-- Lab9/server.cpp: the queue between the threads and `main`.
use unx.Prelude.{
  ℕ, true, false, Option, none, some, List, [], ◌∷◌, ◌++◌, ◌≡◌, refl, sym, ap, ◌∙◌, if◌then◌else◌,
}
use mathlib.Core.List.{append_assoc, append-nil}
use unx.Prelude.Bytes.{Bytes}
use unx.Prelude.Slots.{get_elem?}
use unx.SocketServer.{
  Read, gets, ended, fails, ThreadPc, testing, reading, unlocking, locking, pushing, exited, MainPc,
  looping, accepting, taking, draining, releasing, quitting, joining, finished, Server, Event,
  pushed, printed, receive_thread, connect, drain, join, main_move, Move, main, thread, interrupt,
  thread_move, move, moves, listening,
}

-- The texts that were pushed, and those that were printed, in their order.
pub pushes : List Event → List Bytes
pushes [] = []
pushes (pushed t ∷ es) = t ∷ pushes es
pushes (_ ∷ es) = pushes es

unfoldable pub prints : List Event → List Bytes
prints [] = []
prints (printed t ∷ es) = t ∷ prints es
prints (_ ∷ es) = prints es

pushes-append : (es fs : List Event) → pushes (es ++ fs) ≡ pushes es ++ pushes fs
unfolding pushes
pushes-append [] fs = refl
pushes-append (pushed t ∷ es) fs = ap (◌∷◌ t) (pushes-append es fs)
pushes-append (_ ∷ es) fs = pushes-append es fs

prints-append : (es fs : List Event) → prints (es ++ fs) ≡ prints es ++ prints fs
unfolding prints
prints-append [] fs = refl
prints-append (printed t ∷ es) fs = ap (◌∷◌ t) (prints-append es fs)
prints-append (_ ∷ es) fs = prints-append es fs

-- The queue before, with what is pushed, is what is printed, with the queue after.
Queues : Server → Server × List Event → Type 0
Queues s r = s.message_queue ++ pushes r.1 ≡ prints r.1 ++ r.0.message_queue

receive_thread-Queues :
    (t : ThreadPc) (r : Read) (s : Server)
    → Queues s ((receive_thread t r s).1, (receive_thread t r s).2)
unfolding receive_thread pushes prints Queues
receive_thread-Queues (testing fd) r s = append-nil s.message_queue
receive_thread-Queues (reading fd) (gets b c) s = append-nil s.message_queue
receive_thread-Queues (reading fd) ended s = append-nil s.message_queue
receive_thread-Queues (reading fd) fails s = append-nil s.message_queue
receive_thread-Queues (locking fd text) r s =
    elim s.queue_mutex
      as (λ b.
        let m : ThreadPc × Server × List Event =
          (if b
            then (locking fd text, s, [])
            else (pushing fd text, record s { queue_mutex = true }, [])) in
        Queues s (m.1, m.2)) [
          | true ↦ append-nil s.message_queue
          | false ↦ append-nil s.message_queue
        ]
receive_thread-Queues (pushing fd text) r s = refl
receive_thread-Queues (unlocking fd) r s = append-nil s.message_queue
receive_thread-Queues exited r s = append-nil s.message_queue

thread_move-Queues :
    (i : ℕ) (o : Option ThreadPc) (r : Read) (s : Server) → Queues s (thread_move i o r s)
unfolding thread_move Queues pushes prints
thread_move-Queues i none r s = append-nil s.message_queue
thread_move-Queues i (some t) r s = receive_thread-Queues t r s

connect-queue : (a : Option ℕ) (s : Server) → (connect a s).message_queue ≡ s.message_queue
unfolding connect
connect-queue none s = refl
connect-queue (some fd) s = refl

drain-Queues : (q : List Bytes) (s : Server) → s.message_queue ≡ q → Queues s (drain q s)
unfolding drain Queues pushes prints
drain-Queues [] s e = append-nil s.message_queue
drain-Queues (text ∷ rest) s e = append-nil s.message_queue ∙ e

join-queue :
    (n : ℕ) (o : Option ThreadPc) (s : Server) → (join n o s).message_queue ≡ s.message_queue
unfolding join
join-queue n none s = refl
join-queue n (some exited) s = refl
join-queue n (some (testing fd)) s = refl
join-queue n (some _) s = refl

main_move-Queues : (c : MainPc) (a : Option ℕ) (s : Server) → Queues s (main_move c a s)
unfolding main_move Queues pushes prints
main_move-Queues looping a s = append-nil s.message_queue
main_move-Queues accepting a s = append-nil s.message_queue ∙ sym (connect-queue a s)
main_move-Queues taking a s =
    elim s.queue_mutex
      as (λ b.
        Queues s
          (if b then (s, []) else (record s { queue_mutex = true; main_pc = draining }, []))) [
            | true ↦ append-nil s.message_queue
            | false ↦ append-nil s.message_queue
          ]
main_move-Queues draining a s = drain-Queues s.message_queue s refl
main_move-Queues releasing a s = append-nil s.message_queue
main_move-Queues (quitting []) a s = append-nil s.message_queue
main_move-Queues (quitting (fd ∷ fds)) a s = append-nil s.message_queue
main_move-Queues (joining n) a s =
    append-nil s.message_queue ∙ sym (join-queue n (get_elem? s.threads n) s)
main_move-Queues finished a s = append-nil s.message_queue

move-Queues : (m : Move) (s : Server) → Queues s (move m s)
unfolding move Queues pushes prints
move-Queues (main a) s = main_move-Queues s.main_pc a s
move-Queues (thread i r) s = thread_move-Queues i (get_elem? s.threads i) r s
move-Queues interrupt s = append-nil s.message_queue

then-Queues :
    (s t : Server) (es : List Event) (r : Server × List Event)
    → Queues s (t, es)
    → Queues t r
    → Queues s (r.0, es ++ r.1)
unfolding Queues
then-Queues s t es r h k =
    ap (λ l. s.message_queue ++ l) (pushes-append es r.1)
    ∙ sym (append_assoc s.message_queue (pushes es) (pushes r.1))
    ∙ ap (λ l. l ++ pushes r.1) h
    ∙ append_assoc (prints es) t.message_queue (pushes r.1)
    ∙ ap (λ l. prints es ++ l) k
    ∙ sym (append_assoc (prints es) (prints r.1) r.0.message_queue)
    ∙ ap (λ l. l ++ r.0.message_queue) (sym (prints-append es r.1))

moves-Queues : (ms : List Move) (s : Server) → Queues s (moves ms s)
unfolding moves Queues pushes prints
moves-Queues [] s = append-nil s.message_queue
moves-Queues (m ∷ ms) s =
    then-Queues s (move m s).0 (move m s).1 (moves ms (move m s).0) (move-Queues m s)
      (moves-Queues ms (move m s).0)

-- However the threads and `main` are interleaved, `main` prints the messages in the order in which the
-- threads pushed them, each once and none that was not pushed: what was pushed is what was printed,
-- followed by what still is in the queue.
pub moves-queue :
    (ms : List Move) → let r = moves ms listening in pushes r.1 ≡ prints r.1 ++ r.0.message_queue
unfolding Queues
moves-queue ms = moves-Queues ms listening
