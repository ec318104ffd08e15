-- ===== src/MessageQueues/Threads.antt =====
-- Lab8/client1.cpp, client2.cpp, client3.cpp: the two threads of a client.
use unx.Prelude.{ℕ, Bool, true, false, Option, none, some, List, [], ◌∷◌, ◌++◌, if◌then◌else◌, take}
use unx.Prelude.Bytes.{Bytes, codes, bytes_eq, decimal}
use unx.MessageQueues.Messages.{
  MesgBuffer, Message, Effect, Event, Queue, msgrcv, print, post, proceed, failing, interrupt,
}
use unx.MessageQueues.Dispatcher.{quit_text}

pub data MainPc : Type 0 where
  creating looping testing locking popping : MainPc
  unlocking : MesgBuffer → MainPc
  sending joining removing : MainPc
  returned : Bool → MainPc

pub data RecvPc : Type 0 where
  idle watching receiving : RecvPc
  locking : Message → RecvPc
  pushing : Message → RecvPc
  unlocking finished : RecvPc

pub record Process : Type 0 where
  pub is_running : Bool
  pub locked : Bool
  pub inbox : List MesgBuffer
  pub dest : ℕ
  pub main : MainPc
  pub recv : RecvPc

-- What a step of a client leaves: the queue, the client, and its effects.
abbrev pub Outcome : Type 0
Outcome = Option Queue × Process × List Effect

-- `sprintf(buf, "%d: Message from client 1\n", getpid())`
unfoldable pub client_text : ℕ → ℕ → Bytes
client_text pid n = decimal pid ++ (codes ": Message from client " ++ (decimal n ++ codes "\n"))

abbrev pub main_at : Option Queue → Process → MainPc → Option Outcome
main_at q p c = some (q, record p { main = c }, [])

abbrev pub no_mail : List MesgBuffer → Bool
no_mail [] = true
no_mail (m ∷ ms) = false

abbrev pub has_finished : RecvPc → Bool
has_finished finished = true
has_finished _ = false

-- The loop body's `msgsnd` and the effect that it has.
abbrev pub send_out : Message → Option Queue → Process → Option Outcome
send_out m none p = main_at none p looping
send_out m (some q) p = some (some (q ++ m ∷ []), record p { main = looping }, post m.msg_buf ∷ [])

-- The main thread of client `n`, whose next destination is `next` of the last. `front` of an empty
-- queue has no result.
unfoldable pub main_thread :
    ℕ → (ℕ → ℕ) → ℕ → MainPc → List MesgBuffer → Event → Option Queue → Process → Option Outcome
unfolding client_text
main_thread n next pid c inbox interrupt q p = some (q, record p { is_running = false }, [])
main_thread n next pid creating inbox proceed q p =
    some (q, record p { is_running = true; main = looping; recv = watching }, [])
main_thread n next pid creating inbox (failing g) q p =
    some (q, record p { is_running = false; main = returned false }, [])
main_thread n next pid looping inbox proceed q p =
    main_at q p (if p.is_running then testing else joining)
main_thread n next pid testing inbox proceed q p =
    main_at q p (if no_mail inbox then sending else locking)
main_thread n next pid locking inbox proceed q p =
    if p.locked then none else some (q, record p { locked = true; main = popping }, [])
main_thread n next pid popping [] proceed q p = none
main_thread n next pid popping (m ∷ rest) proceed q p =
    some (q, record p { inbox = rest; main = unlocking m }, [])
main_thread n next pid (unlocking m) inbox proceed q p =
    some (q, record p { locked = false; main = testing }, print n m ∷ [])
main_thread n next pid sending inbox proceed q p =
    let d = next p.dest in
    let b : MesgBuffer = record { source = n; dest = d; buf = client_text pid n } in
    send_out (record { mtype = 4; msg_buf = b }) q (record p { dest = d })
main_thread n next pid sending inbox (failing g) q p =
    some (q, record p { dest = next p.dest; main = looping }, [])
main_thread n next pid joining inbox proceed q p =
    if has_finished p.recv then main_at q p removing else none
main_thread n next pid removing inbox proceed q p = main_at none p (returned true)
main_thread n next pid c inbox e q p = none

-- `strncmp(msg.msgBuf.buf, "Quit", 4) == 0`
unfoldable pub is_quit : Bytes → Bool
is_quit b = bytes_eq (take 4 b) quit_text

abbrev pub recv_at : Option Queue → Process → RecvPc → Option Outcome
recv_at q p c = some (q, record p { recv = c }, [])

-- What the receiving thread does with the buffer after `msgrcv`, whose result it does not look at.
unfoldable pub receive : Message → Option Queue → Process → Option Outcome
unfolding is_quit
receive m q p =
    if is_quit m.msg_buf.buf
    then recv_at q (record p { is_running = false }) watching
    else recv_at q p (locking m)

-- A `msgrcv` that finds no message blocks.
unfoldable pub arrive : Option (Message × Queue) → Process → Option Outcome
unfolding receive
arrive none p = none
arrive (some r) p = receive r.0 (some r.1) p

-- The receiving thread, `recv_func1` to `recv_func3`; a signal is a step of the main thread.
unfoldable pub recv_thread : ℕ → RecvPc → Event → Option Queue → Process → Option Outcome
unfolding msgrcv receive arrive
recv_thread n c interrupt q p = none
recv_thread n watching proceed q p = recv_at q p (if p.is_running then receiving else finished)
recv_thread n receiving proceed none p = none
recv_thread n receiving proceed (some q) p = arrive (msgrcv n q) p
recv_thread n receiving (failing g) q p = receive g q p
recv_thread n (locking m) proceed q p =
    if p.locked then none else some (q, record p { locked = true; recv = pushing m }, [])
recv_thread n (pushing m) proceed q p =
    some (q, record p { inbox = p.inbox ++ m.msg_buf ∷ []; recv = unlocking }, [])
recv_thread n unlocking proceed q p = some (q, record p { locked = false; recv = watching }, [])
recv_thread n c e q p = none
