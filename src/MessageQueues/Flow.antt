-- ===== src/MessageQueues/Flow.antt =====
-- Lab8: where the messages for a client are.
use unx.Prelude.{ℕ, Bool, true, false, not, ◌&&◌, List, [], ◌∷◌, ◌++◌, ◌==◌}
use unx.MessageQueues.Messages.{Message, MesgBuffer, Queue, Effect, print, post}
use unx.MessageQueues.Dispatcher.{ServerPc}
use unx.MessageQueues.Threads.{MainPc, RecvPc, Process, is_quit}
pub mod Moves
pub mod Steps
pub mod Dispatch

abbrev pub keep {ℓ} : {A : Type ℓ} → Bool → A → List A
keep true a = a ∷ []
keep false a = []

-- The contents of the messages that pass a test, in order.
pub select : (Message → Bool) → Queue → List MesgBuffer
select g [] = []
select g (m ∷ q) = keep (g m) m.msg_buf ++ select g q

-- A message for the server, to be sent on to `n`.
abbrev pub waits : ℕ → Message → Bool
waits n m = (m.mtype == 4) && (m.msg_buf.dest == n)

-- A message for client `n` that is not the order to quit.
abbrev pub arrives : ℕ → Message → Bool
arrives n m = (m.mtype == n) && not (is_quit m.msg_buf.buf)

-- What the server has taken from the queue and not put back.
unfoldable pub in_hand : ℕ → ServerPc → Message → List MesgBuffer
in_hand n ServerPc.forwarding m = keep (m.msg_buf.dest == n) m.msg_buf
in_hand n _ m = []

-- Messages for `n` in the queue and, as `x`, at the server, in the order of their delivery.
pub ahead : ℕ → List MesgBuffer → Queue → List MesgBuffer
unfolding select
ahead n x q = select (arrives n) q ++ (x ++ select (waits n) q)

unfoldable pub main_hand : MainPc → List MesgBuffer
main_hand (MainPc.unlocking m) = m ∷ []
main_hand _ = []

unfoldable pub recv_hand : RecvPc → List MesgBuffer
recv_hand (RecvPc.locking m) = m.msg_buf ∷ []
recv_hand (RecvPc.pushing m) = m.msg_buf ∷ []
recv_hand _ = []

-- What a client has received and not printed.
unfoldable pub held : Process → List MesgBuffer
unfolding main_hand recv_hand
held p = main_hand p.main ++ (p.inbox ++ recv_hand p.recv)

-- The messages to `n` that were put into the queue, and those that client `n` printed.
unfoldable pub posted : ℕ → List Effect → List MesgBuffer
posted n [] = []
posted n (post b ∷ es) = keep (b.dest == n) b ++ posted n es
posted n (print k b ∷ es) = posted n es

unfoldable pub printed : ℕ → List Effect → List MesgBuffer
printed n [] = []
printed n (post b ∷ es) = printed n es
printed n (print k b ∷ es) = keep (k == n) b ++ printed n es
