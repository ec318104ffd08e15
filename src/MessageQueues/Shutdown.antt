-- ===== src/MessageQueues/Shutdown.antt =====
-- Lab8/server.cpp: the end of the server after SIGINT.
use unx.Prelude.{ℕ, zero, suc, false, Option, none, some, [], ◌∷◌, ◌++◌, ◌≡◌, refl, ap, ◌∙◌}
use mathlib.Core.List.{append_assoc}
use unx.MessageQueues.Messages.{Message, Queue, proceed, msgsnd}
use unx.MessageQueues.Dispatcher.{Server, ServerPc, server, quit_order, quit_text}

-- `n` steps of the server, with no other process in between.
pub serve : ℕ → Option Queue → Server → Option (Option Queue × Server)
unfolding server
serve zero q s = some (q, s)
serve (suc n) q s = elim (server s.pc proceed q s) [ none ↦ none | some v ↦ serve n v.0 v.1 ]

-- The server when it sees that SIGINT arrived.
abbrev pub stopping : Message → Server
stopping m = record { is_running = false; msg = m; pc = ServerPc.looping }

abbrev pub order : ℕ → Message → Message
order i m = record { mtype = i; msg_buf = record (m.msg_buf) { buf = quit_text } }

-- A server that sees that SIGINT arrived puts "Quit" for clients 1, 2 and 3 behind the messages of
-- the queue in four steps, and after two more the queue is gone, with whatever is still in it, and
-- the server has exited.
pub quits_removed :
    (q : Queue) (m : Message)
    → (serve 4 (some q) (stopping m)
        ≡ some (
          some (q ++ order 1 m ∷ order 2 m ∷ order 3 m ∷ []),
          record { is_running = false; msg = order 3 m; pc = ServerPc.quitting 4 },
        ))
      × (serve 6 (some q) (stopping m)
          ≡ some (none, record { is_running = false; msg = order 3 m; pc = ServerPc.exited }))
unfolding serve server quit_order msgsnd
quits_removed q m = (
  ap (λ l. some (some l, record { is_running = false; msg = order 3 m; pc = ServerPc.quitting 4 }))
      (append_assoc (q ++ order 1 m ∷ []) _ _ ∙ append_assoc q _ _),
  refl,
)
