-- ===== src/LocalSession/Phases.antt =====
-- Lab6: the session where each read takes all that is there.
use unx.Prelude.{
  ℕ, ◌<◌, Bool, true, false, List, [], ◌∷◌, ◌≡◌, refl, ap, ◌∙◌, arith, All, ◌⊎◌, inl, inr,
}
use unx.Prelude.Bytes.{codes}
use unx.LocalSession.{
  reads_pid, sends_sleep, reads_done, sends_quit, closes, down, handles, stopped, Session, all,
  first, pid_response, Move, by_server, by_client, move, moves, connected,
}

-- The conversation, as one sequence of phases that branches at its end only.
pub data Phase : Type 0 where
  begin asked hears_pid told_pid knows_pid ordered hears_sleep slept awake quit hears_quit
        quit_closed hears_closed gone ended :
      Phase

unfoldable pub session : ℕ → Phase → Session
session pid begin = connected
session pid asked = record connected { server_pc = reads_pid; to_client = codes "Pid" }
session pid hears_pid = record connected {
  server_pc = reads_pid;
  client_pc = handles (codes "Pid");
}
session pid told_pid = record connected { server_pc = reads_pid; to_server = pid_response pid }
session pid knows_pid = record connected {
  server_pc = sends_sleep;
  printed = pid_response pid ∷ [];
}
session pid ordered = record connected {
  server_pc = reads_done;
  to_client = codes "Sleep";
  printed = pid_response pid ∷ [];
}
session pid hears_sleep = record connected {
  server_pc = reads_done;
  client_pc = handles (codes "Sleep");
  printed = pid_response pid ∷ [];
}
session pid slept = record connected {
  server_pc = reads_done;
  to_server = codes "Done";
  printed = pid_response pid ∷ [];
}
session pid awake = record connected {
  server_pc = sends_quit;
  printed = pid_response pid ∷ codes "Done" ∷ [];
}
session pid quit = record connected {
  server_pc = closes;
  to_client = codes "Quit";
  printed = pid_response pid ∷ codes "Done" ∷ [];
}
session pid hears_quit = record connected {
  server_pc = closes;
  client_pc = handles (codes "Quit");
  printed = pid_response pid ∷ codes "Done" ∷ [];
}
session pid quit_closed = record connected {
  server_pc = down;
  to_client = codes "Quit";
  printed = pid_response pid ∷ codes "Done" ∷ [];
}
session pid hears_closed = record connected {
  server_pc = down;
  client_pc = handles (codes "Quit");
  printed = pid_response pid ∷ codes "Done" ∷ [];
}
session pid gone = record connected {
  server_pc = closes;
  client_pc = stopped;
  printed = pid_response pid ∷ codes "Done" ∷ [];
}
session pid ended = record connected {
  server_pc = down;
  client_pc = stopped;
  printed = pid_response pid ∷ codes "Done" ∷ [];
}

pub serves : Phase → Phase
serves begin = asked
serves told_pid = knows_pid
serves knows_pid = ordered
serves slept = awake
serves awake = quit
serves quit = quit_closed
serves hears_quit = hears_closed
serves gone = ended
serves p = p

pub answers : Phase → Phase
answers asked = hears_pid
answers hears_pid = told_pid
answers ordered = hears_sleep
answers hears_sleep = slept
answers quit = hears_quit
answers hears_quit = gone
answers quit_closed = hears_closed
answers hears_closed = ended
answers p = p

server-session :
    (pid : ℕ) (p : Phase) → move pid (by_server all) (session pid p) ≡ session pid (serves p)
unfolding move session serves
server-session pid told_pid = refl
server-session pid gone = refl
server-session pid _ = refl

client-session :
    (pid : ℕ) (p : Phase) → move pid (by_client all) (session pid p) ≡ session pid (answers p)
unfolding move session answers
client-session pid hears_pid = refl
client-session pid _ = refl

abbrev pub is_whole : Move → Bool
is_whole (by_server all) = true
is_whole (by_client all) = true
is_whole _ = false

-- How far a phase is from the end.
pub rank : Phase → ℕ
rank begin = 12
rank asked = 11
rank hears_pid = 10
rank told_pid = 9
rank knows_pid = 8
rank ordered = 7
rank hears_sleep = 6
rank slept = 5
rank awake = 4
rank quit = 3
rank hears_quit = 2
rank quit_closed = 2
rank hears_closed = 1
rank gone = 1
rank ended = 0

phases :
    (pid : ℕ) (ms : List Move) (p : Phase)
    → All (λ m. is_whole m ≡ true) ms
    → (q : Phase) × (moves pid ms (session pid p) ≡ session pid q)
unfolding moves
phases pid [] p h = (p, refl)
phases pid (by_server all ∷ ms) p h =
    let (q, e) = phases pid ms (serves p) h.1 in (q, ap (moves pid ms) (server-session pid p) ∙ e)
phases pid (by_client all ∷ ms) p h =
    let (q, e) = phases pid ms (answers p) h.1 in (q, ap (moves pid ms) (client-session pid p) ∙ e)
phases pid (by_server (first n) ∷ ms) p h = cc
phases pid (by_client (first n) ∷ ms) p h = cc

-- A move, by a read of all that is there, to a session that is nearer to the end.
pub record Nearer (pid : ℕ) (p : Phase) : Type 0 where
  pub by : Move
  pub whole : is_whole by ≡ true
  pub next : Phase
  pub leads : move pid by (session pid p) ≡ session pid next
  pub closer : rank next < rank p

by-server : (pid : ℕ) (p : Phase) → rank (serves p) < rank p → Nearer pid p
by-server pid p h = record {
  by = by_server all;
  whole = refl;
  next = serves p;
  leads = server-session pid p;
  closer = h;
}

by-client : (pid : ℕ) (p : Phase) → rank (answers p) < rank p → Nearer pid p
by-client pid p h = record {
  by = by_client all;
  whole = refl;
  next = answers p;
  leads = client-session pid p;
  closer = h;
}

goes_on : (p : Phase) → (p ≡ ended) ⊎ ((rank (serves p) < rank p) ⊎ (rank (answers p) < rank p))
unfolding serves answers rank
goes_on p = ground arith

advances : (pid : ℕ) (p : Phase) → (p ≡ ended) ⊎ Nearer pid p
advances pid p = elim (goes_on p) [
  | inl e ↦ inl e
  | inr (inl h) ↦ inr (by-server pid p h)
  | inr (inr h) ↦ inr (by-client pid p h)
]

-- However the server and the client of Lab6 take turns, where each read takes all that is there, the session
-- is in one of its phases; in each but the last, in which the server has received the pid and "Done", the client
-- has stopped and the server is down, one of the two has a move to a phase that is nearer to the last.
pub moves-phases :
    (pid : ℕ) (ms : List Move)
    → All (λ m. is_whole m ≡ true) ms
    → (p : Phase) × (moves pid ms connected ≡ session pid p) × ((p ≡ ended) ⊎ Nearer pid p)
unfolding session
moves-phases pid ms h = let (p, e) = phases pid ms begin h in (p, e, advances pid p)
