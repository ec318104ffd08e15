-- ===== src/SocketServer/Locking.antt =====
-- Lab9/server.cpp: the mutex of the queue.
use unx.Prelude.{
  ℕ, ◌+◌, ◌≤◌, Bool, true, false, Option, none, some, List, [], ◌∷◌, ◌++◌, ◌≡◌, refl, ap, arith,
  if◌then◌else◌,
}
use unx.Prelude.Slots.{get_elem?, set, total, total-set, total-append}
use unx.SocketServer.{
  Read, gets, ended, fails, ThreadPc, testing, reading, unlocking, locking, pushing, exited, MainPc,
  looping, accepting, taking, draining, releasing, quitting, joining, finished, Server, Event,
  receive_thread, connect, drain, join, main_move, Move, main, thread, interrupt, thread_move, move,
  moves, listening,
}

-- Whether a thread, or `main`, is between taking the mutex and giving it back.
abbrev pub inside : ThreadPc → ℕ
inside (pushing fd text) = 1
inside (unlocking fd) = 1
inside _ = 0

abbrev pub main_inside : MainPc → ℕ
main_inside draining = 1
main_inside releasing = 1
main_inside _ = 0

abbrev pub as_count : Bool → ℕ
as_count true = 1
as_count false = 0

count-≤ : (b : Bool) → as_count b ≤ 1
count-≤ b = ground arith

-- The mutex is held just where one of them is inside.
pub record IsLocked (s : Server) : Type 0 where
  pub held : main_inside s.main_pc + total inside s.threads ≡ as_count s.queue_mutex

total-connected :
    (ts : List ThreadPc) (fd : ℕ) → total inside (ts ++ testing fd ∷ []) ≡ total inside ts
unfolding total
total-connected ts fd = omega (arith, total-append inside ts (testing fd ∷ []))

-- A thread goes in only with a free mutex, which it then holds, and gives it back when it goes out.
receive_thread-inside :
    (t : ThreadPc) (r : Read) (s : Server) (others : ℕ)
    → others + inside t ≡ as_count s.queue_mutex
    → let m = receive_thread t r s in
      (others + inside m.0 ≡ as_count m.1.queue_mutex) × (m.1.main_pc ≡ s.main_pc)
unfolding receive_thread
receive_thread-inside (testing fd) r s others h = ground arith
receive_thread-inside (reading fd) (gets b c) s others h = (h, refl)
receive_thread-inside (reading fd) ended s others h = (h, refl)
receive_thread-inside (reading fd) fails s others h = (h, refl)
receive_thread-inside (locking fd text) r s others h = ground arith
receive_thread-inside (pushing fd text) r s others h = (h, refl)
receive_thread-inside (unlocking fd) r s others h = ground arith
receive_thread-inside exited r s others h = (h, refl)

thread_move-IsLocked :
    (i : ℕ) (o : Option ThreadPc) (r : Read) (s : Server)
    → get_elem? s.threads i ≡ o
    → IsLocked s
    → IsLocked (thread_move i o r s).0
unfolding thread_move
thread_move-IsLocked i none r s e h = h
thread_move-IsLocked i (some t) r s e h =
    let m = receive_thread t r s in
    let put = total-set inside i t m.0 s.threads e in
    let rest = total-set inside i t exited s.threads e in
    let (same, pc) =
      receive_thread-inside t r s (main_inside s.main_pc + total inside (set i exited s.threads))
        (omega (arith, rest, h.held)) in
    record { held = omega (arith, put, rest, same, ap main_inside pc) }

connect-IsLocked :
    (a : Option ℕ) (s : Server)
    → (total inside (connect a s).threads ≡ total inside s.threads)
      × ((connect a s).queue_mutex ≡ s.queue_mutex)
unfolding connect
connect-IsLocked none s = (refl, refl)
connect-IsLocked (some fd) s = (total-connected s.threads fd, refl)

join-IsLocked :
    (n : ℕ) (o : Option ThreadPc) (s : Server)
    → s.main_pc ≡ joining n
    → IsLocked s
    → IsLocked (join n o s)
unfolding join
join-IsLocked n none s e h = record { held = omega (arith, h.held, ap main_inside e) }
join-IsLocked n (some exited) s e h = record { held = omega (arith, h.held, ap main_inside e) }
join-IsLocked n (some (testing fd)) s e h = h
join-IsLocked n (some _) s e h = h

main_move-IsLocked :
    (c : MainPc) (a : Option ℕ) (s : Server)
    → s.main_pc ≡ c
    → IsLocked s
    → IsLocked (main_move c a s).0
unfolding main_move drain
main_move-IsLocked looping a s e h = record { held = ground (arith, h.held, ap main_inside e) }
main_move-IsLocked accepting a s e h =
    let (ts, q) = connect-IsLocked a s in
    record { held = omega (arith, h.held, ap main_inside e, ts, ap as_count q) }
main_move-IsLocked taking a s e h =
    elim s.queue_mutex
        as (λ b.
          let r : Server × List Event =
            (if b then (s, []) else (record s { queue_mutex = true; main_pc = draining }, [])) in
          s.queue_mutex ≡ b → IsLocked r.0) [
            | true ↦ λ q. h
            | false ↦ λ q. record { held = omega (arith, h.held, ap main_inside e, ap as_count q) }
          ]
      refl
main_move-IsLocked draining a s e h = elim s.message_queue as (λ q. IsLocked (drain q s).0) [
  | [] ↦ record { held = omega (arith, h.held, ap main_inside e) }
  | _ ∷ _ ↦ record { held = h.held }
]
main_move-IsLocked releasing a s e h = record { held = ground (arith, h.held, ap main_inside e) }
main_move-IsLocked (quitting []) a s e h = record { held = omega (arith, h.held, ap main_inside e) }
main_move-IsLocked (quitting (fd ∷ fds)) a s e h = record {
  held = omega (arith, h.held, ap main_inside e);
}
main_move-IsLocked (joining n) a s e h = join-IsLocked n (get_elem? s.threads n) s e h
main_move-IsLocked finished a s e h = h

move-IsLocked : (m : Move) (s : Server) → IsLocked s → IsLocked (move m s).0
unfolding move
move-IsLocked (main a) s h = main_move-IsLocked s.main_pc a s refl h
move-IsLocked (thread i r) s h = thread_move-IsLocked i (get_elem? s.threads i) r s refl h
move-IsLocked interrupt s h = record { held = h.held }

moves-IsLocked : (ms : List Move) (s : Server) → IsLocked s → IsLocked (moves ms s).0
unfolding moves
moves-IsLocked [] s h = h
moves-IsLocked (m ∷ ms) s h = moves-IsLocked ms (move m s).0 (move-IsLocked m s h)

-- However they are interleaved, at most one of the threads and `main` is between taking the mutex and
-- giving it back.
pub moves-exclusive :
    (ms : List Move)
    → let s = (moves ms listening).0 in main_inside s.main_pc + total inside s.threads ≤ 1
unfolding total
moves-exclusive ms =
    let h = moves-IsLocked ms listening (record { held = refl }) in
    omega (arith, h.held, count-≤ (moves ms listening).0.queue_mutex)
