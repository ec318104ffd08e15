-- ===== src/SocketServer/Farewell.antt =====
-- Lab9/server.cpp: the end of the server.
use unx.Prelude.{
  ℕ, Bool, true, false, Option, none, some, List, [], ◌∷◌, ◌++◌, ◌≡◌, refl, sym, ap, ◌∙◌, arith,
  if◌then◌else◌,
}
use mathlib.Core.List.{append_assoc, append-nil}
use mathlib.Core.Path.{subst}
use unx.Prelude.Bytes.{Bytes}
use unx.Prelude.Slots.{get_elem?}
use unx.SocketServer.{
  Read, gets, ended, fails, ThreadPc, testing, reading, unlocking, locking, pushing, exited, MainPc,
  looping, accepting, taking, draining, releasing, quitting, joining, finished, Server, Event,
  printed, quits, closes, receive_thread, connect, drain, join, main_move, Move, main, thread,
  interrupt, thread_move, move, moves, listening,
}

-- The descriptors to which "Quit" was written, and those that were closed, in their order.
pub told : List Event → List ℕ
told [] = []
told (quits fd ∷ es) = fd ∷ told es
told (_ ∷ es) = told es

pub closed : List Event → List ℕ
closed [] = []
closed (closes fd ∷ es) = fd ∷ closed es
closed (_ ∷ es) = closed es

told-append : (es fs : List Event) → told (es ++ fs) ≡ told es ++ told fs
unfolding told
told-append [] fs = refl
told-append (quits fd ∷ es) fs = ap (◌∷◌ fd) (told-append es fs)
told-append (_ ∷ es) fs = told-append es fs

closed-append : (es fs : List Event) → closed (es ++ fs) ≡ closed es ++ closed fs
unfolding closed
closed-append [] fs = refl
closed-append (closes fd ∷ es) fs = ap (◌∷◌ fd) (closed-append es fs)
closed-append (_ ∷ es) fs = closed-append es fs

-- What `main` has told, at a place of its.
abbrev pub Bids : MainPc → List ℕ → List ℕ → Type 0
Bids (quitting fds) done all = done ++ fds ≡ all
Bids (joining n) done all = done ≡ all
Bids finished done all = done ≡ all
Bids looping done all = done ≡ []
Bids _ done all = done ≡ []

-- What a move from a place of `main` tells is in step with the place after it, and it closes what it tells.
record KeepsAt (c : MainPc) (s : Server) (r : Server × List Event) : Type 0 where
  pub tells :
      (done : List ℕ)
      → Bids c done s.client_fds
      → Bids r.0.main_pc (done ++ told r.1) r.0.client_fds
  pub shuts : closed r.1 ≡ told r.1

still : (c : MainPc) (done all : List ℕ) → Bids c done all → Bids c (done ++ []) all
still c done all h = subst (λ d. Bids c d all) (sym (append-nil done)) h

thread_same :
    (t : ThreadPc) (r : Read) (s : Server)
    → let m = receive_thread t r s in
      (m.1.main_pc ≡ s.main_pc)
      × (m.1.client_fds ≡ s.client_fds)
      × (told m.2 ≡ [])
      × (closed m.2 ≡ [])
unfolding receive_thread told closed
thread_same (testing fd) r s = (refl, refl, refl, refl)
thread_same (reading fd) (gets b c) s = (refl, refl, refl, refl)
thread_same (reading fd) ended s = (refl, refl, refl, refl)
thread_same (reading fd) fails s = (refl, refl, refl, refl)
thread_same (locking fd text) r s = ground arith
thread_same (pushing fd text) r s = (refl, refl, refl, refl)
thread_same (unlocking fd) r s = (refl, refl, refl, refl)
thread_same exited r s = (refl, refl, refl, refl)

-- A move that leaves `main` where it is and tells nobody.
idle-KeepsAt :
    (c : MainPc) (s : Server) (r : Server × List Event)
    → r.0.main_pc ≡ c
    → r.0.client_fds ≡ s.client_fds
    → told r.1 ≡ []
    → closed r.1 ≡ []
    → KeepsAt c s r
idle-KeepsAt c s r pc fds t cl = record {
  tells = λ done h. rw (pc, fds, t) (still c done s.client_fds h);
  shuts = cl ∙ sym t;
}

thread_move-KeepsAt :
    (i : ℕ) (o : Option ThreadPc) (r : Read) (s : Server)
    → KeepsAt s.main_pc s (thread_move i o r s)
unfolding thread_move told closed
thread_move-KeepsAt i none r s = idle-KeepsAt s.main_pc s (s, []) refl refl refl refl
thread_move-KeepsAt i (some t) r s =
    let (pc, fds, tl, cl) = thread_same t r s in
    idle-KeepsAt s.main_pc s (thread_move i (some t) r s) pc fds tl cl

join-KeepsAt :
    (n : ℕ) (o : Option ThreadPc) (s : Server)
    → s.main_pc ≡ joining n
    → KeepsAt (joining n) s (join n o s, [])
unfolding join told closed
join-KeepsAt n none s e = record { tells = λ done h. append-nil done ∙ h; shuts = refl }
join-KeepsAt n (some exited) s e = record { tells = λ done h. append-nil done ∙ h; shuts = refl }
join-KeepsAt n (some (testing fd)) s e = idle-KeepsAt (joining n) s (s, []) e refl refl refl
join-KeepsAt n (some _) s e = idle-KeepsAt (joining n) s (s, []) e refl refl refl

drain-KeepsAt :
    (q : List Bytes) (s : Server) → s.main_pc ≡ draining → KeepsAt draining s (drain q s)
unfolding drain told closed
drain-KeepsAt [] s e = record { tells = λ done h. append-nil done ∙ h; shuts = refl }
drain-KeepsAt (text ∷ rest) s e =
    idle-KeepsAt draining s (record s { message_queue = rest }, printed text ∷ []) e refl refl refl

loop-KeepsAt :
    (b : Bool) (s : Server)
    → KeepsAt looping s (record s { main_pc = if b then accepting else quitting s.client_fds }, [])
unfolding told closed
loop-KeepsAt true s = record { tells = λ done h. append-nil done ∙ h; shuts = refl }
loop-KeepsAt false s = record {
  tells = λ done h. ap (λ d. (d ++ []) ++ s.client_fds) h;
  shuts = refl;
}

take-KeepsAt :
    (b : Bool) (s : Server)
    → s.main_pc ≡ taking
    → KeepsAt taking s
        (if b then (s, []) else (record s { queue_mutex = true; main_pc = draining }, []))
unfolding told closed
take-KeepsAt true s e = idle-KeepsAt taking s (s, []) e refl refl refl
take-KeepsAt false s e = record { tells = λ done h. append-nil done ∙ h; shuts = refl }

main_move-KeepsAt :
    (c : MainPc) (a : Option ℕ) (s : Server) → s.main_pc ≡ c → KeepsAt c s (main_move c a s)
unfolding main_move told closed
main_move-KeepsAt looping a s e = loop-KeepsAt s.is_running s
main_move-KeepsAt accepting a s e = record { tells = λ done h. append-nil done ∙ h; shuts = refl }
main_move-KeepsAt taking a s e = take-KeepsAt s.queue_mutex s e
main_move-KeepsAt draining a s e = drain-KeepsAt s.message_queue s e
main_move-KeepsAt releasing a s e = record { tells = λ done h. append-nil done ∙ h; shuts = refl }
main_move-KeepsAt (quitting []) a s e = record { tells = λ done h. h; shuts = refl }
main_move-KeepsAt (quitting (fd ∷ fds)) a s e = record {
  tells = λ done h. append_assoc done (fd ∷ []) fds ∙ h;
  shuts = refl;
}
main_move-KeepsAt (joining n) a s e = join-KeepsAt n (get_elem? s.threads n) s e
main_move-KeepsAt finished a s e = idle-KeepsAt finished s (s, []) e refl refl refl

move-KeepsAt : (m : Move) (s : Server) → KeepsAt s.main_pc s (move m s)
unfolding move told closed
move-KeepsAt (main a) s = main_move-KeepsAt s.main_pc a s refl
move-KeepsAt (thread i r) s = thread_move-KeepsAt i (get_elem? s.threads i) r s
move-KeepsAt interrupt s =
    idle-KeepsAt s.main_pc s (record s { is_running = false }, []) refl refl refl refl

moves-KeepsAt : (ms : List Move) (s : Server) → KeepsAt s.main_pc s (moves ms s)
unfolding moves told closed
moves-KeepsAt [] s = idle-KeepsAt s.main_pc s (s, []) refl refl refl refl
moves-KeepsAt (m ∷ ms) s =
    let first = move-KeepsAt m s in
    let rest = moves-KeepsAt ms (move m s).0 in
    let r : Server × List Event = moves ms (move m s).0 in
    let es : List Event = (move m s).1 in
    record {
      tells = λ done h.
          subst (λ d. Bids r.0.main_pc d r.0.client_fds)
            (append_assoc done (told es) (told r.1)
              ∙ ap (λ l. done ++ l) (sym (told-append es r.1)))
            (rest.tells (done ++ told es) (first.tells done h));
      shuts =
          closed-append es r.1
          ∙ ap (λ l. l ++ closed r.1) first.shuts
          ∙ ap (λ l. told es ++ l) rest.shuts
          ∙ sym (told-append es r.1);
    }

-- The descriptors that accept gave, as the moves have them: `main` is in accept, and its move brings one.
abbrev given : MainPc → Option ℕ → List ℕ
given accepting (some fd) = fd ∷ []
given _ a = []

abbrev pub accepted_at : MainPc → Move → List ℕ
accepted_at c (main a) = given c a
accepted_at c (thread i r) = []
accepted_at c interrupt = []

unfoldable pub accepted : List Move → Server → List ℕ
accepted [] s = []
accepted (m ∷ ms) s = let rest = accepted ms (move m s).0 in accepted_at s.main_pc m ++ rest

join-fds : (n : ℕ) (o : Option ThreadPc) (s : Server) → (join n o s).client_fds ≡ s.client_fds
unfolding join
join-fds n none s = refl
join-fds n (some exited) s = refl
join-fds n (some (testing fd)) s = refl
join-fds n (some _) s = refl

drain-fds : (q : List Bytes) (s : Server) → (drain q s).0.client_fds ≡ s.client_fds
unfolding drain
drain-fds [] s = refl
drain-fds (text ∷ rest) s = refl

connect-fds :
    (a : Option ℕ) (s : Server)
    → (connect a s).client_fds ≡ s.client_fds ++ accepted_at accepting (main a)
unfolding connect
connect-fds none s = sym (append-nil s.client_fds)
connect-fds (some fd) s = refl

take-fds :
    (b : Bool) (s : Server)
    → let r : Server × List Event =
        (if b then (s, []) else (record s { queue_mutex = true; main_pc = draining }, [])) in
      r.0.client_fds ≡ s.client_fds
take-fds true s = refl
take-fds false s = refl

main_move-fds :
    (c : MainPc) (a : Option ℕ) (s : Server)
    → (main_move c a s).0.client_fds ≡ s.client_fds ++ accepted_at c (main a)
unfolding main_move
main_move-fds accepting a s = connect-fds a s
main_move-fds looping a s = sym (append-nil s.client_fds)
main_move-fds taking a s = take-fds s.queue_mutex s ∙ sym (append-nil s.client_fds)
main_move-fds draining a s = drain-fds s.message_queue s ∙ sym (append-nil s.client_fds)
main_move-fds releasing a s = sym (append-nil s.client_fds)
main_move-fds (quitting []) a s = sym (append-nil s.client_fds)
main_move-fds (quitting (fd ∷ fds)) a s = sym (append-nil s.client_fds)
main_move-fds (joining n) a s = join-fds n (get_elem? s.threads n) s ∙ sym (append-nil s.client_fds)
main_move-fds finished a s = sym (append-nil s.client_fds)

thread_move-fds :
    (i : ℕ) (o : Option ThreadPc) (r : Read) (s : Server)
    → (thread_move i o r s).0.client_fds ≡ s.client_fds
unfolding thread_move
thread_move-fds i none r s = refl
thread_move-fds i (some t) r s = let (_, fds, _, _) = thread_same t r s in fds

move-fds :
    (m : Move) (s : Server) → (move m s).0.client_fds ≡ s.client_fds ++ accepted_at s.main_pc m
unfolding move
move-fds (main a) s = main_move-fds s.main_pc a s
move-fds (thread i r) s =
    thread_move-fds i (get_elem? s.threads i) r s ∙ sym (append-nil s.client_fds)
move-fds interrupt s = sym (append-nil s.client_fds)

moves-fds :
    (ms : List Move) (s : Server) → (moves ms s).0.client_fds ≡ s.client_fds ++ accepted ms s
unfolding moves accepted
moves-fds [] s = sym (append-nil s.client_fds)
moves-fds (m ∷ ms) s =
    moves-fds ms (move m s).0
    ∙ ap (λ fds. fds ++ accepted ms (move m s).0) (move-fds m s)
    ∙ append_assoc s.client_fds (accepted_at s.main_pc m) (accepted ms (move m s).0)

-- A server that has come to the end of `main` has written "Quit" to each descriptor that accept gave it, in
-- their order and once each, and has closed them in that order.
pub moves-quits :
    (ms : List Move)
    → let r = moves ms listening in
      r.0.main_pc ≡ finished
      → (told r.1 ≡ accepted ms listening) × (closed r.1 ≡ accepted ms listening)
moves-quits ms e =
    let k = moves-KeepsAt ms listening in
    let s : Server = (moves ms listening).0 in
    let t : told (moves ms listening).1 ≡ s.client_fds =
      subst (λ c. Bids c (told (moves ms listening).1) s.client_fds) e (k.tells [] refl) in
    (t ∙ moves-fds ms listening, k.shuts ∙ t ∙ moves-fds ms listening)
