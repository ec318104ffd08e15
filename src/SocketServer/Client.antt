-- ===== src/SocketServer/Client.antt =====
-- Lab9/client.cpp: a client that writes to the server, and its receive thread.
use unx.Prelude.{
  ℕ, Bool, true, false, not, Option, none, some, List, [], ◌∷◌, ◌++◌, ltb, length, if◌then◌else◌,
  ◌≡◌, ◌≢◌, refl, sym, ◌∙◌, arith, ◌⊎◌, inl, inr,
}
use unx.Prelude.Bytes.{Bytes, codes, c_string, bytes_eq}
use unx.ProcStatus.{drop}

-- `main` after pthread_create, at the test of is_running, at the write, and at its end.
pub data ClientPc : Type 0 where
  created testing writing stopped : ClientPc

pub data RecvPc : Type 0 where
  looks reads done : RecvPc

-- `buf` is the buffer of recv_func, in which a read overwrites the first bytes only.
pub record Client : Type 0 where
  pub is_running : Bool
  pub main_pc : ClientPc
  pub recv_pc : RecvPc
  pub buf : Bytes

pub data Event : Type 0 where
  writes : Event

-- `read` gives -1 as `none`, and no bytes at the end of the stream.
pub recv_func : RecvPc → Option Bytes → Client → Client
unfolding drop c_string bytes_eq
recv_func looks r c = record c { recv_pc = if c.is_running then reads else done }
recv_func reads none c = record c { recv_pc = looks }
recv_func reads (some bytes) c =
    let filled = bytes ++ drop (length bytes) c.buf in
    if bytes_eq (c_string filled) (codes "Quit")
    then record c { buf = filled; recv_pc = looks; is_running = false }
    else record c { buf = filled; recv_pc = looks }
recv_func done r c = c

pub main_move : ClientPc → Client → Client × List Event
main_move created c = (record c { is_running = true; main_pc = testing }, [])
main_move testing c = (record c { main_pc = if c.is_running then writing else stopped }, [])
main_move writing c = (record c { main_pc = testing }, writes ∷ [])
main_move stopped c = (c, [])

pub data Move : Type 0 where
  main : Move
  recv : Option Bytes → Move

pub move : Move → Client → Client × List Event
unfolding recv_func main_move
move main c = main_move c.main_pc c
move (recv r) c = (recv_func c.recv_pc r c, [])

unfoldable pub moves : List Move → Client → Client × List Event
unfolding move
moves [] c = (c, [])
moves (m ∷ ms) c = let r = move m c in let rest = moves ms r.0 in (rest.0, r.1 ++ rest.1)

-- The client after pthread_create; is_running is a global, which starts as false.
abbrev pub joined : Bytes → Client
joined memory = record { is_running = false; main_pc = created; recv_pc = looks; buf = memory }

-- `main` up to there: without a port, a socket, a connection or a thread it ends with -1.
pub start : ℕ → Bool → Bool → Bool → Bytes → Option Client
start argc socket connects thread memory =
    if ltb argc 2
    then none
    else if not socket
    then none
    else if not connects
    then none
    else if not thread
    then none
    else some (joined memory)

-- The receive thread has ended, and nothing else sets is_running to false.
record IsDeaf (c : Client) : Type 0 where
  pub deaf : c.recv_pc ≡ done
  pub goes : (c.main_pc ≡ created) ⊎ ((c.is_running ≡ true) × (c.main_pc ≢ stopped))

main_move-IsDeaf : (p : ClientPc) (c : Client) → c.main_pc ≡ p → IsDeaf c → IsDeaf (main_move p c).0
unfolding main_move
main_move-IsDeaf created c e h = record { deaf = h.deaf; goes = inr (refl, λ k. cc) }
main_move-IsDeaf testing c e h = record { deaf = h.deaf; goes = ground (arith, h.goes) }
main_move-IsDeaf writing c e h = record { deaf = h.deaf; goes = ground (arith, h.goes) }
main_move-IsDeaf stopped c e h = h

recv_func-IsDeaf :
    (p : RecvPc) (r : Option Bytes) (c : Client)
    → c.recv_pc ≡ p
    → IsDeaf c
    → IsDeaf (recv_func p r c)
unfolding recv_func
recv_func-IsDeaf looks r c e h = absurd cc
recv_func-IsDeaf reads r c e h = absurd cc
recv_func-IsDeaf done r c e h = h

moves-IsDeaf : (ms : List Move) (c : Client) → IsDeaf c → IsDeaf (moves ms c).0
unfolding moves move
moves-IsDeaf [] c h = h
moves-IsDeaf (main ∷ ms) c h =
    moves-IsDeaf ms (main_move c.main_pc c).0 (main_move-IsDeaf c.main_pc c refl h)
moves-IsDeaf (recv r ∷ ms) c h =
    moves-IsDeaf ms (recv_func c.recv_pc r c) (recv_func-IsDeaf c.recv_pc r c refl h)

runs-on : (c : Client) → IsDeaf c → c.main_pc ≢ stopped
runs-on c h e = ground (arith, h.goes, e)

-- A client whose receive thread looks at is_running before `main` sets it to true does not stop, whatever
-- it reads afterwards.
pub moves-deaf :
    (memory : Bytes) (r : Option Bytes) (ms : List Move)
    → (moves (recv r ∷ ms) (joined memory)).0.main_pc ≢ stopped
unfolding moves move recv_func
moves-deaf memory r ms =
    let c : Client = record (joined memory) { recv_pc = done } in
    runs-on (moves ms c).0 (moves-IsDeaf ms c (record { deaf = refl; goes = inl refl }))

heard :
    (c : Client)
    → c_string (drop 4 c.buf) ≡ []
    → let d = recv_func reads (some (codes "Quit")) c in
      (d.is_running ≡ false) × (d.main_pc ≡ c.main_pc)
unfolding recv_func c_string bytes_eq drop
heard c z = rw z (refl, refl)

stops :
    (p : ClientPc) (d : Client)
    → d.main_pc ≡ p
    → p ≢ created
    → d.is_running ≡ false
    → (moves (main ∷ main ∷ []) d).0.main_pc ≡ stopped
unfolding moves move main_move
stops created d e n i = absurd (n refl)
stops testing d e n i = rw (e, i) refl
stops writing d e n i = rw (e, i) refl
stops stopped d e n i = rw e refl

-- A client in its loop, whose receive thread reads "Quit" into a buffer that has a NUL behind it, stops
-- at the second move of `main` at the latest.
pub moves-quit :
    (c : Client)
    → c.recv_pc ≡ reads
    → c.main_pc ≢ created
    → c_string (drop 4 c.buf) ≡ []
    → (moves (recv (some (codes "Quit")) ∷ main ∷ main ∷ []) c).0.main_pc ≡ stopped
unfolding moves move
moves-quit c e n z =
    let d : Client = recv_func reads (some (codes "Quit")) c in
    let (off, pc) = heard c z in rw e (stops d.main_pc d refl (λ k. n (sym pc ∙ k)) off)
