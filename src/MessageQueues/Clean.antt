-- ===== src/MessageQueues/Clean.antt =====
-- Lab8: messages for the server are never taken for the order to quit.
use unx.Prelude.{
  ℕ, zero, suc, ◌+◌, ◌/◌, ◌%◌, ◌≤◌, Bool, true, false, ltb, Option, none, some, List, [], ◌∷◌, ◌++◌,
  ◌≡◌, ◌==◌, leb, if◌then◌else◌, refl, arith, All, All-append,
}
use unx.Prelude.Bytes.{Bytes, bytes_eq, decimal_fuel, decimal}
use unx.MessageQueues.Messages.{Message, MesgBuffer, Queue, msgrcv, msgsnd, proceed, after}
use unx.MessageQueues.Dispatcher.{Server, ServerPc, server, fetch, quit_order, server_at}
use unx.MessageQueues.Threads.{
  MainPc, RecvPc, Process, is_quit, main_thread, recv_thread, receive, arrive, client_text,
  send_out, has_finished,
}
use unx.MessageQueues.Flow.Moves.{msgrcv-mtype}
use unx.MessageQueues.Locking.{Holds, Holds-if}

digit-or-more :
    (n : ℕ) (more : Bytes)
    → All (λ d. d ≤ 57) more
    → All (λ d. d ≤ 57) (if ltb n 10 then (b'0' + n) ∷ [] else more ++ (b'0' + n % 10) ∷ [])
digit-or-more n more small = pick (ltb n 10) refl
  where
    pick :
        (b : Bool)
        → ltb n 10 ≡ b
        → All (λ d. d ≤ 57) (if b then (b'0' + n) ∷ [] else more ++ (b'0' + n % 10) ∷ [])
    pick true e = (ground arith, tt)
    pick false e = All-append (λ d. d ≤ 57) more _ small (omega arith, tt)

digits-small : (f n : ℕ) → All (λ b. b ≤ 57) (decimal_fuel f n)
unfolding decimal_fuel
digits-small zero n = tt
digits-small (suc f) n = digit-or-more n (decimal_fuel f (n / 10)) (digits-small f (n / 10))

-- A text that starts with digits and goes on with a colon is no order to quit.
number-stays : (ds rest : Bytes) → All (λ b. b ≤ 57) ds → is_quit (ds ++ 58 ∷ rest) ≡ false
unfolding is_quit bytes_eq
number-stays [] rest small = refl
number-stays (d ∷ ds) rest small = ground (arith, small.0)

client_text-stays : (pid n : ℕ) → is_quit (client_text pid n) ≡ false
unfolding client_text decimal
client_text-stays pid n = number-stays (decimal_fuel (suc pid) pid) _ (digits-small (suc pid) pid)

-- A message for the server is not the order to quit.
abbrev pub Stays : Message → Type 0
Stays m = m.mtype ≡ 4 → is_quit m.msg_buf.buf ≡ false

abbrev pub IsClean : Option Queue → Type 0
IsClean none = Unit
IsClean (some q) = All Stays q

abbrev Splits : Option (Message × Queue) → Type 0
Splits o = Holds (λ r. Stays r.0 × All Stays r.1) o

later-Splits :
    (m : Message) (o : Option (Message × Queue))
    → Stays m
    → Splits o
    → Splits (after o (λ r. (r.0, m ∷ r.1)))
later-Splits m none k h = tt
later-Splits m (some r) k h = (h.0, (k, h.1))

msgrcv-Splits : (t : ℕ) (q : Queue) → All Stays q → Splits (msgrcv t q)
unfolding msgrcv
msgrcv-Splits t [] h = tt
msgrcv-Splits t (m ∷ q) h =
    Holds-if _ (m.mtype == t) _ _ h (later-Splits m (msgrcv t q) h.0 (msgrcv-Splits t q h.1))

abbrev pub Forwards : Server → Type 0
Forwards s = s.pc ≡ ServerPc.forwarding → is_quit s.msg.msg_buf.buf ≡ false

fetch-IsClean :
    (o : Option (Message × Queue)) (q : Queue) (s : Server)
    → msgrcv 4 q ≡ o
    → All Stays q
    → Splits o
    → Holds (λ r. IsClean r.0 × Forwards r.1) (fetch o q s)
unfolding fetch
fetch-IsClean none q s e h k = (h, ground arith)
fetch-IsClean (some r) q s e h k = (k.1, λ f. k.0 (msgrcv-mtype 4 q r e))

pub server-IsClean :
    (c : ServerPc) (q : Option Queue) (s : Server)
    → IsClean q
    → (c ≡ ServerPc.forwarding → is_quit s.msg.msg_buf.buf ≡ false)
    → Holds (λ r. IsClean r.0 × Forwards r.1) (server c proceed q s)
unfolding server fetch msgsnd quit_order
server-IsClean ServerPc.looping q s h k = (h, ground arith)
server-IsClean ServerPc.receiving none s h k = (h, ground arith)
server-IsClean ServerPc.receiving (some q) s h k =
    fetch-IsClean (msgrcv 4 q) q s refl h (msgrcv-Splits 4 q h)
server-IsClean ServerPc.forwarding none s h k = (h, ground arith)
server-IsClean ServerPc.forwarding (some q) s h k =
    (All-append Stays q _ h (λ f. k refl, tt), ground arith)
server-IsClean (ServerPc.quitting i) none s h k =
    Holds-if _ (leb i 3) _ _ (tt, ground arith) (tt, ground arith)
server-IsClean (ServerPc.quitting i) (some q) s h k = quit-IsClean (leb i 3) refl
  where
    quit-IsClean :
        (b : Bool)
        → leb i 3 ≡ b
        → Holds
            (λ r. IsClean r.0 × Forwards r.1)
            (if b
              then server_at
                  (msgsnd (quit_order i s) (some q))
                  (record s { msg = quit_order i s })
                  (ServerPc.quitting (i + 1))
              else server_at (some q) s ServerPc.removing)
    quit-IsClean true e =
        (All-append Stays q _ h (λ f. absurd (ground arith), tt), λ f. ground arith)
    quit-IsClean false e = (h, λ f. ground arith)
server-IsClean ServerPc.removing q s h k = (tt, ground arith)
server-IsClean ServerPc.exited q s h k = tt

sends-IsClean :
    (m : Message) (q : Option Queue) (p : Process)
    → IsClean q
    → Stays m
    → Holds (λ o. IsClean o.0) (send_out m q p)
sends-IsClean m none p h k = tt
sends-IsClean m (some q) p h k = All-append Stays q _ h (k, tt)

pub main-IsClean :
    (n : ℕ) (next : ℕ → ℕ) (pid : ℕ) (c : MainPc) (i : List MesgBuffer) (q : Option Queue)
    (p : Process)
    → IsClean q
    → Holds (λ o. IsClean o.0) (main_thread n next pid c i proceed q p)
unfolding main_thread
main-IsClean n next pid MainPc.locking i q p h = Holds-if _ p.locked none _ tt h
main-IsClean n next pid MainPc.popping [] q p h = tt
main-IsClean n next pid MainPc.popping (m ∷ i) q p h = h
main-IsClean n next pid MainPc.sending i q p h =
    sends-IsClean _ q (record p { dest = next p.dest }) h (λ e. client_text-stays pid n)
main-IsClean n next pid MainPc.joining i q p h = Holds-if _ (has_finished p.recv) _ none h tt
main-IsClean n next pid MainPc.removing i q p h = tt
main-IsClean n next pid (MainPc.returned b) i q p h = tt
main-IsClean n next pid MainPc.looping i q p h = h
main-IsClean n next pid MainPc.testing i q p h = h
main-IsClean n next pid MainPc.creating i q p h = h
main-IsClean n next pid (MainPc.unlocking m) i q p h = h

arrive-IsClean :
    (o : Option (Message × Queue)) (p : Process) → Splits o → Holds (λ o. IsClean o.0) (arrive o p)
unfolding arrive receive
arrive-IsClean none p h = tt
arrive-IsClean (some r) p h = Holds-if _ (is_quit r.0.msg_buf.buf) _ _ h.1 h.1

pub recv-IsClean :
    (n : ℕ) (c : RecvPc) (q : Option Queue) (p : Process)
    → IsClean q
    → Holds (λ o. IsClean o.0) (recv_thread n c proceed q p)
unfolding recv_thread
recv-IsClean n RecvPc.receiving none p h = tt
recv-IsClean n RecvPc.receiving (some q) p h = arrive-IsClean (msgrcv n q) p (msgrcv-Splits n q h)
recv-IsClean n (RecvPc.locking m) q p h = Holds-if _ p.locked none _ tt h
recv-IsClean n RecvPc.watching q p h = h
recv-IsClean n (RecvPc.pushing m) q p h = h
recv-IsClean n RecvPc.unlocking q p h = h
recv-IsClean n RecvPc.idle q p h = tt
recv-IsClean n RecvPc.finished q p h = tt
