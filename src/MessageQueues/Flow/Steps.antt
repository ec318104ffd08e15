-- ===== src/MessageQueues/Flow/Steps.antt =====
-- Lab8: each step of a thread or of the server keeps the order of the messages.
use unx.Prelude.{
  ℕ, Bool, true, false, Option, none, some, List, [], ◌∷◌, ◌++◌, ◌≡◌, ◌≢◌, ◌==◌, if◌then◌else◌,
  refl, sym, ap, ◌∙◌, arith,
}
use mathlib.Core.List.{append_assoc, append-nil}
use mathlib.Core.Path.{subst}
use unx.MessageQueues.Messages.{Message, MesgBuffer, Queue, msgrcv, proceed, interrupt}
use unx.MessageQueues.Threads.{
  MainPc, RecvPc, Process, Outcome, is_quit, main_thread, recv_thread, receive, arrive, send_out,
  has_finished, recv_at,
}
use unx.MessageQueues.Locking.{Holds, Holds-if, IsSound, creating-idle}
use unx.MessageQueues.Flow.{keep, arrives, waits, main_hand, recv_hand, held, posted, printed}
use unx.MessageQueues.Flow.Moves.{
  Moves, Moves-quiet, Moves-removed, Moves-print, Moves-send, Moves-receive, Moves-other,
  msgrcv-mtype,
}

-- What an outcome of client `k` does to the messages for `n`, where a client with number `n` held `h`
-- and holds `h'`.
abbrev pub Keeps :
    ℕ
    → List MesgBuffer
    → (Process → List MesgBuffer)
    → List MesgBuffer
    → Option Queue
    → Outcome
    → Type 0
Keeps n h h' x q o = Moves n h x q (posted n o.2) (printed n o.2) (h' o.1) x o.0

abbrev pub Kept :
    (n : ℕ) (x : List MesgBuffer) (q : Option Queue) (p : Process) → Option Outcome → Type 0
Kept n x q p o = Holds (Keeps n (held p) held x q) o

pub main-interrupted :
    (n : ℕ) (next : ℕ → ℕ) (pid : ℕ) (c : MainPc) (i : List MesgBuffer) (q : Option Queue)
    (p : Process) (x : List MesgBuffer)
    → Kept n x q p (main_thread n next pid c i interrupt q p)
unfolding main_thread held posted printed
main-interrupted n next pid c i q p x = Moves-quiet n q refl refl

-- A message to another client than `n` is a post of nothing for `n`, so this serves both.
sends-kept :
    (n : ℕ) (m : Message) (q : Option Queue) (p : Process) (x h : List MesgBuffer)
    (h' : Process → List MesgBuffer)
    → n ≢ 4
    → m.mtype ≡ 4
    → h ≡ h' (record p { main = MainPc.looping })
    → Holds (Keeps n h h' x q) (send_out m q p)
unfolding posted printed
sends-kept n m none p x h h' below four eh = Moves-quiet n none eh refl
sends-kept n m (some q) p x h h' below four eh =
    let same : keep (waits n m) m.msg_buf ≡ keep (m.msg_buf.dest == n) m.msg_buf ++ [] =
      ap (λ b. keep b m.msg_buf) (ground arith) ∙ sym (append-nil _) in
    let moves : Moves n h x (some q) (keep (waits n m) m.msg_buf) [] h x (some (q ++ m ∷ [])) =
      Moves-send n h x q m (ground arith) in
    subst
      (λ l.
        Moves n h x (some q) l [] (h' (record p { main = MainPc.looping })) x (some (q ++ m ∷ [])))
      same
      (subst (λ l. Moves n h x (some q) (keep (waits n m) m.msg_buf) [] l x (some (q ++ m ∷ []))) eh
        moves)

held-as :
    (p : Process) {c : MainPc} {i : List MesgBuffer}
    → p.main ≡ c
    → p.inbox ≡ i
    → held p ≡ main_hand c ++ (i ++ recv_hand p.recv)
unfolding held
held-as p hc hi = rw (hc, hi)

self-same : (n : ℕ) → (n == n) ≡ true
self-same n = ground arith

pub main-kept :
    (n : ℕ) (next : ℕ → ℕ) (pid : ℕ) (c : MainPc) (i : List MesgBuffer) (q : Option Queue)
    (p : Process) (x : List MesgBuffer)
    → n ≢ 4
    → p.main ≡ c
    → p.inbox ≡ i
    → IsSound p
    → Kept n x q p (main_thread n next pid c i proceed q p)
unfolding main_thread held posted printed main_hand recv_hand
main-kept n next pid MainPc.looping i q p x below hc hi s = Moves-quiet n q (ground arith) refl
main-kept n next pid MainPc.testing i q p x below hc hi s = Moves-quiet n q (ground arith) refl
main-kept n next pid MainPc.locking i q p x below hc hi s =
    Holds-if _ p.locked none _ tt (Moves-quiet n q (ground arith) refl)
main-kept n next pid MainPc.popping [] q p x below hc hi s = tt
main-kept n next pid MainPc.popping (m ∷ i) q p x below hc hi s =
    let eh : held p ≡ m ∷ (i ++ recv_hand p.recv) = held-as p hc hi in Moves-quiet n q eh refl
main-kept n next pid (MainPc.unlocking m) i q p x below hc hi s =
    let eh : held p ≡ m ∷ (p.inbox ++ recv_hand p.recv) = held-as p hc refl in
    let mine : m ∷ [] ≡ keep (n == n) m ++ [] = ap (λ b. keep b m ++ []) (sym (self-same n)) in
    subst (λ l. Moves n (held p) x q [] l (p.inbox ++ recv_hand p.recv) x q) mine
      (subst (λ l. Moves n l x q [] (m ∷ []) (p.inbox ++ recv_hand p.recv) x q) (sym eh)
        (Moves-print n m _ x q))
main-kept n next pid MainPc.sending i q p x below hc hi s =
    sends-kept n _ q (record p { dest = next p.dest }) x (held p) held below refl (ground arith)
main-kept n next pid MainPc.joining i q p x below hc hi s =
    Holds-if _ (has_finished p.recv) _ none (Moves-quiet n q (ground arith) refl) tt
main-kept n next pid MainPc.removing i q p x below hc hi s =
    let eh : held p ≡ p.inbox ++ recv_hand p.recv = held-as p hc refl in
    subst (λ l. Moves n l x q [] [] (p.inbox ++ recv_hand p.recv) x none) (sym eh)
      (Moves-removed n _ x x q)
main-kept n next pid MainPc.creating i q p x below hc hi s =
    Moves-quiet n q (rw (held-as p hc refl, creating-idle p s hc)) refl
main-kept n next pid (MainPc.returned b) i q p x below hc hi s = tt

-- The main thread of another client.
pub main-others :
    (n k : ℕ) (next : ℕ → ℕ) (pid : ℕ) (c : MainPc) (i : List MesgBuffer) (q : Option Queue)
    (p : Process) (h x : List MesgBuffer)
    → n ≢ 4
    → n ≢ k
    → Holds (Keeps n h (λ p'. h) x q) (main_thread k next pid c i proceed q p)
unfolding main_thread posted printed
main-others n k next pid MainPc.looping i q p h x below other = Moves-quiet n q refl refl
main-others n k next pid MainPc.testing i q p h x below other = Moves-quiet n q refl refl
main-others n k next pid MainPc.locking i q p h x below other =
    Holds-if _ p.locked none _ tt (Moves-quiet n q refl refl)
main-others n k next pid MainPc.popping [] q p h x below other = tt
main-others n k next pid MainPc.popping (m ∷ i) q p h x below other = Moves-quiet n q refl refl
main-others n k next pid (MainPc.unlocking m) i q p h x below other =
    let differ : false ≡ (k == n) = ground arith in
    let none_here : [] ≡ keep (k == n) m ++ [] = ap (λ b. keep b m ++ []) differ in
    subst (λ l. Moves n h x q [] l h x q) none_here (Moves-quiet n q refl refl)
main-others n k next pid MainPc.sending i q p h x below other =
    sends-kept n _ q (record p { dest = next p.dest }) x h (λ p'. h) below refl refl
main-others n k next pid MainPc.joining i q p h x below other =
    Holds-if _ (has_finished p.recv) _ none (Moves-quiet n q refl refl) tt
main-others n k next pid MainPc.removing i q p h x below other = Moves-removed n h x x q
main-others n k next pid MainPc.creating i q p h x below other = Moves-quiet n q refl refl
main-others n k next pid (MainPc.returned b) i q p h x below other = tt

receive-kept :
    (n : ℕ) (m : Message) (q : Queue) (o : Option Queue) (p : Process) (x : List MesgBuffer)
    → m.mtype ≡ n
    → p.recv ≡ RecvPc.receiving
    → Moves n (held p) x (some q) [] [] (held p ++ keep (arrives n m) m.msg_buf) x o
    → Kept n x (some q) p (receive m o p)
unfolding receive is_quit held posted printed recv_hand
receive-kept n m q o p x mt hc moves = receive-by (is_quit m.msg_buf.buf) refl
  where
    receive-by :
        (b : Bool)
        → is_quit m.msg_buf.buf ≡ b
        → Kept n x (some q) p (
            if b
            then recv_at o (record p { is_running = false }) RecvPc.watching
            else recv_at o p (RecvPc.locking m))
    receive-by true e =
        let sorted : arrives n m ≡ false = ground arith in
        let same : held p ++ keep (arrives n m) m.msg_buf ≡ main_hand p.main ++ (p.inbox ++ []) =
          simp (sorted, held, hc, recv_hand, append-nil) in
        subst (λ l. Moves n (held p) x (some q) [] [] l x o) same moves
    receive-by false e =
        let sorted : arrives n m ≡ true = ground arith in
        let same : held p ++ keep (arrives n m) m.msg_buf
            ≡ main_hand p.main ++ (p.inbox ++ m.msg_buf ∷ []) =
          simp (sorted, held, hc, recv_hand, append_assoc) in
        subst (λ l. Moves n (held p) x (some q) [] [] l x o) same moves

arrive-kept :
    (n : ℕ) (q : Queue) (o : Option (Message × Queue)) (p : Process) (x : List MesgBuffer)
    → n ≢ 4
    → p.recv ≡ RecvPc.receiving
    → msgrcv n q ≡ o
    → Kept n x (some q) p (arrive o p)
unfolding arrive
arrive-kept n q none p x below hc e = tt
arrive-kept n q (some r) p x below hc e =
    receive-kept n r.0 q (some r.1) p x (msgrcv-mtype n q r e) hc
      (Moves-receive n (held p) x q r below e)

pub recv-kept :
    (n : ℕ) (c : RecvPc) (q : Option Queue) (p : Process) (x : List MesgBuffer)
    → n ≢ 4
    → p.recv ≡ c
    → Kept n x q p (recv_thread n c proceed q p)
unfolding recv_thread held posted printed recv_hand
recv-kept n RecvPc.watching q p x below hc = Moves-quiet n q (ground arith) refl
recv-kept n RecvPc.receiving none p x below hc = tt
recv-kept n RecvPc.receiving (some q) p x below hc = arrive-kept n q (msgrcv n q) p x below hc refl
recv-kept n (RecvPc.locking m) q p x below hc =
    Holds-if _ p.locked none _ tt (Moves-quiet n q (ground arith) refl)
recv-kept n (RecvPc.pushing m) q p x below hc =
    Moves-quiet n q (rw hc (ap (◌++◌ (main_hand p.main)) (sym (append-nil _)))) refl
recv-kept n RecvPc.unlocking q p x below hc = Moves-quiet n q (ground arith) refl
recv-kept n RecvPc.idle q p x below hc = tt
recv-kept n RecvPc.finished q p x below hc = tt

pub recv-others :
    (n k : ℕ) (c : RecvPc) (q : Option Queue) (p : Process) (h x : List MesgBuffer)
    → n ≢ k
    → k ≢ 4
    → Holds (Keeps n h (λ p'. h) x q) (recv_thread k c proceed q p)
unfolding recv_thread arrive receive is_quit posted printed
recv-others n k RecvPc.watching q p h x other below = Moves-quiet n q refl refl
recv-others n k RecvPc.receiving none p h x other below = tt
recv-others n k RecvPc.receiving (some q) p h x other below = arrive-others (msgrcv k q) refl
  where
    arrive-others :
        (o : Option (Message × Queue))
        → msgrcv k q ≡ o
        → Holds (Keeps n h (λ p'. h) x (some q)) (arrive o p)
    arrive-others none e = tt
    arrive-others (some r) e =
        Holds-if _ (is_quit r.0.msg_buf.buf) _ _ (Moves-other n k h x q r other below e)
          (Moves-other n k h x q r other below e)
recv-others n k (RecvPc.locking m) q p h x other below =
    Holds-if _ p.locked none _ tt (Moves-quiet n q refl refl)
recv-others n k (RecvPc.pushing m) q p h x other below = Moves-quiet n q refl refl
recv-others n k RecvPc.unlocking q p h x other below = Moves-quiet n q refl refl
recv-others n k RecvPc.idle q p h x other below = tt
recv-others n k RecvPc.finished q p h x other below = tt
