-- ===== src/MessageQueues/Flow/Dispatch.antt =====
-- Lab8: each step of the server keeps the order of the messages.
use unx.Prelude.{
  ℕ, Bool, true, false, Option, none, some, List, [], ◌∷◌, ◌++◌, ◌≡◌, ◌≢◌, ◌==◌, ◌+◌, ◌&&◌, leb,
  if◌then◌else◌, refl, ap, arith,
}
use mathlib.Core.Path.{subst}
use unx.MessageQueues.Messages.{Message, MesgBuffer, Queue, msgrcv, msgsnd, proceed}
use unx.MessageQueues.Dispatcher.{Server, ServerPc, server, fetch, quit_order, server_at}
use unx.MessageQueues.Threads.{is_quit}
use unx.Prelude.Bytes.{bytes_eq}
use unx.MessageQueues.Locking.{Holds, Holds-if}
use unx.MessageQueues.Flow.{keep, arrives, waits, in_hand}
use unx.MessageQueues.Flow.Moves.{
  Moves, Moves-quiet, Moves-removed, Moves-send, Moves-forward, Moves-fetch, msgrcv-mtype,
}

waits-dest : (n : ℕ) (m : Message) → m.mtype ≡ 4 → waits n m ≡ (m.msg_buf.dest == n)
waits-dest n m h = ground arith

arrives-dest :
    (n : ℕ) (m : Message)
    → m.mtype ≡ m.msg_buf.dest
    → is_quit m.msg_buf.buf ≡ false
    → arrives n m ≡ (m.msg_buf.dest == n)
arrives-dest n m h k = ground arith

and-false : (b : Bool) → b && false ≡ false
and-false b = ground arith

abbrev pub Served :
    ℕ → List MesgBuffer → List MesgBuffer → Option Queue → Option (Option Queue × Server) → Type 0
Served n h x q o = Holds (λ r. Moves n h x q [] [] h (in_hand n r.1.pc r.1.msg) r.0) o

-- The server, which has a message of a client in its hand.
pub server-kept :
    (n : ℕ) (c : ServerPc) (q : Option Queue) (s : Server) (h : List MesgBuffer)
    → n ≢ 4
    → (c ≡ ServerPc.forwarding → is_quit s.msg.msg_buf.buf ≡ false)
    → Served n h (in_hand n c s.msg) q (server c proceed q s)
unfolding server in_hand msgsnd fetch quit_order is_quit bytes_eq
server-kept n ServerPc.looping q s h below keen = Moves-quiet n q refl (ground arith)
server-kept n ServerPc.receiving none s h below keen = Moves-quiet n none refl refl
server-kept n ServerPc.receiving (some q) s h below keen = fetch-kept (msgrcv 4 q) refl
  where
    fetch-kept :
        (o : Option (Message × Queue)) → msgrcv 4 q ≡ o → Served n h [] (some q) (fetch o q s)
    fetch-kept none e = Moves-quiet n (some q) refl refl
    fetch-kept (some r) e =
        let hand : keep (waits n r.0) r.0.msg_buf ≡ keep (r.0.msg_buf.dest == n) r.0.msg_buf =
          ap (λ b. keep b r.0.msg_buf) (waits-dest n r.0 (msgrcv-mtype 4 q r e)) in
        subst (λ l. Moves n h [] (some q) [] [] h l (some r.1)) hand (Moves-fetch n h q r below e)
server-kept n ServerPc.forwarding none s h below keen = Moves-removed n h _ _ none
server-kept n ServerPc.forwarding (some q) s h below keen =
    let m : Message = record s.msg { mtype = s.msg.msg_buf.dest } in
    let hand : keep (arrives n m) m.msg_buf ≡ keep (m.msg_buf.dest == n) m.msg_buf =
      ap (λ b. keep b m.msg_buf) (arrives-dest n m refl (keen refl)) in
    subst (λ l. Moves n h l (some q) [] [] h [] (some (q ++ m ∷ []))) hand
      (Moves-forward n h q m (ground arith))
server-kept n (ServerPc.quitting i) none s h below keen =
    Holds-if _ (leb i 3) _ _ (Moves-quiet n none refl refl) (Moves-quiet n none refl refl)
server-kept n (ServerPc.quitting i) (some q) s h below keen = quit-kept (leb i 3) refl
  where
    quit-kept :
        (b : Bool)
        → leb i 3 ≡ b
        → Served n h [] (some q) (
            if b
            then server_at
                (msgsnd (quit_order i s) (some q))
                (record s { msg = quit_order i s })
                (ServerPc.quitting (i + 1))
            else server_at (some q) s ServerPc.removing)
    quit-kept true e =
        let m = quit_order i s in
        let mine : waits n m ≡ false = ground arith in
        let none_here : keep (waits n m) m.msg_buf ≡ [] = ap (λ b. keep b m.msg_buf) mine in
        subst (λ l. Moves n h [] (some q) l [] h [] (some (q ++ m ∷ []))) none_here
          (Moves-send n h [] q m (and-false (m.mtype == n)))
    quit-kept false e = Moves-quiet n (some q) refl refl
server-kept n ServerPc.removing q s h below keen = Moves-removed n h _ _ q
server-kept n ServerPc.exited q s h below keen = tt
