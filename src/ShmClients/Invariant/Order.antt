-- ===== src/ShmClients/Invariant/Order.antt =====
-- Lab10's start: clients 1 and 2 pass `sem_wait(start_sem)` behind client 3's first message.
use unx.Prelude.{ℕ, ◌<◌, ◌≤◌, ◌≡◌, refl, Bool, true, false, some, arith, zero, suc}
use unx.ShmClients.{
  World, Pc, open_mutex, Local, Event, proceed, failing, interrupt, Client, one, two, three, local,
  step, breaks_wait, Shared, join, client1, client2, client3, next_dest1, next_dest2, create_mutex,
  create_start, wait_start, open_start, attach, initialise, get_memory, leaving, exited,
}
use unx.ShmClients.Invariant.Mutex.{after-eq-some}

-- Client 3 has written its first message, and did not fail before.
abbrev pub begun : Pc → Bool
begun (open_mutex r) = false
begun (open_start r) = false
begun create_mutex = false
begun create_start = false
begun wait_start = false
begun get_memory = false
begun attach = false
begun initialise = false
begun (leaving zero) = true
begun (leaving (suc status)) = false
begun (exited zero) = true
begun (exited (suc status)) = false
begun _ = true

-- Client 1 or 2 has been through its wait, and not failed.
abbrev pub past_wait : Pc → Bool
past_wait get_memory = true
past_wait attach = true
past_wait p = begun p

pub record Ordered (w : World) : Type 0 where
  pub posted : 0 < w.shared.start → begun w.p3.pc ≡ true
  pub waited1 : past_wait w.p1.pc ≡ true → begun w.p3.pc ≡ true
  pub waited2 : past_wait w.p2.pc ≡ true → begun w.p3.pc ≡ true

join-waits :
    (n : ℕ) (d : ℕ → ℕ) (p : Pc) (e : Event) (s : Shared) (l : Local) (r : Shared × Local)
    → l.pc ≡ p
    → breaks_wait p e ≡ false
    → join n d p e s l ≡ some r
    → (past_wait r.1.pc ≡ true → past_wait p ≡ false → 0 < s.start) × (r.0.start ≤ s.start)
unfolding join
join-waits n d (open_mutex k) proceed s l r at calm st = ground arith
join-waits n d _ proceed s l r at calm st = ground arith
join-waits n d _ failing s l r at calm st = ground arith
join-waits n d _ interrupt s l r at calm st = ground arith

client3-posts :
    (p : Pc) (e : Event) (s : Shared) (l : Local) (r : Shared × Local)
    → l.pc ≡ p
    → client3 p e s l ≡ some r
    → (begun p ≡ true → begun r.1.pc ≡ true) × (begun r.1.pc ≡ false → 0 < r.0.start → 0 < s.start)
unfolding client3
client3-posts (open_mutex k) proceed s l r at st = ground arith
client3-posts _ proceed s l r at st = ground arith
client3-posts _ failing s l r at st = ground arith
client3-posts _ interrupt s l r at st = ground arith

-- A calm step keeps the order.
pub step-Ordered :
    (w w' : World) (c : Client) (e : Event)
    → breaks_wait (local w c).pc e ≡ false
    → step w c e ≡ some w'
    → Ordered w
    → Ordered w'
unfolding step client1 client2
step-Ordered w w' one e calm st v =
    let (r, made, is) = after-eq-some (client1 w.p1.pc e w.shared w.p1) _ st in
    ground (arith, is, join-waits 1 next_dest1 w.p1.pc e w.shared w.p1 r refl calm made)
step-Ordered w w' two e calm st v =
    let (r, made, is) = after-eq-some (client2 w.p2.pc e w.shared w.p2) _ st in
    ground (arith, is, join-waits 2 next_dest2 w.p2.pc e w.shared w.p2 r refl calm made)
step-Ordered w w' three e calm st v =
    let (r, made, is) = after-eq-some (client3 w.p3.pc e w.shared w.p3) _ st in
    ground (arith, is, client3-posts w.p3.pc e w.shared w.p3 r refl made)
