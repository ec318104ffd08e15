-- ===== src/ShmClients/Invariant/Mutex.antt =====
-- The permit of `mutex_sem` is in the semaphore or with one client, in Lab10's clients.
use unx.Prelude.{
  ℕ, suc, ◌+◌, ◌≡◌, refl, Bool, true, false, some, arith, if◌then◌else◌, Option, none,
}
use unx.ShmClients.{
  World, Pc, open_mutex, create_mutex, test, reply_src, reply_dest, reply_message, leave,
  open_start, leaving, exited, Local, Event, proceed, failing, interrupt, Client, one, two, three,
  local, step, breaks_wait, Shared, join, client1, client2, client3, wait_start, after, next_dest1,
  next_dest2,
}

-- 1 for a client between its `sem_wait` and its `sem_post` of the mutex.
abbrev pub inside : Pc → ℕ
inside (test i) = 1
inside (reply_src i) = 1
inside (reply_dest i) = 1
inside (reply_message i) = 1
inside (leave i) = 1
inside _ = 0

-- Where client 3 stands behind its `sem_open` of the mutex, if it has not failed.
abbrev pub created : Pc → Bool
created (open_mutex r) = false
created (open_start r) = false
created create_mutex = false
created wait_start = false
created (leaving (suc status)) = false
created (exited (suc status)) = false
created _ = true

pub record Locked (w : World) : Type 0 where
  pub permits :
      w.shared.mutex + inside w.p1.pc + inside w.p2.pc + inside w.p3.pc
      ≡ (if w.p3.mutex_open then 1 else 0)
  pub named : w.shared.mutex_named ≡ true → w.p3.mutex_open ≡ true
  pub unmade : w.p3.pc ≡ create_mutex → w.p3.mutex_open ≡ false
  pub made : created w.p3.pc ≡ true → w.p3.mutex_open ≡ true

-- A permit moves between the semaphore and the client.
abbrev Moves : Pc → Shared → Shared × Local → Type 0
Moves p s r = (r.0.mutex + inside r.1.pc ≡ s.mutex + inside p) × (r.0.mutex_named ≡ s.mutex_named)

join-Moves :
    (n : ℕ) (d : ℕ → ℕ) (p : Pc) (e : Event) (s : Shared) (l : Local) (r : Shared × Local)
    → l.pc ≡ p
    → breaks_wait p e ≡ false
    → join n d p e s l ≡ some r
    → Moves p s r
unfolding join
join-Moves n d (open_mutex r') proceed s l r at calm st = ground arith
join-Moves n d _ proceed s l r at calm st = ground arith
join-Moves n d _ failing s l r at calm st = ground arith
join-Moves n d _ interrupt s l r at calm st = ground arith

-- The same for client 3, which makes the permit. `k` counts the other clients inside.
abbrev Holds : ℕ → Pc → Shared → Local → Type 0
Holds k p s l =
    (s.mutex + k + inside p ≡ (if l.mutex_open then 1 else 0))
    × (s.mutex_named ≡ true → l.mutex_open ≡ true)
    × (p ≡ create_mutex → l.mutex_open ≡ false)
    × (created p ≡ true → l.mutex_open ≡ true)

client3-Holds :
    (k : ℕ) (p : Pc) (e : Event) (s : Shared) (l : Local) (r : Shared × Local)
    → l.pc ≡ p
    → breaks_wait p e ≡ false
    → client3 p e s l ≡ some r
    → Holds k p s l
    → Holds k r.1.pc r.0 r.1
unfolding client3
client3-Holds k create_mutex proceed s l r at calm st h = ground arith
client3-Holds k _ proceed s l r at calm st h = ground arith
client3-Holds k _ failing s l r at calm st h = ground arith
client3-Holds k _ interrupt s l r at calm st h = ground arith

pub after-eq-some {ℓ κ} :
    {A : Type ℓ} {B : Type κ} (o : Option A) (f : A → B) {b : B}
    → after o f ≡ some b
    → (a : A) × (o ≡ some a) × (b ≡ f a)
after-eq-some none f e = cc
after-eq-some (some a) f e = (a, refl, cc)

-- A calm step keeps the permit single.
pub step-Locked :
    (w w' : World) (c : Client) (e : Event)
    → breaks_wait (local w c).pc e ≡ false
    → step w c e ≡ some w'
    → Locked w
    → Locked w'
unfolding step client1 client2
step-Locked w w' one e calm st v =
    let (r, made, is) = after-eq-some (client1 w.p1.pc e w.shared w.p1) _ st in
    ground (arith, is, join-Moves 1 next_dest1 w.p1.pc e w.shared w.p1 r refl calm made)
step-Locked w w' two e calm st v =
    let (r, made, is) = after-eq-some (client2 w.p2.pc e w.shared w.p2) _ st in
    ground (arith, is, join-Moves 2 next_dest2 w.p2.pc e w.shared w.p2 r refl calm made)
step-Locked w w' three e calm st v =
    let (r, made, is) = after-eq-some (client3 w.p3.pc e w.shared w.p3) _ st in
    let k = inside w.p1.pc + inside w.p2.pc in
    ground (
      arith,
      is,
      client3-Holds k w.p3.pc e w.shared w.p3 r refl calm made
          (ground arith, v.named, v.unmade, v.made),
    )
