-- ===== src/MessageQueues/Locking.antt =====
-- Lab8's clients: what `lock_x` protects.
use unx.Prelude.{
  ℕ, ◌+◌, ◌≤◌, Bool, true, false, Option, none, some, List, [], ◌∷◌, ◌++◌, ◌≡◌, if◌then◌else◌, refl,
  sym, ap, ◌∙◌, arith,
}
use mathlib.Core.Path.{subst}
use unx.MessageQueues.Messages.{
  Message, MesgBuffer, Queue, Event, proceed, failing, interrupt, msgrcv, Effect, after,
}
use unx.MessageQueues.Threads.{
  MainPc, RecvPc, Process, Outcome, main_thread, recv_thread, receive, arrive, no_mail,
}
use unx.MessageQueues.{
  main1, main2, main3, recv_func1, recv_func2, recv_func3, next_dest, Actor, Client, World, Reach,
  start, move, signal, step, main_server, main_client, recv_client, put, same, number,
}

-- Whether the main thread is between `pthread_mutex_lock` and `pthread_mutex_unlock`.
pub main_inside : MainPc → ℕ
main_inside MainPc.popping = 1
main_inside (MainPc.unlocking m) = 1
main_inside _ = 0

pub recv_inside : RecvPc → ℕ
recv_inside (RecvPc.pushing m) = 1
recv_inside RecvPc.unlocking = 1
recv_inside _ = 0

-- Whether the main thread has seen `size() > 0` and has not popped yet.
pub pops : MainPc → Bool
pops MainPc.locking = true
pops MainPc.popping = true
pops _ = false

pub starts : MainPc → Bool
starts MainPc.creating = true
starts _ = false

pub sleeps : RecvPc → Bool
sleeps RecvPc.idle = true
sleeps _ = false

pub as_count : Bool → ℕ
as_count true = 1
as_count false = 0

-- The lock is held by the thread that is inside, and a thread that pops has something to pop.
pub record IsSound (p : Process) : Type 0 where
  pub holder : main_inside p.main + recv_inside p.recv ≡ as_count p.locked
  pub filled : pops p.main ≡ true → no_mail p.inbox ≡ false
  pub unborn : starts p.main ≡ true → sleeps p.recv ≡ true

abbrev pub Holds {ℓ κ} : {A : Type ℓ} → (A → Type κ) → Option A → Type κ
Holds P none = Unit
Holds P (some a) = P a

pub Holds-if {ℓ κ} :
    {A : Type ℓ} (P : A → Type κ) (b : Bool) (o o' : Option A)
    → Holds P o
    → Holds P o'
    → Holds P (if b then o else o')
Holds-if P true o o' p p' = p
Holds-if P false o o' p p' = p'

pub Holds-some {ℓ κ} :
    {A : Type ℓ} (P : A → Type κ) (o : Option A) (a : A) → Holds P o → o ≡ some a → P a
Holds-some P none a p e = cc
Holds-some P (some b) a p e = subst (Holds P) e p

main_thread-IsSound :
    (n : ℕ) (next : ℕ → ℕ) (pid : ℕ) (c : MainPc) (i : List MesgBuffer) (e : Event)
    (q : Option Queue) (p : Process) (r : Outcome)
    → p.main ≡ c
    → p.inbox ≡ i
    → IsSound p
    → main_thread n next pid c i e q p ≡ some r
    → IsSound r.1
unfolding main_thread main_inside recv_inside pops as_count starts sleeps
main_thread-IsSound n next pid c i interrupt q p r hc hi s h = ground arith
main_thread-IsSound n next pid c i (failing g) q p r hc hi s h = ground arith
main_thread-IsSound n next pid MainPc.sending i proceed none p r hc hi s h = ground arith
main_thread-IsSound n next pid MainPc.sending i proceed (some q) p r hc hi s h = ground arith
main_thread-IsSound n next pid MainPc.popping [] proceed q p r hc hi s h = ground arith
main_thread-IsSound n next pid MainPc.popping (m ∷ i) proceed q p r hc hi s h = ground arith
main_thread-IsSound n next pid c i proceed q p r hc hi s h = ground arith

no_mail-append : (i : List MesgBuffer) (m : MesgBuffer) → no_mail (i ++ m ∷ []) ≡ false
no_mail-append [] m = refl
no_mail-append (x ∷ i) m = refl

receive-IsSound :
    (m : Message) (q : Option Queue) (p : Process) (r : Outcome)
    → recv_inside p.recv ≡ 0
    → sleeps p.recv ≡ false
    → IsSound p
    → receive m q p ≡ some r
    → IsSound r.1
unfolding receive recv_inside sleeps starts pops
receive-IsSound m q p r hc hs s h = ground arith

arrive-IsSound :
    (o : Option (Message × Queue)) (p : Process) (r : Outcome)
    → recv_inside p.recv ≡ 0
    → sleeps p.recv ≡ false
    → IsSound p
    → arrive o p ≡ some r
    → IsSound r.1
unfolding arrive
arrive-IsSound none p r hc hs s h = cc
arrive-IsSound (some t) p r hc hs s h = receive-IsSound t.0 (some t.1) p r hc hs s h

recv_thread-IsSound :
    (n : ℕ) (c : RecvPc) (e : Event) (q : Option Queue) (p : Process) (r : Outcome)
    → p.recv ≡ c
    → IsSound p
    → recv_thread n c e q p ≡ some r
    → IsSound r.1
unfolding recv_thread main_inside recv_inside pops as_count starts sleeps
recv_thread-IsSound n RecvPc.receiving (failing g) q p r hc s h =
    receive-IsSound g q p r (ground arith) (ground arith) s h
recv_thread-IsSound n RecvPc.receiving proceed (some q) p r hc s h =
    arrive-IsSound (msgrcv n q) p r (ground arith) (ground arith) s h
recv_thread-IsSound n (RecvPc.pushing m) proceed q p r hc s h =
    ground (arith, no_mail-append p.inbox m.msg_buf)
recv_thread-IsSound n c e q p r hc s h = ground arith

pub after-eq-some {ℓ κ} :
    {A : Type ℓ} {B : Type κ} (o : Option A) (f : A → B) {b : B}
    → after o f ≡ some b
    → (a : A) × (o ≡ some a) × (b ≡ f a)
after-eq-some none f e = cc
after-eq-some (some a) f e = (a, refl, cc)

pub put-all {ℓ} :
    (P : Process → Type ℓ) (w : World) (d c : Client) (o : Outcome) (r : World × List Effect)
    → r ≡ put w d o
    → P (w.clients c)
    → P o.1
    → P (r.0.clients c)
put-all P w d c o r is old new =
    let h : P (if same c d then o.1 else w.clients c) =
      elim (same c d) as (λ b. P (if b then o.1 else w.clients c)) [ true ↦ new | false ↦ old ] in
    subst (λ x. P (x.0.clients c)) (sym is) h

-- The programs are one, at three numbers.
pub step-main :
    (pids : Client → ℕ) (w : World) (c : Client) (e : Event)
    → after
        (main_thread
          (number c)
          (next_dest c)
          (pids c)
          (w.clients c).main
          (w.clients c).inbox
          e
          w.queue
          (w.clients c))
        (put w c)
      ≡ step pids w (main_client c) e
unfolding step main1 main2 main3 next_dest
step-main pids w Client.one e = refl
step-main pids w Client.two e = refl
step-main pids w Client.three e = refl

pub step-recv :
    (pids : Client → ℕ) (w : World) (c : Client) (e : Event)
    → after (recv_thread (number c) (w.clients c).recv e w.queue (w.clients c)) (put w c)
      ≡ step pids w (recv_client c) e
unfolding step recv_func1 recv_func2 recv_func3
step-recv pids w Client.one e = refl
step-recv pids w Client.two e = refl
step-recv pids w Client.three e = refl

step-IsSound :
    (pids : Client → ℕ) (w : World) (a : Actor) (e : Event) (r : World × List Effect)
    → ((c : Client) → IsSound (w.clients c))
    → step pids w a e ≡ some r
    → (c : Client) → IsSound (r.0.clients c)
unfolding step
step-IsSound pids w main_server e r s h c =
    let (o, made, is) = after-eq-some _ _ h in subst (λ x. IsSound (x.0.clients c)) (sym is) (s c)
step-IsSound pids w (main_client d) e r s h c =
    let (o, made, is) = after-eq-some _ _ (step-main pids w d e ∙ h) in
    let t = main_thread-IsSound _ _ _ _ _ e _ (w.clients d) o refl refl (s d) made in
    put-all IsSound w d c o r is (s c) t
step-IsSound pids w (recv_client d) e r s h c =
    let (o, made, is) = after-eq-some _ _ (step-recv pids w d e ∙ h) in
    let t = recv_thread-IsSound _ _ e _ (w.clients d) o refl (s d) made in
    put-all IsSound w d c o r is (s c) t

pub Reach-IsSound :
    {pids : Client → ℕ} {m : Message} {t : List Effect} {w : World}
    → Reach pids m t w
    → (c : Client) → IsSound (w.clients c)
unfolding main_inside recv_inside pops as_count starts sleeps
Reach-IsSound start c = record { holder = refl; filled = λ h. cc; unborn = λ h. refl }
Reach-IsSound (move t w a r h st) c = step-IsSound _ w a proceed r (Reach-IsSound h) st c
Reach-IsSound (signal t w a r h st) c = step-IsSound _ w a interrupt r (Reach-IsSound h) st c

sleeps-idle : (c : RecvPc) → sleeps c ≡ true → c ≡ RecvPc.idle
unfolding sleeps
sleeps-idle RecvPc.idle h = refl
sleeps-idle _ h = cc

pub creating-idle : (p : Process) → IsSound p → p.main ≡ MainPc.creating → p.recv ≡ RecvPc.idle
unfolding starts
creating-idle p s h = sleeps-idle p.recv (s.unborn (ap starts h))

holder-≤ : (a b : ℕ) (l : Bool) → a + b ≡ as_count l → a + b ≤ 1
unfolding as_count
holder-≤ a b l h = ground arith

pop-succeeds :
    (n : ℕ) (next : ℕ → ℕ) (pid : ℕ) (c : MainPc) (i : List MesgBuffer) (q : Option Queue)
    (p : Process)
    → c ≡ MainPc.popping
    → no_mail i ≡ false
    → (o : Outcome) × (main_thread n next pid c i proceed q p ≡ some o)
unfolding main_thread
pop-succeeds n next pid MainPc.popping [] q p hc h = cc
pop-succeeds n next pid MainPc.popping (m ∷ i) q p hc h = (_, refl)
pop-succeeds n next pid c i q p hc h = cc

-- In each world that is reached, at most one thread of a client is between lock and unlock, and
-- `front` and `pop` find a message: the main thread that is about to pop can make its step.
pub lock_protects :
    {pids : Client → ℕ} {m : Message} {t : List Effect} {w : World} (c : Client)
    → Reach pids m t w
    → (main_inside (w.clients c).main + recv_inside (w.clients c).recv ≤ 1)
      × ((w.clients c).main ≡ MainPc.popping
          → (r : World × List Effect) × (step pids w (main_client c) proceed ≡ some r))
unfolding step pops
lock_protects {pids} {w = w} c h =
    let s = Reach-IsSound h c in
    let p : Process = w.clients c in
    (
      holder-≤ (main_inside p.main) (recv_inside p.recv) p.locked s.holder,
      λ e.
          let (o, made) =
            pop-succeeds (number c) (next_dest c) (pids c) p.main p.inbox w.queue p e
              (s.filled (ap pops e)) in
          (put w c o, sym (step-main pids w c proceed) ∙ ap (λ x. after x (put w c)) made),
    )
