-- ===== src/MessageQueues/Delivery.antt =====
-- Lab8: what the posts and the prints of a run say about delivery.
use unx.Prelude.{
  none, ℕ, Bool, true, false, some, List, [], ◌++◌, ◌≡◌, ◌≢◌, if◌then◌else◌, refl, sym, ap, ◌∙◌,
  arith,
}
use mathlib.Core.List.{append_assoc}
use mathlib.Core.Option.{some-injective}
use mathlib.Core.Path.{subst}
use unx.MessageQueues.Messages.{Message, MesgBuffer, Queue, Effect, proceed, interrupt}
use unx.MessageQueues.Dispatcher.{server}
use unx.MessageQueues.Threads.{Process, Outcome, main_thread, recv_thread}
use unx.MessageQueues.{
  Client, World, Actor, main_server, main_client, recv_client, number, same, put, step, Reach,
  start, move, signal, next_dest,
}
use unx.MessageQueues.Locking.{
  step-main, step-recv, Holds-some, after-eq-some, Reach-IsSound, IsSound,
}
use unx.MessageQueues.Clean.{IsClean, Forwards, server-IsClean, main-IsClean, recv-IsClean}
use unx.MessageQueues.Flow.{in_hand, held, main_hand, recv_hand, posted, printed, ahead}
use unx.MessageQueues.Flow.Moves.{Moves, ahead-nil, posted-append, printed-append, Moves-quiet}
use unx.MessageQueues.Flow.Steps.{main-kept, main-others, recv-kept, recv-others}
use unx.MessageQueues.Flow.Dispatch.{server-kept}

-- The queue and the server's hand are as the programs leave them.
record IsTidy (w : World) : Type 0 where
  queue : IsClean w.queue
  hand : Forwards w.dispatcher

step-IsTidy :
    (pids : Client → ℕ) (w : World) (a : Actor) (r : World × List Effect)
    → IsTidy w
    → step pids w a proceed ≡ some r
    → IsTidy r.0
unfolding step
step-IsTidy pids w main_server r t h =
    let (o, made, is) = after-eq-some _ _ h in
    let k =
      Holds-some _ _ o (server-IsClean w.dispatcher.pc w.queue w.dispatcher t.queue t.hand) made in
    subst (λ x. IsTidy x.0) (sym is) (record { queue = k.0; hand = k.1 })
step-IsTidy pids w (main_client c) r t h =
    let (o, made, is) = after-eq-some _ _ (step-main pids w c proceed ∙ h) in
    let p : Process = w.clients c in
    let k =
      Holds-some _ _ o
        (main-IsClean (number c) (next_dest c) (pids c) p.main p.inbox w.queue p t.queue) made in
    subst (λ x. IsTidy x.0) (sym is) (record { queue = k; hand = t.hand })
step-IsTidy pids w (recv_client c) r t h =
    let (o, made, is) = after-eq-some _ _ (step-recv pids w c proceed ∙ h) in
    let p : Process = w.clients c in
    let k = Holds-some _ _ o (recv-IsClean (number c) p.recv w.queue p t.queue) made in
    subst (λ x. IsTidy x.0) (sym is) (record { queue = k; hand = t.hand })

number-small : (c : Client) → number c ≢ 4
number-small Client.one = ground arith
number-small Client.two = ground arith
number-small Client.three = ground arith

-- The messages for `c` on their way, with the queue `q`, the next to be printed first.
pub on_the_way : Client → World → Queue → List MesgBuffer
on_the_way c w q =
    held (w.clients c) ++ ahead (number c) (in_hand (number c) w.dispatcher.pc w.dispatcher.msg) q

-- What a step does for client `c`.
abbrev Steady : Client → World → World × List Effect → Type 0
Steady c w r =
    Moves (number c) (held (w.clients c)) (in_hand (number c) w.dispatcher.pc w.dispatcher.msg)
      w.queue (posted (number c) r.1) (printed (number c) r.1) (held (r.0.clients c))
      (in_hand (number c) r.0.dispatcher.pc r.0.dispatcher.msg) r.0.queue

-- A client's outcome, for client `c`, which holds `h` afterwards.
abbrev LocalMoves : World → Outcome → (Process → List MesgBuffer) → Client → Type 0
LocalMoves w o h c =
    Moves (number c) (held (w.clients c)) (in_hand (number c) w.dispatcher.pc w.dispatcher.msg)
      w.queue (posted (number c) o.2) (printed (number c) o.2) (h o.1)
      (in_hand (number c) w.dispatcher.pc w.dispatcher.msg) o.0

number-injective : (c d : Client) → number c ≡ number d → c ≡ d
number-injective Client.one Client.one e = refl
number-injective Client.two Client.two e = refl
number-injective Client.three Client.three e = refl
number-injective _ _ e = absurd (ground arith)

-- The outcome of client `d` in the world, for the client itself and for another one.
put-Steady :
    (w : World) (c d : Client) (o : Outcome)
    → LocalMoves w o held d
    → (number c ≢ number d → LocalMoves w o (λ p. held (w.clients c)) c)
    → Steady c w (put w d o)
put-Steady w c d o own others = pick (same c d) refl
  where
    pick : (b : Bool) → same c d ≡ b → LocalMoves w o (λ p. held (if b then p else w.clients c)) c
    pick true e = subst (LocalMoves w o held) (number-injective d c (ground arith)) own
    pick false e = others (ground arith)

step-Steady :
    (pids : Client → ℕ) (w : World) (a : Actor) (r : World × List Effect) (c : Client)
    → IsTidy w
    → ((d : Client) → IsSound (w.clients d))
    → step pids w a proceed ≡ some r
    → Steady c w r
unfolding step posted printed
step-Steady pids w main_server r c t s h =
    let (o, made, is) = after-eq-some _ _ h in
    let k =
      Holds-some _ _ o
        (server-kept (number c) w.dispatcher.pc w.queue w.dispatcher (held (w.clients c))
          (number-small c) t.hand)
        made in
    subst (Steady c w) (sym is) k
step-Steady pids w (main_client d) r c t s h =
    let (o, made, is) = after-eq-some _ _ (step-main pids w d proceed ∙ h) in
    let p : Process = w.clients d in
    let hand : Client → List MesgBuffer =
      λ e. in_hand (number e) w.dispatcher.pc w.dispatcher.msg in
    let own =
      main-kept (number d) (next_dest d) (pids d) p.main p.inbox w.queue p (hand d) (number-small d)
        refl refl (s d) in
    subst (Steady c w) (sym is) (
      put-Steady w c d o (Holds-some _ _ o own made) (λ n.
        Holds-some _ _ o
          (main-others (number c) (number d) (next_dest d) (pids d) p.main p.inbox w.queue p
            (held (w.clients c)) (hand c) (number-small c) n)
          made))
step-Steady pids w (recv_client d) r c t s h =
    let (o, made, is) = after-eq-some _ _ (step-recv pids w d proceed ∙ h) in
    let p : Process = w.clients d in
    let hand : Client → List MesgBuffer =
      λ e. in_hand (number e) w.dispatcher.pc w.dispatcher.msg in
    let own = recv-kept (number d) p.recv w.queue p (hand d) (number-small d) refl in
    subst (Steady c w) (sym is) (
      put-Steady w c d o (Holds-some _ _ o own made) (λ n.
        Holds-some _ _ o
          (recv-others (number c) (number d) p.recv w.queue p (held (w.clients c)) (hand c) n
            (number-small d))
          made))

interrupt-IsTidy :
    (pids : Client → ℕ) (w : World) (a : Actor) (r : World × List Effect)
    → IsTidy w
    → step pids w a interrupt ≡ some r
    → IsTidy r.0
unfolding step server main_thread recv_thread
interrupt-IsTidy pids w main_server r t h =
    subst (λ x. IsTidy x.0) (some-injective _ _ h) (record { queue = t.queue; hand = t.hand })
interrupt-IsTidy pids w (main_client c) r t h =
    subst (λ x. IsTidy x.0) (some-injective _ _ (step-main pids w c interrupt ∙ h))
      (record { queue = t.queue; hand = t.hand })
interrupt-IsTidy pids w (recv_client c) r t h =
    let no_step : none ≡ some r = step-recv pids w c interrupt ∙ h in absurd (ground arith)

interrupt-Steady :
    (pids : Client → ℕ) (w : World) (a : Actor) (r : World × List Effect) (c : Client)
    → step pids w a interrupt ≡ some r
    → Steady c w r
unfolding step server main_thread recv_thread posted printed held
interrupt-Steady pids w main_server r c h =
    subst (Steady c w) (some-injective _ _ h) (Moves-quiet (number c) w.queue refl refl)
interrupt-Steady pids w (main_client d) r c h =
    subst (Steady c w) (some-injective _ _ (step-main pids w d interrupt ∙ h)) (
      put-Steady w c d (w.queue, record (w.clients d) { is_running = false }, [])
        (Moves-quiet (number d) w.queue refl refl) (λ n. Moves-quiet (number c) w.queue refl refl))
interrupt-Steady pids w (recv_client d) r c h =
    let no_step : none ≡ some r = step-recv pids w d interrupt ∙ h in absurd (ground arith)

-- The messages that were posted to `c` are those it printed, then those it holds and others, which
-- are the ones ahead as long as there is a queue.
record Account (c : Client) (t : List Effect) (w : World) : Type 0 where
  rest : List MesgBuffer
  total : posted (number c) t ≡ printed (number c) t ++ (held (w.clients c) ++ rest)
  live :
      (q : Queue)
      → w.queue ≡ some q
      → rest ≡ ahead (number c) (in_hand (number c) w.dispatcher.pc w.dispatcher.msg) q

-- A step takes an account to the next.
carry :
    (c : Client) (t : List Effect) (w : World) (r : World × List Effect)
    → Account c t w
    → Steady c w r
    → Account c (t ++ r.1) r.0
carry c t w r a k =
    let (rest, same, live) = k a.rest a.live in
    record {
      rest = rest;
      total =
          posted-append (number c) t r.1
          ∙ ap (λ l. l ++ posted (number c) r.1) a.total
          ∙ append_assoc (printed (number c) t) _ _
          ∙ ap (◌++◌ (printed (number c) t)) same
          ∙ sym (append_assoc (printed (number c) t) _ _)
          ∙ ap (λ l. l ++ (held (r.0.clients c) ++ rest)) (sym (printed-append (number c) t r.1));
      live = live;
    }

Reach-IsTidy :
    {pids : Client → ℕ} {m : Message} {t : List Effect} {w : World} → Reach pids m t w → IsTidy w
Reach-IsTidy start = record { queue = tt; hand = λ e. absurd (ground arith) }
Reach-IsTidy (move t w a r h st) = step-IsTidy _ w a r (Reach-IsTidy h) st
Reach-IsTidy (signal t w a r h st) = interrupt-IsTidy _ w a r (Reach-IsTidy h) st

Reach-Account :
    {pids : Client → ℕ} {m : Message} {t : List Effect} {w : World} (c : Client)
    → Reach pids m t w
    → Account c t w
unfolding posted printed held main_hand recv_hand in_hand
Reach-Account c start = record {
  rest = [];
  total = refl;
  live = λ q e. ahead-nil (number c) ∙ ap (ahead (number c) []) (some-injective _ _ e);
}
Reach-Account c (move t w a r h st) =
    carry c t w r (Reach-Account c h) (step-Steady _ w a r c (Reach-IsTidy h) (Reach-IsSound h) st)
Reach-Account c (signal t w a r h st) =
    carry c t w r (Reach-Account c h) (interrupt-Steady _ w a r c st)

-- In each world that calls which do not fail reach, what client `c` printed is a first part of what
-- was posted to it, in the same order; as long as there is a queue, the rest is on the way, in order.
pub delivered_in_order :
    {pids : Client → ℕ} {m : Message} {t : List Effect} {w : World} (c : Client)
    → Reach pids m t w
    → ((rest : List MesgBuffer) × (posted (number c) t ≡ printed (number c) t ++ rest))
      × ((q : Queue)
          → w.queue ≡ some q
          → posted (number c) t ≡ printed (number c) t ++ on_the_way c w q)
unfolding on_the_way
delivered_in_order {t = t} {w} c h =
    let a = Reach-Account c h in
    (
      (held (w.clients c) ++ a.rest, a.total),
      λ q e. a.total ∙ ap (λ l. printed (number c) t ++ (held (w.clients c) ++ l)) (a.live q e),
    )
