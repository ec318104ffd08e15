-- ===== src/MessageQueues/Examples.antt =====
-- Lab8: runs of the processes, and the theorems at them.
use unx.Prelude.{
  ℕ, ◌+◌, ◌≤◌, Option, none, some, List, [], ◌∷◌, ◌++◌, ◌≡◌, refl, Option-cases, inl, inr, arith,
}
use unx.Prelude.Bytes.{codes, bytes_eq, decimal}
use mathlib.Core.Option.{some-injective}
use mathlib.Core.Path.{subst}
use unx.MessageQueues.Messages.{Message, MesgBuffer, Queue, Effect, proceed}
use unx.MessageQueues.Dispatcher.{server}
use unx.MessageQueues.Threads.{MainPc}
use unx.MessageQueues.{
  main1, main2, main3, recv_func1, recv_func2, recv_func3, Client, World, Actor, main_server,
  main_client, recv_client, Reach, start, move, first_world, step,
}
use unx.MessageQueues.Locking.{lock_protects, main_inside, recv_inside}
use unx.MessageQueues.Flow.{posted, printed}
use unx.MessageQueues.Delivery.{delivered_in_order, on_the_way}

abbrev pid_of : Client → ℕ
pid_of Client.one = 101
pid_of Client.two = 102
pid_of Client.three = 103

play : List Actor → List Effect → World → Option (List Effect × World)
unfolding step
play [] t w = some (t, w)
play (a ∷ rest) t w = elim (step pid_of w a proceed) [
  | none ↦ none
  | some r ↦ play rest (t ++ r.1) r.0
]

play-Reach :
    {m : Message} (actors : List Actor) (t : List Effect) (w : World) (r : List Effect × World)
    → Reach pid_of m t w
    → play actors t w ≡ some r
    → Reach pid_of m r.0 r.1
unfolding play
play-Reach {m} [] t w r h e = subst (λ x. Reach pid_of m x.0 x.1) (some-injective _ _ e) h
play-Reach (a ∷ rest) t w r h e = elim (Option-cases (step pid_of w a proceed)) [
  | inl stuck ↦ let no_run : none ≡ some r = rw (stuck, play) at e in absurd (ground arith)
  | inr (s, moved) ↦
      let later : play rest (t ++ s.1) s.0 ≡ some r = rw (moved, play) at e in
      play-Reach rest (t ++ s.1) s.0 r (move t w a s h moved) later
]

abbrev blank : Message
blank = record { mtype = 0; msg_buf = record { source = 0; dest = 0; buf = [] } }

-- Client 1 sends, the server forwards, client 2 receives and is about to pop.
abbrev schedule : List Actor
schedule =
    let c1 = main_client Client.one in
    let c2 = main_client Client.two in
    let r2 = recv_client Client.two in
    let s = main_server in
    c1 ∷ c1 ∷ c1 ∷ c1 ∷ s ∷ s ∷ s ∷ c2 ∷ r2 ∷ r2 ∷ r2 ∷ r2 ∷ r2 ∷ c2 ∷ c2 ∷ c2 ∷ []

abbrev outcome : List Effect × World
outcome = elim (play schedule [] (first_world blank)) [
  | none ↦ ([], first_world blank)
  | some r ↦ r
]

outcome-Reach : Reach pid_of blank outcome.0 outcome.1
unfolding play step server main1 main2 main3 recv_func1 recv_func2 recv_func3 bytes_eq decimal
outcome-Reach = play-Reach schedule [] (first_world blank) outcome start refl

lock_protects_example :
    (main_inside (outcome.1.clients Client.two).main
        + recv_inside (outcome.1.clients Client.two).recv
      ≤ 1)
    × ((outcome.1.clients Client.two).main ≡ MainPc.popping
        → (r : World × List Effect) × (step pid_of outcome.1 (main_client Client.two) proceed
            ≡ some r))
lock_protects_example = lock_protects Client.two outcome-Reach

delivered_in_order_example :
    ((rest : List MesgBuffer) × (posted 2 outcome.0 ≡ printed 2 outcome.0 ++ rest))
    × ((q : Queue)
        → outcome.1.queue ≡ some q
        → posted 2 outcome.0 ≡ printed 2 outcome.0 ++ on_the_way Client.two outcome.1 q)
delivered_in_order_example = delivered_in_order Client.two outcome-Reach

-- The text of client 1 is on its way.
posted_at_two :
    posted 2 outcome.0
    ≡ record { source = 1; dest = 2; buf = codes "101: Message from client 1\n" } ∷ []
unfolding play step server main1 main2 main3 recv_func1 recv_func2 recv_func3 bytes_eq decimal
    posted
posted_at_two = refl
