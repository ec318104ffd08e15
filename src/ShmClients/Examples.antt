-- ===== src/ShmClients/Examples.antt =====
-- Lab10's theorems at a concrete run: all three clients start, and client 1 takes the mutex.
use unx.Prelude.{
  ℕ, zero, suc, ◌+◌, ◌≤◌, ◌≡◌, refl, Bool, false, true, none, some, Option, List, [], ◌∷◌, ◌++◌,
}
use unx.ShmClients.{
  World, Client, one, two, three, Event, proceed, local, step, Reach, start, later, breaks_wait,
  run, fresh, client1, client2, client3, enter, test,
}
use unx.ShmClients.Invariant.{inside, Settled}
use unx.ShmClients.Safety.{mutual_exclusion, test-Settled, blocked_by}
use unx.ShmClients.Rounds.{steps_left, run-bounded}

-- Client 3 as far as its loop; clients 1 and 2 through their waits; client 1 inside; client 2 waits.
abbrev times : ℕ → Client → List (Client × Event)
times zero c = []
times (suc n) c = (c, proceed) ∷ times n c

abbrev opening : List (Client × Event)
opening = times 8 three ++ (times 7 one ++ times 6 two)

-- A schedule under which no wait is interrupted is calm.
record Run : Type 0 where
  last : World
  reach : Reach true last

turn : Run → Client × Event → Run
unfolding step client1 client2 client3
turn r (c, e) = go (step r.last c e) refl (breaks_wait (local r.last c).pc e) refl
  where
    go :
        (o : Option World)
        → step r.last c e ≡ o
        → (b : Bool) → breaks_wait (local r.last c).pc e ≡ b
        → Run
    go (some w) st false calm = record { last = w; reach = later c e r.reach calm st }
    go o st b calm = r

runs : Run → List (Client × Event) → Run
unfolding turn
runs r [] = r
runs r (x ∷ xs) = runs (turn r x) xs

contended : Run
unfolding runs
contended = runs (record { last = fresh; reach = start }) opening

contended_pcs : (contended.last.p1.pc ≡ test 0) × (contended.last.p2.pc ≡ enter 0)
unfolding contended
contended_pcs = (refl, refl)

mutual_exclusion_example : ◌≡◌ {A = Client} one one
unfolding contended
mutual_exclusion_example = mutual_exclusion contended.reach one one refl refl

test-Settled_example : Settled contended.last.shared.memory
unfolding contended
test-Settled_example = test-Settled one 0 contended.reach refl

blocked_by_example :
    (d : Client) × (inside (local contended.last d).pc ≡ 1)
    × (w' : World) × (step contended.last d proceed ≡ some w')
unfolding contended
blocked_by_example = blocked_by two 0 contended.reach refl refl

two_steps : World
unfolding step client1 client3
two_steps = elim (run fresh ((three, proceed) ∷ (one, proceed) ∷ [])) [ some w ↦ w | none ↦ fresh ]

run-bounded_example : 2 + steps_left two_steps ≤ 699
unfolding two_steps run
run-bounded_example = run-bounded ((three, proceed) ∷ (one, proceed) ∷ []) two_steps refl
