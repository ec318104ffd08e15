-- ===== src/ShmClients/Safety.antt =====
-- What Lab10's two semaphores give, and how a signal takes it away.
use unx.Prelude.{ℕ, ◌+◌, ◌≡◌, refl, true, some, none, arith, Option-cases, inl, inr, ◌≢◌}
use unx.ShmClients.{
  World, Pc, Local, Client, one, two, three, local, step, Reach, proceed, enter, test, join,
  client1, client2, client3, Shared, next_dest1, next_dest2,
}
use native.Mathlib.Decide.{ℕ_discrete}
use unx.ShmClients.Invariant.{created, inside, begun, Settled, mid, Inv, Reach-Inv}

-- In every world that a schedule without signals during waits reaches, two clients that are both
-- between their sem_wait and their sem_post of the mutex are the same client.
pub mutual_exclusion :
    {w : World}
    → Reach true w
    → (c d : Client) → inside (local w c).pc ≡ 1
    → inside (local w d).pc ≡ 1
    → c ≡ d
mutual_exclusion r one one hc hd = refl
mutual_exclusion r one two hc hd = absurd (ground (arith, (Reach-Inv r).locked.permits))
mutual_exclusion r one three hc hd = absurd (ground (arith, (Reach-Inv r).locked.permits))
mutual_exclusion r two one hc hd = absurd (ground (arith, (Reach-Inv r).locked.permits))
mutual_exclusion r two two hc hd = refl
mutual_exclusion r two three hc hd = absurd (ground (arith, (Reach-Inv r).locked.permits))
mutual_exclusion r three one hc hd = absurd (ground (arith, (Reach-Inv r).locked.permits))
mutual_exclusion r three two hc hd = absurd (ground (arith, (Reach-Inv r).locked.permits))
mutual_exclusion r three three hc hd = refl

begun-created : (p : Pc) → begun p ≡ true → created p ≡ true
begun-created (enter i) h = refl
begun-created _ h = ground arith

test-begun :
    {w : World} (c : Client) (i : ℕ) → Inv w → (local w c).pc ≡ test i → begun w.p3.pc ≡ true
test-begun one i v at = ground (arith, v.ordered.waited1)
test-begun two i v at = ground (arith, v.ordered.waited2)
test-begun three i v at = ground arith

test-mid :
    {w : World} (c : Client) (i : ℕ)
    → Inv w
    → (local w c).pc ≡ test i
    → mid w.p1.pc + mid w.p2.pc + mid w.p3.pc ≡ 0
test-mid one i v at = ground (arith, v.locked.permits)
test-mid two i v at = ground (arith, v.locked.permits)
test-mid three i v at = ground (arith, v.locked.permits)

-- In every world that a schedule without signals during waits reaches, a client that is about to
-- look at destClientNo finds a whole packet in shared memory: sender and destination are two different
-- clients, and the text is one of the sender's.
pub test-Settled :
    {w : World} (c : Client) (i : ℕ)
    → Reach true w
    → (local w c).pc ≡ test i
    → Settled w.shared.memory
test-Settled c i r at =
    let v = Reach-Inv r in v.tidy.settled (test-begun c i v at) (test-mid c i v at)

join-goes :
    (n : ℕ) (d : ℕ → ℕ) (p : Pc) (s : Shared) (l : Local)
    → inside p ≡ 1
    → join n d p proceed s l ≢ none
unfolding join
join-goes n d (test i) s l h = ground arith
join-goes n d _ s l h = ground arith

client3-goes : (p : Pc) (s : Shared) (l : Local) → inside p ≡ 1 → client3 p proceed s l ≢ none
unfolding client3
client3-goes (test i) s l h = ground arith
client3-goes _ s l h = ground arith

-- A client inside the critical section never waits.
step-goes : (w : World) (c : Client) → inside (local w c).pc ≡ 1 → step w c proceed ≢ none
unfolding step client1 client2
step-goes w one h = ground (arith, join-goes 1 next_dest1 w.p1.pc w.shared w.p1 h)
step-goes w two h = ground (arith, join-goes 2 next_dest2 w.p2.pc w.shared w.p2 h)
step-goes w three h = ground (arith, client3-goes w.p3.pc w.shared w.p3 h)

goes :
    (w : World) (c : Client)
    → inside (local w c).pc ≡ 1
    → (w' : World) × (step w c proceed ≡ some w')
goes w c h = elim (Option-cases (step w c proceed)) [
  | inl e ↦ absurd (step-goes w c h e)
  | inr (w', e) ↦ (w', e)
]

blocked-mutex :
    (w : World) (c : Client) (i : ℕ)
    → (local w c).pc ≡ enter i
    → step w c proceed ≡ none
    → w.shared.mutex ≡ 0
unfolding step client1 client2 client3
blocked-mutex w one i at st = ground arith
blocked-mutex w two i at st = ground arith
blocked-mutex w three i at st = ground arith

enter-made :
    {w : World} (c : Client) (i : ℕ) → Inv w → (local w c).pc ≡ enter i → w.p3.mutex_open ≡ true
enter-made {w} one i v at =
    let b : begun w.p3.pc ≡ true = ground (arith, v.ordered.waited1) in
    ground (arith, begun-created w.p3.pc b, v.locked.made)
enter-made {w} two i v at =
    let b : begun w.p3.pc ≡ true = ground (arith, v.ordered.waited2) in
    ground (arith, begun-created w.p3.pc b, v.locked.made)
enter-made three i v at = ground (arith, v.locked.made)

holder :
    {w : World}
    → Inv w
    → w.p3.mutex_open ≡ true
    → w.shared.mutex ≡ 0
    → (d : Client) × (inside (local w d).pc ≡ 1)
holder {w} v made zero = elim (ℕ_discrete (inside w.p1.pc) 1) [
  | yes a ↦ (one, a)
  | no a ↦ elim (ℕ_discrete (inside w.p2.pc) 1) [
    | yes b ↦ (two, b)
    | no b ↦ (three, ground (arith, v.locked.permits))
  ]
]

-- In every world that a schedule without signals during waits reaches, a client that waits for the
-- mutex and cannot take it has another client inside the critical section, and that client can make
-- its next step.
pub blocked_by :
    {w : World} (c : Client) (i : ℕ)
    → Reach true w
    → (local w c).pc ≡ enter i
    → step w c proceed ≡ none
    → (d : Client) × (inside (local w d).pc ≡ 1) × (w' : World) × (step w d proceed ≡ some w')
blocked_by {w} c i r at st =
    let v = Reach-Inv r in
    let (d, h) = holder v (enter-made c i v at) (blocked-mutex w c i at st) in
    let (w', e) = goes w d h in (d, h, w', e)
