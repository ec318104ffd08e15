-- ===== src/ShmClients/Rounds.antt =====
-- Lab10's clients end: each step that the environment does not spend on a signal brings one nearer.
use unx.Prelude.{
  ℕ, ◌+◌, ◌*◌, ◌-◌, ◌≤◌, ◌≡◌, refl, none, some, arith, List, [], ◌∷◌, Option-cases, inl, inr,
}
use unx.ShmClients.{
  World, Shared, Pc, open_mutex, open_start, create_mutex, create_start, wait_start, get_memory,
  attach, initialise, post_first, post_second, loop, enter, test, reply_src, reply_dest,
  reply_message, leave, leaving, exited, Local, Event, proceed, failing, interrupt, Client, one,
  two, three, step, join, client1, client2, client3, next_dest1, next_dest2, run, fresh,
  num_messages,
}
use unx.ShmClients.Invariant.{after-eq-some}

-- Steps that a client has left at most: seven for each round, ten tries for each semaphore.
abbrev left_from : ℕ → ℕ
left_from i = 2 + 7 * (num_messages - 1 - i)

abbrev pub rank : Pc → ℕ
rank (exited status) = 0
rank (leaving status) = 1
rank (loop i) = 2 + 7 * (num_messages - i)
rank (enter i) = left_from i + 6
rank (test i) = left_from i + 5
rank (reply_src i) = left_from i + 4
rank (reply_dest i) = left_from i + 3
rank (reply_message i) = left_from i + 2
rank (leave i) = left_from i + 1
rank post_second = 213
rank post_first = 214
rank initialise = 215
rank attach = 216
rank get_memory = 217
rank wait_start = 218
rank create_start = 218
rank create_mutex = 219
rank (open_start r) = 219 + r
rank (open_mutex r) = 230 + r

-- 1 for a step that is not the arrival of a signal.
abbrev pub counts : Event → ℕ
counts interrupt = 0
counts _ = 1

abbrev pub counted : List (Client × Event) → ℕ
counted [] = 0
counted ((c, e) ∷ cs) = counts e + counted cs

join-rank :
    (n : ℕ) (d : ℕ → ℕ) (p : Pc) (e : Event) (s : Shared) (l : Local) (r : Shared × Local)
    → l.pc ≡ p
    → join n d p e s l ≡ some r
    → counts e + rank r.1.pc ≤ rank p
unfolding join
join-rank n d (open_mutex k) proceed s l r at st = ground arith
join-rank n d _ proceed s l r at st = ground arith
join-rank n d _ failing s l r at st = ground arith
join-rank n d _ interrupt s l r at st = ground arith

client3-rank :
    (p : Pc) (e : Event) (s : Shared) (l : Local) (r : Shared × Local)
    → l.pc ≡ p
    → client3 p e s l ≡ some r
    → counts e + rank r.1.pc ≤ rank p
unfolding client3
client3-rank (open_mutex k) proceed s l r at st = ground arith
client3-rank _ proceed s l r at st = ground arith
client3-rank _ failing s l r at st = ground arith
client3-rank _ interrupt s l r at st = ground arith

abbrev pub steps_left : World → ℕ
steps_left w = rank w.p1.pc + rank w.p2.pc + rank w.p3.pc

step-steps_left :
    (w w' : World) (c : Client) (e : Event)
    → step w c e ≡ some w'
    → counts e + steps_left w' ≤ steps_left w
unfolding step client1 client2
step-steps_left w w' one e st =
    let (r, made, is) = after-eq-some (client1 w.p1.pc e w.shared w.p1) _ st in
    ground (arith, is, join-rank 1 next_dest1 w.p1.pc e w.shared w.p1 r refl made)
step-steps_left w w' two e st =
    let (r, made, is) = after-eq-some (client2 w.p2.pc e w.shared w.p2) _ st in
    ground (arith, is, join-rank 2 next_dest2 w.p2.pc e w.shared w.p2 r refl made)
step-steps_left w w' three e st =
    let (r, made, is) = after-eq-some (client3 w.p3.pc e w.shared w.p3) _ st in
    ground (arith, is, client3-rank w.p3.pc e w.shared w.p3 r refl made)

run-steps_left :
    (cs : List (Client × Event)) (w w' : World)
    → run w cs ≡ some w'
    → counted cs + steps_left w' ≤ steps_left w
unfolding run
run-steps_left [] w w' h = ground arith
run-steps_left ((c, e) ∷ cs) w w' h = elim (Option-cases (step w c e)) [
  | inl stuck ↦ let never : none ≡ some w' = rw (stuck, run) at h in cc
  | inr (v, st) ↦
      omega (arith, step-steps_left w v c e st, run-steps_left cs v w' (rw (st, run) at h))
]

-- However the three clients are scheduled from the start, they make at most 699 steps that are not
-- signals, and what is left of these bounds their further steps; no loop and no retry goes on forever.
pub run-bounded :
    (cs : List (Client × Event)) (w : World)
    → run fresh cs ≡ some w
    → counted cs + steps_left w ≤ 699
run-bounded cs w h = run-steps_left cs fresh w h
