-- ===== src/NetworkMonitor/Closing.antt =====
-- The end of Assignment2's monitor: the clients are told, and nothing stays open.
use unx.Prelude.{
  ℕ, ◌+◌, ◌≡◌, refl, Bool, Option, none, some, List, [], ◌∷◌, ◌++◌, map, arith, inl, inr,
  Option-cases, not, sym,
}
use mathlib.Core.Path.{subst}
use unx.Prelude.Bytes.{Bytes}
use unx.NetworkMonitor.Clients.{ClientMap, count, Rising, Rising-count}
use unx.NetworkMonitor.{
  Monitor, Effect, Outcome, Event, happen, main_loop, send, unlink, reap, close_master, dismiss,
  cleanup_sockets,
}
use mathlib.Core.Option.{some-injective}
use unx.NetworkMonitor.Main.{
  open_master, no_names, finish, Startup, Started, quits, serves, start_up, main, launch,
  read_names,
}
use unx.NetworkMonitor.Keeping.{either, main_loop-nil, main_loop-cons}
use unx.NetworkMonitor.Names.{uses, IsValid, happen-IsValid, main_loop-IsValid}
use unx.NetworkMonitor.Descriptors.{
  opened, closed, held, held_master, Balanced, Balanced-then, Balanced-same, IsFresh,
  happen-Balanced, opened-append, closed-append,
}

-- The messages that a list of effects sends.
pub sent : List Effect → List (ℕ × Bytes)
sent [] = []
sent (send fd m ∷ es) = (fd, m) ∷ sent es
sent (_ ∷ es) = sent es

closed-dismiss : (x n : ℕ) (m : ClientMap) → Rising n m → closed x (dismiss m) ≡ count x m
unfolding dismiss closed count
closed-dismiss x n [] h = refl
closed-dismiss x n ((fd, name) ∷ m) h =
    ground (arith, closed-dismiss x (fd + 1) m h.1, Rising-count x (fd + 1) m h.1)

opened-dismiss : (x : ℕ) (m : ClientMap) → opened x (dismiss m) ≡ 0
unfolding dismiss opened
opened-dismiss x [] = refl
opened-dismiss x ((fd, name) ∷ m) = opened-dismiss x m

quiet : (x : ℕ) (pids : List ℕ) → (opened x (map reap pids) ≡ 0) × (closed x (map reap pids) ≡ 0)
unfolding opened closed
quiet x [] = (refl, refl)
quiet x (p ∷ pids) = quiet x pids

closing :
    (x : ℕ) (o : Option ℕ) (pids : List ℕ)
    → (opened x (close_master o ++ (unlink ∷ map reap pids)) ≡ 0)
      × (closed x (close_master o ++ (unlink ∷ map reap pids)) ≡ held_master x o)
unfolding opened closed
closing x none pids = quiet x pids
closing x (some fd) pids = ground (arith, quiet x pids)

-- The cleanup closes whatever the monitor holds.
cleanup-Balanced : (pids : List ℕ) (m : Monitor) → IsValid m → Balanced m (cleanup_sockets pids m)
unfolding cleanup_sockets count
cleanup-Balanced pids m v x =
    let rest = close_master m.master ++ (unlink ∷ map reap pids) in
    omega (
      arith,
      opened-append x (dismiss m.client_fds) rest,
      closed-append x (dismiss m.client_fds) rest,
      closed-dismiss x 0 m.client_fds v.rising,
      opened-dismiss x m.client_fds,
      closing x m.master pids,
    )

held-cleanup : (pids : List ℕ) (m : Monitor) (x : ℕ) → held x (cleanup_sockets pids m).0 ≡ 0
unfolding cleanup_sockets count
held-cleanup pids m x = refl

-- Every `accept` of a run gives a descriptor that is not held then.
abbrev pub AllFresh : Monitor → List Event → Type 0
AllFresh m [] = Unit {0}
AllFresh m (e ∷ es) = IsFresh m e × AllFresh (happen m e).0 es

main_loop-Balanced :
    (es : List Event) (m : Monitor) (r : Outcome)
    → main_loop es m ≡ some r
    → IsValid m
    → AllFresh m es
    → Balanced m r
main_loop-Balanced [] m r ends v free =
    subst (Balanced m) (sym (main_loop-nil m r ends).1) (Balanced-same m)
main_loop-Balanced (e ∷ es) m r ends v free = elim (main_loop-cons e es m r ends) [
  | inl (off, is) ↦ subst (Balanced m) (sym is) (Balanced-same m)
  | inr (on, q, later, is) ↦ subst (Balanced m) (sym is) (
      Balanced-then m (happen m e) q (happen-Balanced m e v free.0)
        (main_loop-Balanced es (happen m e).0 q later (happen-IsValid m e v).0 free.1))
]

opened-launch :
    (x : ℕ) (ok : ℕ → Bool) (i : ℕ) (ns : List Bytes)
    → (opened x (launch ok i ns) ≡ 0) × (closed x (launch ok i ns) ≡ 0)
unfolding opened closed launch
opened-launch x ok i [] = (refl, refl)
opened-launch x ok i (n ∷ ns) = ground (arith, opened-launch x ok (i + 1) ns)

-- What `main` holds when it enters its loop.
abbrev Begun : Started → Type 0
Begun (quits es) = (x : ℕ) → opened x es ≡ closed x es
Begun (serves m es) = ((x : ℕ) → opened x es ≡ closed x es + held x m) × IsValid m

open_master-Begun : (s : Startup) (ns : List Bytes) (o : Option ℕ) → Begun (open_master s ns o)
unfolding open_master opened closed count uses
open_master-Begun s ns none = λ x. refl
open_master-Begun s ns (some fd) =
    either Begun (not s.bind_ok) (λ x. omega arith)
      (either Begun (not s.listen_ok) (λ x. omega arith)
        (
          λ x. omega (arith, opened-launch x s.fork_ok 0 ns),
          record { rising = tt; single = λ x. omega arith; known = λ x h. absurd (omega arith) },
        ))

start_up-Begun : (s : Startup) → Begun (start_up s)
unfolding start_up opened closed
start_up-Begun s =
    either Begun (no_names (read_names s.num_interfaces s.lines)) (λ x. refl)
      (open_master-Begun s (read_names s.num_interfaces s.lines) s.socket)

-- `accept` gives fresh descriptors throughout a run of `main`.
abbrev pub IsFreshRun : Started → List Event → Type 0
IsFreshRun (quits es) events = Unit {0}
IsFreshRun (serves m es) events = AllFresh m events

module _ (events : List Event) (pids : List ℕ) where
  ends-closed :
      (b : Started)
      → Begun b
      → IsFreshRun b events
      → {r : ℕ × List Effect} → finish b events pids ≡ some r
      → (x : ℕ) → opened x r.1 ≡ closed x r.1
  unfolding finish
  ends-closed (quits es) h free e x = ground (arith, h x)
  ends-closed (serves m es) h free {r} e x = elim (Option-cases (main_loop events m)) [
    | inl on ↦ let no : none ≡ some r = rw (on, finish) at e in cc
    | inr (q, ends) ↦
        let is : some (0, es ++ (q.1 ++ (cleanup_sockets pids q.0).1)) ≡ some r =
          rw (ends, finish) at e in
        let v = main_loop-IsValid events m q ends h.1 in
        let tail = (cleanup_sockets pids q.0).1 in
        subst (λ r. opened x r.1 ≡ closed x r.1) (some-injective _ _ is)
          (omega (
            arith,
            h.0 x,
            main_loop-Balanced events m q ends h.1 free x,
            cleanup-Balanced pids q.0 v x,
            held-cleanup pids q.0 x,
            opened-append x es (q.1 ++ tail),
            closed-append x es (q.1 ++ tail),
            opened-append x q.1 tail,
            closed-append x q.1 tail,
          ))
  ]

-- When `main` returns, on any of its paths, it has closed each descriptor that it opened, and as
-- often, provided that `accept` never gave a descriptor that it still held.
pub main_closes :
    (s : Startup) (events : List Event) (pids : List ℕ) (r : ℕ × List Effect)
    → IsFreshRun (start_up s) events
    → main s events pids ≡ some r
    → (x : ℕ) → opened x r.1 ≡ closed x r.1
unfolding main
main_closes s events pids r free e = ends-closed events pids (start_up s) (start_up-Begun s) free e
