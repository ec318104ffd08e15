-- ===== src/NetworkMonitor/Descriptors.antt =====
-- Descriptors in Assignment2's monitor: each one that it opens is closed once.
use unx.Prelude.{
  ℕ, ◌+◌, ◌≡◌, refl, Bool, true, false, ◌&&◌, Option, none, some, List, [], ◌∷◌, ◌++◌, arith, inl,
  inr, Bool-cases, ◌==◌, not,
}
use unx.Prelude.Bytes.{Bytes, c_string}
use unx.NetworkMonitor.Protocol.{Received, got, eof, interrupted, failed}
use unx.NetworkMonitor.Clients.{count, touch_here, keys, count-assign, count-erase}
use unx.NetworkMonitor.{
  Monitor, Effect, Outcome, Input, Event, sigint, turn, respond, handle_client_message, connect,
  attend, attend_one, greet, service, round, sig_handler, happen, ready, opens, close,
  select_interrupted, select_failed, connected, accept_interrupted, accept_failed, Accepted,
  Activity, watched, is_set, master_set,
}
use unx.NetworkMonitor.Keeping.{count-le_one, either, attend_one_keeps}
use unx.NetworkMonitor.Names.{IsValid, IsValid-Kept, connect-IsValid, connect_cases}

abbrev pub one_if : Bool → ℕ
one_if true = 1
one_if false = 0

unfoldable pub opened : ℕ → List Effect → ℕ
opened x [] = 0
opened x (opens fd ∷ es) = one_if (fd == x) + opened x es
opened x (_ ∷ es) = opened x es

unfoldable pub closed : ℕ → List Effect → ℕ
closed x [] = 0
closed x (close fd ∷ es) = one_if (fd == x) + closed x es
closed x (_ ∷ es) = closed x es

abbrev pub held_master : ℕ → Option ℕ → ℕ
held_master x none = 0
held_master x (some fd) = one_if (fd == x)

-- The descriptors that the monitor holds.
abbrev pub held : ℕ → Monitor → ℕ
held x m = count x m.client_fds + held_master x m.master

-- What it held and opened is what it closed and holds.
abbrev pub Balanced : Monitor → Outcome → Type 0
Balanced m r = (x : ℕ) → held x m + opened x r.1 ≡ closed x r.1 + held x r.0

pub opened-append : (x : ℕ) (es fs : List Effect) → opened x (es ++ fs) ≡ opened x es + opened x fs
unfolding opened
opened-append x [] fs = omega arith
opened-append x (opens fd ∷ es) fs = omega (arith, opened-append x es fs)
opened-append x (_ ∷ es) fs = omega (arith, opened-append x es fs)

pub closed-append : (x : ℕ) (es fs : List Effect) → closed x (es ++ fs) ≡ closed x es + closed x fs
unfolding closed
closed-append x [] fs = omega arith
closed-append x (close fd ∷ es) fs = omega (arith, closed-append x es fs)
closed-append x (_ ∷ es) fs = omega (arith, closed-append x es fs)

pub Balanced-then :
    (m : Monitor) (r q : Outcome) → Balanced m r → Balanced r.0 q → Balanced m (q.0, r.1 ++ q.1)
Balanced-then m r q h k x =
    omega (arith, h x, k x, opened-append x r.1 q.1, closed-append x r.1 q.1)

respond-Balanced :
    (m : Monitor) (fd : ℕ) (name message : Bytes)
    → count fd m.client_fds ≡ 1
    → IsValid m
    → Balanced m (respond m fd name message)
unfolding respond opened closed
respond-Balanced m fd name message here v x =
    ground (arith, count-erase x fd 0 m.client_fds v.rising)

handle-Balanced :
    (m : Monitor) (fd : ℕ) (r : Received)
    → count fd m.client_fds ≡ 1
    → IsValid m
    → Balanced m (handle_client_message m fd r)
unfolding handle_client_message opened closed
handle-Balanced m fd (got b bs) here v x =
    rw (touch_here fd m.client_fds here) (respond-Balanced m fd _ (c_string (b ∷ bs)) here v x)
handle-Balanced m fd eof here v x = ground (arith, count-erase x fd 0 m.client_fds v.rising)
handle-Balanced m fd interrupted here v x = ground arith
handle-Balanced m fd failed here v x =
    ground (arith, touch_here fd m.client_fds here, count-erase x fd 0 m.client_fds v.rising)

-- Nothing done, nothing opened.
pub Balanced-same : (m : Monitor) → Balanced m (m, [])
unfolding opened closed
Balanced-same m x = omega arith

attend_one-Balanced :
    (fd : ℕ) (fds : List ℕ) (received : ℕ → Received) (m : Monitor)
    → IsValid m
    → Balanced m (attend_one fd fds received m)
unfolding attend_one
attend_one-Balanced fd fds received m v =
    elim (Bool-cases (is_set fd fds && not (count fd m.client_fds == 0))) [
      | inl go ↦
          rw go
            (handle-Balanced m fd (received fd) (ground (arith, count-le_one fd m.client_fds)) v)
      | inr no_go ↦ rw no_go (Balanced-same m)
    ]

attend-Balanced :
    (todo fds : List ℕ) (received : ℕ → Received) (m : Monitor)
    → IsValid m
    → Balanced m (attend todo fds received m)
unfolding attend
attend-Balanced [] fds received m v = Balanced-same m
attend-Balanced (fd ∷ rest) fds received m v =
    let q = attend_one fd fds received m in
    Balanced-then m q (attend rest fds received q.0) (attend_one-Balanced fd fds received m v) (
      attend-Balanced rest fds received q.0
        (attend_one_keeps IsValid IsValid-Kept fd fds received m v))

connect-Balanced :
    (m : Monitor) (fd : ℕ)
    → held fd m ≡ 0
    → Balanced m ((connect m fd).0, opens fd ∷ (connect m fd).1)
unfolding opened closed connect
connect-Balanced m fd free x = elim (connect_cases m fd) [
  | inl (name, unused, inlist, is) ↦ rw is (ground (arith, count-assign x fd name m.client_fds))
  | inr (full, is) ↦ rw is (ground arith)
]

greet-Balanced :
    (a : Accepted) (fds : List ℕ) (received : ℕ → Received) (m : Monitor)
    → IsValid m
    → ((fd : ℕ) → a ≡ connected fd → held fd m ≡ 0)
    → Balanced m (greet a fds received m)
unfolding greet opened closed
greet-Balanced (connected fd) fds received m v free x =
    let q = connect m fd in
    Balanced-then m (q.0, opens fd ∷ q.1) (attend (keys q.0.client_fds) fds received q.0)
      (connect-Balanced m fd (free fd refl))
      (attend-Balanced (keys q.0.client_fds) fds received q.0 (connect-IsValid fd m v)) x
greet-Balanced accept_interrupted fds received m v free x = Balanced-same m x
greet-Balanced accept_failed fds received m v free x =
    attend-Balanced (keys m.client_fds) fds received m v x

-- `accept` gives a descriptor that the process does not hold.
abbrev pub IsFresh : Monitor → Event → Type 0
IsFresh m sigint = Unit {0}
IsFresh m (turn i) = (fd : ℕ) → i.accepted ≡ connected fd → held fd m ≡ 0

service-Balanced :
    (m : Monitor) (fds : List ℕ) (i : Input)
    → IsValid m
    → IsFresh m (turn i)
    → Balanced m (service m fds i)
unfolding service
service-Balanced m fds i v free =
    either (Balanced m) (master_set m fds) (greet-Balanced i.accepted fds i.received m v free)
      (attend-Balanced (keys m.client_fds) fds i.received m v)

round-Balanced :
    (m : Monitor) (a : Activity) (i : Input)
    → IsValid m
    → IsFresh m (turn i)
    → Balanced m (round m (record i { activity = a }))
unfolding round opened closed
round-Balanced m (ready fds) i v free x =
    service-Balanced m fds (record i { activity = ready fds }) v free x
round-Balanced m select_interrupted i v free x = Balanced-same m x
round-Balanced m select_failed i v free x =
    service-Balanced (record m { running = false }) (watched m)
      (record i { activity = select_failed }) (IsValid-Kept.stops m v) free x

-- An event of the loop, with any results of its system calls, loses no descriptor: what the monitor
-- held and what it opens are what it closes and what it still holds, each descriptor counted.
pub happen-Balanced : (m : Monitor) (e : Event) → IsValid m → IsFresh m e → Balanced m (happen m e)
unfolding happen sig_handler opened closed
happen-Balanced m sigint v free x = ground arith
happen-Balanced m (turn i) v free x = round-Balanced m i.activity i v free x
