-- ===== src/NetworkMonitor/Keeping.antt =====
-- What a round of Assignment2's monitor keeps: the rule that the invariants' proofs share.
use unx.Prelude.{
  ℕ, ◌≤◌, ◌≡◌, ◌⊎◌, Bool, true, false, ◌&&◌, none, some, List, [], ◌∷◌, arith, inl, inr, Bool-cases,
  Option-cases, if◌then◌else◌, ◌==◌, not, sym, ◌++◌,
}
use mathlib.Core.Path.{subst}
use unx.Prelude.Bytes.{Bytes}
use unx.NetworkMonitor.Protocol.{Received, got, eof, interrupted, failed}
use unx.NetworkMonitor.Clients.{ClientMap, count, touch_here, keys}
use unx.NetworkMonitor.{
  Monitor, Outcome, Input, Event, sigint, turn, without, respond, handle_client_message, connect,
  attend, attend_one, master_set, is_set, greet, service, round, sig_handler, happen, main_loop,
  ready, select_interrupted, select_failed, connected, accept_interrupted, accept_failed, Accepted,
  Activity, watched,
}

respond_keeps {ℓ} :
    (P : Monitor → Type ℓ) (m : Monitor) (fd : ℕ) (name message : Bytes)
    → P m
    → P (without fd m)
    → P (respond m fd name message).0
unfolding respond
respond_keeps P m fd name message same dropped = ground arith

pub handle_keeps {ℓ} :
    (P : Monitor → Type ℓ) (m : Monitor) (fd : ℕ) (r : Received)
    → count fd m.client_fds ≡ 1
    → P m
    → P (without fd m)
    → P (handle_client_message m fd r).0
unfolding handle_client_message
handle_keeps P m fd (got b bs) here same dropped =
    rw (touch_here fd m.client_fds here) (respond_keeps P m fd _ _ same dropped)
handle_keeps P m fd eof here same dropped = dropped
handle_keeps P m fd interrupted here same dropped = same
handle_keeps P m fd failed here same dropped = rw (touch_here fd m.client_fds here) dropped

-- A property of the monitor is kept by a round of the loop if dropping a client, taking one in, and
-- clearing the flag keep it.
pub record Kept {ℓ} (P : Monitor → Type ℓ) : Type ℓ where
  pub drops : (fd : ℕ) (m : Monitor) → P m → P (without fd m)
  pub takes : (fd : ℕ) (m : Monitor) → P m → P (connect m fd).0
  pub stops : (m : Monitor) → P m → P (record m { running = false })
  pub closes : (m : Monitor) → P m → P (record m { running = false; master = none })

pub count-le_one : (fd : ℕ) (m : ClientMap) → count fd m ≤ 1
unfolding count
count-le_one fd [] = omega arith
count-le_one fd ((k, v) ∷ m) = ground (arith, count-le_one fd m)

pub either {ℓ κ} :
    {A : Type ℓ} (Q : A → Type κ) (b : Bool) {x y : A} → Q x → Q y → Q (if b then x else y)
either Q true hx hy = hx
either Q false hx hy = hy

-- How the loop ends, or goes on.
pub main_loop-nil :
    (m : Monitor) (r : Outcome) → main_loop [] m ≡ some r → (m.running ≡ false) × (r ≡ (m, []))
unfolding main_loop
main_loop-nil m r h = ground arith

pub main_loop-cons :
    (e : Event) (es : List Event) (m : Monitor) (r : Outcome)
    → main_loop (e ∷ es) m ≡ some r
    → ((m.running ≡ false) × (r ≡ (m, [])))
      ⊎ ((m.running ≡ true)
          × (q : Outcome) × (main_loop es (happen m e).0 ≡ some q)
          × (r ≡ (q.0, (happen m e).1 ++ q.1)))
unfolding main_loop
main_loop-cons e es m r h = elim (Option-cases (main_loop es (happen m e).0)) [
  | inl stuck ↦ inl (ground arith)
  | inr (q, ends) ↦ elim (Bool-cases m.running) [
    | inl on ↦ inr (on, q, ends, ground arith)
    | inr off ↦ inl (ground arith)
  ]
]

module _ {ℓ} (P : Monitor → Type ℓ) (kept : Kept P) where
  pub attend_one_keeps :
      (fd : ℕ) (fds : List ℕ) (received : ℕ → Received) (m : Monitor)
      → P m
      → P (attend_one fd fds received m).0
  unfolding attend_one
  attend_one_keeps fd fds received m h =
      elim (Bool-cases (is_set fd fds && not (count fd m.client_fds == 0))) [
        | inl go ↦ rw go (
            handle_keeps P m fd (received fd) (ground (arith, count-le_one fd m.client_fds)) h
              (kept.drops fd m h))
        | inr no_go ↦ rw no_go h
      ]

  pub attend_keeps :
      (todo fds : List ℕ) (received : ℕ → Received) (m : Monitor)
      → P m
      → P (attend todo fds received m).0
  unfolding attend
  attend_keeps [] fds received m h = h
  attend_keeps (fd ∷ rest) fds received m h =
      attend_keeps rest fds received (attend_one fd fds received m).0
        (attend_one_keeps fd fds received m h)

  pub greet_keeps :
      (a : Accepted) (fds : List ℕ) (received : ℕ → Received) (m : Monitor)
      → P m
      → P (greet a fds received m).0
  unfolding greet
  greet_keeps (connected fd) fds received m h =
      attend_keeps (keys (connect m fd).0.client_fds) fds received (connect m fd).0
        (kept.takes fd m h)
  greet_keeps accept_interrupted fds received m h = h
  greet_keeps accept_failed fds received m h = attend_keeps (keys m.client_fds) fds received m h

  service_keeps : (m : Monitor) (fds : List ℕ) (i : Input) → P m → P (service m fds i).0
  unfolding service
  service_keeps m fds i h =
      either (λ (q : Outcome). P q.0) (master_set m fds) (greet_keeps i.accepted fds i.received m h)
        (attend_keeps (keys m.client_fds) fds i.received m h)

  round_keeps :
      (m : Monitor) (a : Activity) (i : Input) → P m → P (round m (record i { activity = a })).0
  unfolding round
  round_keeps m (ready fds) i h = service_keeps m fds (record i { activity = ready fds }) h
  round_keeps m select_interrupted i h = h
  round_keeps m select_failed i h =
      service_keeps (record m { running = false }) (watched m)
        (record i { activity = select_failed }) (kept.stops m h)

  pub happen_keeps : (m : Monitor) (e : Event) → P m → P (happen m e).0
  unfolding happen sig_handler
  happen_keeps m sigint h = kept.closes m h
  happen_keeps m (turn i) h = round_keeps m i.activity i h

  pub main_loop_keeps :
      (es : List Event) (m : Monitor) (r : Outcome) → main_loop es m ≡ some r → P m → P r.0
  main_loop_keeps [] m r e h = subst (λ q. P q.0) (sym (main_loop-nil m r e).1) h
  main_loop_keeps (x ∷ es) m r e h = elim (main_loop-cons x es m r e) [
    | inl (off, same) ↦ subst (λ q. P q.0) (sym same) h
    | inr (on, q, ends, is) ↦
        subst (λ q. P q.0) (sym is) (main_loop_keeps es (happen m x).0 q ends (happen_keeps m x h))
  ]
