-- ===== src/InterfaceMonitor/Session.antt =====
-- What Assignment2's intfMonitor says to its parent, in order, over a whole run.
use unx.Prelude.{
  ℕ, suc, ◌≡◌, refl, Bool, true, false, none, some, List, [], ◌∷◌, ◌++◌, arith, inl, inr,
  Bool-cases, Option-cases, replicate, ◌∙◌, if◌then◌else◌,
}
use unx.Prelude.Bytes.{Bytes, bytes_eq, c_string}
use unx.NetworkMonitor.Protocol.{
  Received, got, ready_text, monitor_text, monitoring_text, link_down_text, done_text,
}
use unx.InterfaceMonitor.Messages.{sent, sent-append, reads_down, Keeps, iteration-Keeps}
use unx.InterfaceMonitor.{
  Intf, Effect, Outcome, Event, sigint, tick, send_message, receive_message, heard, handshake,
  iteration, sig_handler, happen, main_loop, farewell, starting, main,
}

-- The rounds of the loop that find the link down, up to its end.
pub downs : List Event → Intf → ℕ
downs [] p = 0
downs (sigint ∷ es) p = 0
downs (tick t ∷ es) p =
    let rest = downs es (iteration p t).0 in
    if p.running then (if reads_down p t then suc rest else rest) else 0

main_loop-stopped : (es : List Event) (p : Intf) → p.running ≡ false → main_loop es p ≡ some (p, [])
unfolding main_loop
main_loop-stopped [] p off = ground arith
main_loop-stopped (e ∷ es) p off = ground arith

main_loop-running :
    (e : Event) (es : List Event) (p : Intf) (r : Outcome)
    → p.running ≡ true
    → main_loop (e ∷ es) p ≡ some r
    → (q : Outcome) × (main_loop es (happen p e).0 ≡ some q) × (r ≡ (q.0, (happen p e).1 ++ q.1))
unfolding main_loop
main_loop-running e es p r on h = elim (Option-cases (main_loop es (happen p e).0)) [
  | inl stuck ↦ absurd (ground arith)
  | inr (q, ends) ↦ (q, ends, ground arith)
]

main_loop-nil : (p : Intf) (r : Outcome) → main_loop [] p ≡ some r → r ≡ (p, [])
unfolding main_loop
main_loop-nil p r h = ground arith

downs-stopped : (es : List Event) (p : Intf) → p.running ≡ false → downs es p ≡ 0
unfolding downs
downs-stopped [] p off = refl
downs-stopped (sigint ∷ es) p off = refl
downs-stopped (tick t ∷ es) p off = ground arith

-- One event, and what the rest of the loop says.
sent-happen :
    (e : Event) (es : List Event) (p : Intf) (q : Outcome) (fd : ℕ)
    → p.client_socket_fd ≡ some fd
    → p.running ≡ true
    → main_loop es (happen p e).0 ≡ some q
    → (sent q.1 ≡ replicate (downs es (happen p e).0) link_down_text) × Keeps (happen p e).0 q.0
    → (sent ((happen p e).1 ++ q.1) ≡ replicate (downs (e ∷ es) p) link_down_text) × Keeps p q.0
unfolding downs happen sig_handler
sent-happen sigint es p q fd is on ends ih =
    ground (arith, downs-stopped es (record p { running = false }) refl)
sent-happen (tick t) es p q fd is on ends ih =
    ground (arith, iteration-Keeps p t fd is, sent-append (iteration p t).1 q.1)

happen-open :
    (e : Event) (p : Intf) (fd : ℕ)
    → p.client_socket_fd ≡ some fd
    → (happen p e).0.client_socket_fd ≡ some fd
unfolding happen sig_handler
happen-open sigint p fd is = is
happen-open (tick t) p fd is = (iteration-Keeps p t fd is).1.0 ∙ is

main_loop-sent :
    (es : List Event) (p : Intf) (r : Outcome) (fd : ℕ)
    → p.client_socket_fd ≡ some fd
    → main_loop es p ≡ some r
    → (sent r.1 ≡ replicate (downs es p) link_down_text) × Keeps p r.0
unfolding downs sent
main_loop-sent [] p r fd is h = ground (arith, main_loop-nil p r h)
main_loop-sent (e ∷ es) p r fd is h = elim (Bool-cases p.running) [
  | inr off ↦ ground (arith, main_loop-stopped (e ∷ es) p off, downs-stopped (e ∷ es) p off)
  | inl on ↦
      let (q, ends, is_q) = main_loop-running e es p r on h in
      rw is_q (
        sent-happen e es p q fd is on ends
          (main_loop-sent es (happen p e).0 q fd (happen-open e p fd is) ends))
]

-- The answer to "Ready" is "Monitor".
abbrev pub welcomes : Received → Bool
welcomes (got b bs) = bytes_eq (c_string (b ∷ bs)) monitor_text
welcomes _ = false

handshake-sent :
    (name : Bytes) (fd : ℕ) (first : Received)
    → (sent (handshake (starting name fd) first).1
        ≡ ready_text ∷ (if welcomes first then monitoring_text ∷ [] else []))
      × Keeps (starting name fd) (handshake (starting name fd) first).0
unfolding handshake receive_message heard send_message sent bytes_eq
handshake-sent name fd (got b bs) = ground arith
handshake-sent name fd _ = ground arith

farewell-sent :
    (p : Intf) (fd : ℕ) → p.client_socket_fd ≡ some fd → sent (farewell p) ≡ done_text ∷ []
unfolding farewell send_message sent
farewell-sent p fd is = ground arith

-- The whole conversation of a run that connects and returns: the first message is "Ready";
-- "Monitoring" follows if the answer was "Monitor"; then there is one "Link Down" for each round of
-- the loop that read the link to be down; the last message is "Done". The exit status is 0.
pub main-sent :
    (name : Bytes) (fd : ℕ) (first : Received) (events : List Event) (r : ℕ × List Effect)
    → main (some name) (some fd) true first events ≡ some r
    → (r.0 ≡ 0)
      × (sent r.1
          ≡ ready_text
            ∷ ((if welcomes first then monitoring_text ∷ [] else [])
                ++ (replicate (downs events (handshake (starting name fd) first).0) link_down_text
                    ++ done_text ∷ [])))
unfolding main
main-sent name fd first events r h =
    let greeted = handshake (starting name fd) first in
    let (said, kept) = handshake-sent name fd first in
    elim (Option-cases (main_loop events greeted.0)) [
      | inl on ↦ let no : none ≡ some r = rw (on, main) at h in absurd (ground arith)
      | inr (q, ends) ↦
          let is : some (0, greeted.1 ++ (q.1 ++ farewell q.0)) ≡ some r = rw (ends, main) at h in
          ground (
            arith,
            said,
            main_loop-sent events greeted.0 q fd kept.0 ends,
            farewell-sent q.0 fd,
            sent-append greeted.1 (q.1 ++ farewell q.0),
            sent-append q.1 (farewell q.0),
          )
    ]
