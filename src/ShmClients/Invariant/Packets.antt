-- ===== src/ShmClients/Invariant/Packets.antt =====
-- What Lab10's segment holds: a whole packet, but for the client that is writing a reply.
use unx.Prelude.{
  ℕ, ◌+◌, ◌≤◌, ◌≡◌, refl, true, false, some, arith, zero, suc, Bool-cases, ◌⊎◌, inl, inr,
}
use unx.ShmClients.{
  Memory, World, Pc, open_mutex, Local, Event, Client, one, two, three, local, step, breaks_wait,
  Shared, client1, client2, client3, next_dest1, next_dest2, next_dest3, reply_message, packet_text,
}
use unx.ShmClients.Invariant.Writes.{
  packet, Settled, Tidy, mid, Partial, Alternates, next_dest1-Alternates, next_dest2-Alternates,
  next_dest3-Alternates, Finishes, Writes, join-Writes, client3-Writes, client3-starts,
}
use unx.ShmClients.Invariant.Mutex.{inside, Locked, after-eq-some}
use unx.ShmClients.Invariant.Order.{begun, past_wait, Ordered}

-- A client outside its critical section, or memory left alone.
Partial-keeps :
    (n : ℕ) (d : ℕ → ℕ) (p : Pc) (m m' : Memory)
    → (inside p ≡ 0) ⊎ (m' ≡ m)
    → Partial n d p m
    → Partial n d p m'
Partial-keeps n d (open_mutex k) m m' h a = tt
Partial-keeps n d _ m m' h a = ground arith

module _ (n : ℕ) (d : ℕ → ℕ) (alt : Alternates n d) (range : (1 ≤ n) × (n ≤ 3)) where
  Settled-Finishes : (p : Pc) (m m' : Memory) → Finishes n p m m' → Partial n d p m → Settled m'
  Settled-Finishes (reply_message i) m m' f h = rw f (record {
    from = omega arith;
    to = omega (arith, alt i);
    apart = omega (arith, alt i);
    text = packet (i + 1) (ground arith);
  })
  Settled-Finishes _ m m' f h = absurd f

  Settled-step :
      {p p' : Pc} {m m' : Memory}
      → Writes n d p p' m m'
      → Partial n d p m
      → (mid p ≡ 0 → Settled m)
      → mid p' ≡ 0
      → Settled m'
  Settled-step {p} {m = m} {m' = m'} w h old z = elim (w.whole z) [
    | inl (still, same) ↦ rw same (old still)
    | inr f ↦ Settled-Finishes p m m' f h
  ]

Settled-first :
    (m : Memory)
    → Settled (record m { src_client_no = 3; dest_client_no = 1; message = packet_text 0 3 })
Settled-first m = record {
  from = omega arith;
  to = omega arith;
  apart = λ e. omega arith;
  text = packet 0 refl;
}

-- A write is the act of a client inside, and at most one is.
frame : {m m' : Memory} (a b : ℕ) → a + b ≤ 1 → (a ≡ 0 → m' ≡ m) → (b ≡ 0) ⊎ (m' ≡ m)
frame zero b h f = inr (f refl)
frame (suc a) b h f = inl (omega arith)

module _ (w : World) (locked : Locked w) (ordered : Ordered w) (tidy : Tidy w) where
  one_inside : inside w.p1.pc + inside w.p2.pc + inside w.p3.pc ≤ 1
  one_inside = ground (arith, locked.permits)

  module _ (s : Shared) (l : Local) where
    Tidy1 :
        Writes 1 next_dest1 w.p1.pc l.pc w.shared.memory s.memory
        → Tidy (record w { shared = s; p1 = l })
    Tidy1 wr = record {
      at1 = wr.partial tidy.at1;
      at2 =
          Partial-keeps 2 next_dest2 w.p2.pc _ _
            (frame (inside w.p1.pc) _ (omega (arith, one_inside)) wr.alone) tidy.at2;
      at3 =
          Partial-keeps 3 next_dest3 w.p3.pc _ _
            (frame (inside w.p1.pc) _ (omega (arith, one_inside)) wr.alone) tidy.at3;
      settled = λ b z.
          Settled-step 1 next_dest1 next_dest1-Alternates (omega arith) wr tidy.at1
            (λ still. tidy.settled b (omega arith)) (omega arith);
    }

    Tidy2 :
        Writes 2 next_dest2 w.p2.pc l.pc w.shared.memory s.memory
        → Tidy (record w { shared = s; p2 = l })
    Tidy2 wr = record {
      at1 =
          Partial-keeps 1 next_dest1 w.p1.pc _ _
            (frame (inside w.p2.pc) _ (omega (arith, one_inside)) wr.alone) tidy.at1;
      at2 = wr.partial tidy.at2;
      at3 =
          Partial-keeps 3 next_dest3 w.p3.pc _ _
            (frame (inside w.p2.pc) _ (omega (arith, one_inside)) wr.alone) tidy.at3;
      settled = λ b z.
          Settled-step 2 next_dest2 next_dest2-Alternates (omega arith) wr tidy.at2
            (λ still. tidy.settled b (omega arith)) (omega arith);
    }

    Tidy3 :
        begun w.p3.pc ≡ true
        → Writes 3 next_dest3 w.p3.pc l.pc w.shared.memory s.memory
        → Tidy (record w { shared = s; p3 = l })
    Tidy3 b wr = record {
      at1 =
          Partial-keeps 1 next_dest1 w.p1.pc _ _
            (frame (inside w.p3.pc) _ (omega (arith, one_inside)) wr.alone) tidy.at1;
      at2 =
          Partial-keeps 2 next_dest2 w.p2.pc _ _
            (frame (inside w.p3.pc) _ (omega (arith, one_inside)) wr.alone) tidy.at2;
      at3 = wr.partial tidy.at3;
      settled = λ _ z.
          Settled-step 3 next_dest3 next_dest3-Alternates (omega arith) wr tidy.at3
            (λ still. tidy.settled b (omega arith)) (omega arith);
    }

    -- Nobody else is inside before client 3 has begun.
    Tidy3_first :
        begun w.p3.pc ≡ false
        → Partial 3 next_dest3 l.pc s.memory
        → (begun l.pc ≡ true
            → s.memory ≡ record w.shared.memory {
              src_client_no = 3;
              dest_client_no = 1;
              message = packet_text 0 3;
            })
        → Tidy (record w { shared = s; p3 = l })
    Tidy3_first b at first = record {
      at1 = Partial-keeps 1 next_dest1 w.p1.pc _ _ (inl (waiting w.p1.pc ordered.waited1)) tidy.at1;
      at2 = Partial-keeps 2 next_dest2 w.p2.pc _ _ (inl (waiting w.p2.pc ordered.waited2)) tidy.at2;
      at3 = at;
      settled = λ now z. rw (first now) (Settled-first w.shared.memory);
    }
      where
        waiting : (p : Pc) → (past_wait p ≡ true → begun w.p3.pc ≡ true) → inside p ≡ 0
        waiting (open_mutex k) h = refl
        waiting _ h = ground arith

-- A calm step keeps the packets whole.
pub step-Tidy :
    (w w' : World) (c : Client) (e : Event)
    → breaks_wait (local w c).pc e ≡ false
    → step w c e ≡ some w'
    → Locked w
    → Ordered w
    → Tidy w
    → Tidy w'
unfolding step client1 client2
step-Tidy w w' one e calm st lk od v =
    let (r, made, is) = after-eq-some (client1 w.p1.pc e w.shared w.p1) _ st in
    rw is
      (Tidy1 w lk od v r.0 r.1 (join-Writes 1 next_dest1 w.p1.pc e w.shared w.p1 r refl calm made))
step-Tidy w w' two e calm st lk od v =
    let (r, made, is) = after-eq-some (client2 w.p2.pc e w.shared w.p2) _ st in
    rw is
      (Tidy2 w lk od v r.0 r.1 (join-Writes 2 next_dest2 w.p2.pc e w.shared w.p2 r refl calm made))
step-Tidy w w' three e calm st lk od v =
    let (r, made, is) = after-eq-some (client3 w.p3.pc e w.shared w.p3) _ st in
    elim (Bool-cases (begun w.p3.pc)) [
      | inl b ↦
          rw is
            (Tidy3 w lk od v r.0 r.1 b (client3-Writes w.p3.pc e w.shared w.p3 r refl calm made b))
      | inr b ↦
          let (at, first) = client3-starts w.p3.pc e w.shared w.p3 r refl calm made b in
          rw is (Tidy3_first w lk od v r.0 r.1 b at first)
    ]
