-- ===== src/ShmClients/Invariant/Writes.antt =====
-- What a step of one of Lab10's clients writes to the segment.
use unx.Prelude.{ℕ, ◌+◌, ◌≤◌, ◌≡◌, ◌≢◌, true, false, some, arith, ◌⊎◌}
use unx.Prelude.Bytes.{Bytes}
use unx.ShmClients.{
  Memory, World, Pc, open_mutex, Local, Event, proceed, failing, interrupt, breaks_wait, Shared,
  join, client3, next_dest1, next_dest2, next_dest3, reply_src, reply_dest, reply_message,
  packet_text,
}
use unx.ShmClients.Invariant.Mutex.{inside}
use unx.ShmClients.Invariant.Order.{begun}

-- A text that client `n` writes.
pub data IsPacket (n : ℕ) (t : Bytes) : Type 0 where
  packet : (k : ℕ) → t ≡ packet_text k n → IsPacket n t

-- A whole packet: from one client to another, with the text of its sender.
pub record Settled (m : Memory) : Type 0 where
  pub from : (1 ≤ m.src_client_no) × (m.src_client_no ≤ 3)
  pub to : (1 ≤ m.dest_client_no) × (m.dest_client_no ≤ 3)
  pub apart : m.src_client_no ≢ m.dest_client_no
  pub text : IsPacket m.src_client_no m.message

-- 1 while a reply is partly written.
abbrev pub mid : Pc → ℕ
mid (reply_dest i) = 1
mid (reply_message i) = 1
mid _ = 0

-- What client `n` has written so far.
abbrev pub Partial : ℕ → (ℕ → ℕ) → Pc → Memory → Type 0
Partial n d (reply_src i) m = m.dest_client_no ≡ n
Partial n d (reply_dest i) m = (m.src_client_no ≡ n) × (m.dest_client_no ≡ n)
Partial n d (reply_message i) m = (m.src_client_no ≡ n) × (m.dest_client_no ≡ d i)
Partial n d _ m = Unit {0}

pub record Tidy (w : World) : Type 0 where
  pub at1 : Partial 1 next_dest1 w.p1.pc w.shared.memory
  pub at2 : Partial 2 next_dest2 w.p2.pc w.shared.memory
  pub at3 : Partial 3 next_dest3 w.p3.pc w.shared.memory
  pub settled :
      begun w.p3.pc ≡ true → mid w.p1.pc + mid w.p2.pc + mid w.p3.pc ≡ 0 → Settled w.shared.memory

-- The destinations of client `n` are the other clients.
abbrev pub Alternates : ℕ → (ℕ → ℕ) → Type 0
Alternates n d = (i : ℕ) → (1 ≤ d i) × (d i ≤ 3) × (n ≢ d i)

pub next_dest1-Alternates : Alternates 1 next_dest1
unfolding next_dest1
next_dest1-Alternates i = omega arith

pub next_dest2-Alternates : Alternates 2 next_dest2
unfolding next_dest2
next_dest2-Alternates i = omega arith

pub next_dest3-Alternates : Alternates 3 next_dest3
unfolding next_dest3
next_dest3-Alternates i = omega arith

-- The last write of a reply.
abbrev pub Finishes : ℕ → Pc → Memory → Memory → Type 0
Finishes n (reply_message i) m m' = m' ≡ record m { message = packet_text (i + 1) n }
Finishes n _ m m' = ⊥

-- What a step of a client in its loop does to the memory.
pub record Writes (n : ℕ) (d : ℕ → ℕ) (p p' : Pc) (m m' : Memory) : Type 0 where
  pub alone : inside p ≡ 0 → m' ≡ m
  pub partial : Partial n d p m → Partial n d p' m'
  pub whole : mid p' ≡ 0 → ((mid p ≡ 0) × (m' ≡ m)) ⊎ Finishes n p m m'

pub join-Writes :
    (n : ℕ) (d : ℕ → ℕ) (p : Pc) (e : Event) (s : Shared) (l : Local) (r : Shared × Local)
    → l.pc ≡ p
    → breaks_wait p e ≡ false
    → join n d p e s l ≡ some r
    → Writes n d p r.1.pc s.memory r.0.memory
unfolding join
join-Writes n d (open_mutex k) proceed s l r at calm st = ground arith
join-Writes n d _ proceed s l r at calm st = ground arith
join-Writes n d _ failing s l r at calm st = ground arith
join-Writes n d _ interrupt s l r at calm st = ground arith

pub client3-Writes :
    (p : Pc) (e : Event) (s : Shared) (l : Local) (r : Shared × Local)
    → l.pc ≡ p
    → breaks_wait p e ≡ false
    → client3 p e s l ≡ some r
    → begun p ≡ true
    → Writes 3 next_dest3 p r.1.pc s.memory r.0.memory
unfolding client3
client3-Writes (open_mutex k) proceed s l r at calm st b = ground arith
client3-Writes _ proceed s l r at calm st b = ground arith
client3-Writes _ failing s l r at calm st b = ground arith
client3-Writes _ interrupt s l r at calm st b = ground arith

-- Before client 3 has begun, its only write is the first packet.
pub client3-starts :
    (p : Pc) (e : Event) (s : Shared) (l : Local) (r : Shared × Local)
    → l.pc ≡ p
    → breaks_wait p e ≡ false
    → client3 p e s l ≡ some r
    → begun p ≡ false
    → (Partial 3 next_dest3 r.1.pc r.0.memory)
      × (begun r.1.pc ≡ true
          → r.0.memory
            ≡ record s.memory { src_client_no = 3; dest_client_no = 1; message = packet_text 0 3 })
unfolding client3
client3-starts (open_mutex k) proceed s l r at calm st b = ground arith
client3-starts _ proceed s l r at calm st b = ground arith
client3-starts _ failing s l r at calm st b = ground arith
client3-starts _ interrupt s l r at calm st b = ground arith
