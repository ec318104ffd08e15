-- ===== src/LocalSession/Splitting.antt =====
-- Lab6: a read that takes a part of a command.
use unx.Prelude.{
  ℕ, zero, suc, ◌<◌, true, false, List, [], ◌∷◌, leb, ◌≡◌, refl, sym, arith, All, take,
}
use mathlib.Core.Path.{subst}
use unx.Prelude.Bytes.{Bytes, codes, bytes_eq}
use unx.ProcStatus.{drop}
use unx.LocalSession.{
  reads_done, ClientPc, reads, handles, stopped, Session, Amount, all, first, taken, left, listens,
  obeys, receives, server, client, Move, by_server, by_client, move, moves,
}
use unx.LocalSession.Phases.{session, ordered}

-- No command.
record IsNoise (c : Bytes) : Type 0 where
  pub no_pid : bytes_eq c (codes "Pid") ≡ false
  pub no_sleep : bytes_eq c (codes "Sleep") ≡ false
  pub no_quit : bytes_eq c (codes "Quit") ≡ false

abbrev IsLower : Bytes → Type 0
IsLower s = All (λ c. leb 97 c ≡ true) s

lower-IsNoise : (c : Bytes) → IsLower c → IsNoise c
unfolding bytes_eq
lower-IsNoise [] h = record { no_pid = refl; no_sleep = refl; no_quit = refl }
lower-IsNoise (c ∷ cs) h = record {
  no_pid = ground (arith, h.0);
  no_sleep = ground (arith, h.0);
  no_quit = ground (arith, h.0);
}

take-IsLower : (n : ℕ) (s : Bytes) → IsLower s → IsLower (take n s)
take-IsLower zero s h = tt
take-IsLower (suc n) [] h = tt
take-IsLower (suc n) (c ∷ s) h = (h.0, take-IsLower n s h.1)

drop-IsLower : (n : ℕ) (s : Bytes) → IsLower s → IsLower (drop n s)
unfolding drop
drop-IsLower zero s h = h
drop-IsLower (suc n) [] h = tt
drop-IsLower (suc n) (c ∷ s) h = drop-IsLower n s h.1

taken-IsLower : (n : Amount) (s : Bytes) → IsLower s → IsLower (taken n s)
unfolding taken
taken-IsLower all s h = h
taken-IsLower (first n) s h = take-IsLower n s h

left-IsLower : (n : Amount) (s : Bytes) → IsLower s → IsLower (left n s)
unfolding left
left-IsLower all s h = tt
left-IsLower (first n) s h = drop-IsLower n s h

-- Where the client is: it reads, or has no command to obey.
abbrev Hears : ClientPc → Type 0
Hears reads = Unit
Hears (handles c) = IsNoise c
Hears stopped = true ≡ false

-- The server waits for "Done", and what is under way to the client has no command.
record IsLost (s : Session) : Type 0 where
  pub waits : s.server_pc ≡ reads_done
  pub nothing : s.to_server ≡ []
  pub lower : IsLower s.to_client
  pub hears : Hears s.client_pc

listens-IsLost :
    (n : Amount) (b : Bytes) (s : Session)
    → s.to_client ≡ b
    → IsLost s
    → IsLost (listens reads_done n b s)
unfolding listens
listens-IsLost n [] s e h = h
listens-IsLost n (c ∷ cs) s e h =
    let lower = subst IsLower e h.lower in
    record {
      waits = h.waits;
      nothing = h.nothing;
      lower = left-IsLower n (c ∷ cs) lower;
      hears = lower-IsNoise (taken n (c ∷ cs)) (taken-IsLower n (c ∷ cs) lower);
    }

obeys-reads :
    (pid : ℕ) (c : Bytes) (s : Session) → IsNoise c → obeys pid c s ≡ record s { client_pc = reads }
unfolding obeys
obeys-reads pid c s h = rw (h.no_pid, h.no_sleep, h.no_quit) refl

client-IsLost :
    (pid : ℕ) (pc : ClientPc) (n : Amount) (s : Session)
    → s.client_pc ≡ pc
    → IsLost s
    → IsLost (client pid pc n s)
unfolding client
client-IsLost pid reads n s e h =
    subst (λ q. IsLost (listens q n s.to_client s)) (sym h.waits)
      (listens-IsLost n s.to_client s refl h)
client-IsLost pid (handles c) n s e h =
    subst IsLost (sym (obeys-reads pid c s (subst Hears e h.hears)))
      (record { waits = h.waits; nothing = h.nothing; lower = h.lower; hears = tt })
client-IsLost pid stopped n s e h = h

receives-IsLost : (n : Amount) (s : Session) → IsLost s → server reads_done n s ≡ s
unfolding server receives
receives-IsLost n s h = rw h.nothing refl

move-IsLost : (pid : ℕ) (m : Move) (s : Session) → IsLost s → IsLost (move pid m s)
unfolding move
move-IsLost pid (by_server n) s h =
    subst (λ q. IsLost (server q n s)) (sym h.waits) (subst IsLost (sym (receives-IsLost n s h)) h)
move-IsLost pid (by_client n) s h = client-IsLost pid s.client_pc n s refl h

moves-IsLost : (pid : ℕ) (ms : List Move) (s : Session) → IsLost s → IsLost (moves pid ms s)
unfolding moves
moves-IsLost pid [] s h = h
moves-IsLost pid (m ∷ ms) s h = moves-IsLost pid ms (move pid m s) (move-IsLost pid m s h)

split-IsLost :
    (pid k : ℕ) → k < 4 → IsLost (move pid (by_client (first (suc k))) (session pid ordered))
unfolding move client listens taken left drop session bytes_eq
split-IsLost pid zero h = record {
  waits = refl;
  nothing = refl;
  lower = ground arith;
  hears = record { no_pid = refl; no_sleep = refl; no_quit = refl };
}
split-IsLost pid (suc zero) h = record {
  waits = refl;
  nothing = refl;
  lower = ground arith;
  hears = record { no_pid = refl; no_sleep = refl; no_quit = refl };
}
split-IsLost pid (suc (suc zero)) h = record {
  waits = refl;
  nothing = refl;
  lower = ground arith;
  hears = record { no_pid = refl; no_sleep = refl; no_quit = refl };
}
split-IsLost pid (suc (suc (suc zero))) h = record {
  waits = refl;
  nothing = refl;
  lower = ground arith;
  hears = record { no_pid = refl; no_sleep = refl; no_quit = refl };
}
split-IsLost pid (suc (suc (suc (suc k)))) h = absurd (omega (arith, h))

-- Where a read of the client takes only the first one to four bytes of "Sleep", the server of Lab6 waits for
-- "Done" for ever, whatever moves come after it.
pub moves-split :
    (pid k : ℕ) (ms : List Move)
    → k < 4
    → (moves pid (by_client (first (suc k)) ∷ ms) (session pid ordered)).server_pc ≡ reads_done
unfolding moves
moves-split pid k ms h =
    (moves-IsLost pid ms (move pid (by_client (first (suc k))) (session pid ordered))
      (split-IsLost pid k h)).waits
