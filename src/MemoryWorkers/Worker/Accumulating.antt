-- ===== src/MemoryWorkers/Worker/Accumulating.antt =====
-- Assignment1, parts 2 and 3: the copies into the second allocation stay inside it.
use unx.Prelude.{ℕ, ◌+◌, ◌≤◌, Option, none, some, List, [], ◌∷◌, ◌≡◌, arith, ◌⊎◌}
use unx.Prelude.Bytes.{Bytes}
use unx.MemoryWorkers.{Effect}
use unx.MemoryWorkers.Worker.{
  Watch, look, Chunk, accumulate, Ended, reads_all, fails, preceded, read_loop, file_data_capacity,
}

-- The offset of a loop that reached the end of the file.
abbrev pub Within : Ended → Type 0
Within (reads_all w es) = w.offset ≤ file_data_capacity
Within (fails es) = Unit

-- A copy is made at the offset where it fits, and is left out where it does not.
pub accumulate-fits :
    (n : ℕ) (w : Watch)
    → w.offset ≤ file_data_capacity
    → ((accumulate n w).offset ≤ file_data_capacity)
      × (((accumulate n w).offset ≡ w.offset + n) ⊎ ((accumulate n w).offset ≡ w.offset))
unfolding accumulate
accumulate-fits n w h = ground arith

look-offset : (lines : List Bytes) (w : Watch) → (look lines w).0.offset ≡ w.offset
unfolding look
look-offset lines w = ground arith

preceded-Within : (es : List Effect) (r : Ended) → Within r → Within (preceded es r)
unfolding preceded
preceded-Within es (reads_all w fs) h = h
preceded-Within es (fails fs) h = h

-- Whatever is read, the offset never passes the 60 MB that were allocated.
pub read_loop-Within :
    (cs : List Chunk) (w : Watch) → w.offset ≤ file_data_capacity → Within (read_loop cs w)
unfolding read_loop
read_loop-Within [] w h = h
read_loop-Within (c ∷ cs) w h = go c.status (read_loop-Within cs)
  where
    go :
        (o : Option (List Bytes))
        → ((v : Watch) → v.offset ≤ file_data_capacity → Within (read_loop cs v))
        → Within (elim o as (λ x. Ended) [
          | none ↦ fails []
          | some lines ↦
              let l = look lines (accumulate c.bytes_read w) in preceded l.1 (read_loop cs l.0)
        ])
    go none later = tt
    go (some lines) later =
        let v = accumulate c.bytes_read w in
        preceded-Within (look lines v).1 _ (
          later (look lines v).0
            (omega (arith, look-offset lines v, accumulate-fits c.bytes_read w h)))
