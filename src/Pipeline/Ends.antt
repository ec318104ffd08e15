-- ===== src/Pipeline/Ends.antt =====
-- Lab7: the ends of the pipe in the two processes.
use unx.Prelude.{ℕ, ◌≤◌, none, some, ◌≡◌, ◌≢◌, arith, ◌⊎◌}
use unx.Pipeline.{Table, read_end, write_end, pipe, child, parent}

-- After `pipe` gave descriptors above the standard ones, the child holds the write end as its output
-- and no other end, the parent the read end as its input and no other end, and each of the other
-- descriptors is as it was.
pub ends_joined :
    (r w : ℕ) (t : Table)
    → 3 ≤ r
    → 3 ≤ w
    → r ≢ w
    → (child r w (pipe r w t) 1 ≡ some write_end)
      × (parent r w (pipe r w t) 0 ≡ some read_end)
      × ((x : ℕ)
          → x ≡ r ⊎ x ≡ w
          → (child r w (pipe r w t) x ≡ none) × (parent r w (pipe r w t) x ≡ none))
      × ((x : ℕ)
          → x ≢ r
          → x ≢ w
          → (x ≢ 1 → child r w (pipe r w t) x ≡ t x) × (x ≢ 0 → parent r w (pipe r w t) x ≡ t x))
unfolding child parent
ends_joined r w t hr hw differ =
    (ground arith, ground arith, λ x h. ground arith, λ x h k. ground arith)
