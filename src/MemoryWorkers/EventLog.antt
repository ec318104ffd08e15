-- ===== src/MemoryWorkers/EventLog.antt =====
-- Assignment1/Part4/dhsb_logger.c: `dhsb_log_event` as the calls that it makes.
use unx.Prelude.{
  ℕ, Bool, true, false, not, ◌&&◌, Option, none, some, List, [], ◌∷◌, ◌==◌, ◌≡◌, refl,
  if◌then◌else◌, arith,
}
use unx.Prelude.Bytes.{Bytes}

-- On the log file; a descriptor stands where the call has one.
pub data Call : Type 0 where
  opens : Option ℕ → Call
  locks : ℕ → Bool → Call
  writes : ℕ → Bytes → Call
  unlocks closes : ℕ → Call

-- What `open` gives, and whether the lock is given; the results of the other calls are not looked at.
unfoldable pub dhsb_log_event : Option ℕ → Bool → Bytes → List Call
dhsb_log_event none locked message = opens none ∷ []
dhsb_log_event (some fd) false message = opens (some fd) ∷ locks fd false ∷ closes fd ∷ []
dhsb_log_event (some fd) true message =
    opens (some fd) ∷ locks fd true ∷ writes fd message ∷ unlocks fd ∷ closes fd ∷ []

-- The descriptor that is open, and whether it holds the lock; a call that does not fit gives no state.
abbrev State : Type 0
State = Option ℕ × Bool

abbrev holds : ℕ → Option ℕ → Bool
holds fd none = false
holds fd (some other) = fd == other

unfoldable after : Call → State → Option State
after (opens o) (none, locked) = some (o, locked)
after (opens o) (some fd, locked) = none
after (locks fd given) (o, locked) = if holds fd o && not locked then some (o, given) else none
after (writes fd message) (o, locked) = if holds fd o && locked then some (o, locked) else none
after (unlocks fd) (o, locked) = if holds fd o && locked then some (o, false) else none
after (closes fd) (o, locked) = if holds fd o && not locked then some (none, locked) else none

abbrev next : Option State → (State → Option State) → Option State
next none k = none
next (some s) k = k s

unfoldable pub goes_through : List Call → State → Option State
unfolding after
goes_through [] s = some s
goes_through (c ∷ cs) s = next (after c s) (goes_through cs)

same : (fd : ℕ) → (fd == fd) ≡ true
same fd = ground arith

-- Whatever its calls give, it writes only under the lock and to the file that it opened, and leaves no descriptor open
-- and no lock behind.
pub dhsb_log_event-balanced :
    (o : Option ℕ) (locked : Bool) (message : Bytes)
    → goes_through (dhsb_log_event o locked message) (none, false) ≡ some (none, false)
unfolding goes_through dhsb_log_event
dhsb_log_event-balanced none locked message = refl
dhsb_log_event-balanced (some fd) false message = ground (arith, same fd)
dhsb_log_event-balanced (some fd) true message = ground (arith, same fd)
