-- ===== src/MemoryWorkers/Counting/Asleep.antt =====
-- Assignment1/Part3/test_worker_main.c: the parent that is in pause when the last signal has been handled.
use unx.Prelude.{false, [], ◌≡◌}
use unx.MemoryWorkers.Counting.{in_pause, Parent}

-- In pause, with no handler running and no signal pending.
pub record IsAsleep (p : Parent) : Type 0 where
  pub at : p.pc ≡ in_pause
  pub calm : p.frames ≡ []
  pub no_sigusr1 : p.pending1 ≡ false
  pub no_sigusr2 : p.pending2 ≡ false
