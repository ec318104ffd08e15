-- ===== src/MemoryWorkers/Parent/Startup/Flags.antt =====
-- Assignment1/Part4/parent_main.c: what holds of the flags at each place of `main` before its loops.
use unx.Prelude.{ℕ, Bool, true, false, Option, none, some, ◌≡◌, ◌≢◌, refl, arith}
use unx.MemoryWorkers.{Signal, sigusr1, sigusr2}
use unx.MemoryWorkers.Parent.{
  Parent, sender, on_sigusr1, on_sigusr2, dhsb_signal_handler, handled, pend, deliver_one,
}
use unx.MemoryWorkers.Parent.Startup.{
  StartPc, generates, forks, exited, sets_sigusr1, sets_sigusr2, sets_sigchld, blocks, unblocks,
  waits, killed, Event, sends, keep,
}

-- No flag is set.
pub record IsSilent (a : Parent) : Type 0 where
  pub unwarned : a.memory_warned_worker_3 ≡ false
  pub undone1 : a.worker_1_done ≡ false
  pub undone2 : a.worker_2_done ≡ false
  pub undone3 : a.worker_3_done ≡ false

-- Before the forks no sender has the number of a worker, which is 0 for each.
pub record IsAlone (a : Parent) : Type 0 where
  pub pids : a.worker_pids ≡ (0, 0, 0)
  pub silent : IsSilent a
  pub none1 : a.pending1 ≢ some 0
  pub none2 : a.pending2 ≢ some 0

abbrev pub Place : StartPc → Bool → Parent → Type 0
Place waits b a = Unit
Place (forks i) b a = (b ≡ true) × IsSilent a
Place unblocks b a = (b ≡ true) × IsSilent a
Place (exited status) b a = IsSilent a
Place killed b a = IsSilent a
Place _ b a = IsAlone a

pub Place-IsSilent : (c : StartPc) (b : Bool) (a : Parent) → c ≢ waits → Place c b a → IsSilent a
Place-IsSilent waits b a n h = absurd (n refl)
Place-IsSilent (forks i) b a n h = h.1
Place-IsSilent unblocks b a n h = h.1
Place-IsSilent (exited status) b a n h = h
Place-IsSilent killed b a n h = h
Place-IsSilent (generates m) b a n h = h.silent
Place-IsSilent sets_sigusr1 b a n h = h.silent
Place-IsSilent sets_sigusr2 b a n h = h.silent
Place-IsSilent sets_sigchld b a n h = h.silent
Place-IsSilent blocks b a n h = h.silent

-- A signal, where it is sent, is not from process 0.
abbrev pub IsFromProcess : Event → Type 0
IsFromProcess (sends s pid) = pid ≢ 0
IsFromProcess _ = Unit

pub pend-zero : (o : Option ℕ) (pid : ℕ) → pid ≢ 0 → o ≢ some 0 → pend o pid ≢ some 0
pend-zero none pid n h e = ground arith
pend-zero (some old) pid n h e = h e

pub keep-IsAlone :
    (s : Signal) (pid : ℕ) (a : Parent) → pid ≢ 0 → IsAlone a → IsAlone (keep s pid a)
keep-IsAlone sigusr1 pid a n h = record {
  pids = h.pids;
  silent = record {
    unwarned = h.silent.unwarned;
    undone1 = h.silent.undone1;
    undone2 = h.silent.undone2;
    undone3 = h.silent.undone3;
  };
  none1 = pend-zero a.pending1 pid n h.none1;
  none2 = h.none2;
}
keep-IsAlone sigusr2 pid a n h = record {
  pids = h.pids;
  silent = record {
    unwarned = h.silent.unwarned;
    undone1 = h.silent.undone1;
    undone2 = h.silent.undone2;
    undone3 = h.silent.undone3;
  };
  none1 = h.none1;
  none2 = pend-zero a.pending2 pid n h.none2;
}

pub keep-IsSilent : (s : Signal) (pid : ℕ) (a : Parent) → IsSilent a → IsSilent (keep s pid a)
keep-IsSilent sigusr1 pid a h = record {
  unwarned = h.unwarned;
  undone1 = h.undone1;
  undone2 = h.undone2;
  undone3 = h.undone3;
}
keep-IsSilent sigusr2 pid a h = record {
  unwarned = h.unwarned;
  undone1 = h.undone1;
  undone2 = h.undone2;
  undone3 = h.undone3;
}

pub sender-nobody :
    (pids : ℕ × ℕ × ℕ) (pid : ℕ) → pids ≡ (0, 0, 0) → pid ≢ 0 → sender pids pid ≡ none
unfolding sender
sender-nobody pids pid h n = ground (arith, h, n)

pub deliver_one-IsAlone :
    (s : Signal) (pid : ℕ) (a : Parent)
    → pid ≢ 0
    → IsAlone a
    → IsAlone (deliver_one s (some pid) a).0
unfolding deliver_one dhsb_signal_handler handled on_sigusr1 on_sigusr2
deliver_one-IsAlone sigusr1 pid a n h = rw (sender-nobody a.worker_pids pid h.pids n) (record {
  pids = h.pids;
  silent = record {
    unwarned = h.silent.unwarned;
    undone1 = h.silent.undone1;
    undone2 = h.silent.undone2;
    undone3 = h.silent.undone3;
  };
  none1 = λ e. cc;
  none2 = h.none2;
})
deliver_one-IsAlone sigusr2 pid a n h = rw (sender-nobody a.worker_pids pid h.pids n) (record {
  pids = h.pids;
  silent = record {
    unwarned = h.silent.unwarned;
    undone1 = h.silent.undone1;
    undone2 = h.silent.undone2;
    undone3 = h.silent.undone3;
  };
  none1 = h.none1;
  none2 = λ e. cc;
})
