-- ===== src/MemoryWorkers.antt =====
-- Assignment1: workers that watch their own memory and tell a parent by signals. What the parts share.
use unx.Prelude.{ℕ, zero, suc, ◌+◌, List, [], ◌∷◌, ◌++◌, ◌≡◌, refl, ap, arith}
pub mod Files
pub mod EventLog
pub mod Worker
pub mod LimitWorker
pub mod Parent
pub mod Waiting
pub mod Counting
pub mod Programs
pub mod Examples

pub data Signal : Type 0 where
  sigusr1 sigusr2 : Signal

-- `kill(parent_pid, …)`, `close(fd)` and `exit(…)`.
pub data Effect : Type 0 where
  kill : Signal → Effect
  close : ℕ → Effect
  exit : ℕ → Effect

-- How often a signal is sent, a descriptor closed, and the process ended with a status.
unfoldable pub alerts : List Effect → ℕ
alerts [] = 0
alerts (kill sigusr1 ∷ es) = suc (alerts es)
alerts (_ ∷ es) = alerts es

unfoldable pub completions : List Effect → ℕ
completions [] = 0
completions (kill sigusr2 ∷ es) = suc (completions es)
completions (_ ∷ es) = completions es

unfoldable pub closings : List Effect → ℕ
closings [] = 0
closings (close fd ∷ es) = suc (closings es)
closings (_ ∷ es) = closings es

unfoldable pub statuses : List Effect → List ℕ
statuses [] = []
statuses (exit n ∷ es) = n ∷ statuses es
statuses (_ ∷ es) = statuses es

pub statuses-append : (es fs : List Effect) → statuses (es ++ fs) ≡ statuses es ++ statuses fs
unfolding statuses
statuses-append [] fs = refl
statuses-append (exit n ∷ es) fs = ap (◌∷◌ n) (statuses-append es fs)
statuses-append (_ ∷ es) fs = statuses-append es fs

pub alerts-append : (es fs : List Effect) → alerts (es ++ fs) ≡ alerts es + alerts fs
unfolding alerts
alerts-append [] fs = omega arith
alerts-append (kill sigusr1 ∷ es) fs = omega (arith, alerts-append es fs)
alerts-append (_ ∷ es) fs = alerts-append es fs

pub completions-append :
    (es fs : List Effect) → completions (es ++ fs) ≡ completions es + completions fs
unfolding completions
completions-append [] fs = omega arith
completions-append (kill sigusr2 ∷ es) fs = omega (arith, completions-append es fs)
completions-append (_ ∷ es) fs = completions-append es fs

pub closings-append : (es fs : List Effect) → closings (es ++ fs) ≡ closings es + closings fs
unfolding closings
closings-append [] fs = omega arith
closings-append (close fd ∷ es) fs = omega (arith, closings-append es fs)
closings-append (_ ∷ es) fs = closings-append es fs
