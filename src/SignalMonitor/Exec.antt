-- ===== src/SignalMonitor/Exec.antt =====
-- Lab5b/sysmonExec.cpp: `main`, which starts a monitor for each of two interfaces.
use unx.Prelude.{
  ℕ, zero, suc, Bool, true, false, Option, none, some, List, [], ◌∷◌, ◌++◌, ◌≡◌, ◌≢◌, refl, arith,
  ◌==◌, if◌then◌else◌,
}
use unx.Prelude.Bytes.{Bytes, codes}
use unx.SignalMonitor.{Act, kill, sleep, Signal, sigusr1, sigusr2, kills, wait_all, system_monitor}

abbrev pub intf : ℕ → Bytes
intf zero = codes "lo"
intf n = codes "ens33"

-- The child with a number: its monitor, or where execlp fails, `main` of this program to its end.
pub data Child : Type 0 where
  monitors : Bytes → Child
  finishes : Child

-- What `fork` gives the parent, and whether `execlp` of that child succeeds.
pub record Fork : Type 0 where
  pub pid : Option ℕ
  pub exec : Bool

unfoldable pub child_of : ℕ → Option ℕ → Bool → List Child
child_of i none exec = []
child_of i (some pid) true = monitors (intf i) ∷ []
child_of i (some pid) false = finishes ∷ []

-- The loop `for (i = 0; i < NUM & isParent; ++i)` in the parent.
unfoldable pub fork_all : ℕ → List Fork → List (Option ℕ) × List Child
unfolding child_of
fork_all i [] = ([], [])
fork_all i (f ∷ fs) =
    let rest = fork_all (suc i) fs in (f.pid ∷ rest.0, child_of i f.pid f.exec ++ rest.1)

-- `main` of the parent: what it does, and the children that it started. The results of wait are a list.
unfoldable pub main : Fork → Fork → List (Option ℕ) → List Act × List Child
unfolding fork_all system_monitor
main first second results =
    let r = fork_all 0 (first ∷ second ∷ []) in (sleep 10 ∷ system_monitor r.0 results, r.1)

-- The signals that go to a process on its own, in order. A `kill` of -1 goes to all processes.
unfoldable pub received : ℕ → List Act → List Signal
received pid [] = []
received pid (kill (some x) s ∷ acts) =
    let rest = received pid acts in if x == pid then s ∷ rest else rest
received pid (_ ∷ acts) = received pid acts

received-wait_all : (pid : ℕ) (results : List (Option ℕ)) → received pid (wait_all results) ≡ []
unfolding received wait_all
received-wait_all pid [] = refl
received-wait_all pid (none ∷ rest) = refl
received-wait_all pid (some x ∷ rest) = received-wait_all pid rest

-- Where both forks and both calls of execlp succeed and give two children, each becomes a monitor of its interface and
-- gets SIGUSR1 and then SIGUSR2, once each, and no other process gets a signal, whatever wait gives.
pub main-signals :
    (p q : ℕ) (results : List (Option ℕ))
    → p ≢ q
    → let r =
        main
          (record { pid = some p; exec = true })
          (record { pid = some q; exec = true })
          results in
      (r.1 ≡ monitors (codes "lo") ∷ monitors (codes "ens33") ∷ [])
      × (received p r.0 ≡ sigusr1 ∷ sigusr2 ∷ [])
      × (received q r.0 ≡ sigusr1 ∷ sigusr2 ∷ [])
      × ((x : ℕ) → x ≢ p → x ≢ q → received x r.0 ≡ [])
unfolding main fork_all child_of system_monitor kills received
main-signals p q results n = (
  refl,
  ground (arith, received-wait_all p results),
  ground (arith, received-wait_all q results),
  λ x a b. ground (arith, received-wait_all x results),
)
