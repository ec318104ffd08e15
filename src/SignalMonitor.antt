-- ===== src/SignalMonitor.antt =====
-- Lab5b: intfMonitor.cpp, a monitor that SIGUSR1 starts and SIGUSR2 stops, and sysmonExec.cpp, its parent.
use unx.Prelude.{
  ℕ, zero, suc, ◌+◌, Bool, true, false, Option, none, some, List, [], ◌∷◌, ◌++◌, leb, if◌then◌else◌,
  map,
}
use unx.Prelude.Bytes.{Bytes, codes, decimal}
pub mod Lines
pub mod Signals
pub mod Exec
pub mod Together
pub mod Examples

pub data Signal : Type 0 where
  sigusr1 sigusr2 sigint sigtstp other : Signal

-- The files under /sys/class/net/<interface>/statistics: a number where the file can be opened.
pub record Statistics : Type 0 where
  pub tx_bytes : Option ℕ
  pub rx_bytes : Option ℕ
  pub tx_packets : Option ℕ
  pub rx_packets : Option ℕ

abbrev pub int_max : ℕ
int_max = 2147483647

-- `infile >> n`, with an int that was 0: a number out of its range gives the largest int.
abbrev pub read_int : Option ℕ → ℕ
read_int none = 0
read_int (some n) = if leb n int_max then n else int_max

-- The size of `data`.
abbrev pub maxbuf : ℕ
maxbuf = 128

-- What sprintf puts into `data`, before the NUL.
pub stat_line : Bytes → Statistics → Bytes
stat_line interface st =
    interface
    ++ (codes ": tx_bytes:"
        ++ (decimal (read_int st.tx_bytes)
            ++ (codes " rx_bytes:"
                ++ (decimal (read_int st.rx_bytes)
                    ++ (codes " tx_packets:"
                        ++ (decimal (read_int st.tx_packets)
                            ++ (codes " rx_packets: "
                                ++ (decimal (read_int st.rx_packets) ++ codes "\n"))))))))

pub data MonitorPc : Type 0 where
  waiting monitoring closed : MonitorPc

pub record Monitor : Type 0 where
  pub interface : Bytes
  pub is_running : Bool
  pub pc : MonitorPc

unfoldable pub signal_handler : Signal → Monitor → Monitor
signal_handler sigusr1 m = record m { is_running = true }
signal_handler sigusr2 m = record m { is_running = false }
signal_handler _ m = m

-- A round of the loop that `main` is in, and what it writes to Network.log.
unfoldable pub main_round : MonitorPc → Statistics → Monitor → Monitor × List Bytes
unfolding stat_line
main_round waiting st m = if m.is_running then (record m { pc = monitoring }, []) else (m, [])
main_round monitoring st m =
    if m.is_running then (m, stat_line m.interface st ∷ []) else (record m { pc = closed }, [])
main_round closed st m = (m, [])

pub data Move : Type 0 where
  round : Statistics → Move
  signal : Signal → Move

unfoldable pub move : Move → Monitor → Monitor × List Bytes
unfolding signal_handler main_round
move (round st) m = main_round m.pc st m
move (signal s) m = (signal_handler s m, [])

unfoldable pub moves : List Move → Monitor → Monitor × List Bytes
unfolding move
moves [] m = (m, [])
moves (v ∷ vs) m = let r = move v m in let rest = moves vs r.0 in (rest.0, r.1 ++ rest.1)

-- `main` up to its loops: a handler that cannot be registered ends it.
unfoldable pub begin : Bool → Bytes → Option Monitor
begin registers interface =
    if registers
    then some (record { interface = interface; is_running = false; pc = waiting })
    else none

-- sysmonExec.cpp: `fork` gives each child's pid, or -1. The parent signals each child twice and waits
-- until `wait` gives -1.
pub data Act : Type 0 where
  kill : Option ℕ → Signal → Act
  sleep : ℕ → Act
  waits : Option ℕ → Act

unfoldable pub kills : List (Option ℕ) → Signal → List Act
kills [] s = []
kills (pid ∷ pids) s = kill pid s ∷ kills pids s

-- The loop over `wait`, whose results are a list.
unfoldable pub wait_all : List (Option ℕ) → List Act
wait_all [] = []
wait_all (none ∷ rest) = waits none ∷ []
wait_all (some pid ∷ rest) = waits (some pid) ∷ wait_all rest

unfoldable pub system_monitor : List (Option ℕ) → List (Option ℕ) → List Act
unfolding kills wait_all
system_monitor child_pid results =
    kills child_pid sigusr1 ++ (sleep 30 ∷ (kills child_pid sigusr2 ++ wait_all results))
