-- ===== src/SignalMonitor/Examples.antt =====
-- Lab5b: the theorem at a session.
use unx.Prelude.{arith, none, some, List, [], ◌∷◌, ◌++◌, ◌≡◌, refl}
use unx.Prelude.Bytes.{codes}
use unx.SignalMonitor.{Statistics, waiting, Move, round, signal, sigusr1, sigusr2, sigint, moves}
use unx.SignalMonitor.Signals.{ready}
use unx.SignalMonitor.Exec.{main, received}
use unx.SignalMonitor.Together.{told, IsSession, main-IsSession}

abbrev statistics : Statistics
statistics = record {
  tx_bytes = some 99999999999;
  rx_bytes = some 5;
  tx_packets = none;
  rx_packets = some 0;
}

abbrev before : List Move
before = round statistics ∷ signal sigint ∷ []

abbrev during : List Move
during = round statistics ∷ round statistics ∷ signal sigint ∷ round statistics ∷ []

abbrev rest : List Move
rest = round statistics ∷ []

abbrev run : List Move
run = before ++ signal sigusr1 ∷ (during ++ signal sigusr2 ∷ rest)

abbrev short_run : List Move
short_run = signal sigusr1 ∷ signal sigusr2 ∷ []

main-IsSession_example : IsSession (codes "lo") run × IsSession (codes "ens33") short_run
unfolding told main received
main-IsSession_example =
    main-IsSession 101 102 (some 101 ∷ some 102 ∷ none ∷ []) run short_run (λ e. omega (arith, e))
      refl refl

-- Both signals before the next round: the monitor waits.
misses_both :
    (moves (signal sigusr1 ∷ signal sigusr2 ∷ round statistics ∷ []) (ready (codes "lo"))).0.pc
    ≡ waiting
unfolding moves
misses_both = refl
