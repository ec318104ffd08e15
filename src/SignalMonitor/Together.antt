-- ===== src/SignalMonitor/Together.antt =====
-- Lab5b: the two monitors under the parent that starts them.
use unx.Prelude.{ℕ, All, true, false, Option, some, List, [], ◌∷◌, ◌++◌, ◌≡◌, ◌≢◌, refl, ap, ◌∙◌}
use unx.Prelude.Bytes.{Bytes, codes}
use unx.SignalMonitor.{sigusr1, sigusr2, Signal, Move, round, signal, moves}
use unx.SignalMonitor.Exec.{main, received, main-signals}
use unx.SignalMonitor.Signals.{
  lines_of, ready, at, is_quiet, readings, logged, gone_on, ended, moves-session,
}

-- The signals of a run of a monitor that its handler does not discard.
unfoldable pub told : List Move → List Signal
told [] = []
told (signal sigusr1 ∷ vs) = sigusr1 ∷ told vs
told (signal sigusr2 ∷ vs) = sigusr2 ∷ told vs
told (_ ∷ vs) = told vs

told-quiet : (vs : List Move) → told vs ≡ [] → All (λ v. is_quiet v ≡ true) vs
unfolding told
told-quiet [] h = tt
told-quiet (round st ∷ vs) h = (refl, told-quiet vs h)
told-quiet (signal sigusr1 ∷ vs) h = cc
told-quiet (signal sigusr2 ∷ vs) h = cc
told-quiet (signal _ ∷ vs) h = (refl, told-quiet vs h)

-- A run that is told a signal first.
record Splits (s : Signal) (ss : List Signal) (vs : List Move) : Type 0 where
  before : List Move
  after : List Move
  parts : vs ≡ before ++ signal s ∷ after
  quiet : All (λ v. is_quiet v ≡ true) before
  later : told after ≡ ss

told-Splits : (s : Signal) (ss : List Signal) (vs : List Move) → told vs ≡ s ∷ ss → Splits s ss vs
unfolding told
told-Splits s ss [] h = cc
told-Splits s ss (round st ∷ vs) h =
    let r = told-Splits s ss vs h in
    record {
      before = round st ∷ r.before;
      after = r.after;
      parts = ap (◌∷◌ (round st)) r.parts;
      quiet = (refl, r.quiet);
      later = r.later;
    }
told-Splits s ss (signal sigusr1 ∷ vs) h =
    let same : (sigusr1 ≡ s) = cc in
    record { before = []; after = vs; parts = ap (λ x. signal x ∷ vs) same; quiet = tt; later = cc }
told-Splits s ss (signal sigusr2 ∷ vs) h =
    let same : (sigusr2 ≡ s) = cc in
    record { before = []; after = vs; parts = ap (λ x. signal x ∷ vs) same; quiet = tt; later = cc }
told-Splits s ss (signal x ∷ vs) h =
    let r = told-Splits s ss vs h in
    record {
      before = signal x ∷ r.before;
      after = r.after;
      parts = ap (◌∷◌ (signal x)) r.parts;
      quiet = (refl, r.quiet);
      later = r.later;
    }

-- A run of a monitor that is told to start and to stop, and what it leads to: the rounds between the two signals and
-- behind them, and a line for each round between them but the first.
pub record IsSession (interface : Bytes) (vs : List Move) : Type 0 where
  pub before : List Move
  pub during : List Move
  pub rest : List Move
  pub parts : vs ≡ before ++ signal sigusr1 ∷ (during ++ signal sigusr2 ∷ rest)
  pub quiet : All (λ v. is_quiet v ≡ true) during
  pub result : moves vs (ready interface) ≡ (
    at interface false (ended (gone_on (readings during)) (readings rest)),
    lines_of interface (logged (readings during)),
  )

told-IsSession :
    (interface : Bytes) (vs : List Move) → told vs ≡ sigusr1 ∷ sigusr2 ∷ [] → IsSession interface vs
told-IsSession interface vs h =
    let a = told-Splits sigusr1 (sigusr2 ∷ []) vs h in
    let b = told-Splits sigusr2 [] a.after a.later in
    let whole : (vs ≡ a.before ++ signal sigusr1 ∷ (b.before ++ signal sigusr2 ∷ b.after)) =
      a.parts ∙ ap (λ ws. a.before ++ signal sigusr1 ∷ ws) b.parts in
    record {
      before = a.before;
      during = b.before;
      rest = b.after;
      parts = whole;
      quiet = b.quiet;
      result =
          ap (λ ws. moves ws (ready interface)) whole
          ∙ moves-session interface a.before b.before b.after a.quiet b.quiet
              (told-quiet b.after b.later);
    }

-- Where the parent has started its two monitors, and each of them is told just what the parent sends to it, each writes
-- a line for each of its rounds between SIGUSR1 and SIGUSR2 but the first; it ends where a round was made between the
-- two signals and one after them.
pub main-IsSession :
    (p q : ℕ) (results : List (Option ℕ)) (vs ws : List Move)
    → p ≢ q
    → let acts =
        (main
          (record { pid = some p; exec = true })
          (record { pid = some q; exec = true })
          results).0 in
      told vs ≡ received p acts
      → told ws ≡ received q acts
      → IsSession (codes "lo") vs × IsSession (codes "ens33") ws
main-IsSession p q results vs ws n hv hw =
    let (_, first, second, _) = main-signals p q results n in
    (told-IsSession (codes "lo") vs (hv ∙ first), told-IsSession (codes "ens33") ws (hw ∙ second))
