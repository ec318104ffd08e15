-- ===== src/SignalMonitor/Signals.antt =====
-- Lab5b/intfMonitor.cpp: how the signals of the parent start and stop it.
use unx.Prelude.{All, Bool, true, false, List, [], ◌∷◌, ◌++◌, ◌≡◌, refl, sym, ap, ◌∙◌}
use mathlib.Core.List.{append_assoc, append-nil}
use unx.Prelude.Bytes.{Bytes}
use unx.SignalMonitor.{
  sigusr1, sigusr2, Statistics, stat_line, MonitorPc, waiting, monitoring, closed, Monitor,
  signal_handler, Move, round, signal, move, moves,
}

-- The lines for a list of readings.
pub lines_of : Bytes → List Statistics → List Bytes
lines_of interface [] = []
lines_of interface (st ∷ sts) = stat_line interface st ∷ lines_of interface sts

-- The monitor after the handlers are registered.
abbrev pub ready : Bytes → Monitor
ready interface = record { interface = interface; is_running = false; pc = waiting }

abbrev pub at : Bytes → Bool → MonitorPc → Monitor
at interface b pc = record { interface = interface; is_running = b; pc = pc }

-- The signals that the handler discards: all but SIGUSR1 and SIGUSR2.
abbrev pub is_quiet : Move → Bool
is_quiet (round st) = true
is_quiet (signal sigusr1) = false
is_quiet (signal sigusr2) = false
is_quiet (signal _) = true

-- The readings of the rounds, of which the first one at work only ends the wait.
pub readings : List Move → List Statistics
readings [] = []
readings (round st ∷ vs) = st ∷ readings vs
readings (_ ∷ vs) = readings vs

abbrev pub logged : List Statistics → List Statistics
logged [] = []
logged (st ∷ sts) = sts

-- Where a monitor is that was told to go, and where one is that was told to stop.
abbrev pub gone_on : List Statistics → MonitorPc
gone_on [] = waiting
gone_on (st ∷ sts) = monitoring

abbrev pub ended : MonitorPc → List Statistics → MonitorPc
ended monitoring (st ∷ sts) = closed
ended pc sts = pc

waits :
    (i : Bytes) (vs : List Move)
    → All (λ v. is_quiet v ≡ true) vs
    → moves vs (ready i) ≡ (ready i, [])
unfolding moves
waits i [] h = refl
waits i (round st ∷ vs) h = waits i vs h.1
waits i (signal sigusr1 ∷ vs) h = cc
waits i (signal sigusr2 ∷ vs) h = cc
waits i (signal _ ∷ vs) h = waits i vs h.1

monitors :
    (i : Bytes) (vs : List Move)
    → All (λ v. is_quiet v ≡ true) vs
    → moves vs (at i true monitoring) ≡ (at i true monitoring, lines_of i (readings vs))
unfolding moves lines_of readings
monitors i [] h = refl
monitors i (round st ∷ vs) h = ap (λ r. (r.0, stat_line i st ∷ r.1)) (monitors i vs h.1)
monitors i (signal sigusr1 ∷ vs) h = cc
monitors i (signal sigusr2 ∷ vs) h = cc
monitors i (signal _ ∷ vs) h = monitors i vs h.1

goes_on :
    (i : Bytes) (vs : List Move)
    → All (λ v. is_quiet v ≡ true) vs
    → moves vs (at i true waiting)
      ≡ (at i true (gone_on (readings vs)), lines_of i (logged (readings vs)))
unfolding moves lines_of readings
goes_on i [] h = refl
goes_on i (round st ∷ vs) h = monitors i vs h.1
goes_on i (signal sigusr1 ∷ vs) h = cc
goes_on i (signal sigusr2 ∷ vs) h = cc
goes_on i (signal _ ∷ vs) h = goes_on i vs h.1

rests :
    (i : Bytes) (vs : List Move)
    → All (λ v. is_quiet v ≡ true) vs
    → moves vs (at i false closed) ≡ (at i false closed, [])
unfolding moves
rests i [] h = refl
rests i (round st ∷ vs) h = rests i vs h.1
rests i (signal sigusr1 ∷ vs) h = cc
rests i (signal sigusr2 ∷ vs) h = cc
rests i (signal _ ∷ vs) h = rests i vs h.1

ends :
    (i : Bytes) (vs : List Move) (sts : List Statistics)
    → All (λ v. is_quiet v ≡ true) vs
    → moves vs (at i false (gone_on sts)) ≡ (at i false (ended (gone_on sts) (readings vs)), [])
unfolding moves readings
ends i vs [] h = waits i vs h
ends i [] (s ∷ sts) h = refl
ends i (round st ∷ vs) (s ∷ sts) h = rests i vs h.1
ends i (signal sigusr1 ∷ vs) (s ∷ sts) h = cc
ends i (signal sigusr2 ∷ vs) (s ∷ sts) h = cc
ends i (signal _ ∷ vs) (s ∷ sts) h = ends i vs (s ∷ sts) h.1

moves-append :
    (vs ws : List Move) (m : Monitor)
    → moves (vs ++ ws) m ≡ (let r = moves vs m in let q = moves ws r.0 in (q.0, r.1 ++ q.1))
unfolding moves
moves-append [] ws m = refl
moves-append (v ∷ vs) ws m =
    let here = move v m in
    ap (λ r. (r.0, here.1 ++ r.1)) (moves-append vs ws here.0)
    ∙ ap (λ l. ((moves ws (moves vs here.0).0).0, l))
        (sym (append_assoc here.1 (moves vs here.0).1 _))

-- A monitor that gets SIGUSR1 and then SIGUSR2 once, with any rounds and discarded signals before, between
-- and after, writes a line for each round between the two but the first. It ends where a round was made
-- between the two and one after them; without a round between them it waits on and ends at none.
pub moves-session :
    (i : Bytes) (before during rest : List Move)
    → All (λ v. is_quiet v ≡ true) before
    → All (λ v. is_quiet v ≡ true) during
    → All (λ v. is_quiet v ≡ true) rest
    → moves (before ++ signal sigusr1 ∷ (during ++ signal sigusr2 ∷ rest)) (ready i) ≡ (
      at i false (ended (gone_on (readings during)) (readings rest)),
      lines_of i (logged (readings during)),
    )
unfolding moves move signal_handler
moves-session i before during rest hb hd hr =
    let stop : List Move = signal sigusr2 ∷ rest in
    let start : List Move = signal sigusr1 ∷ (during ++ stop) in
    let ls : List Bytes = lines_of i (logged (readings during)) in
    let with : List Move → Monitor × List Bytes → Monitor × List Bytes =
      λ vs r. let q = moves vs r.0 in (q.0, r.1 ++ q.1) in
    moves-append before start (ready i)
    ∙ ap (with start) (waits i before hb)
    ∙ moves-append during stop (at i true waiting)
    ∙ ap (with stop) (goes_on i during hd)
    ∙ ap (λ q. (q.0, ls ++ q.1)) (ends i rest (readings during) hr)
    ∙ ap (λ l. (at i false (ended (gone_on (readings during)) (readings rest)), l)) (append-nil ls)
