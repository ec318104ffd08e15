-- ===== src/HardwareDevice/Letters.antt =====
-- Lab5a: the device refines the clock.
use unx.Prelude.{
  ℕ, ◌+◌, ◌≤◌, ◌<◌, Bool, true, false, List, [], ◌∷◌, ◌≡◌, ◌==◌, ltb, if◌then◌else◌, Option, some,
  refl, sym, ap, ◌∙◌, arith,
}
use mathlib.Core.Path.{ap₂, subst}
use unx.HardwareDevice.{
  Device, SimPc, unborn, filling, outer, inner, ticking, wrapping, returned, store, increment, wrap,
  hardware_sim, Reply, value, errno, einval, Call, sim, ioctl, copy, read_returns, open_file,
  close_file, call, copied, copy_byte, run, loaded, hardware_device_ioctl, hardware_device_read,
  hardware_device_halt, hardware_device_resume, register_device,
}
use unx.HardwareDevice.Clock.{Clock, display, show, advance, answer, replies, started}
use unx.HardwareDevice.Displays.{increment-display, wrap-changing, store-filling, store-last}

-- The index of a loop is one that its test can meet, and no second passes while the buffer is filled.
abbrev pub InLoop : SimPc → ℕ → Type 0
InLoop (filling i) n = (i ≤ 15) × (n ≡ 0)
InLoop (ticking i) n = i ≤ 15
InLoop (wrapping i) n = i < 15
InLoop _ n = Unit

-- The device is at the stage of the clock, and its buffer holds what the clock shows.
pub record Shows (d : Device) (k : Clock) : Type 0 where
  pub text : d.buffer ≡ show k.stage k.seconds
  pub at : d.pc ≡ k.stage
  pub runs : d.is_running ≡ k.running
  pub halts : d.is_halt ≡ k.halted
  pub inside : InLoop k.stage k.seconds

text-at :
    {d : Device} {k : Clock} {c : SimPc} → k.stage ≡ c → Shows d k → d.buffer ≡ show c k.seconds
text-at {k = k} e s = s.text ∙ ap (λ c. show c k.seconds) e

inside-at : {d : Device} {k : Clock} {c : SimPc} → k.stage ≡ c → Shows d k → InLoop c k.seconds
inside-at {k = k} e s = subst (λ c. InLoop c k.seconds) e s.inside

fill-Shows :
    (i : ℕ) (d : Device) (k : Clock) (b : Bool)
    → (i ≤ 15) × (k.seconds ≡ 0)
    → k.stage ≡ filling i
    → Shows d k
    → ltb i 15 ≡ b
    → Shows
        (if b
          then record d { buffer = store i b'a' d.buffer; pc = filling (i + 1) }
          else record d { buffer = store 15 0 d.buffer; pc = outer })
        (record k { stage = if b then filling (i + 1) else outer })
unfolding show store display
fill-Shows i d k true h e s t = record {
  text = ap (store i b'a') (text-at e s) ∙ store-filling i (ground arith);
  at = refl;
  runs = s.runs;
  halts = s.halts;
  inside = (ground arith, h.1);
}
fill-Shows i d k false h e s t =
    let last : i ≡ 15 = ground arith in
    record {
      text = ap (store 15 0) (text-at (e ∙ ap filling last) s) ∙ ap (λ n. display n 0) (sym h.1);
      at = refl;
      runs = s.runs;
      halts = s.halts;
      inside = tt;
    }

tick-Shows :
    (i : ℕ) (d : Device) (k : Clock) (b : Bool)
    → i ≤ 15
    → k.stage ≡ ticking i
    → Shows d k
    → ltb i 15 ≡ b
    → Shows
        (if b
          then record d { buffer = increment i d.buffer; pc = wrapping i }
          else record d { buffer = store 15 0 d.buffer; pc = inner })
        (if b
          then record k { stage = wrapping i }
          else record k { seconds = k.seconds + 1; stage = inner })
unfolding show
tick-Shows i d k true h e s t = record {
  text = ap (increment i) (text-at e s) ∙ increment-display k.seconds i (ground arith);
  at = refl;
  runs = s.runs;
  halts = s.halts;
  inside = ground arith;
}
tick-Shows i d k false h e s t =
    let last : i ≡ 15 = ground arith in
    record {
      text = ap (store 15 0) (text-at (e ∙ ap ticking last) s) ∙ store-last k.seconds;
      at = refl;
      runs = s.runs;
      halts = s.halts;
      inside = tt;
    }

wrap-Shows :
    (i : ℕ) (d : Device) (k : Clock)
    → i < 15
    → k.stage ≡ wrapping i
    → Shows d k
    → Shows
        (record d { buffer = wrap i d.buffer; pc = ticking (i + 1) })
        (record k { stage = ticking (i + 1) })
unfolding show
wrap-Shows i d k h e s = record {
  text = ap (wrap i) (text-at e s) ∙ wrap-changing k.seconds i h;
  at = refl;
  runs = s.runs;
  halts = s.halts;
  inside = omega (arith, h);
}

-- A test of a flag.
branch-Shows :
    (d : Device) (k : Clock) (yes_pc no_pc : SimPc) (b b' : Bool)
    → b ≡ b'
    → d.buffer ≡ display k.seconds 0
    → Shows d k
    → InLoop yes_pc k.seconds
    → InLoop no_pc k.seconds
    → show yes_pc k.seconds ≡ display k.seconds 0
    → show no_pc k.seconds ≡ display k.seconds 0
    → Shows
        (record d { pc = if b then yes_pc else no_pc })
        (record k { stage = if b' then yes_pc else no_pc })
branch-Shows d k yes_pc no_pc true true e t s iy ino sy sn = record {
  text = t ∙ sym sy;
  at = refl;
  runs = s.runs;
  halts = s.halts;
  inside = iy;
}
branch-Shows d k yes_pc no_pc false false e t s iy ino sy sn = record {
  text = t ∙ sym sn;
  at = refl;
  runs = s.runs;
  halts = s.halts;
  inside = ino;
}
branch-Shows d k yes_pc no_pc _ _ e t s iy ino sy sn = cc

advance-Shows :
    (c : SimPc) (d : Device) (k : Clock)
    → k.stage ≡ c
    → Shows d k
    → Shows (hardware_sim c d) (advance c k)
unfolding hardware_sim advance show
advance-Shows unborn d k e s = s
advance-Shows (filling i) d k e s = fill-Shows i d k (ltb i 15) (inside-at e s) e s refl
advance-Shows outer d k e s =
    branch-Shows d k inner returned d.is_running k.running s.runs (text-at e s) s tt tt refl refl
advance-Shows inner d k e s =
    branch-Shows d k outer (ticking 0) d.is_halt k.halted s.halts (text-at e s) s tt (omega arith)
      refl refl
advance-Shows (ticking i) d k e s = tick-Shows i d k (ltb i 15) (inside-at e s) e s refl
advance-Shows (wrapping i) d k e s = wrap-Shows i d k (inside-at e s) e s
advance-Shows returned d k e s = s

-- A call finds the same reply at the device and at the clock, and leaves them showing the same.
call-Shows :
    (c : Call) (d : Device) (k : Clock)
    → Shows d k
    → ((call c d).0 ≡ (answer c k).0) × Shows (call c d).1 (answer c k).1
unfolding call answer hardware_device_ioctl hardware_device_read
call-Shows sim d k s = (
  refl,
  subst (λ c. Shows (hardware_sim c d) (advance k.stage k)) (sym s.at)
      (advance-Shows k.stage d k refl s),
)
call-Shows (ioctl cmd) d k s =
    ioctl-Shows (cmd == hardware_device_halt) (cmd == hardware_device_resume)
  where
    ioctl-Shows :
        (h r : Bool)
        → let reply : Reply × Device =
            if h
            then (value 0, record d { is_halt = true })
            else if r
            then (value 0, record d { is_halt = false })
            else (errno einval, d) in
          let told : Option Reply × Clock =
            if h
            then (some (value 0), record k { halted = true })
            else if r
            then (some (value 0), record k { halted = false })
            else (some (errno einval), k) in
          (some reply.0 ≡ told.0) × Shows reply.1 told.1
    ioctl-Shows true r =
        (refl, record { text = s.text; at = s.at; runs = s.runs; halts = refl; inside = s.inside })
    ioctl-Shows false true =
        (refl, record { text = s.text; at = s.at; runs = s.runs; halts = refl; inside = s.inside })
    ioctl-Shows false false = (refl, s)
call-Shows (copy i) d k s = (ap (λ b. some (copied (copy_byte i b))) s.text, s)
call-Shows (read_returns len leaves) d k s = (refl, s)
call-Shows open_file d k s = (refl, s)
call-Shows close_file d k s = (refl, s)

-- No sequence of calls tells a device from the clock that it shows.
run-Shows : (cs : List Call) (d : Device) (k : Clock) → Shows d k → run cs d ≡ replies cs k
unfolding run replies
run-Shows [] d k s = refl
run-Shows (c ∷ cs) d k s =
    let (same, next) = call-Shows c d k s in
    ap₂ ◌∷◌ same (run-Shows cs (call c d).1 (answer c k).1 next)

loaded-Shows : (major : ℕ) → Shows (loaded major) started
unfolding loaded register_device show
loaded-Shows major = record {
  text = refl;
  at = refl;
  runs = refl;
  halts = refl;
  inside = (omega arith, refl);
}

-- The replies to any calls of a device that was just loaded are those of the clock. In particular each byte that a
-- read copies is the byte that the clock shows when it is copied: of the first 15 the letter of the second, the next
-- letter where the thread has been, the character after the letter where it is, and behind them a NUL.
pub run-replies : (cs : List Call) (major : ℕ) → run cs (loaded major) ≡ replies cs started
run-replies cs major = run-Shows cs (loaded major) started (loaded-Shows major)
