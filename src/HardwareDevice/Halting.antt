-- ===== src/HardwareDevice/Halting.antt =====
-- Lab5a: what HALT does.
use unx.Prelude.{Bool, true, false, List, [], ◌∷◌, ◌≡◌, ◌≢◌, refl, ◌∙◌, arith, All}
use unx.HardwareDevice.{
  Device, SimPc, outer, inner, ticking, returned, hardware_sim, Call, sim, ioctl, call, after_calls,
  hardware_device_ioctl, hardware_device_resume,
}

-- Whether the thread is between two seconds.
abbrev pub at_rest : SimPc → Bool
at_rest outer = true
at_rest inner = true
at_rest returned = true
at_rest _ = false

record IsStill (d d' : Device) : Type 0 where
  same : d'.buffer ≡ d.buffer
  rests : at_rest d'.pc ≡ true
  halted : d'.is_halt ≡ true

sim-IsStill :
    (c : SimPc) (d : Device)
    → d.pc ≡ c
    → at_rest c ≡ true
    → d.is_halt ≡ true
    → IsStill d (hardware_sim c d)
unfolding hardware_sim
sim-IsStill (ticking i) d e r h = cc
sim-IsStill _ d e r h = ground arith

call-IsStill :
    (c : Call) (d : Device)
    → c ≢ ioctl hardware_device_resume
    → at_rest d.pc ≡ true
    → d.is_halt ≡ true
    → IsStill d (call c d).1
unfolding call hardware_device_ioctl
call-IsStill sim d n r h = sim-IsStill d.pc d refl r h
call-IsStill (ioctl cmd) d n r h = ground arith
call-IsStill _ d n r h = record { same = refl; rests = r; halted = h }

-- The buffer of a halted device whose thread is between two seconds stays as it is through any calls but
-- RESUME.
pub halted-still :
    (cs : List Call) (d : Device)
    → All (λ c. c ≢ ioctl hardware_device_resume) cs
    → at_rest d.pc ≡ true
    → d.is_halt ≡ true
    → (after_calls cs d).buffer ≡ d.buffer
unfolding after_calls
halted-still [] d n r h = refl
halted-still (c ∷ cs) d n r h =
    let s = call-IsStill c d n.0 r h in halted-still cs (call c d).1 n.1 s.rests s.halted ∙ s.same
