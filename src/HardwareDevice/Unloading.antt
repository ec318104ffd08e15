-- ===== src/HardwareDevice/Unloading.antt =====
-- Lab5a: what unregister_device does to the thread.
use unx.Prelude.{ℕ, zero, suc, Bool, true, false, ◌≡◌, ◌≢◌, refl, arith}
use unx.HardwareDevice.{
  Device, SimPc, outer, inner, ticking, wrapping, returned, hardware_sim, unregister_device,
}

-- `n` steps of the thread.
pub sims : ℕ → Device → Device
unfolding hardware_sim
sims zero d = d
sims (suc n) d = sims n (hardware_sim d.pc d)

-- Whether the thread is in the loop `while (!is_halt)`.
abbrev pub in_inner_loop : SimPc → Bool
in_inner_loop inner = true
in_inner_loop (ticking i) = true
in_inner_loop (wrapping i) = true
in_inner_loop _ = false

stays :
    (c : SimPc) (d : Device)
    → d.pc ≡ c
    → in_inner_loop c ≡ true
    → d.is_halt ≡ false
    → (in_inner_loop (hardware_sim c d).pc ≡ true) × ((hardware_sim c d).is_halt ≡ false)
unfolding hardware_sim
stays (ticking i) d e h k = ground arith
stays _ d e h k = ground arith

sims-stay :
    (n : ℕ) (d : Device)
    → in_inner_loop d.pc ≡ true
    → d.is_halt ≡ false
    → in_inner_loop (sims n d).pc ≡ true
unfolding sims
sims-stay zero d h k = h
sims-stay (suc n) d h k =
    let (still, unhalted) = stays d.pc d refl h k in
    sims-stay n (hardware_sim d.pc d) still unhalted

-- After unregister_device a thread in the loop over is_halt never returns, however long it runs.
pub unregister_device-hangs :
    (d : Device) (n : ℕ) → in_inner_loop d.pc ≡ true → (sims n (unregister_device d)).pc ≢ returned
unfolding unregister_device sims
unregister_device-hangs d n h e = ground (arith, sims-stay n (unregister_device d) h refl)

-- One that is about to look at is_running returns at its next step.
unregister_device-returns :
    (d : Device) → d.pc ≡ outer → (sims 1 (unregister_device d)).pc ≡ returned
unfolding unregister_device sims hardware_sim
unregister_device-returns d e = ground arith
