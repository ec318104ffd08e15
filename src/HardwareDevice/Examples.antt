-- ===== src/HardwareDevice/Examples.antt =====
-- Lab5a: the theorems at concrete calls.
use unx.Prelude.{true, false, List, [], ◌∷◌, ◌++◌, ◌≡◌, ◌≢◌, refl, replicate, some}
use unx.HardwareDevice.{
  Device, inner, returned, sim, copy, read_returns, copy_byte, Call, copied, run, after_calls,
  loaded, unregister_device, call, wrapped,
}
use unx.HardwareDevice.Clock.{changing, replies, started}
use unx.HardwareDevice.Letters.{run-replies}
use unx.HardwareDevice.Unloading.{sims, unregister_device-hangs}

-- 16 steps of filling, two tests and the first byte of the first second; then a read that meets the second byte
-- between its change and the look at it, and the first one before that.
abbrev calls : List Call
calls = replicate 20 sim ++ copy 0 ∷ sim ∷ copy 1 ∷ copy 2 ∷ copy 15 ∷ read_returns 4 false ∷ []

-- A byte of a second whose letter is 'z' is '{' until the thread looks at it.
beyond_z : copy_byte 0 (changing 25 0) ≡ some b'{'
unfolding copy_byte changing
beyond_z = refl

copied_bytes :
    (call (copy 0) (after_calls (replicate 20 sim) (loaded 240))).0 ≡ some (copied (some b'b'))
unfolding call after_calls loaded wrapped
copied_bytes = refl

run-replies_example : run calls (loaded 240) ≡ replies calls started
run-replies_example = run-replies calls 240

abbrev ticks : Device
ticks = record {
  device_file_major_number = 240;
  buffer = replicate 16 b'c';
  is_running = true;
  is_halt = true;
  pc = inner;
}

unregister_device-hangs_example : (sims 100 (unregister_device ticks)).pc ≢ returned
unregister_device-hangs_example = unregister_device-hangs ticks 100 refl
