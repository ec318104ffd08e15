-- ===== src/HardwareDevice/Clock.antt =====
-- Lab5a: the device as a clock. It counts seconds and holds no buffer: what a reader sees is a
-- function of the count.
use unx.Prelude.{
  ℕ, ◌+◌, ◌-◌, ◌%◌, Bool, true, false, List, [], ◌∷◌, ◌++◌, ◌==◌, ltb, if◌then◌else◌, replicate,
  Option, none, some,
}
use unx.Prelude.Bytes.{Bytes}
use unx.HardwareDevice.{
  SimPc, unborn, filling, outer, inner, ticking, wrapping, returned, Reply, value, errno, copied,
  einval, efault, Call, sim, ioctl, copy, read_returns, copy_byte, open_file, close_file,
  hardware_device_halt, hardware_device_resume,
}

-- The letter of second `n`.
abbrev pub letter : ℕ → ℕ
letter n = 97 + n % 26

-- The buffer in the course of second `n + 1`, when `i` bytes have the new letter.
unfoldable pub display : ℕ → ℕ → Bytes
display n i = replicate i (letter (n + 1)) ++ (replicate (15 - i) (letter n) ++ 0 ∷ [])

-- The same, when one has been added to byte `i` and it has not been looked at again.
unfoldable pub changing : ℕ → ℕ → Bytes
changing n i =
    replicate i (letter (n + 1)) ++ ((letter n + 1) ∷ (replicate (14 - i) (letter n) ++ 0 ∷ []))

pub record Clock : Type 0 where
  pub seconds : ℕ
  pub running : Bool
  pub halted : Bool
  pub stage : SimPc

-- What a reader sees.
unfoldable pub show : SimPc → ℕ → Bytes
unfolding display changing
show unborn n = replicate 16 0
show (filling i) n = replicate i b'a' ++ replicate (16 - i) 0
show (ticking i) n = display n i
show (wrapping i) n = changing n i
show _ n = display n 0

unfoldable pub advance : SimPc → Clock → Clock
advance (filling i) k = record k { stage = if ltb i 15 then filling (i + 1) else outer }
advance outer k = record k { stage = if k.running then inner else returned }
advance inner k = record k { stage = if k.halted then outer else ticking 0 }
advance (ticking i) k =
    if ltb i 15
    then record k { stage = wrapping i }
    else record k { seconds = k.seconds + 1; stage = inner }
advance (wrapping i) k = record k { stage = ticking (i + 1) }
advance _ k = k

unfoldable pub answer : Call → Clock → Option Reply × Clock
unfolding advance show copy_byte
answer sim k = (none, advance k.stage k)
answer (ioctl cmd) k =
    if cmd == hardware_device_halt
    then (some (value 0), record k { halted = true })
    else if cmd == hardware_device_resume
    then (some (value 0), record k { halted = false })
    else (some (errno einval), k)
answer (copy i) k = (some (copied (copy_byte i (show k.stage k.seconds))), k)
answer (read_returns len leaves) k = (some (if leaves then errno efault else value 16), k)
answer open_file k = (some (value 0), k)
answer close_file k = (some (value 0), k)

unfoldable pub replies : List Call → Clock → List (Option Reply)
unfolding answer
replies [] k = []
replies (c ∷ cs) k = let r = answer c k in r.0 ∷ replies cs r.1

-- The clock of a device that was just loaded.
abbrev pub started : Clock
started = record { seconds = 0; running = true; halted = false; stage = filling 0 }
