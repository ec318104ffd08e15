-- ===== src/HardwareDevice.antt =====
-- Lab5a/hardwareDevice.c and hardwareDevice.h: a character device whose buffer a kernel thread keeps
-- changing. The thread makes one access to the buffer or to a flag at a time.
use unx.Prelude.{
  ℕ, zero, suc, ◌+◌, ◌-◌, ◌*◌, ◌%◌, ◌^◌, Bool, true, false, not, List, [], ◌∷◌, ◌==◌, ltb, ◌&&◌,
  if◌then◌else◌, replicate, Option, none, some,
}
use unx.Prelude.Bytes.{Bytes}
pub mod Clock
pub mod Displays
pub mod Letters
pub mod Unloading
pub mod Halting
pub mod Examples

abbrev pub buf_len : ℕ
buf_len = 16

-- Where `hardwareSim` is; an index is that of its `for` loop.
pub data SimPc : Type 0 where
  unborn : SimPc
  filling : ℕ → SimPc
  outer inner : SimPc  -- about to look at `is_running`, at `is_halt`
  ticking wrapping : ℕ → SimPc  -- about to add one to a byte, to look whether it is above 'z'
  returned : SimPc

-- The globals; a major number of 0 is that of no device.
pub record Device : Type 0 where
  pub device_file_major_number : ℕ
  pub buffer : Bytes
  pub is_running : Bool
  pub is_halt : Bool
  pub pc : SimPc

-- `buffer[i] = b`
pub store : ℕ → ℕ → Bytes → Bytes
store i b [] = []
store zero b (c ∷ s) = b ∷ s
store (suc i) b (c ∷ s) = c ∷ store i b s

-- `buffer[i]` becomes a function of itself.
pub change : (ℕ → ℕ) → ℕ → Bytes → Bytes
change f i [] = []
change f zero (c ∷ s) = f c ∷ s
change f (suc i) (c ∷ s) = c ∷ change f i s

-- `++buffer[i];`
pub increment : ℕ → Bytes → Bytes
unfolding change
increment = change (λ c. (c + 1) % 2 ^ 8)

-- `if (buffer[i] > 'z') buffer[i] = 'a';` on a signed char, where a byte from 128 on is negative.
pub wrapped : ℕ → ℕ
wrapped c = if ltb b'z' c && ltb c 128 then b'a' else c

pub wrap : ℕ → Bytes → Bytes
unfolding change
wrap = change wrapped

-- A step of the thread. The call of msleep is a step that changes nothing, and is left out.
pub hardware_sim : SimPc → Device → Device
unfolding store increment wrap
hardware_sim unborn d = d
hardware_sim (filling i) d =
    if ltb i (buf_len - 1)
    then record d { buffer = store i b'a' d.buffer; pc = filling (i + 1) }
    else record d { buffer = store (buf_len - 1) 0 d.buffer; pc = outer }
hardware_sim outer d = record d { pc = if d.is_running then inner else returned }
hardware_sim inner d = record d { pc = if d.is_halt then outer else ticking 0 }
hardware_sim (ticking i) d =
    if ltb i (buf_len - 1)
    then record d { buffer = increment i d.buffer; pc = wrapping i }
    else record d { buffer = store (buf_len - 1) 0 d.buffer; pc = inner }
hardware_sim (wrapping i) d = record d { buffer = wrap i d.buffer; pc = ticking (i + 1) }
hardware_sim returned d = d

-- What a function of the driver returns, where `errno e` is `-e`, or a byte that copy_to_user copies.
pub data Reply : Type 0 where
  value : ℕ → Reply
  errno : ℕ → Reply
  copied : Option ℕ → Reply

abbrev pub einval : ℕ
einval = 22

abbrev pub efault : ℕ
efault = 14

-- The results of register_chrdev and of kthread_create, which have an error number where they fail.
pub data Kernel : Type 0 where
  fails : ℕ → Kernel
  gives : ℕ → Kernel

pub register_device : Kernel → Kernel → Device → Reply × Device
register_device (fails e) thread d = (errno e, d)
register_device (gives major) (fails e) d =
    (errno e, record d { device_file_major_number = major; is_running = true; is_halt = false })
register_device (gives major) (gives t) d = (
  value 0,
  record d { device_file_major_number = major; is_running = true; is_halt = false; pc = filling 0 },
)

-- unregister_chrdev is called where there is a device; the number stays.
pub unregister_device : Device → Device
unregister_device d = record d { is_running = false; is_halt = false }

-- A byte of the buffer that copy_to_user copies, as it is at that time.
pub copy_byte : ℕ → Bytes → Option ℕ
copy_byte i [] = none
copy_byte zero (c ∷ s) = some c
copy_byte (suc i) (c ∷ s) = copy_byte i s

-- What a read returns behind copy_to_user, which leaves bytes or not. The user's length is not looked at.
pub hardware_device_read : ℕ → Bool → Reply
hardware_device_read len leaves = if leaves then errno efault else value buf_len

-- `_IOW(type, nr, int*)` on a machine with pointers of 8 bytes.
abbrev iow : ℕ → ℕ → ℕ
iow t n = 2 ^ 30 + 8 * 2 ^ 16 + t * 2 ^ 8 + n

abbrev pub hardware_device_halt : ℕ
hardware_device_halt = iow b'a' b'b'

abbrev pub hardware_device_resume : ℕ
hardware_device_resume = iow b'b' b'b'

pub hardware_device_ioctl : ℕ → Device → Reply × Device
hardware_device_ioctl cmd d =
    if cmd == hardware_device_halt
    then (value 0, record d { is_halt = true })
    else if cmd == hardware_device_resume
    then (value 0, record d { is_halt = false })
    else (errno einval, d)

-- What can happen to a loaded device. A read is a `copy` for each byte, with anything between them and in any order,
-- and then its return.
pub data Call : Type 0 where
  sim : Call
  ioctl : ℕ → Call
  copy : ℕ → Call
  read_returns : ℕ → Bool → Call
  open_file close_file : Call

pub call : Call → Device → Option Reply × Device
unfolding hardware_sim hardware_device_ioctl copy_byte hardware_device_read
call sim d = (none, hardware_sim d.pc d)
call (ioctl cmd) d = let r = hardware_device_ioctl cmd d in (some r.0, r.1)
call (copy i) d = (some (copied (copy_byte i d.buffer)), d)
call (read_returns len leaves) d = (some (hardware_device_read len leaves), d)
call open_file d = (some (value 0), d)
call close_file d = (some (value 0), d)

-- The replies to a sequence of calls.
pub run : List Call → Device → List (Option Reply)
unfolding call
run [] d = []
run (c ∷ cs) d = let r = call c d in r.0 ∷ run cs r.1

-- The device after a sequence of calls.
pub after_calls : List Call → Device → Device
unfolding call
after_calls [] d = d
after_calls (c ∷ cs) d = after_calls cs (call c d).1

-- The module before it is loaded, with its static data at zero.
abbrev pub blank : Device
blank = record {
  device_file_major_number = 0;
  buffer = replicate buf_len 0;
  is_running = false;
  is_halt = false;
  pc = unborn;
}

-- The module after `hardware_device_init`, where nothing fails.
pub loaded : ℕ → Device
unfolding register_device
loaded major = (register_device (gives major) (gives 0) blank).1
