-- ===== src/ShmClients.antt =====
-- Lab10: three clients that pass one message round in shared memory, under named semaphores
-- (Lab10/client.h, client1.cpp, client2.cpp, client3.cpp).
pub mod Invariant
pub mod Safety
pub mod Rounds
pub mod Examples
use unx.Prelude.{
  ℕ, zero, suc, ◌+◌, ◌-◌, ◌*◌, ◌%◌, ◌≡◌, Bool, true, false, ◌&&◌, ◌||◌, not, Option, none, some,
  List, [], ◌∷◌, ◌++◌, ltb, ◌==◌, if◌then◌else◌,
}
use unx.Prelude.Bytes.{Bytes, codes, decimal}

abbrev pub num_messages : ℕ
num_messages = 30

abbrev pub max_retries : ℕ
max_retries = 10

-- `struct Memory`; `message` is the text in the buffer.
pub record Memory : Type 0 where
  pub packet_no : ℕ
  pub src_client_no : ℕ
  pub dest_client_no : ℕ
  pub message : Bytes

-- The two named semaphores and the segment: whether the name exists, and the value.
pub record Shared : Type 0 where
  pub mutex_named : Bool
  pub mutex : ℕ
  pub start_named : Bool
  pub start : ℕ
  pub shm_named : Bool
  pub memory : Memory

-- Where a client stands in `main`.
pub data Pc : Type 0 where
  open_mutex open_start : (retries : ℕ) → Pc
  create_mutex create_start : Pc
  wait_start : Pc  -- sem_wait(start_sem)
  get_memory attach : Pc  -- shmget, shmat
  initialise : Pc  -- the first message of client 3
  post_first post_second : Pc  -- sem_post(start_sem), twice
  loop enter : (i : ℕ) → Pc  -- the test of the `for` loop; sem_wait(mutex_sem)
  test : (i : ℕ) → Pc  -- the `if` on destClientNo
  reply_src reply_dest reply_message : (i : ℕ) → Pc
  leave : (i : ℕ) → Pc  -- sem_post(mutex_sem)
  leaving exited : (status : ℕ) → Pc  -- before and after `cleanup_clients`; 1 stands for -1

-- What a client process keeps. The flags say that the globals hold an open handle.
pub record Local : Type 0 where
  pub pc : Pc
  pub is_running : Bool
  pub mutex_open : Bool
  pub start_open : Bool
  pub attached : Bool

-- What the environment does: a call succeeds or fails, or SIGINT is delivered.
pub data Event : Type 0 where
  proceed failing interrupt : Event

-- The text of `sprintf(message, "This is message %d from client %d", i, CLIENT_NO)`.
pub packet_text : ℕ → ℕ → Bytes
packet_text i n = codes "This is message " ++ (decimal i ++ (codes " from client " ++ decimal n))

-- The destination of the reply in round `i`.
pub next_dest1 : ℕ → ℕ
next_dest1 i = 2 + i % 2

pub next_dest2 : ℕ → ℕ
next_dest2 i = 1 + 2 * (i % 2)

pub next_dest3 : ℕ → ℕ
next_dest3 i = 1 + i % 2

abbrev at_pc : Shared → Local → Pc → Option (Shared × Local)
at_pc s l p = some (s, record l { pc = p })

abbrev sigint : Local → Local
sigint l = record l { is_running = false }

-- One iteration of the message loop, an access to shared memory at a time. A wait blocks at 0. A
-- wait that SIGINT ends returns -1, which the code does not look at; above 0 there is no wait to end.
pub exchange : ℕ → (ℕ → ℕ) → Pc → Event → Shared → Local → Option (Shared × Local)
exchange n next_dest (loop i) proceed s l =
    at_pc s l (if ltb i num_messages && l.is_running then enter i else leaving 0)
exchange n next_dest (enter i) proceed s l =
    if s.mutex == 0 then none else at_pc (record s { mutex = s.mutex - 1 }) l (test i)
exchange n next_dest (enter i) interrupt s l =
    if s.mutex == 0 then at_pc s (sigint l) (test i) else some (s, sigint l)
exchange n next_dest (test i) proceed s l =
    at_pc s l (if s.memory.dest_client_no == n then reply_src i else leave i)
exchange n next_dest (reply_src i) proceed s l =
    let m = record s.memory { src_client_no = n } in
    at_pc (record s { memory = m }) l (reply_dest i)
exchange n next_dest (reply_dest i) proceed s l =
    let m = record s.memory { dest_client_no = next_dest i } in
    at_pc (record s { memory = m }) l (reply_message i)
exchange n next_dest (reply_message i) proceed s l =
    let m = record s.memory { message = packet_text (i + 1) n } in
    at_pc (record s { memory = m }) l (leave i)
exchange n next_dest (leave i) proceed s l =
    at_pc (record s { mutex = s.mutex + 1 }) l (loop (suc i))
exchange n next_dest (exited status) e s l = none
exchange n next_dest p failing s l = none
exchange n next_dest p interrupt s l = some (s, sigint l)
exchange n next_dest p proceed s l = none

-- `main` of clients 1 and 2: both semaphores are opened with retries, and `start_sem` is awaited.
pub join : ℕ → (ℕ → ℕ) → Pc → Event → Shared → Local → Option (Shared × Local)
unfolding exchange
join n d (open_mutex zero) proceed s l = at_pc s l (leaving 1)
join n d (open_mutex (suc r)) proceed s l =
    if s.mutex_named
    then some (s, record l { mutex_open = true; pc = open_start max_retries })
    else at_pc s l (open_mutex r)
join n d (open_mutex (suc r)) failing s l = at_pc s l (open_mutex r)
join n d (open_start zero) proceed s l = at_pc s l (leaving 1)
join n d (open_start (suc r)) proceed s l =
    if s.start_named
    then some (s, record l { start_open = true; pc = wait_start })
    else at_pc s l (open_start r)
join n d (open_start (suc r)) failing s l = at_pc s l (open_start r)
join n d wait_start proceed s l =
    if s.start == 0 then none else at_pc (record s { start = s.start - 1 }) l get_memory
join n d wait_start interrupt s l =
    if s.start == 0 then at_pc s (sigint l) get_memory else some (s, sigint l)
join n d get_memory proceed s l = at_pc s l (if s.shm_named then attach else leaving 1)
join n d get_memory failing s l = at_pc s l (leaving 1)
join n d attach proceed s l = some (s, record l { attached = true; pc = loop 0 })
join n d attach failing s l = at_pc s l (leaving 1)
join n d (leaving status) proceed s l = at_pc s l (exited status)
join n d p e s l = exchange n d p e s l

pub client1 : Pc → Event → Shared → Local → Option (Shared × Local)
unfolding join next_dest1
client1 = join 1 next_dest1

pub client2 : Pc → Event → Shared → Local → Option (Shared × Local)
unfolding join next_dest2
client2 = join 2 next_dest2

-- `main` of client 3, which creates the semaphores and the segment, and removes their names.
pub client3 : Pc → Event → Shared → Local → Option (Shared × Local)
unfolding exchange next_dest3
client3 create_mutex proceed s l = some (
  record s { mutex_named = true; mutex = if s.mutex_named then s.mutex else 1 },
  record l { mutex_open = true; pc = create_start },
)
client3 create_mutex failing s l = at_pc s l (leaving 1)
client3 create_start proceed s l = some (
  record s { start_named = true; start = if s.start_named then s.start else 0 },
  record l { start_open = true; pc = get_memory },
)
client3 create_start failing s l = at_pc s l (leaving 1)
client3 get_memory proceed s l = at_pc (record s { shm_named = true }) l attach
client3 get_memory failing s l = at_pc s l (leaving 1)
client3 attach proceed s l = some (s, record l { attached = true; pc = initialise })
client3 attach failing s l = at_pc s l (leaving 1)
client3 initialise proceed s l =
    let m = record s.memory { src_client_no = 3; dest_client_no = 1; message = packet_text 0 3 } in
    at_pc (record s { memory = m }) l post_first
client3 post_first proceed s l = at_pc (record s { start = s.start + 1 }) l post_second
client3 post_second proceed s l = at_pc (record s { start = s.start + 1 }) l (loop 0)
client3 (leaving status) proceed s l = some (
  record s {
    shm_named = s.shm_named && not l.attached;
    mutex_named = s.mutex_named && not l.mutex_open;
    start_named = s.start_named && not l.start_open;
  },
  record l { pc = exited status },
)
client3 p e s l = exchange 3 next_dest3 p e s l

pub data Client : Type 0 where
  one two three : Client

-- The three processes over what they share.
pub record World : Type 0 where
  pub shared : Shared
  pub p1 : Local
  pub p2 : Local
  pub p3 : Local

abbrev pub local : World → Client → Local
local w one = w.p1
local w two = w.p2
local w three = w.p3

abbrev pub after {ℓ κ} : {A : Type ℓ} {B : Type κ} → Option A → (A → B) → Option B
after none f = none
after (some a) f = some (f a)

-- One client makes its next step, if it can.
pub step : World → Client → Event → Option World
step w one e = after (client1 w.p1.pc e w.shared w.p1) (λ r. record w { shared = r.0; p1 = r.1 })
step w two e = after (client2 w.p2.pc e w.shared w.p2) (λ r. record w { shared = r.0; p2 = r.1 })
step w three e = after (client3 w.p3.pc e w.shared w.p3) (λ r. record w { shared = r.0; p3 = r.1 })

abbrev idle : Pc → Local
idle p = record {
  pc = p;
  is_running = true;
  mutex_open = false;
  start_open = false;
  attached = false;
}

-- No name exists; a new segment holds zeros.
abbrev pub fresh : World
fresh = record {
  shared = record {
    mutex_named = false;
    mutex = 0;
    start_named = false;
    start = 0;
    shm_named = false;
    memory = record { packet_no = 0; src_client_no = 0; dest_client_no = 0; message = [] };
  };
  p1 = idle (open_mutex max_retries);
  p2 = idle (open_mutex max_retries);
  p3 = idle create_mutex;
}

-- SIGINT that ends a wait in `sem_wait`.
abbrev pub breaks_wait : Pc → Event → Bool
breaks_wait (enter i) interrupt = true
breaks_wait wait_start interrupt = true
breaks_wait _ _ = false

-- Worlds that some schedule reaches; with `calm`, no signal arrives during a wait.
pub data Reach (calm : Bool) : World → Type 0 where
  start : Reach calm fresh
  later :
      {w w' : World} (c : Client) (e : Event)
      → Reach calm w
      → (calm && breaks_wait (local w c).pc e) ≡ false
      → step w c e ≡ some w'
      → Reach calm w'

-- A schedule: which client moves, and what its environment does.
pub run : World → List (Client × Event) → Option World
run w [] = some w
run w ((c, e) ∷ cs) = elim (step w c e) [ none ↦ none | some w' ↦ run w' cs ]
