-- ===== src/MessageQueues/Messages.antt =====
-- Lab8/client.h: the messages of the System V queue, and the calls on it.
use unx.Prelude.{ℕ, Option, none, some, List, [], ◌∷◌, ◌++◌, ◌==◌, if◌then◌else◌}
use unx.Prelude.Bytes.{Bytes}

pub record MesgBuffer : Type 0 where
  pub source : ℕ
  pub dest : ℕ
  pub buf : Bytes  -- up to its NUL

pub record Message : Type 0 where
  pub mtype : ℕ
  pub msg_buf : MesgBuffer

abbrev pub Queue : Type 0
Queue = List Message

-- `cout` of a received message, and a message that a client's `msgsnd` put into the queue.
pub data Effect : Type 0 where
  print : ℕ → MesgBuffer → Effect
  post : MesgBuffer → Effect

-- A failing `msgrcv` leaves in the buffer what was there.
pub data Event : Type 0 where
  proceed : Event
  failing : Message → Event
  interrupt : Event

abbrev pub after {ℓ κ} : {A : Type ℓ} {B : Type κ} → Option A → (A → B) → Option B
after none f = none
after (some a) f = some (f a)

-- The first message of type `t`, for `t` > 0.
unfoldable pub msgrcv : ℕ → Queue → Option (Message × Queue)
msgrcv t [] = none
msgrcv t (m ∷ q) =
    let rest = after (msgrcv t q) (λ r. (r.0, m ∷ r.1)) in
    if m.mtype == t then some (m, q) else rest

-- `msgsnd`, which appends, and fails when the queue was removed.
unfoldable pub msgsnd : Message → Option Queue → Option Queue
msgsnd m none = none
msgsnd m (some q) = some (q ++ m ∷ [])
