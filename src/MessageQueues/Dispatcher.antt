-- ===== src/MessageQueues/Dispatcher.antt =====
-- Lab8/server.cpp: the server.
use unx.Prelude.{ℕ, ◌+◌, Bool, false, Option, none, some, leb, if◌then◌else◌}
use unx.Prelude.Bytes.{Bytes, codes}
use unx.MessageQueues.Messages.{Message, Event, Queue, msgrcv, msgsnd, proceed, failing, interrupt}

pub data ServerPc : Type 0 where
  looping receiving forwarding : ServerPc
  quitting : ℕ → ServerPc
  removing exited : ServerPc

pub record Server : Type 0 where
  pub is_running : Bool
  pub msg : Message
  pub pc : ServerPc

abbrev pub quit_text : Bytes
quit_text = codes "Quit"

abbrev pub server_at : Option Queue → Server → ServerPc → Option (Option Queue × Server)
server_at q s p = some (q, record s { pc = p })

-- `msgrcv` with IPC_NOWAIT, whose result is an argument.
unfoldable pub fetch : Option (Message × Queue) → Queue → Server → Option (Option Queue × Server)
fetch none q s = server_at (some q) s looping
fetch (some r) q s = server_at (some r.1) (record s { msg = r.0 }) forwarding

-- The server's order to client `i`.
unfoldable pub quit_order : ℕ → Server → Message
quit_order i s = record { mtype = i; msg_buf = record s.msg.msg_buf { buf = quit_text } }

-- `main` of the server.
unfoldable pub server : ServerPc → Event → Option Queue → Server → Option (Option Queue × Server)
unfolding msgrcv msgsnd fetch quit_order
server p interrupt q s = some (q, record s { is_running = false })
server looping proceed q s = server_at q s (if s.is_running then receiving else quitting 1)
server receiving proceed none s = server_at none s looping
server receiving proceed (some q) s = fetch (msgrcv 4 q) q s
server receiving (failing g) q s = server_at q s looping
server forwarding proceed q s =
    let m : Message = record s.msg { mtype = s.msg.msg_buf.dest } in
    server_at (msgsnd m q) (record s { msg = m }) looping
server forwarding (failing g) q s =
    server_at q (record s { msg = record s.msg { mtype = s.msg.msg_buf.dest } }) looping
server (quitting i) proceed q s =
    let m = quit_order i s in
    if leb i 3
    then server_at (msgsnd m q) (record s { msg = m }) (quitting (i + 1))
    else server_at q s removing
server (quitting i) (failing g) q s =
    let m = quit_order i s in
    if leb i 3 then server_at q (record s { msg = m }) (quitting (i + 1)) else none
server removing proceed q s = server_at none s exited
server p e q s = none
