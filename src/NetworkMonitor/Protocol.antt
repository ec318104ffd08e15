-- ===== src/NetworkMonitor/Protocol.antt =====
-- The messages between Assignment2/networkMonitor.cpp and Assignment2/intfMonitor.cpp, and what a
-- read from a stream socket gives.
use unx.Prelude.{ℕ}
use unx.Prelude.Bytes.{Bytes, codes}

abbrev pub ready_text : Bytes
ready_text = codes "Ready"

abbrev pub monitor_text : Bytes
monitor_text = codes "Monitor"

abbrev pub monitoring_text : Bytes
monitoring_text = codes "Monitoring"

abbrev pub link_down_text : Bytes
link_down_text = codes "Link Down"

abbrev pub set_link_up_text : Bytes
set_link_up_text = codes "Set Link Up"

abbrev pub shut_down_text : Bytes
shut_down_text = codes "Shut Down"

abbrev pub done_text : Bytes
done_text = codes "Done"

-- What `recv` gives: at least one byte, the end of the stream, or an error.
pub data Received : Type 0 where
  got : (first : ℕ) → (rest : Bytes) → Received
  eof : Received
  interrupted : Received  -- EINTR
  failed : Received
