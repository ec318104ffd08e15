-- ===== src/NetworkMonitor/Replies.antt =====
-- How Assignment2's monitor answers its clients, and what it makes of two messages read at once.
use unx.Prelude.{ℕ, ◌≡◌, List, [], ◌∷◌, ◌++◌, if◌then◌else◌, ◌==◌}
use unx.Prelude.Bytes.{Bytes, bytes_eq, c_string}
use unx.NetworkMonitor.Protocol.{
  Received, got, eof, ready_text, monitor_text, monitoring_text, link_down_text, set_link_up_text,
  done_text,
}
use unx.NetworkMonitor.Clients.{count, name_of, touch_here}
use unx.NetworkMonitor.{
  Monitor, Effect, Outcome, send, close, alert, unknown_message, without, respond,
  handle_client_message,
}

-- What a client says.
pub data Report : Type 0 where
  ready monitoring link_down done : Report

abbrev pub text : Report → Bytes
text ready = ready_text
text monitoring = monitoring_text
text link_down = link_down_text
text done = done_text

-- A read that gives exactly these bytes.
abbrev pub deliver : Bytes → Received
deliver [] = eof
deliver (b ∷ bs) = got b bs

-- What the protocol asks of the monitor: "Monitor" for "Ready", "Set Link Up" for "Link Down", no
-- answer to the others, and the end of the connection for "Done".
abbrev pub Answers : Monitor → ℕ → Report → Outcome → Type 0
Answers m fd ready r = r ≡ (m, send fd monitor_text ∷ [])
Answers m fd monitoring r = r ≡ (m, [])
Answers m fd link_down r = r ≡ (m, alert (name_of fd m.client_fds) ∷ send fd set_link_up_text ∷ [])
Answers m fd done r = r ≡ (without fd m, close fd ∷ [])

-- A message that arrives alone is answered as the protocol asks.
pub handle-Answers :
    (m : Monitor) (fd : ℕ) (a : Report)
    → count fd m.client_fds ≡ 1
    → Answers m fd a (handle_client_message m fd (deliver (text a)))
unfolding handle_client_message respond c_string bytes_eq
handle-Answers m fd ready here = rw (touch_here fd m.client_fds here)
handle-Answers m fd monitoring here = rw (touch_here fd m.client_fds here)
handle-Answers m fd link_down here = rw (touch_here fd m.client_fds here)
handle-Answers m fd done here = rw (touch_here fd m.client_fds here)

-- The messages that go to one client.
unfoldable pub sent_to : ℕ → List Effect → List Bytes
sent_to fd [] = []
sent_to fd (send x m ∷ es) = if x == fd then m ∷ sent_to fd es else sent_to fd es
sent_to fd (_ ∷ es) = sent_to fd es

-- Two messages of one client that arrive in one read are taken for one unknown message: the monitor
-- prints a warning, sends nothing, and keeps the connection, whichever two they are.
pub two_at_once :
    (m : Monitor) (fd : ℕ) (a b : Report)
    → count fd m.client_fds ≡ 1
    → handle_client_message m fd (deliver (text a ++ text b))
      ≡ (m, unknown_message (name_of fd m.client_fds) (text a ++ text b) ∷ [])
unfolding handle_client_message respond c_string bytes_eq
two_at_once m fd ready ready here = rw (touch_here fd m.client_fds here)
two_at_once m fd ready _ here = rw (touch_here fd m.client_fds here)
two_at_once m fd monitoring ready here = rw (touch_here fd m.client_fds here)
two_at_once m fd monitoring _ here = rw (touch_here fd m.client_fds here)
two_at_once m fd link_down ready here = rw (touch_here fd m.client_fds here)
two_at_once m fd link_down _ here = rw (touch_here fd m.client_fds here)
two_at_once m fd done ready here = rw (touch_here fd m.client_fds here)
two_at_once m fd done _ here = rw (touch_here fd m.client_fds here)
