-- ===== src/InterfaceMonitor/Conversation.antt =====
-- Assignment2's two programs together: what one sends is what the other receives.
use unx.Prelude.{ℕ, ◌≡◌, refl, Bool, true, false, some, List, [], ◌∷◌, ◌++◌, arith, ◌||◌, ap, ◌∙◌}
use unx.Prelude.Bytes.{Bytes, codes, bytes_eq, bytes_eq_refl, c_string}
use unx.NetworkMonitor.Protocol.{Received, link_down_text, set_link_up_text}
use unx.NetworkMonitor.Clients.{count}
use unx.NetworkMonitor.{Monitor, handle_client_message}
use unx.NetworkMonitor.Replies.{deliver, sent_to, link_down, handle-Answers}
use unx.InterfaceMonitor.{
  Intf, Effect, Tick, set_link_up, iteration, report_down, receive_message, heard,
  read_sysfs_string, base_path, bring_up, send_message, read_all, counters, stats_line, print,
}
use unx.InterfaceMonitor.Messages.{reads_down}

-- Whether an interface process tries to bring its link up.
unfoldable pub tries_up : Bytes → List Effect → Bool
tries_up name [] = false
tries_up name (set_link_up n ∷ es) = bytes_eq n name || tries_up name es
tries_up name (_ ∷ es) = tries_up name es

tries_up-append :
    (name : Bytes) (es fs : List Effect)
    → tries_up name (es ++ fs) ≡ (tries_up name es || tries_up name fs)
unfolding tries_up
tries_up-append name [] fs = refl
tries_up-append name (set_link_up n ∷ es) fs = ground (arith, tries_up-append name es fs)
tries_up-append name (_ ∷ es) fs = tries_up-append name es fs

tries_up-report :
    (p : Intf) (t : Tick) (fd sock : ℕ)
    → p.client_socket_fd ≡ some fd
    → t.reply ≡ deliver set_link_up_text
    → t.ioctl_socket ≡ some sock
    → (tries_up p.interface_name (report_down p t).1 ≡ true) × ((report_down p t).0 ≡ p)
unfolding report_down receive_message heard send_message bring_up tries_up c_string bytes_eq
tries_up-report p t fd sock is says has = ground (arith, bytes_eq_refl p.interface_name)

iteration-reports :
    (p : Intf) (t : Tick)
    → reads_down p t ≡ true
    → tries_up p.interface_name (report_down p t).1 ≡ true
    → (report_down p t).0 ≡ p
    → (tries_up p.interface_name (iteration p t).1 ≡ true) × ((iteration p t).0 ≡ p)
unfolding iteration tries_up
iteration-reports p t down tries same = ground (
  arith,
  tries_up-append p.interface_name
      ((read_sysfs_string t.sysfs (base_path p.interface_name ++ codes "operstate")).1
        ++ (read_all t.sysfs p.interface_name counters).1)
      ((report_down p t).1 ++ print (stats_line p t) ∷ []),
  tries_up-append p.interface_name (report_down p t).1 (print (stats_line p t) ∷ []),
)

-- When an interface process finds its link down, reports it to a monitor that has its connection, and
-- receives just what the monitor sends on reading that report, it tries to bring that link up (given a
-- socket for the ioctl), and goes on in the same state.
pub link_repaired :
    (m : Monitor) (fd : ℕ) (p : Intf) (t : Tick) (own sock : ℕ)
    → count fd m.client_fds ≡ 1
    → p.client_socket_fd ≡ some own
    → reads_down p t ≡ true
    → t.ioctl_socket ≡ some sock
    → (answer : Bytes)
    → sent_to fd (handle_client_message m fd (deliver link_down_text)).1 ≡ answer ∷ []
    → t.reply ≡ deliver answer
    → (tries_up p.interface_name (iteration p t).1 ≡ true) × ((iteration p t).0 ≡ p)
unfolding sent_to
link_repaired m fd p t own sock here is down has answer sends says =
    let set_up : answer ≡ set_link_up_text = ground (arith, handle-Answers m fd link_down here) in
    let said : t.reply ≡ deliver set_link_up_text = says ∙ ap deliver set_up in
    let (tries, same) = tries_up-report p t own sock is said has in
    iteration-reports p t down tries same

-- A round that does not find the link down leaves the process as it was, and does the same whatever
-- is in its socket: "Shut Down" ends it no more than anything else.
pub iteration_deaf :
    (p : Intf) (t : Tick) (r : Received)
    → reads_down p t ≡ false
    → ((iteration p t).0 ≡ p) × (iteration p (record t { reply = r }) ≡ iteration p t)
unfolding iteration
iteration_deaf p t r up = ground arith
