-- ===== src/InterfaceMonitor/Messages.antt =====
-- What the parts of Assignment2's intfMonitor say to its parent.
use unx.Prelude.{ℕ, ◌≡◌, refl, Bool, some, List, [], ◌∷◌, ◌++◌, arith, ap, ◌∙◌, if◌then◌else◌}
use mathlib.Core.Path.{ap₂}
use unx.Prelude.Bytes.{Bytes, codes, bytes_eq}
use unx.NetworkMonitor.Protocol.{Received, got, link_down_text}
use unx.InterfaceMonitor.{
  Intf, Effect, send, print, Sysfs, Tick, read_sysfs_long, read_sysfs_string, send_message,
  receive_message, heard, bring_up, report_down, read_all, stats_line, iteration, base_path,
  counters,
}

-- The messages among the effects.
unfoldable pub sent : List Effect → List Bytes
sent [] = []
sent (send m ∷ es) = m ∷ sent es
sent (_ ∷ es) = sent es

pub sent-append : (es fs : List Effect) → sent (es ++ fs) ≡ sent es ++ sent fs
unfolding sent
sent-append [] fs = refl
sent-append (send m ∷ es) fs = ap (◌∷◌ m) (sent-append es fs)
sent-append (_ ∷ es) fs = sent-append es fs

sent-read_sysfs_long : (fs : Sysfs) (path : Bytes) → sent (read_sysfs_long fs path).1 ≡ []
unfolding read_sysfs_long sent
sent-read_sysfs_long fs path = ground arith

sent-read_sysfs_string : (fs : Sysfs) (path : Bytes) → sent (read_sysfs_string fs path).1 ≡ []
unfolding read_sysfs_string sent
sent-read_sysfs_string fs path = ground arith

sent-read_all :
    (fs : Sysfs) (name : Bytes) (cs : List (Bytes × Bool × Bytes))
    → sent (read_all fs name cs).1 ≡ []
unfolding read_all sent
sent-read_all fs name [] = refl
sent-read_all fs name ((label, below, file) ∷ rest) =
    sent-append (read_sysfs_long fs _).1 (read_all fs name rest).1
    ∙ ap₂ ◌++◌ (sent-read_sysfs_long fs _) (sent-read_all fs name rest)

-- The link is down, as far as the process can read.
abbrev pub reads_down : Intf → Tick → Bool
reads_down p t =
    bytes_eq (read_sysfs_string t.sysfs (base_path p.interface_name ++ codes "operstate")).0
      (codes "down")

sent-bring_up : (p : Intf) (t : Tick) → sent (bring_up p t) ≡ []
unfolding bring_up sent
sent-bring_up p t = ground arith

-- The socket stays open, under the same name.
abbrev pub Keeps : Intf → Intf → Type 0
Keeps p q = (q.client_socket_fd ≡ p.client_socket_fd) × (q.interface_name ≡ p.interface_name)

pub receive_message-Keeps :
    (p : Intf) (r : Received)
    → (sent (receive_message p r).2 ≡ []) × Keeps p (receive_message p r).0
unfolding receive_message heard sent
receive_message-Keeps p (got b bs) = ground arith
receive_message-Keeps p _ = ground arith

report_down-Keeps :
    (p : Intf) (t : Tick) (fd : ℕ)
    → p.client_socket_fd ≡ some fd
    → (sent (report_down p t).1 ≡ link_down_text ∷ []) × Keeps p (report_down p t).0
unfolding report_down send_message sent
report_down-Keeps p t fd is = ground (
  arith,
  receive_message-Keeps p t.reply,
  sent-append (receive_message p t.reply).2 [],
  sent-append (receive_message p t.reply).2 (bring_up (receive_message p t.reply).0 t),
  sent-bring_up (receive_message p t.reply).0 t,
)

pub iteration-Keeps :
    (p : Intf) (t : Tick) (fd : ℕ)
    → p.client_socket_fd ≡ some fd
    → (sent (iteration p t).1 ≡ (if reads_down p t then link_down_text ∷ [] else []))
      × Keeps p (iteration p t).0
unfolding iteration sent
iteration-Keeps p t fd is =
    let state = read_sysfs_string t.sysfs (base_path p.interface_name ++ codes "operstate") in
    let numbers = read_all t.sysfs p.interface_name counters in
    let told = report_down p t in
    ground (
      arith,
      report_down-Keeps p t fd is,
      sent-append (state.1 ++ numbers.1) (told.1 ++ print (stats_line p t) ∷ []),
      sent-append (state.1 ++ numbers.1) (print (stats_line p t) ∷ []),
      sent-append state.1 numbers.1,
      sent-append told.1 (print (stats_line p t) ∷ []),
      sent-read_sysfs_string t.sysfs (base_path p.interface_name ++ codes "operstate"),
      sent-read_all t.sysfs p.interface_name counters,
    )
