-- ===== src/Session/Exchange.antt =====
-- Every session message: written on the side that may write it, and what the peer is told.
use ssh.Common.{
  ℕ, ◌≡◌, arith, Bool, true, false, Option, none, some, length, length-append, codes, has, Bytes,
  IsU32,
}
use ssh.Message.Outbound.{Packet}
use ssh.Message.Inbound
use ssh.Message.Inbound.{Inbound}
use ssh.Message.Delivery.{Sized}
use ssh.Message.Terminal.{Modes, read_modes}
use ssh.Wire.Text.{text_field, Utf8Write, IsPlain}
use ssh.Session.Outbound
use ssh.Session.Outbound.{PtyModes, given_term, given_modes, bare_signal, signals}
use ssh.Session.Requests
use ssh.Session.Openings

pub data SessionMessage : Type 0 where
  pty : ℕ → ℕ → ℕ → ℕ → ℕ → Bytes → PtyModes → Bool → Modes → SessionMessage
  signal : ℕ → Bytes → SessionMessage
  env : ℕ → Bytes → Bytes → Bool → SessionMessage
  x11_forward : ℕ → Bytes → Bytes → Bool → ℕ → Bool → SessionMessage
  subsystem : ℕ → Bytes → Bool → SessionMessage
  agent_forward : ℕ → Bool → SessionMessage
  exit_signal : ℕ → Bytes → Bool → Bytes → SessionMessage
  forwarded_tcpip : ℕ → ℕ → ℕ → Bytes → ℕ → Bytes → ℕ → SessionMessage
  x11 : ℕ → ℕ → ℕ → Bytes → ℕ → SessionMessage
  auth_agent : ℕ → ℕ → ℕ → SessionMessage
  forwarded_stream_local : ℕ → ℕ → ℕ → Bytes → SessionMessage

-- The packet, from the side that may send it.
unfoldable pub written_session : Utf8Write → SessionMessage → Option Packet
written_session u (pty chan rows cols height width term modes want ms) =
    Outbound.pty u false chan rows cols height width term modes want
written_session u (signal chan name) = Outbound.signal false chan name
written_session u (env chan key val want) = Outbound.env false chan key val want
written_session u (x11_forward chan protocol cookie single screen want) =
    Outbound.x11_forward false chan protocol cookie single screen want
written_session u (subsystem chan name want) = Outbound.subsystem false chan name want
written_session u (agent_forward chan want) = Outbound.agent_forward false chan want
written_session u (exit_signal chan name core msg) = Outbound.exit_signal true chan name core msg
written_session u (forwarded_tcpip chan window size bound_addr bound_port remote_addr remote_port) =
    Outbound.forwarded_tcpip true chan window size bound_addr bound_port remote_addr remote_port
written_session u (x11 chan window size origin_addr origin_port) =
    Outbound.x11 true chan window size origin_addr origin_port
written_session u (auth_agent chan window size) = Outbound.auth_agent true chan window size
written_session u (forwarded_stream_local chan window size path) =
    Outbound.forwarded_stream_local true chan window size path

-- Numbers and lengths fit their fields, signals are known, the terminal name is plain, and terminal modes can be read:
-- the last argument of a `pty` is what the reader makes of them. The first argument is COMPAT.OLD_EXIT.
unfoldable pub FitsSession : Bool → SessionMessage → Type 0
FitsSession old_exit (pty chan rows cols height width term modes want ms) =
    (IsU32 chan)
    × (IsU32 rows)
    × (IsU32 cols)
    × (IsU32 height)
    × (IsU32 width)
    × (IsU32 (length (given_term term)))
    × (IsU32 (length (given_modes modes)))
    × IsPlain (given_term term)
    × (read_modes (given_modes modes) ≡ some ms)
FitsSession old_exit (signal chan name) =
    (IsU32 chan) × (IsU32 (length (bare_signal name))) × (has signals (bare_signal name) ≡ true)
FitsSession old_exit (env chan key val want) =
    (IsU32 chan) × (IsU32 (length key)) × (IsU32 (length val))
FitsSession old_exit (x11_forward chan protocol cookie single screen want) =
    (IsU32 chan) × (IsU32 (length protocol)) × (IsU32 (length cookie)) × (IsU32 screen)
FitsSession old_exit (subsystem chan name want) = (IsU32 chan) × (IsU32 (length name))
FitsSession old_exit (agent_forward chan want) = (IsU32 chan)
FitsSession old_exit (exit_signal chan name core msg) =
    (IsU32 chan)
    × (IsU32 (length msg))
    × (IsU32 (length (bare_signal name)))
    × (has signals (bare_signal name) ≡ true)
    × (old_exit ≡ false)
FitsSession old_exit
      (forwarded_tcpip chan window size bound_addr bound_port remote_addr remote_port) =
    (IsU32 chan)
    × (IsU32 window)
    × (IsU32 size)
    × (IsU32 (length bound_addr))
    × (IsU32 bound_port)
    × (IsU32 (length remote_addr))
    × (IsU32 remote_port)
FitsSession old_exit (x11 chan window size origin_addr origin_port) =
    (IsU32 chan)
    × (IsU32 window)
    × (IsU32 size)
    × (IsU32 (length origin_addr))
    × (IsU32 origin_port)
FitsSession old_exit (auth_agent chan window size) = (IsU32 chan) × (IsU32 window) × (IsU32 size)
FitsSession old_exit (forwarded_stream_local chan window size path) =
    (IsU32 chan) × (IsU32 window) × (IsU32 size) × (IsU32 (length path))

-- What the receiver is told.
unfoldable pub session_meaning : SessionMessage → Inbound
session_meaning (pty chan rows cols height width term modes want ms) =
    Inbound.channel_request (some chan) (some (codes "pty-req")) want
      (Inbound.pty (some (given_term term)) (some cols) (some rows) (some width) (some height) ms)
session_meaning (signal chan name) =
    Inbound.channel_request (some chan) (some (codes "signal")) false
      (Inbound.text (bare_signal name))
session_meaning (env chan key val want) =
    Inbound.channel_request (some chan) (some (codes "env")) want (Inbound.variable (some key) val)
session_meaning (x11_forward chan protocol cookie single screen want) =
    Inbound.channel_request (some chan) (some (codes "x11-req")) want
      (Inbound.x11 (some single) (some protocol) (some cookie) screen)
session_meaning (subsystem chan name want) =
    Inbound.channel_request (some chan) (some (codes "subsystem")) want (Inbound.text name)
session_meaning (agent_forward chan want) =
    Inbound.channel_request (some chan) (some (codes "auth-agent-req@openssh.com")) want
      Inbound.nothing
session_meaning (exit_signal chan name core msg) =
    Inbound.channel_request (some chan) (some (codes "exit-signal")) false
      (Inbound.exit_signal (some (bare_signal name)) (some core) (some msg))
session_meaning (forwarded_tcpip chan window size bound_addr bound_port remote_addr remote_port) =
    Inbound.channel_open (some (codes "forwarded-tcpip")) (some chan) (some window) (some size)
      (Inbound.tcpip (some bound_addr) (some bound_port) (some remote_addr) remote_port)
session_meaning (x11 chan window size origin_addr origin_port) =
    Inbound.channel_open (some (codes "x11")) (some chan) (some window) (some size)
      (Inbound.from_x11 (some origin_addr) origin_port)
session_meaning (auth_agent chan window size) =
    Inbound.channel_open (some (codes "auth-agent@openssh.com")) (some chan) (some window)
      (some size) Inbound.plain
session_meaning (forwarded_stream_local chan window size path) =
    Inbound.channel_open (some (codes "forwarded-streamlocal@openssh.com")) (some chan)
      (some window) (some size) (Inbound.streamlocal path)

-- A signal that is not known is not written.
abbrev SizedIf : Option Packet → Type 0
SizedIf none = Unit
SizedIf (some p) = Sized (some p)

-- For every session message that is written, the writer asks for a buffer of exactly the bytes that it writes.
pub Sized-written_session : (u : Utf8Write) (m : SessionMessage) → SizedIf (written_session u m)
unfolding text_field written_session Outbound.pty Outbound.signal Outbound.env Outbound.x11_forward
    Outbound.subsystem Outbound.agent_forward Outbound.exit_signal Outbound.forwarded_tcpip
    Outbound.x11 Outbound.auth_agent Outbound.forwarded_stream_local
Sized-written_session u (pty chan rows cols height width term modes want ms) =
    grind (arith, length-append, u.sized)
Sized-written_session u (signal chan name) = grind (arith, length-append)
Sized-written_session u (env chan key val want) = grind (arith, length-append)
Sized-written_session u (x11_forward chan protocol cookie single screen want) =
    grind (arith, length-append)
Sized-written_session u (subsystem chan name want) = grind (arith, length-append)
Sized-written_session u (agent_forward chan want) = grind (arith, length-append)
Sized-written_session u (exit_signal chan name core msg) = grind (arith, length-append)
Sized-written_session u
      (forwarded_tcpip chan window size bound_addr bound_port remote_addr remote_port) =
    grind (arith, length-append)
Sized-written_session u (x11 chan window size origin_addr origin_port) =
    grind (arith, length-append)
Sized-written_session u (auth_agent chan window size) = grind (arith, length-append)
Sized-written_session u (forwarded_stream_local chan window size path) =
    grind (arith, length-append)
