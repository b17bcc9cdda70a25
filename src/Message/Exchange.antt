-- ===== src/Message/Exchange.antt =====
-- Every message that the two sides exchange: written by Protocol.js on the side that may write it,
-- handed by its type to a handler of handlers.misc.js.
use ssh.Common.{
  ℕ, ◌<◌, Bool, true, false, Option, none, some, [], ◌∷◌, length, codes, if◌then◌else◌, ◌==◌, Bytes,
  IsU32,
}
use ssh.Message.Outbound
use ssh.Message.Outbound.{Packet}
use ssh.Message.Inbound
use ssh.Message.Inbound.{Inbound}
use ssh.Message.Request

pub data Message : Type 0 where
  channel_success : ℕ → Message
  channel_failure : ℕ → Message
  channel_eof : ℕ → Message
  channel_close : ℕ → Message
  window_adjust : ℕ → ℕ → Message
  channel_data : ℕ → Bytes → Message
  channel_ext_data : ℕ → Bytes → ℕ → Message
  open_confirmation : ℕ → ℕ → ℕ → ℕ → Message
  open_failure : ℕ → ℕ → Bytes → Message
  disconnect : ℕ → Message
  service_request : Bytes → Message
  service_accept : Bytes → Message
  tcpip_forward : Bytes → ℕ → Bool → Message
  cancel_tcpip_forward : Bytes → ℕ → Bool → Message
  stream_local_forward : Bytes → Bool → Message
  cancel_stream_local_forward : Bytes → Bool → Message
  no_more_sessions : Bool → Message
  direct_tcpip : ℕ → ℕ → ℕ → Bytes → ℕ → Bytes → ℕ → Message
  direct_stream_local : ℕ → ℕ → ℕ → Bytes → Message
  session : ℕ → ℕ → ℕ → Message
  window_change : ℕ → ℕ → ℕ → ℕ → ℕ → Message
  shell : ℕ → Bool → Message
  exec : ℕ → Bytes → Bool → Message
  exit_status : ℕ → ℕ → Message
  request_success : Bytes → Message
  request_success_empty : Message
  request_failure : Message

-- The packet, from the side that may send it.
unfoldable pub written : Message → Option Packet
written (channel_success chan) = some (Outbound.channel_success chan)
written (channel_failure chan) = some (Outbound.channel_failure chan)
written (channel_eof chan) = some (Outbound.channel_eof chan)
written (channel_close chan) = some (Outbound.channel_close chan)
written (window_adjust chan amount) = some (Outbound.channel_window_adjust chan amount)
written (channel_data chan b) = some (Outbound.channel_data chan b)
written (channel_ext_data chan b kind) = some (Outbound.channel_ext_data chan b kind)
written (open_confirmation remote local window size) =
    some (Outbound.channel_open_confirm remote local window size)
written (open_failure remote reason desc) = some (Outbound.channel_open_fail remote reason desc)
written (disconnect code) = some (Outbound.disconnect code)
written (service_request name) = Outbound.service false name
written (service_accept name) = Outbound.service_accept true name
written (tcpip_forward addr port want) = Outbound.tcpip_forward false addr port want
written (cancel_tcpip_forward addr port want) = Outbound.cancel_tcpip_forward false addr port want
written (stream_local_forward path want) = Outbound.stream_local_forward false path want
written (cancel_stream_local_forward path want) =
    Outbound.cancel_stream_local_forward false path want
written (no_more_sessions want) = Outbound.no_more_sessions false want
written (direct_tcpip chan window size src_ip src_port dst_ip dst_port) =
    Outbound.direct_tcpip false chan window size src_ip src_port dst_ip dst_port
written (direct_stream_local chan window size path) =
    Outbound.direct_stream_local false chan window size path
written (session chan window size) = Outbound.session false chan window size
written (window_change chan rows cols height width) =
    Outbound.window_change false chan rows cols height width
written (shell chan want) = Outbound.shell false chan want
written (exec chan cmd want) = Outbound.exec false chan cmd want
written (exit_status chan status) = Outbound.exit_status true chan status
written (request_success b) = some (Outbound.request_success (some b))
written request_success_empty = some (Outbound.request_success none)
written request_failure = some Outbound.request_failure

-- The lengths and numbers of a message fit their fields, and the data of a REQUEST_SUCCESS is not empty.
unfoldable pub Fits : Message → Type 0
Fits (channel_success chan) = (IsU32 chan)
Fits (channel_failure chan) = (IsU32 chan)
Fits (channel_eof chan) = (IsU32 chan)
Fits (channel_close chan) = (IsU32 chan)
Fits (window_adjust chan amount) = (IsU32 chan) × (IsU32 amount)
Fits (channel_data chan b) = (IsU32 chan) × (IsU32 (length b))
Fits (channel_ext_data chan b kind) = (IsU32 chan) × (IsU32 (length b)) × (IsU32 kind)
Fits (open_confirmation remote local window size) =
    (IsU32 remote) × (IsU32 local) × (IsU32 window) × (IsU32 size)
Fits (open_failure remote reason desc) = (IsU32 remote) × (IsU32 reason) × (IsU32 (length desc))
Fits (disconnect code) = 0 < 1
Fits (service_request name) = (IsU32 (length name))
Fits (service_accept name) = (IsU32 (length name))
Fits (tcpip_forward addr port want) = (IsU32 (length addr)) × (IsU32 port)
Fits (cancel_tcpip_forward addr port want) = (IsU32 (length addr)) × (IsU32 port)
Fits (stream_local_forward path want) = (IsU32 (length path))
Fits (cancel_stream_local_forward path want) = (IsU32 (length path))
Fits (no_more_sessions want) = 0 < 1
Fits (direct_tcpip chan window size src_ip src_port dst_ip dst_port) =
    (IsU32 chan)
    × (IsU32 window)
    × (IsU32 size)
    × (IsU32 (length src_ip))
    × (IsU32 src_port)
    × (IsU32 (length dst_ip))
    × (IsU32 dst_port)
Fits (direct_stream_local chan window size path) =
    (IsU32 chan) × (IsU32 window) × (IsU32 size) × (IsU32 (length path))
Fits (session chan window size) = (IsU32 chan) × (IsU32 window) × (IsU32 size)
Fits (window_change chan rows cols height width) =
    (IsU32 chan) × (IsU32 rows) × (IsU32 cols) × (IsU32 height) × (IsU32 width)
Fits (shell chan want) = (IsU32 chan)
Fits (exec chan cmd want) = (IsU32 chan) × (IsU32 (length cmd))
Fits (exit_status chan status) = (IsU32 chan) × (IsU32 status)
Fits (request_success b) = 0 < length b
Fits request_success_empty = 0 < 1
Fits request_failure = 0 < 1

-- What the receiver is told.
unfoldable pub meaning : Message → Inbound
meaning (channel_success chan) = Inbound.channel_success chan
meaning (channel_failure chan) = Inbound.channel_failure chan
meaning (channel_eof chan) = Inbound.channel_eof chan
meaning (channel_close chan) = Inbound.channel_close chan
meaning (window_adjust chan amount) = Inbound.window_adjust (some chan) amount
meaning (channel_data chan b) = Inbound.channel_data (some chan) b
meaning (channel_ext_data chan b kind) = Inbound.channel_ext_data (some chan) b (some kind)
meaning (open_confirmation remote local window size) =
    Inbound.open_confirmation (some remote) (some local) (some window) size none
meaning (open_failure remote reason desc) =
    Inbound.open_failure (some remote) (some reason) (some desc)
meaning (disconnect code) = Inbound.disconnect (some (Outbound.reason_sent code)) (some [])
meaning (service_request name) = Inbound.service_request name
meaning (service_accept name) = Inbound.service_accept name
meaning (tcpip_forward addr port want) =
    Inbound.global_request (some (codes "tcpip-forward")) want (Inbound.address (some addr) port)
meaning (cancel_tcpip_forward addr port want) =
    Inbound.global_request (some (codes "cancel-tcpip-forward")) want
      (Inbound.address (some addr) port)
meaning (stream_local_forward path want) =
    Inbound.global_request (some (codes "streamlocal-forward@openssh.com")) want (Inbound.path path)
meaning (cancel_stream_local_forward path want) =
    Inbound.global_request (some (codes "cancel-streamlocal-forward@openssh.com")) want
      (Inbound.path path)
meaning (no_more_sessions want) =
    Inbound.global_request (some (codes "no-more-sessions@openssh.com")) want Inbound.no_data
meaning (direct_tcpip chan window size src_ip src_port dst_ip dst_port) =
    Inbound.channel_open (some (codes "direct-tcpip")) (some chan) (some window) (some size)
      (Inbound.tcpip (some dst_ip) (some dst_port) (some src_ip) src_port)
meaning (direct_stream_local chan window size path) =
    Inbound.channel_open (some (codes "direct-streamlocal@openssh.com")) (some chan) (some window)
      (some size) (Inbound.streamlocal path)
meaning (session chan window size) =
    Inbound.channel_open (some (codes "session")) (some chan) (some window) (some size)
      Inbound.plain
meaning (window_change chan rows cols height width) =
    Inbound.channel_request (some chan) (some (codes "window-change")) false
      (Inbound.size (some cols) (some rows) (some width) height)
meaning (shell chan want) =
    Inbound.channel_request (some chan) (some (codes "shell")) want Inbound.nothing
meaning (exec chan cmd want) =
    Inbound.channel_request (some chan) (some (codes "exec")) want (Inbound.text cmd)
meaning (exit_status chan status) =
    Inbound.channel_request (some chan) (some (codes "exit-status")) false (Inbound.number status)
meaning (request_success b) = Inbound.request_success (some b)
meaning request_success_empty = Inbound.request_success none
meaning request_failure = Inbound.request_failure

-- `MESSAGE_HANDLERS[type]`, for the types of handlers.misc.js that are modelled.
unfoldable pub dispatch : Bool → Bytes → Option Inbound
dispatch old_exit [] = none
dispatch old_exit (type ∷ rest) =
    let payload = type ∷ rest in
    if type == 1
    then some (Inbound.on_disconnect payload)
    else if type == 5
    then some (Inbound.on_service_request payload)
    else if type == 6
    then some (Inbound.on_service_accept payload)
    else if type == 80
    then some (Inbound.on_global_request payload)
    else if type == 81
    then some (Inbound.on_request_success payload)
    else if type == 82
    then some (Inbound.on_request_failure payload)
    else if type == 90
    then some (Inbound.on_channel_open payload)
    else if type == 91
    then some (Inbound.on_open_confirmation payload)
    else if type == 92
    then some (Inbound.on_open_failure payload)
    else if type == 93
    then some (Inbound.on_window_adjust payload)
    else if type == 94
    then some (Inbound.on_channel_data payload)
    else if type == 95
    then some (Inbound.on_channel_ext_data payload)
    else if type == 96
    then some (Inbound.on_channel_eof payload)
    else if type == 97
    then some (Inbound.on_channel_close payload)
    else if type == 98
    then some (Request.on_channel_request old_exit payload)
    else if type == 99
    then some (Inbound.on_channel_success payload)
    else if type == 100
    then some (Inbound.on_channel_failure payload)
    else none
