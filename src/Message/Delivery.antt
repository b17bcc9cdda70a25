-- ===== src/Message/Delivery.antt =====
-- What the two sides make of every message, by the lemmas of Message/RoundTrip.
use ssh.Common.{
  ◌<◌, ◌≡◌, refl, ap, arith, Bool, Option, none, some, ◌∷◌, length, length-append, Bytes, lt→ltb,
}
use ssh.Message.Outbound
use ssh.Message.Outbound.{Packet}
use ssh.Message.Inbound
use ssh.Message.Inbound.{Inbound}
use ssh.Message.RoundTrip.Channel
use ssh.Message.RoundTrip.Global
use ssh.Message.RoundTrip.Opening
use ssh.Message.RoundTrip.Asking
use ssh.Message.Exchange.{
  Message, channel_success, channel_failure, channel_eof, channel_close, window_adjust,
  channel_data, channel_ext_data, open_confirmation, open_failure, disconnect, service_request,
  service_accept, tcpip_forward, cancel_tcpip_forward, stream_local_forward,
  cancel_stream_local_forward, no_more_sessions, direct_tcpip, direct_stream_local, session,
  window_change, shell, exec, exit_status, request_success, request_success_empty, request_failure,
  written, Fits, meaning, dispatch,
}

request_success_round :
    (b : Bytes)
    → 0 < length b
    → Inbound.on_request_success (81 ∷ b) ≡ Inbound.request_success (some b)
unfolding Inbound.on_request_success
request_success_round b h = rw (lt→ltb 1 (length (81 ∷ b)) (omega arith))

-- The receiver's side of a packet that may be absent.
abbrev pub received : Bool → Option Packet → Option Inbound
received old_exit none = none
received old_exit (some p) = dispatch old_exit p.payload

-- Every message of Message/Exchange (27 messages: data, window, end and close of a channel, its opening and
-- the answers to it, channel requests for a size, a shell, a command and an exit status, global requests and
-- the answers to requests, services, DISCONNECT) whose numbers and lengths fit a uint32, where the data of a
-- REQUEST_SUCCESS is not empty, can be written by its side, and the handler that the peer runs on it
-- reports the fields that were written; of a DISCONNECT with an unknown reason, PROTOCOL_ERROR.
pub received-written :
    (old_exit : Bool) (m : Message) → Fits m → received old_exit (written m) ≡ some (meaning m)
unfolding dispatch written Fits meaning Inbound.on_request_failure Inbound.on_request_success
    Outbound.cancel_stream_local_forward Outbound.cancel_tcpip_forward Outbound.channel_close
    Outbound.channel_data Outbound.channel_eof Outbound.channel_ext_data Outbound.channel_failure
    Outbound.channel_open_confirm Outbound.channel_open_fail Outbound.channel_success
    Outbound.channel_window_adjust Outbound.direct_stream_local Outbound.direct_tcpip
    Outbound.disconnect Outbound.exec Outbound.exit_status Outbound.no_more_sessions
    Outbound.request_failure Outbound.request_success Outbound.service Outbound.service_accept
    Outbound.session Outbound.shell Outbound.stream_local_forward Outbound.tcpip_forward
    Outbound.window_change
received-written old_exit (channel_success chan) h_chan =
    ap some (Channel.channel_success_round chan h_chan)
received-written old_exit (channel_failure chan) h_chan =
    ap some (Channel.channel_failure_round chan h_chan)
received-written old_exit (channel_eof chan) h_chan =
    ap some (Channel.channel_eof_round chan h_chan)
received-written old_exit (channel_close chan) h_chan =
    ap some (Channel.channel_close_round chan h_chan)
received-written old_exit (window_adjust chan amount) (h_chan, h_amount) =
    ap some (Channel.window_adjust_round chan amount h_chan h_amount)
received-written old_exit (channel_data chan b) (h_chan, h_b) =
    ap some (Channel.channel_data_round chan b h_chan h_b)
received-written old_exit (channel_ext_data chan b kind) (h_chan, h_b, h_kind) =
    ap some (Channel.channel_ext_data_round chan b kind h_chan h_b h_kind)
received-written old_exit (open_confirmation remote local window size)
      (h_remote, h_local, h_window, h_size) =
    ap some
      (Channel.open_confirmation_round remote local window size h_remote h_local h_window h_size)
received-written old_exit (open_failure remote reason desc) (h_remote, h_reason, h_desc) =
    ap some (Channel.open_failure_round remote reason desc h_remote h_reason h_desc)
received-written old_exit (disconnect code) h = ap some (Channel.disconnect_round code)
received-written old_exit (service_request name) h_name = Global.service_request_round name h_name
received-written old_exit (service_accept name) h_name = Global.service_accept_round name h_name
received-written old_exit (tcpip_forward addr port want) (h_addr, h_port) =
    Global.tcpip_forward_round addr port want h_addr h_port
received-written old_exit (cancel_tcpip_forward addr port want) (h_addr, h_port) =
    Global.cancel_tcpip_forward_round addr port want h_addr h_port
received-written old_exit (stream_local_forward path want) h_path =
    Global.stream_local_forward_round path want h_path
received-written old_exit (cancel_stream_local_forward path want) h_path =
    Global.cancel_stream_local_forward_round path want h_path
received-written old_exit (no_more_sessions want) h = Global.no_more_sessions_round want
received-written old_exit (direct_tcpip chan window size src_ip src_port dst_ip dst_port)
      (h_chan, h_window, h_size, h_src_ip, h_src_port, h_dst_ip, h_dst_port) =
    Opening.direct_tcpip_round chan window size src_ip src_port dst_ip dst_port h_chan h_window
      h_size h_src_ip h_src_port h_dst_ip h_dst_port
received-written old_exit (direct_stream_local chan window size path)
      (h_chan, h_window, h_size, h_path) =
    Opening.direct_stream_local_round chan window size path h_chan h_window h_size h_path
received-written old_exit (session chan window size) (h_chan, h_window, h_size) =
    Opening.session_round chan window size h_chan h_window h_size
received-written old_exit (window_change chan rows cols height width)
      (h_chan, h_rows, h_cols, h_height, h_width) =
    Asking.window_change_round old_exit chan rows cols height width h_chan h_rows h_cols h_height
      h_width
received-written old_exit (shell chan want) h_chan = Asking.shell_round old_exit chan want h_chan
received-written old_exit (exec chan cmd want) (h_chan, h_cmd) =
    Asking.exec_round old_exit chan cmd want h_chan h_cmd
received-written old_exit (exit_status chan status) (h_chan, h_status) =
    Asking.exit_status_round old_exit chan status h_chan h_status
received-written old_exit (request_success b) h = ap some (request_success_round b h)
received-written old_exit request_success_empty h = refl
received-written old_exit request_failure h = refl

-- The buffer that a method asks for is exactly what it fills.
abbrev pub Sized : Option Packet → Type 0
Sized none = ⊥
Sized (some p) = p.size ≡ length p.payload

-- For each of the 27 messages of Message/Exchange, the method of its side writes it, and asks for a buffer of
-- exactly the bytes that it writes.
pub Sized-written : (m : Message) → Sized (written m)
unfolding written Outbound.cancel_stream_local_forward Outbound.cancel_tcpip_forward
    Outbound.channel_close Outbound.channel_data Outbound.channel_eof Outbound.channel_ext_data
    Outbound.channel_failure Outbound.channel_open_confirm Outbound.channel_open_fail
    Outbound.channel_success Outbound.channel_window_adjust Outbound.direct_stream_local
    Outbound.direct_tcpip Outbound.disconnect Outbound.exec Outbound.exit_status
    Outbound.no_more_sessions Outbound.request_failure Outbound.request_success Outbound.service
    Outbound.service_accept Outbound.session Outbound.shell Outbound.stream_local_forward
    Outbound.tcpip_forward Outbound.window_change
Sized-written (channel_success chan) = grind (arith, length-append)
Sized-written (channel_failure chan) = grind (arith, length-append)
Sized-written (channel_eof chan) = grind (arith, length-append)
Sized-written (channel_close chan) = grind (arith, length-append)
Sized-written (window_adjust chan amount) = grind (arith, length-append)
Sized-written (channel_data chan b) = grind (arith, length-append)
Sized-written (channel_ext_data chan b kind) = grind (arith, length-append)
Sized-written (open_confirmation remote local window size) = grind (arith, length-append)
Sized-written (open_failure remote reason desc) = grind (arith, length-append)
Sized-written (disconnect code) = grind (arith, length-append)
Sized-written (service_request name) = grind (arith, length-append)
Sized-written (service_accept name) = grind (arith, length-append)
Sized-written (tcpip_forward addr port want) = grind (arith, length-append)
Sized-written (cancel_tcpip_forward addr port want) = grind (arith, length-append)
Sized-written (stream_local_forward path want) = grind (arith, length-append)
Sized-written (cancel_stream_local_forward path want) = grind (arith, length-append)
Sized-written (no_more_sessions want) = grind (arith, length-append)
Sized-written (direct_tcpip chan window size src_ip src_port dst_ip dst_port) =
    grind (arith, length-append)
Sized-written (direct_stream_local chan window size path) = grind (arith, length-append)
Sized-written (session chan window size) = grind (arith, length-append)
Sized-written (window_change chan rows cols height width) = grind (arith, length-append)
Sized-written (shell chan want) = grind (arith, length-append)
Sized-written (exec chan cmd want) = grind (arith, length-append)
Sized-written (exit_status chan status) = grind (arith, length-append)
Sized-written (request_success b) = omega arith
Sized-written request_success_empty = refl
Sized-written request_failure = refl
