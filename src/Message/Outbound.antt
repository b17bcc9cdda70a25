-- ===== src/Message/Outbound.antt =====
-- The methods of lib/protocol/Protocol.js that write a message.
use ssh.Common.{
  leb, ◌&&◌, ℕ, ◌+◌, ◌≡◌, refl, ◌==◌, Bool, true, false, Option, none, some, [], ◌∷◌, ◌++◌, length,
  codes, if◌then◌else◌, Bytes,
}
use ssh.Wire.{u32}
use ssh.Wire.Encode.{str}
use mathlib.Core.Bool.{not}

pub record Packet : Type 0 where
  pub size : ℕ
  pub payload : Bytes

abbrev pub packet : ℕ → Bytes → Packet
packet n b = record { size = n; payload = b }

abbrev pub flag : Bool → ℕ
flag b = if b then 1 else 0

-- `throw new Error('Client-only method called in server mode')`, and the other way round.
abbrev pub client_only : Bool → Packet → Option Packet
client_only server p = if server then none else some p

abbrev pub server_only : Bool → Packet → Option Packet
server_only server p = if server then some p else none

-- Common to both sides.
unfoldable pub request_success : Option Bytes → Packet
request_success (some b) = packet (1 + length b) (81 ∷ b)
request_success none = packet 1 (81 ∷ [])

unfoldable pub request_failure : Packet
request_failure = packet 1 (82 ∷ [])

unfoldable pub channel_success : ℕ → Packet
channel_success chan = packet (1 + 4) (99 ∷ (u32 chan ++ []))

unfoldable pub channel_failure : ℕ → Packet
channel_failure chan = packet (1 + 4) (100 ∷ (u32 chan ++ []))

unfoldable pub channel_eof : ℕ → Packet
channel_eof chan = packet (1 + 4) (96 ∷ (u32 chan ++ []))

unfoldable pub channel_close : ℕ → Packet
channel_close chan = packet (1 + 4) (97 ∷ (u32 chan ++ []))

unfoldable pub channel_window_adjust : ℕ → ℕ → Packet
channel_window_adjust chan amount = packet (1 + 4 + 4) (93 ∷ (u32 chan ++ (u32 amount ++ [])))

unfoldable pub channel_data : ℕ → Bytes → Packet
channel_data chan data' = packet (1 + 4 + 4 + length data') (94 ∷ (u32 chan ++ (str data' ++ [])))

unfoldable pub channel_ext_data : ℕ → Bytes → ℕ → Packet
channel_ext_data chan data' kind =
    packet (1 + 4 + 4 + 4 + length data') (95 ∷ (u32 chan ++ (u32 kind ++ (str data' ++ []))))

unfoldable pub channel_open_confirm : ℕ → ℕ → ℕ → ℕ → Packet
channel_open_confirm remote local init_window max_packet =
    packet (1 + 4 + 4 + 4 + 4)
      (91 ∷ (u32 remote ++ (u32 local ++ (u32 init_window ++ (u32 max_packet ++ [])))))

-- The language tag is empty.
unfoldable pub channel_open_fail : ℕ → ℕ → Bytes → Packet
channel_open_fail remote reason desc =
    packet (1 + 4 + 4 + 4 + length desc + 4)
      (92 ∷ (u32 remote ++ (u32 reason ++ (str desc ++ (str [] ++ [])))))

-- VALID_DISCONNECT_REASONS has the values of DISCONNECT_REASON of constants.js; 2 is PROTOCOL_ERROR.
abbrev pub reason_sent : ℕ → ℕ
reason_sent reason = if leb 1 reason && leb reason 15 then reason else 2

unfoldable pub disconnect : ℕ → Packet
disconnect reason =
    packet (1 + 4 + 4 + 4) (1 ∷ (u32 (reason_sent reason) ++ (str [] ++ (str [] ++ []))))

-- Methods of one side; the first argument is `_server`.
unfoldable pub service : Bool → Bytes → Option Packet
service server name = client_only server (packet (1 + 4 + length name) (5 ∷ (str name ++ [])))

-- The banner, sent behind the first acceptance of 'ssh-userauth', is not in the packet.
unfoldable pub service_accept : Bool → Bytes → Option Packet
service_accept server name =
    server_only server (packet (1 + 4 + length name) (6 ∷ (str name ++ [])))

-- Both forwarding requests carry an address and a port.
abbrev address_request : ℕ → Bytes → Bytes → ℕ → Bool → Packet
address_request name_len name bind_addr bind_port want_reply =
    packet (1 + 4 + name_len + 1 + 4 + length bind_addr + 4)
      (80 ∷ (str name ++ (flag want_reply ∷ (str bind_addr ++ (u32 bind_port ++ [])))))

unfoldable pub tcpip_forward : Bool → Bytes → ℕ → Bool → Option Packet
tcpip_forward server addr port want_reply =
    client_only server (address_request 13 (codes "tcpip-forward") addr port want_reply)

unfoldable pub cancel_tcpip_forward : Bool → Bytes → ℕ → Bool → Option Packet
cancel_tcpip_forward server addr port want_reply =
    client_only server (address_request 20 (codes "cancel-tcpip-forward") addr port want_reply)

abbrev path_request : ℕ → Bytes → Bytes → Bool → Packet
path_request name_len name path want_reply =
    packet (1 + 4 + name_len + 1 + 4 + length path)
      (80 ∷ (str name ++ (flag want_reply ∷ (str path ++ []))))

unfoldable pub stream_local_forward : Bool → Bytes → Bool → Option Packet
stream_local_forward server path want_reply =
    client_only server (path_request 31 (codes "streamlocal-forward@openssh.com") path want_reply)

unfoldable pub cancel_stream_local_forward : Bool → Bytes → Bool → Option Packet
cancel_stream_local_forward server path want_reply =
    client_only server
      (path_request 38 (codes "cancel-streamlocal-forward@openssh.com") path want_reply)

unfoldable pub no_more_sessions : Bool → Bool → Option Packet
no_more_sessions server want_reply = client_only server (
    packet (1 + 4 + 28 + 1)
      (80 ∷ (str (codes "no-more-sessions@openssh.com") ++ (flag want_reply ∷ []))))

unfoldable pub direct_tcpip : Bool → ℕ → ℕ → ℕ → Bytes → ℕ → Bytes → ℕ → Option Packet
direct_tcpip server chan init_window max_packet src_ip src_port dst_ip dst_port =
    client_only server (
      packet (1 + 4 + 12 + 4 + 4 + 4 + 4 + length src_ip + 4 + 4 + length dst_ip + 4) (
        90
        ∷ (str (codes "direct-tcpip")
            ++ (u32 chan
                ++ (u32 init_window
                    ++ (u32 max_packet
                        ++ (str dst_ip
                            ++ (u32 dst_port ++ (str src_ip ++ (u32 src_port ++ []))))))))))

-- The reserved string and number are eight bytes of zero.
unfoldable pub direct_stream_local : Bool → ℕ → ℕ → ℕ → Bytes → Option Packet
direct_stream_local server chan init_window max_packet path = client_only server (
    packet (1 + 4 + 30 + 4 + 4 + 4 + 4 + length path + 4 + 4) (
      90
      ∷ (str (codes "direct-streamlocal@openssh.com")
          ++ (u32 chan
              ++ (u32 init_window
                  ++ (u32 max_packet ++ (str path ++ (str [] ++ (u32 0 ++ [])))))))))

unfoldable pub session : Bool → ℕ → ℕ → ℕ → Option Packet
session server chan init_window max_packet = client_only server (
    packet (1 + 4 + 7 + 4 + 4 + 4)
      (90 ∷ (str (codes "session") ++ (u32 chan ++ (u32 init_window ++ (u32 max_packet ++ []))))))

unfoldable pub window_change : Bool → ℕ → ℕ → ℕ → ℕ → ℕ → Option Packet
window_change server chan rows cols height width = client_only server (
    packet (1 + 4 + 4 + 13 + 1 + 4 + 4 + 4 + 4) (
      98
      ∷ (u32 chan
          ++ (str (codes "window-change")
              ++ (0 ∷ (u32 cols ++ (u32 rows ++ (u32 width ++ (u32 height ++ [])))))))))

unfoldable pub shell : Bool → ℕ → Bool → Option Packet
shell server chan want_reply = client_only server (
    packet (1 + 4 + 4 + 5 + 1) (98 ∷ (u32 chan ++ (str (codes "shell") ++ (flag want_reply ∷ [])))))

unfoldable pub exec : Bool → ℕ → Bytes → Bool → Option Packet
exec server chan cmd want_reply = client_only server (
    packet (1 + 4 + 4 + 4 + 1 + 4 + length cmd)
      (98 ∷ (u32 chan ++ (str (codes "exec") ++ (flag want_reply ∷ (str cmd ++ []))))))

unfoldable pub exit_status : Bool → ℕ → ℕ → Option Packet
exit_status server chan status = server_only server (
    packet (1 + 4 + 4 + 11 + 1 + 4)
      (98 ∷ (u32 chan ++ (str (codes "exit-status") ++ (0 ∷ (u32 status ++ []))))))

-- Reading a flag back.
pub flag_lem : (b : Bool) → not (flag b == 0) ≡ b
flag_lem true = refl
flag_lem false = refl
