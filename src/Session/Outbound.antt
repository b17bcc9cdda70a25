-- ===== src/Session/Outbound.antt =====
-- The methods of lib/protocol/Protocol.js that a session and its forwardings are made of.
-- The first argument is `_server`; `wantReply` is already a Boolean, a configuration is its fields.
use ssh.Common.{
  ℕ, ◌+◌, ◌-◌, Bool, ◌&&◌, Option, none, List, [], ◌∷◌, ◌++◌, map, length, take, drop, codes, same,
  has, leb, if◌then◌else◌, Bytes,
}
use ssh.Wire.{u32}
use ssh.Wire.Encode.{str}
use ssh.Wire.Text.{Utf8Write, utf16_length, text_field}
use ssh.Message.Outbound.{Packet, packet, flag, client_only, server_only}
use ssh.Message.Terminal.{Modes, modes_to_bytes}

-- `toUpperCase` on the letters of ASCII.
abbrev upper : ℕ → ℕ
upper c = if leb 97 c && leb c 122 then c - 32 else c

-- `signal.toUpperCase()` without a leading "SIG".
unfoldable pub bare_signal : Bytes → Bytes
bare_signal name =
    let signal = map upper name in
    if same (take 3 signal) (codes "SIG") then drop 3 signal else signal

-- The keys of SIGNALS.
abbrev pub signals : List Bytes
signals =
    codes "ABRT"
    ∷ codes "ALRM"
    ∷ codes "FPE"
    ∷ codes "HUP"
    ∷ codes "ILL"
    ∷ codes "INT"
    ∷ codes "QUIT"
    ∷ codes "SEGV"
    ∷ codes "TERM"
    ∷ codes "USR1"
    ∷ codes "USR2"
    ∷ codes "KILL"
    ∷ codes "PIPE"
    ∷ []

-- The `modes` argument: an object of modes, or bytes.
pub data PtyModes : Type 0 where
  object : Modes → PtyModes
  binary : Bytes → PtyModes

abbrev pub given_modes : PtyModes → Bytes
given_modes (object ms) = modes_to_bytes ms
given_modes (binary []) = 0 ∷ []
given_modes (binary (b ∷ bs)) = b ∷ bs

-- `if (!term || !term.length) term = 'vt100'`.
abbrev pub given_term : Bytes → Bytes
given_term [] = codes "vt100"
given_term (c ∷ cs) = c ∷ cs

-- `termLen` is `term.length`.
unfoldable pub pty : Utf8Write → Bool → ℕ → ℕ → ℕ → ℕ → ℕ → Bytes → PtyModes → Bool → Option Packet
pty u server chan rows cols height width term modes want_reply = client_only server (
    packet
      (1
        + 4
        + 4
        + 7
        + 1
        + 4
        + utf16_length (given_term term)
        + 4
        + 4
        + 4
        + 4
        + 4
        + length (given_modes modes))
      (98
        ∷ (u32 chan
            ++ (str (codes "pty-req")
                ++ (flag want_reply
                    ∷ (text_field u (given_term term)
                        ++ (u32 cols
                            ++ (u32 rows
                                ++ (u32 width
                                    ++ (u32 height ++ (str (given_modes modes) ++ [])))))))))))

-- `none` also stands for `throw new Error('Invalid signal')`.
abbrev checked_signal : Bytes → Option Packet → Option Packet
checked_signal name p = if has signals (bare_signal name) then p else none

unfoldable pub signal : Bool → ℕ → Bytes → Option Packet
signal server chan name = checked_signal name (
    client_only server (
      packet (1 + 4 + 4 + 6 + 1 + 4 + length (bare_signal name))
        (98 ∷ (u32 chan ++ (str (codes "signal") ++ (0 ∷ (str (bare_signal name) ++ [])))))))

unfoldable pub env : Bool → ℕ → Bytes → Bytes → Bool → Option Packet
env server chan key val want_reply = client_only server (
    packet (1 + 4 + 4 + 3 + 1 + 4 + length key + 4 + length val)
      (98 ∷ (u32 chan ++ (str (codes "env") ++ (flag want_reply ∷ (str key ++ (str val ++ [])))))))

unfoldable pub x11_forward : Bool → ℕ → Bytes → Bytes → Bool → ℕ → Bool → Option Packet
x11_forward server chan protocol cookie single screen want_reply = client_only server (
    packet (1 + 4 + 4 + 7 + 1 + 1 + 4 + length protocol + 4 + length cookie + 4) (
      98
      ∷ (u32 chan
          ++ (str (codes "x11-req")
              ++ (flag want_reply
                  ∷ (flag single ∷ (str protocol ++ (str cookie ++ (u32 screen ++ [])))))))))

unfoldable pub subsystem : Bool → ℕ → Bytes → Bool → Option Packet
subsystem server chan name want_reply = client_only server (
    packet (1 + 4 + 4 + 9 + 1 + 4 + length name)
      (98 ∷ (u32 chan ++ (str (codes "subsystem") ++ (flag want_reply ∷ (str name ++ []))))))

unfoldable pub agent_forward : Bool → ℕ → Bool → Option Packet
agent_forward server chan want_reply = client_only server (
    packet (1 + 4 + 4 + 26 + 1)
      (98 ∷ (u32 chan ++ (str (codes "auth-agent-req@openssh.com") ++ (flag want_reply ∷ [])))))

-- Channels that a server opens.
unfoldable pub forwarded_tcpip : Bool → ℕ → ℕ → ℕ → Bytes → ℕ → Bytes → ℕ → Option Packet
forwarded_tcpip server chan init_window max_packet bound_addr bound_port remote_addr remote_port =
    server_only server (
      packet (1 + 4 + 15 + 4 + 4 + 4 + 4 + length bound_addr + 4 + 4 + length remote_addr + 4) (
        90
        ∷ (str (codes "forwarded-tcpip")
            ++ (u32 chan
                ++ (u32 init_window
                    ++ (u32 max_packet
                        ++ (str bound_addr
                            ++ (u32 bound_port
                                ++ (str remote_addr ++ (u32 remote_port ++ []))))))))))

unfoldable pub x11 : Bool → ℕ → ℕ → ℕ → Bytes → ℕ → Option Packet
x11 server chan init_window max_packet origin_addr origin_port = server_only server (
    packet (1 + 4 + 3 + 4 + 4 + 4 + 4 + length origin_addr + 4) (
      90
      ∷ (str (codes "x11")
          ++ (u32 chan
              ++ (u32 init_window
                  ++ (u32 max_packet ++ (str origin_addr ++ (u32 origin_port ++ []))))))))

unfoldable pub auth_agent : Bool → ℕ → ℕ → ℕ → Option Packet
auth_agent server chan init_window max_packet = server_only server (
    packet (1 + 4 + 22 + 4 + 4 + 4) (
      90
      ∷ (str (codes "auth-agent@openssh.com")
          ++ (u32 chan ++ (u32 init_window ++ (u32 max_packet ++ []))))))

unfoldable pub forwarded_stream_local : Bool → ℕ → ℕ → ℕ → Bytes → Option Packet
forwarded_stream_local server chan init_window max_packet path = server_only server (
    packet (1 + 4 + 33 + 4 + 4 + 4 + 4 + length path + 4) (
      90
      ∷ (str (codes "forwarded-streamlocal@openssh.com")
          ++ (u32 chan ++ (u32 init_window ++ (u32 max_packet ++ (str path ++ (u32 0 ++ []))))))))

unfoldable pub exit_signal : Bool → ℕ → Bytes → Bool → Bytes → Option Packet
exit_signal server chan name core_dumped msg = checked_signal name (
    server_only server (
      packet (1 + 4 + 4 + 11 + 1 + 4 + length (bare_signal name) + 1 + 4 + length msg + 4) (
        98
        ∷ (u32 chan
            ++ (str (codes "exit-signal")
                ++ (0
                    ∷ (str (bare_signal name)
                        ++ (flag core_dumped ∷ (str msg ++ (str [] ++ []))))))))))

unfoldable pub ping : Packet
ping = packet 27 (80 ∷ (str (codes "keepalive@openssh.com") ++ (1 ∷ [])))
