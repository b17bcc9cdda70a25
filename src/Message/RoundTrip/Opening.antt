-- ===== src/Message/RoundTrip/Opening.antt =====
-- Channel opens, written and read back.
use ssh.Common.{ℕ, ◌≡◌, arith, false, some, [], ◌∷◌, ◌++◌, length, codes, same, Bytes, IsU32}
use mathlib.Core.Option
use ssh.Wire.{u32}
use ssh.Wire.Encode.{str, read_u32-u32, read_string-str}
use ssh.Message.Outbound
use ssh.Message.Outbound.{flag, flag_lem}
use ssh.Message.Inbound
use ssh.Message.Inbound.{Inbound}

pub direct_tcpip_round :
    (chan : ℕ) (window : ℕ) (size : ℕ) (src_ip : Bytes) (src_port : ℕ) (dst_ip : Bytes)
    (dst_port : ℕ)
    → IsU32 chan
    → IsU32 window
    → IsU32 size
    → IsU32 (length src_ip)
    → IsU32 src_port
    → IsU32 (length dst_ip)
    → IsU32 dst_port
    → Option.map
        (λ p. Inbound.on_channel_open p.payload)
        (Outbound.direct_tcpip false chan window size src_ip src_port dst_ip dst_port)
      ≡ some (
          Inbound.channel_open
            (some (codes "direct-tcpip"))
            (some chan)
            (some window)
            (some size)
            (Inbound.tcpip (some dst_ip) (some dst_port) (some src_ip) src_port))
unfolding Inbound.on_channel_open Outbound.direct_tcpip same
direct_tcpip_round chan window size src_ip src_port dst_ip dst_port h_chan h_window h_size h_src_ip
      h_src_port h_dst_ip h_dst_port =
    simp (
      read_string-str (90 ∷ []) _ (codes "direct-tcpip") (omega arith),
      read_u32-u32 ((90 ∷ []) ++ str (codes "direct-tcpip")) _ chan h_chan,
      read_u32-u32 (((90 ∷ []) ++ str (codes "direct-tcpip")) ++ u32 chan) _ window h_window,
      read_u32-u32 ((((90 ∷ []) ++ str (codes "direct-tcpip")) ++ u32 chan) ++ u32 window) _ size
          h_size,
      read_string-str
          (((((90 ∷ []) ++ str (codes "direct-tcpip")) ++ u32 chan) ++ u32 window) ++ u32 size) _
          dst_ip h_dst_ip,
      read_u32-u32
          ((((((90 ∷ []) ++ str (codes "direct-tcpip")) ++ u32 chan) ++ u32 window) ++ u32 size)
            ++ str dst_ip)
          _ dst_port h_dst_port,
      read_string-str
          (((((((90 ∷ []) ++ str (codes "direct-tcpip")) ++ u32 chan) ++ u32 window) ++ u32 size)
              ++ str dst_ip)
            ++ u32 dst_port)
          _ src_ip h_src_ip,
      read_u32-u32
          ((((((((90 ∷ []) ++ str (codes "direct-tcpip")) ++ u32 chan) ++ u32 window) ++ u32 size)
                ++ str dst_ip)
              ++ u32 dst_port)
            ++ str src_ip)
          _ src_port h_src_port,
    )

pub direct_stream_local_round :
    (chan : ℕ) (window : ℕ) (size : ℕ) (path : Bytes)
    → IsU32 chan
    → IsU32 window
    → IsU32 size
    → IsU32 (length path)
    → Option.map
        (λ p. Inbound.on_channel_open p.payload)
        (Outbound.direct_stream_local false chan window size path)
      ≡ some (
          Inbound.channel_open
            (some (codes "direct-streamlocal@openssh.com"))
            (some chan)
            (some window)
            (some size)
            (Inbound.streamlocal path))
unfolding Inbound.on_channel_open Outbound.direct_stream_local same
direct_stream_local_round chan window size path h_chan h_window h_size h_path = simp (
  read_string-str (90 ∷ []) _ (codes "direct-streamlocal@openssh.com") (omega arith),
  read_u32-u32 ((90 ∷ []) ++ str (codes "direct-streamlocal@openssh.com")) _ chan h_chan,
  read_u32-u32 (((90 ∷ []) ++ str (codes "direct-streamlocal@openssh.com")) ++ u32 chan) _ window
      h_window,
  read_u32-u32
      ((((90 ∷ []) ++ str (codes "direct-streamlocal@openssh.com")) ++ u32 chan) ++ u32 window) _
      size h_size,
  read_string-str
      (((((90 ∷ []) ++ str (codes "direct-streamlocal@openssh.com")) ++ u32 chan) ++ u32 window)
        ++ u32 size)
      _ path h_path,
)

pub session_round :
    (chan : ℕ) (window : ℕ) (size : ℕ)
    → IsU32 chan
    → IsU32 window
    → IsU32 size
    → Option.map (λ p. Inbound.on_channel_open p.payload) (Outbound.session false chan window size)
      ≡ some (
          Inbound.channel_open
            (some (codes "session"))
            (some chan)
            (some window)
            (some size)
            Inbound.plain)
unfolding Inbound.on_channel_open Outbound.session same
session_round chan window size h_chan h_window h_size = simp (
  read_string-str (90 ∷ []) _ (codes "session") (omega arith),
  read_u32-u32 ((90 ∷ []) ++ str (codes "session")) _ chan h_chan,
  read_u32-u32 (((90 ∷ []) ++ str (codes "session")) ++ u32 chan) _ window h_window,
  read_u32-u32 ((((90 ∷ []) ++ str (codes "session")) ++ u32 chan) ++ u32 window) _ size h_size,
)
