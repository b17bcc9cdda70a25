-- ===== src/Session/Openings.antt =====
-- Channels that a server opens, written and read back.
use ssh.Common.{ℕ, ◌≡◌, arith, true, some, [], ◌∷◌, ◌++◌, length, codes, same, Bytes, IsU32}
use mathlib.Core.Option
use ssh.Wire.{u32}
use ssh.Wire.Encode.{str, read_u32-u32, read_string-str}
use ssh.Message.Inbound
use ssh.Session.Outbound
use ssh.Session.Outbound.{PtyModes, given_term, given_modes, bare_signal, signals}

pub forwarded_tcpip_round :
    (chan : ℕ) (window : ℕ) (size : ℕ) (bound_addr : Bytes) (bound_port : ℕ) (remote_addr : Bytes)
    (remote_port : ℕ)
    → IsU32 chan
    → IsU32 window
    → IsU32 size
    → IsU32 (length bound_addr)
    → IsU32 bound_port
    → IsU32 (length remote_addr)
    → IsU32 remote_port
    → Option.map
        (λ p. Inbound.on_channel_open p.payload)
        (Outbound.forwarded_tcpip true chan window size bound_addr bound_port remote_addr
          remote_port)
      ≡ some (
          Inbound.channel_open
            (some (codes "forwarded-tcpip"))
            (some chan)
            (some window)
            (some size)
            (Inbound.tcpip (some bound_addr) (some bound_port) (some remote_addr) remote_port))
unfolding Inbound.on_channel_open Outbound.forwarded_tcpip same
forwarded_tcpip_round chan window size bound_addr bound_port remote_addr remote_port h_chan h_window
      h_size h_bound_addr h_bound_port h_remote_addr h_remote_port =
    simp (
      read_string-str (90 ∷ []) _ (codes "forwarded-tcpip") (omega arith),
      read_u32-u32 ((90 ∷ []) ++ str (codes "forwarded-tcpip")) _ chan h_chan,
      read_u32-u32 (((90 ∷ []) ++ str (codes "forwarded-tcpip")) ++ u32 chan) _ window h_window,
      read_u32-u32 ((((90 ∷ []) ++ str (codes "forwarded-tcpip")) ++ u32 chan) ++ u32 window) _ size
          h_size,
      read_string-str
          (((((90 ∷ []) ++ str (codes "forwarded-tcpip")) ++ u32 chan) ++ u32 window) ++ u32 size) _
          bound_addr h_bound_addr,
      read_u32-u32
          ((((((90 ∷ []) ++ str (codes "forwarded-tcpip")) ++ u32 chan) ++ u32 window) ++ u32 size)
            ++ str bound_addr)
          _ bound_port h_bound_port,
      read_string-str
          (((((((90 ∷ []) ++ str (codes "forwarded-tcpip")) ++ u32 chan) ++ u32 window) ++ u32 size)
              ++ str bound_addr)
            ++ u32 bound_port)
          _ remote_addr h_remote_addr,
      read_u32-u32
          ((((((((90 ∷ []) ++ str (codes "forwarded-tcpip")) ++ u32 chan) ++ u32 window)
                  ++ u32 size)
                ++ str bound_addr)
              ++ u32 bound_port)
            ++ str remote_addr)
          _ remote_port h_remote_port,
    )

pub x11_round :
    (chan : ℕ) (window : ℕ) (size : ℕ) (origin_addr : Bytes) (origin_port : ℕ)
    → IsU32 chan
    → IsU32 window
    → IsU32 size
    → IsU32 (length origin_addr)
    → IsU32 origin_port
    → Option.map
        (λ p. Inbound.on_channel_open p.payload)
        (Outbound.x11 true chan window size origin_addr origin_port)
      ≡ some (
          Inbound.channel_open
            (some (codes "x11"))
            (some chan)
            (some window)
            (some size)
            (Inbound.from_x11 (some origin_addr) origin_port))
unfolding Inbound.on_channel_open Outbound.x11 same
x11_round chan window size origin_addr origin_port h_chan h_window h_size h_origin_addr
      h_origin_port =
    simp (
      read_string-str (90 ∷ []) _ (codes "x11") (omega arith),
      read_u32-u32 ((90 ∷ []) ++ str (codes "x11")) _ chan h_chan,
      read_u32-u32 (((90 ∷ []) ++ str (codes "x11")) ++ u32 chan) _ window h_window,
      read_u32-u32 ((((90 ∷ []) ++ str (codes "x11")) ++ u32 chan) ++ u32 window) _ size h_size,
      read_string-str (((((90 ∷ []) ++ str (codes "x11")) ++ u32 chan) ++ u32 window) ++ u32 size) _
          origin_addr h_origin_addr,
      read_u32-u32
          ((((((90 ∷ []) ++ str (codes "x11")) ++ u32 chan) ++ u32 window) ++ u32 size)
            ++ str origin_addr)
          _ origin_port h_origin_port,
    )

pub auth_agent_round :
    (chan : ℕ) (window : ℕ) (size : ℕ)
    → IsU32 chan
    → IsU32 window
    → IsU32 size
    → Option.map
        (λ p. Inbound.on_channel_open p.payload)
        (Outbound.auth_agent true chan window size)
      ≡ some (
          Inbound.channel_open
            (some (codes "auth-agent@openssh.com"))
            (some chan)
            (some window)
            (some size)
            Inbound.plain)
unfolding Inbound.on_channel_open Outbound.auth_agent same
auth_agent_round chan window size h_chan h_window h_size = simp (
  read_string-str (90 ∷ []) _ (codes "auth-agent@openssh.com") (omega arith),
  read_u32-u32 ((90 ∷ []) ++ str (codes "auth-agent@openssh.com")) _ chan h_chan,
  read_u32-u32 (((90 ∷ []) ++ str (codes "auth-agent@openssh.com")) ++ u32 chan) _ window h_window,
  read_u32-u32 ((((90 ∷ []) ++ str (codes "auth-agent@openssh.com")) ++ u32 chan) ++ u32 window) _
      size h_size,
)

pub forwarded_stream_local_round :
    (chan : ℕ) (window : ℕ) (size : ℕ) (path : Bytes)
    → IsU32 chan
    → IsU32 window
    → IsU32 size
    → IsU32 (length path)
    → Option.map
        (λ p. Inbound.on_channel_open p.payload)
        (Outbound.forwarded_stream_local true chan window size path)
      ≡ some (
          Inbound.channel_open
            (some (codes "forwarded-streamlocal@openssh.com"))
            (some chan)
            (some window)
            (some size)
            (Inbound.streamlocal path))
unfolding Inbound.on_channel_open Outbound.forwarded_stream_local same
forwarded_stream_local_round chan window size path h_chan h_window h_size h_path = simp (
  read_string-str (90 ∷ []) _ (codes "forwarded-streamlocal@openssh.com") (omega arith),
  read_u32-u32 ((90 ∷ []) ++ str (codes "forwarded-streamlocal@openssh.com")) _ chan h_chan,
  read_u32-u32 (((90 ∷ []) ++ str (codes "forwarded-streamlocal@openssh.com")) ++ u32 chan) _ window
      h_window,
  read_u32-u32
      ((((90 ∷ []) ++ str (codes "forwarded-streamlocal@openssh.com")) ++ u32 chan) ++ u32 window) _
      size h_size,
  read_string-str
      (((((90 ∷ []) ++ str (codes "forwarded-streamlocal@openssh.com")) ++ u32 chan) ++ u32 window)
        ++ u32 size)
      _ path h_path,
)
