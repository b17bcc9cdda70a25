-- ===== src/Message/RoundTrip/Global.antt =====
-- Service and global requests, written and read back.
use ssh.Common.{
  ℕ, ◌≡◌, arith, Bool, true, false, some, [], ◌∷◌, ◌++◌, length, codes, same, Bytes, IsU32,
}
use mathlib.Core.Option
use ssh.Wire.Encode.{str, read_u32-u32, read_string-str, read_bool-cons}
use ssh.Message.Outbound
use ssh.Message.Outbound.{flag, flag_lem}
use ssh.Message.Inbound
use ssh.Message.Inbound.{Inbound}

pub service_request_round :
    (name : Bytes)
    → IsU32 (length name)
    → Option.map (λ p. Inbound.on_service_request p.payload) (Outbound.service false name)
      ≡ some (Inbound.service_request name)
unfolding Inbound.on_service_request Outbound.service
service_request_round name h_name = simp (read_string-str (5 ∷ []) _ name h_name)

pub service_accept_round :
    (name : Bytes)
    → IsU32 (length name)
    → Option.map (λ p. Inbound.on_service_accept p.payload) (Outbound.service_accept true name)
      ≡ some (Inbound.service_accept name)
unfolding Inbound.on_service_accept Outbound.service_accept
service_accept_round name h_name = simp (read_string-str (6 ∷ []) _ name h_name)

pub tcpip_forward_round :
    (addr : Bytes) (port : ℕ) (want : Bool)
    → IsU32 (length addr)
    → IsU32 port
    → Option.map
        (λ p. Inbound.on_global_request p.payload)
        (Outbound.tcpip_forward false addr port want)
      ≡ some (
          Inbound.global_request
            (some (codes "tcpip-forward"))
            want
            (Inbound.address (some addr) port))
unfolding Inbound.on_global_request Outbound.tcpip_forward same
tcpip_forward_round addr port want h_addr h_port = simp (
  read_string-str (80 ∷ []) _ (codes "tcpip-forward") (omega arith),
  read_bool-cons ((80 ∷ []) ++ str (codes "tcpip-forward")) _ (flag want),
  read_string-str (((80 ∷ []) ++ str (codes "tcpip-forward")) ++ flag want ∷ []) _ addr h_addr,
  read_u32-u32 ((((80 ∷ []) ++ str (codes "tcpip-forward")) ++ flag want ∷ []) ++ str addr) _ port
      h_port,
  flag_lem want,
)

pub cancel_tcpip_forward_round :
    (addr : Bytes) (port : ℕ) (want : Bool)
    → IsU32 (length addr)
    → IsU32 port
    → Option.map
        (λ p. Inbound.on_global_request p.payload)
        (Outbound.cancel_tcpip_forward false addr port want)
      ≡ some (
          Inbound.global_request
            (some (codes "cancel-tcpip-forward"))
            want
            (Inbound.address (some addr) port))
unfolding Inbound.on_global_request Outbound.cancel_tcpip_forward same
cancel_tcpip_forward_round addr port want h_addr h_port = simp (
  read_string-str (80 ∷ []) _ (codes "cancel-tcpip-forward") (omega arith),
  read_bool-cons ((80 ∷ []) ++ str (codes "cancel-tcpip-forward")) _ (flag want),
  read_string-str (((80 ∷ []) ++ str (codes "cancel-tcpip-forward")) ++ flag want ∷ []) _ addr
      h_addr,
  read_u32-u32 ((((80 ∷ []) ++ str (codes "cancel-tcpip-forward")) ++ flag want ∷ []) ++ str addr) _
      port h_port,
  flag_lem want,
)

pub stream_local_forward_round :
    (path : Bytes) (want : Bool)
    → IsU32 (length path)
    → Option.map
        (λ p. Inbound.on_global_request p.payload)
        (Outbound.stream_local_forward false path want)
      ≡ some (
          Inbound.global_request
            (some (codes "streamlocal-forward@openssh.com"))
            want
            (Inbound.path path))
unfolding Inbound.on_global_request Outbound.stream_local_forward same
stream_local_forward_round path want h_path = simp (
  read_string-str (80 ∷ []) _ (codes "streamlocal-forward@openssh.com") (omega arith),
  read_bool-cons ((80 ∷ []) ++ str (codes "streamlocal-forward@openssh.com")) _ (flag want),
  read_string-str (((80 ∷ []) ++ str (codes "streamlocal-forward@openssh.com")) ++ flag want ∷ []) _
      path h_path,
  flag_lem want,
)

pub cancel_stream_local_forward_round :
    (path : Bytes) (want : Bool)
    → IsU32 (length path)
    → Option.map
        (λ p. Inbound.on_global_request p.payload)
        (Outbound.cancel_stream_local_forward false path want)
      ≡ some (
          Inbound.global_request
            (some (codes "cancel-streamlocal-forward@openssh.com"))
            want
            (Inbound.path path))
unfolding Inbound.on_global_request Outbound.cancel_stream_local_forward same
cancel_stream_local_forward_round path want h_path = simp (
  read_string-str (80 ∷ []) _ (codes "cancel-streamlocal-forward@openssh.com") (omega arith),
  read_bool-cons ((80 ∷ []) ++ str (codes "cancel-streamlocal-forward@openssh.com")) _ (flag want),
  read_string-str
      (((80 ∷ []) ++ str (codes "cancel-streamlocal-forward@openssh.com")) ++ flag want ∷ []) _ path
      h_path,
  flag_lem want,
)

pub no_more_sessions_round :
    (want : Bool)
    → Option.map (λ p. Inbound.on_global_request p.payload) (Outbound.no_more_sessions false want)
      ≡ some (
          Inbound.global_request (some (codes "no-more-sessions@openssh.com")) want Inbound.no_data)
unfolding Inbound.on_global_request Outbound.no_more_sessions same
no_more_sessions_round want = simp (
  read_string-str (80 ∷ []) _ (codes "no-more-sessions@openssh.com") (omega arith),
  read_bool-cons ((80 ∷ []) ++ str (codes "no-more-sessions@openssh.com")) _ (flag want),
  flag_lem want,
)
