-- ===== src/Auth/Requests.antt =====
-- The requests of a client that carry no signature, as the server's handler reads them.
use ssh.Common.{◌≡◌, arith, Option, some, [], ◌∷◌, ◌++◌, length, codes, same, Bytes, IsU32}
use ssh.Wire.Encode.{str, read_list-joined, read_string-str, read_bool-cons, skip_string-str}
use ssh.Auth.Outbound.{Queue, push, user_request}
use ssh.Auth.Inbound

-- The service that every request names.
abbrev pub connection : Bytes
connection = codes "ssh-connection"

module _ (to_asn1 : Bytes → Bytes → Option Bytes) (session_id : Bytes) (q : Queue) (user : Bytes)
    (h_user : IsU32 (length user)) where
  pub none_round :
      Inbound.on_userauth_request to_asn1 session_id (user_request user (codes "none") ([])) q
      ≡ Inbound.calls
          (push (codes "none") q)
          (Inbound.request (some user) (some connection) (codes "none") Inbound.null)
  unfolding Inbound.on_userauth_request Inbound.pk_with same
  none_round = simp (
    read_string-str (50 ∷ []) _ user h_user,
    read_string-str ((50 ∷ []) ++ str user) _ connection (omega arith),
    read_string-str (((50 ∷ []) ++ str user) ++ str connection) _ (codes "none") (omega arith),
  )

  pub keyboard_round :
      Inbound.on_userauth_request to_asn1 session_id
        (user_request user (codes "keyboard-interactive") (str [] ++ (str [] ++ [])))
        q
      ≡ Inbound.calls (push (codes "keyboard-interactive") q) (
          Inbound.request
            (some user)
            (some connection)
            (codes "keyboard-interactive")
            (Inbound.submethods []))
  unfolding Inbound.on_userauth_request Inbound.pk_with same
  keyboard_round = simp (
    read_string-str (50 ∷ []) _ user h_user,
    read_string-str ((50 ∷ []) ++ str user) _ connection (omega arith),
    read_string-str (((50 ∷ []) ++ str user) ++ str connection) _ (codes "keyboard-interactive")
        (omega arith),
    skip_string-str
        ((((50 ∷ []) ++ str user) ++ str connection) ++ str (codes "keyboard-interactive")) _ []
        (omega arith),
    read_list-joined
        (((((50 ∷ []) ++ str user) ++ str connection) ++ str (codes "keyboard-interactive"))
          ++ str [])
        _ [] _ (omega arith),
  )

  pub password_round :
      (pass : Bytes)
      → IsU32 (length pass)
      → Inbound.on_userauth_request to_asn1 session_id
          (user_request user (codes "password") (0 ∷ (str pass ++ [])))
          q
        ≡ Inbound.calls (push (codes "password") q) (
            Inbound.request
              (some user)
              (some connection)
              (codes "password")
              (Inbound.password pass))
  unfolding Inbound.on_userauth_request Inbound.pk_with same
  password_round pass h_pass = simp (
    read_string-str (50 ∷ []) _ user h_user,
    read_string-str ((50 ∷ []) ++ str user) _ connection (omega arith),
    read_string-str (((50 ∷ []) ++ str user) ++ str connection) _ (codes "password") (omega arith),
    read_bool-cons ((((50 ∷ []) ++ str user) ++ str connection) ++ str (codes "password")) _ 0,
    read_string-str
        (((((50 ∷ []) ++ str user) ++ str connection) ++ str (codes "password")) ++ 0 ∷ []) _ pass
        h_pass,
  )

  pub change_round :
      (old new : Bytes)
      → IsU32 (length old)
      → IsU32 (length new)
      → Inbound.on_userauth_request to_asn1 session_id
          (user_request user (codes "password") (1 ∷ (str old ++ (str new ++ []))))
          q
        ≡ Inbound.calls (push (codes "password") q) (
            Inbound.request
              (some user)
              (some connection)
              (codes "password")
              (Inbound.password_change old new))
  unfolding Inbound.on_userauth_request Inbound.pk_with same
  change_round old new h_old h_new = simp (
    read_string-str (50 ∷ []) _ user h_user,
    read_string-str ((50 ∷ []) ++ str user) _ connection (omega arith),
    read_string-str (((50 ∷ []) ++ str user) ++ str connection) _ (codes "password") (omega arith),
    read_bool-cons ((((50 ∷ []) ++ str user) ++ str connection) ++ str (codes "password")) _ 1,
    read_string-str
        (((((50 ∷ []) ++ str user) ++ str connection) ++ str (codes "password")) ++ 1 ∷ []) _ old
        h_old,
    read_string-str
        ((((((50 ∷ []) ++ str user) ++ str connection) ++ str (codes "password")) ++ 1 ∷ [])
          ++ str old)
        _ new h_new,
  )

  pub check_round :
      (algo key : Bytes)
      → IsU32 (length algo)
      → IsU32 (length key)
      → Inbound.on_userauth_request to_asn1 session_id
          (user_request user (codes "publickey") (0 ∷ (str algo ++ (str key ++ []))))
          q
        ≡ Inbound.calls (push (codes "publickey") q) (
            Inbound.request
              (some user)
              (some connection)
              (codes "publickey")
              (Inbound.pk_check (some algo) (some key)))
  unfolding Inbound.on_userauth_request Inbound.pk_with same
  check_round algo key h_algo h_key = simp (
    read_string-str (50 ∷ []) _ user h_user,
    read_string-str ((50 ∷ []) ++ str user) _ connection (omega arith),
    read_string-str (((50 ∷ []) ++ str user) ++ str connection) _ (codes "publickey") (omega arith),
    read_bool-cons ((((50 ∷ []) ++ str user) ++ str connection) ++ str (codes "publickey")) _ 0,
    read_string-str
        (((((50 ∷ []) ++ str user) ++ str connection) ++ str (codes "publickey")) ++ 0 ∷ []) _ algo
        h_algo,
    read_string-str
        ((((((50 ∷ []) ++ str user) ++ str connection) ++ str (codes "publickey")) ++ 0 ∷ [])
          ++ str algo)
        _ key h_key,
  )
