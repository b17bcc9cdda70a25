-- ===== src/Auth/Malformed.antt =====
-- Requests that are cut short.
use ssh.Common.{
  ℕ, ◌<◌, ◌≡◌, arith, Option, none, some, [], ◌∷◌, ◌++◌, length, codes, same, Bytes, IsU32,
}
use ssh.Wire.{u32}
use ssh.Wire.Encode.{str, read_string-str, read_string-short, read_bool-cons}
use ssh.Auth.Outbound.{Queue, push, user_request}
use ssh.Auth.Inbound
use ssh.Auth.Requests.{connection}

module _ (to_asn1 : Bytes → Bytes → Option Bytes) (session_id : Bytes) (q : Queue) (user : Bytes)
    (h_user : IsU32 (length user)) where
  -- A public key check with an algorithm that fits, whose key claims more bytes than there are, is
  -- reported with its algorithm and without a key, where a password request (without a change) whose password
  -- claims more bytes than there are ends the connection.
  pub truncated :
      (algo : Bytes) (n : ℕ) (rest : Bytes)
      → IsU32 (length algo)
      → IsU32 n
      → length rest < n
      → (Inbound.on_userauth_request to_asn1 session_id
            (user_request user (codes "password") (0 ∷ (u32 n ++ rest)))
            q
          ≡ Inbound.fatal)
        × (Inbound.on_userauth_request to_asn1 session_id
              (user_request user (codes "publickey") (0 ∷ (str algo ++ (u32 n ++ rest))))
              q
            ≡ Inbound.calls (push (codes "publickey") q) (
                Inbound.request
                  (some user)
                  (some connection)
                  (codes "publickey")
                  (Inbound.pk_check (some algo) none)))
  unfolding Inbound.on_userauth_request Inbound.pk_with same
  truncated algo n rest h_algo h_n over =
      let first = read_string-str (50 ∷ []) in
      let second = read_string-str ((50 ∷ []) ++ str user) in
      let third = read_string-str (((50 ∷ []) ++ str user) ++ str connection) in
      let p = (((50 ∷ []) ++ str user) ++ str connection) ++ str (codes "password") in
      let k = (((50 ∷ []) ++ str user) ++ str connection) ++ str (codes "publickey") in
      (
        simp (
          first _ user h_user,
          second _ connection (omega arith),
          third _ (codes "password") (omega arith),
          read_bool-cons p _ 0,
          read_string-short (p ++ 0 ∷ []) rest n h_n over,
        ),
        simp (
          first _ user h_user,
          second _ connection (omega arith),
          third _ (codes "publickey") (omega arith),
          read_bool-cons k _ 0,
          read_string-str (k ++ 0 ∷ []) _ algo h_algo,
          read_string-short ((k ++ 0 ∷ []) ++ str algo) rest n h_n over,
        ),
      )
