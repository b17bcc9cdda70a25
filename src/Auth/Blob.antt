-- ===== src/Auth/Blob.antt =====
-- What a signature of a public key stands for: the blob that the client signs and the server verifies.
use ssh.Common.{
  ◌+◌, ◌<◌, ◌≡◌, refl, ap, arith, true, false, Option, none, some, [], ◌++◌, length, drop, codes,
  Bytes, IsU32,
}
use ssh.Wire.Encode.{str, str-injective}
use ssh.Auth.Outbound.{
  Queue, Sent, PubKey, key_type, key_bytes, push, pk_request, auth_pk_blob, auth_pk_signed,
}
use ssh.Auth.Inbound
use ssh.Auth.Inbound.{Outcome}
use ssh.Auth.Requests.{connection}
use ssh.Auth.Signed

-- What a server that reads the packet reports, `none` where none was sent.
abbrev pub read_request :
    (to_asn1 : Bytes → Bytes → Option Bytes) → Bytes → Queue → Sent → Option Outcome
read_request to_asn1 session_id q none = none
read_request to_asn1 session_id q (some (mine, p)) =
    some (Inbound.on_userauth_request to_asn1 session_id p.payload q)

module _ (to_asn1 convert : Bytes → Bytes → Option Bytes) (session_id : Bytes) (mine theirs : Queue)
    (user : Bytes) (key : PubKey) (sig wire blob : Bytes) where
  -- Where the client's callback is given `blob` to sign and answers `sig`, and all lengths fit, the
  -- request that the client sends makes the server of the same session report exactly `blob` and `sig`
  -- to verify, with the key and the user, if the conversion of `sig` for the wire, not empty, is undone.
  pub auth_pk_signed-verified :
      IsU32 (length user)
      → IsU32 (length (key_type key))
      → IsU32 (length (key_bytes key))
      → IsU32 (4 + length (key_type key) + 4 + length wire)
      → 0 < length wire
      → convert sig (key_type key) ≡ some wire
      → to_asn1 wire (key_type key) ≡ some sig
      → auth_pk_blob false session_id user key ≡ some blob
      → read_request to_asn1 session_id theirs (auth_pk_signed convert mine user key sig)
        ≡ some (
            Outcome.calls (push (codes "publickey") theirs) (
              Inbound.request
                (some user)
                (some connection)
                (codes "publickey")
                (Inbound.pk_signed (key_type key) (some (key_bytes key)) sig blob)))
  unfolding auth_pk_blob auth_pk_signed
  auth_pk_signed-verified h_user h_algo h_key h_wire some_wire there back given =
      let e : str session_id ++ pk_request user key true [] ≡ blob =
        ap (λ o. elim o [ none ↦ blob | some b ↦ b ]) given in
      rw
        (
          there,
          Signed.pk_signed_round to_asn1 session_id theirs user wire sig key h_user h_algo h_key
              h_wire some_wire back,
          e,
        )
        refl

-- A blob is signed for one session, one user and one key: two that agree, their lengths fitting a
-- uint32, have the same session id, user, key type and key.
pub auth_pk_blob-injective :
    (session_id session_id' user user' : Bytes) (key key' : PubKey)
    → IsU32 (length session_id)
    → IsU32 (length session_id')
    → IsU32 (length user)
    → IsU32 (length user')
    → IsU32 (length (key_type key))
    → IsU32 (length (key_type key'))
    → IsU32 (length (key_bytes key))
    → IsU32 (length (key_bytes key'))
    → auth_pk_blob false session_id user key ≡ auth_pk_blob false session_id' user' key'
    → (session_id ≡ session_id')
      × (user ≡ user')
      × (key_type key ≡ key_type key')
      × (key_bytes key ≡ key_bytes key')
unfolding auth_pk_blob
auth_pk_blob-injective session_id session_id' user user' key key' hs hs' hu hu' ht ht' hb hb' e =
    let whole : str session_id ++ pk_request user key true []
        ≡ str session_id' ++ pk_request user' key' true [] =
      ap (λ o. elim o [ none ↦ [] | some b ↦ b ]) e in
    let (e_session, e₀) = str-injective session_id session_id' _ _ hs hs' whole in
    let (e_user, e₁) = str-injective user user' _ _ hu hu' (ap (drop 1) e₀) in
    let (_, e₂) = str-injective connection connection _ _ (omega arith) (omega arith) e₁ in
    let (_, e₃) =
      str-injective (codes "publickey") (codes "publickey") _ _ (omega arith) (omega arith) e₂ in
    let (e_type, e₄) = str-injective (key_type key) (key_type key') _ _ ht ht' (ap (drop 1) e₃) in
    let (e_key, _) = str-injective (key_bytes key) (key_bytes key') [] [] hb hb' e₄ in
    (e_session, e_user, e_type, e_key)
