-- ===== src/Auth/Tests.antt =====
-- The theorems of authentication at a user named "u", a key of type "k" and small numbers.
use ssh.Common.{
  ℕ, ◌≡◌, refl, arith, true, false, Option, none, some, List, [], ◌∷◌, ◌++◌, map, length,
  length-replicate, replicate, take, drop, codes, Bytes, inl, same,
}
use ssh.Wire.{u32}
use ssh.Wire.Encode.{str}
use ssh.Auth.Signature.{is_dss, is_ecdsa, convert_signature, sig_ssh_to_asn1}
use ssh.Auth.Numbers.{IsInteger, exact, long, bare, convert_signature-dss, convert_signature-ecdsa}
use ssh.Auth.Outbound.{
  PubKey, parsed, key_type, key_bytes, push, auth_pk_blob, auth_pk_signed, user_request,
}
use ssh.Auth.Inbound
use ssh.Auth.Inbound.{Outcome}
use ssh.Auth.Requests.{connection}
use ssh.Wire.Text.{fitting}
use ssh.Auth.Dialogue.{
  AuthMessage, pk_check, pk_ok, pk_signed, success, converse, told, FitsAuth, FitsAll, next,
  after_all, same_queue,
}
use ssh.Auth.InStep.{converse-same_queue}
use ssh.Auth.Blob.{read_request, auth_pk_signed-verified, auth_pk_blob-injective}
use ssh.Auth.Malformed.{truncated}

-- A conversion that changes nothing, as for RSA.
abbrev keep : Bytes → Bytes → Option Bytes
keep sig type = some sig

abbrev user : Bytes
user = codes "u"

abbrev key : PubKey
key = parsed (codes "k") (7 ∷ [])

abbrev talk : List AuthMessage
talk =
    pk_check user key
    ∷ pk_ok (codes "k") (7 ∷ [])
    ∷ pk_signed user key (9 ∷ []) (9 ∷ [])
    ∷ success
    ∷ []

talk-Fits : FitsAll keep keep [] talk
unfolding FitsAll FitsAuth next key_type key_bytes same
talk-Fits = (
  (omega arith, omega arith, omega arith),
  (
    (refl, omega arith, omega arith),
    ((omega arith, omega arith, omega arith, omega arith, omega arith, refl, refl), (refl, tt)),
  ),
)

converse-same_queue_example :
    converse fitting keep keep (1 ∷ []) talk (same_queue [])
    ≡ some (map (told (1 ∷ [])) talk, same_queue (after_all talk []))
converse-same_queue_example = converse-same_queue fitting keep keep (1 ∷ []) [] talk talk-Fits

abbrev blob : Bytes
blob =
    str (1 ∷ [])
    ++ (50
        ∷ (str user
            ++ (str (codes "ssh-connection")
                ++ (str (codes "publickey") ++ (1 ∷ (str (codes "k") ++ (str (7 ∷ []) ++ [])))))))

blob-given : auth_pk_blob false (1 ∷ []) user key ≡ some blob
unfolding auth_pk_blob key_type key_bytes
blob-given = refl

key-small : (length (key_type key) ≡ 1) × (length (key_bytes key) ≡ 1)
unfolding key_type key_bytes
key-small = (refl, refl)

auth_pk_signed-verified_example :
    read_request keep (1 ∷ []) [] (auth_pk_signed keep [] user key (9 ∷ []))
    ≡ some (
        Outcome.calls (push (codes "publickey") []) (
          Inbound.request
            (some user)
            (some connection)
            (codes "publickey")
            (Inbound.pk_signed (key_type key) (some (key_bytes key)) (9 ∷ []) blob)))
auth_pk_signed-verified_example =
    auth_pk_signed-verified keep keep (1 ∷ []) [] [] user key (9 ∷ []) (9 ∷ []) blob (omega arith)
      (omega (arith, key-small.0)) (omega (arith, key-small.1)) (omega (arith, key-small.0))
      (omega arith) refl refl blob-given

abbrev one_byte : Bytes
one_byte = 1 ∷ []

auth_pk_blob-injective_example :
    (one_byte ≡ one_byte)
    × (user ≡ user)
    × (key_type key ≡ key_type key)
    × (key_bytes key ≡ key_bytes key)
auth_pk_blob-injective_example =
    auth_pk_blob-injective one_byte one_byte user user key key (omega arith) (omega arith)
      (omega arith) (omega arith) (omega (arith, key-small.0)) (omega (arith, key-small.0))
      (omega (arith, key-small.1)) (omega (arith, key-small.1)) refl

truncated_example :
    (Inbound.on_userauth_request keep []
        (user_request user (codes "password") (0 ∷ (u32 9 ++ 1 ∷ [])))
        []
      ≡ Inbound.fatal)
    × (Inbound.on_userauth_request keep []
          (user_request user (codes "publickey") (0 ∷ (str (codes "ssh-rsa") ++ (u32 9 ++ 1 ∷ []))))
          []
        ≡ Inbound.calls (push (codes "publickey") []) (
            Inbound.request
              (some user)
              (some connection)
              (codes "publickey")
              (Inbound.pk_check (some (codes "ssh-rsa")) none)))
truncated_example =
    truncated keep [] [] user (omega arith) (codes "ssh-rsa") 9 (1 ∷ []) (omega arith) (omega arith)
      (omega arith)

-- Numbers of DSA: one of 20 bytes, one of 21. The writer is a length and the two numbers.
abbrev n₁ : Bytes
n₁ = 5 ∷ (6 ∷ replicate 18 7)

abbrev n₂ : Bytes
n₂ = 0 ∷ (200 ∷ replicate 19 7)

abbrev zeros : ℕ → Bytes
zeros n = replicate n 0

n₁-IsInteger : IsInteger n₁
n₁-IsInteger = exact 5 6 (replicate 18 7) refl (omega arith) (inl (omega arith))

n₂-IsInteger : IsInteger n₂
n₂-IsInteger = long (200 ∷ replicate 19 7) refl (omega arith)

abbrev ber : Bytes → Bytes → Bytes
ber r s = 48 ∷ (length r ∷ (r ++ s))

abbrev take_ber : Bytes → Option (Bytes × Bytes)
take_ber (t ∷ (n ∷ bs)) = some (take n bs, drop n bs)
take_ber _ = none

dss-known : is_dss (codes "ssh-dss") ≡ true
unfolding same
dss-known = refl

convert_signature-dss_example :
    (convert_signature take_ber zeros zeros (ber n₁ n₂) (codes "ssh-dss")
      ≡ some (bare n₁ n₁-IsInteger ++ bare n₂ n₂-IsInteger))
    × (length (bare n₁ n₁-IsInteger ++ bare n₂ n₂-IsInteger) ≡ 40)
    × (sig_ssh_to_asn1 ber zeros zeros
          (bare n₁ n₁-IsInteger ++ bare n₂ n₂-IsInteger)
          (codes "ssh-dss")
        ≡ some (ber n₁ n₂))
convert_signature-dss_example =
    convert_signature-dss zeros (λ n. length-replicate n 0) ber take_ber (codes "ssh-dss") n₁ n₂
      dss-known n₁-IsInteger n₂-IsInteger (omega arith) refl

ecdsa-known :
    (is_dss (codes "ecdsa-sha2-nistp256") ≡ false) × (is_ecdsa (codes "ecdsa-sha2-nistp256") ≡ true)
unfolding same
ecdsa-known = (refl, refl)

convert_signature-ecdsa_example :
    (convert_signature take_ber zeros zeros (ber n₁ n₂) (codes "ecdsa-sha2-nistp256")
      ≡ some (str n₁ ++ str n₂))
    × (sig_ssh_to_asn1 ber zeros zeros (str n₁ ++ str n₂) (codes "ecdsa-sha2-nistp256")
        ≡ some (ber n₁ n₂))
convert_signature-ecdsa_example =
    convert_signature-ecdsa zeros (λ n. length-replicate n 0) ber take_ber
      (codes "ecdsa-sha2-nistp256") n₁ n₂ ecdsa-known.0 ecdsa-known.1 (omega arith) (omega arith)
      refl refl
