-- ===== src/Auth/Signed.antt =====
-- Signed requests: what the client's callback signs and what the server verifies.
use ssh.Common.{
  ◌+◌, ◌<◌, ◌≡◌, sym, ap, ◌∙◌, arith, true, Option, some, [], ◌∷◌, ◌++◌, append_assoc, append-nil,
  length, length-append, take, drop, take-append, drop-append, codes, same, same_refl, ltb, lt→ltb,
  Bytes, IsU32,
}
use ssh.Wire.{u32}
use ssh.Wire.Encode.{str, at, read_string-str, read_bool-cons}
use ssh.Auth.Outbound.{
  Queue, push, PubKey, key_type, key_bytes, user_request, pk_request, hostbased_request,
  signature_field,
}
use ssh.Auth.Inbound
use ssh.Auth.Inbound.{bare_signature}
use ssh.Auth.Requests.{connection}

field_length :
    (algo sig : Bytes) → length (str algo ++ (str sig ++ [])) ≡ 4 + length algo + 4 + length sig
field_length algo sig = omega (
  arith,
  length-append (str algo) (str sig ++ []),
  length-append (str sig) [],
  length-append (u32 (length algo)) algo,
  length-append (u32 (length sig)) sig,
)

-- The signature field is a string of two strings.
signature_field_lem :
    (algo sig : Bytes) → signature_field algo sig ≡ str (str algo ++ (str sig ++ [])) ++ []
signature_field_lem algo sig =
    ap (λ n. u32 n ++ (str algo ++ (str sig ++ []))) (sym (field_length algo sig))
    ∙ sym (append-nil _)

-- What stands behind the name and a length.
drop_name : (algo sig : Bytes) → drop (4 + length algo + 4) (str algo ++ (str sig ++ [])) ≡ sig
drop_name algo sig =
    let front = u32 (length algo) ++ (algo ++ u32 (length sig)) in
    let size : 4 + length algo + 4 ≡ length front =
      omega (arith, length-append algo (u32 (length sig))) in
    let whole : str algo ++ (str sig ++ []) ≡ front ++ sig =
      ap (λ x. u32 (length algo) ++ x)
        (ap (λ x. algo ++ (u32 (length sig) ++ x)) (append-nil sig)
          ∙ sym (append_assoc algo (u32 (length sig)) sig)) in
    ap (λ n. drop n (str algo ++ (str sig ++ []))) size
    ∙ ap (drop (length front)) whole
    ∙ drop-append front sig

-- The receiver drops the name again, of a signature that is not empty.
bare_signature_lem :
    (algo sig : Bytes) → 0 < length sig → bare_signature algo (str algo ++ (str sig ++ [])) ≡ sig
bare_signature_lem algo sig h =
    let long : ltb (4 + length algo + 4) (length (str algo ++ (str sig ++ []))) ≡ true =
      lt→ltb _ _ (omega (arith, field_length algo sig)) in
    rw (long, take-append algo (str sig ++ []), same_refl algo) (drop_name algo sig)

-- The request up to the signature, of the whole request.
take_request :
    (pre request rest payload : Bytes)
    → pre ≡ request
    → payload ≡ request ++ rest
    → take (length pre) payload ≡ request
take_request pre request rest payload e ep = rw (e, ep) (take-append request rest)

module _ (to_asn1 : Bytes → Bytes → Option Bytes)
    (session_id payload pre request algo sig asn : Bytes) (h_algo : IsU32 (length algo))
    (h_sig : IsU32 (4 + length algo + 4 + length sig)) (some_sig : 0 < length sig)
    (conv : to_asn1 sig algo ≡ some asn) where
  pub pk_with_lem :
      (key : Bytes)
      → IsU32 (length key)
      → take (length ((pre ++ str algo) ++ str key)) payload ≡ request
      → (Inbound.pk_with to_asn1 session_id payload
          (some true)
          (at pre (str algo ++ (str key ++ signature_field algo sig)))).0
        ≡ Inbound.found (Inbound.pk_signed algo (some key) asn (str session_id ++ request))
  unfolding Inbound.pk_with
  pk_with_lem key h_key before =
      let fits : IsU32 (length (str algo ++ (str sig ++ []))) =
        omega (arith, field_length algo sig) in
      rw (signature_field_lem algo sig) (
        simp (
          read_string-str pre _ algo h_algo,
          read_string-str (pre ++ str algo) _ key h_key,
          read_string-str ((pre ++ str algo) ++ str key) [] (str algo ++ (str sig ++ [])) fits,
          Inbound.position-at ((pre ++ str algo) ++ str key),
          bare_signature_lem algo sig some_sig,
          conv,
          before,
        ))

  pub host_data_lem :
      (key host local_user : Bytes)
      → IsU32 (length key)
      → IsU32 (length host)
      → IsU32 (length local_user)
      → take (length ((((pre ++ str algo) ++ str key) ++ str host) ++ str local_user)) payload
        ≡ request
      → (Inbound.host_data to_asn1 session_id payload (
          at pre (
            str algo ++ (str key ++ (str host ++ (str local_user ++ signature_field algo sig)))))).0
        ≡ Inbound.found (
            Inbound.hostbased algo
              (some key)
              asn
              (str session_id ++ request)
              (some host)
              (some local_user))
  unfolding Inbound.host_data
  host_data_lem key host local_user h_key h_host h_local before =
      let fits : IsU32 (length (str algo ++ (str sig ++ []))) =
        omega (arith, field_length algo sig) in
      let p = ((pre ++ str algo) ++ str key) ++ str host in
      rw (signature_field_lem algo sig) (
        simp (
          read_string-str pre _ algo h_algo,
          read_string-str (pre ++ str algo) _ key h_key,
          read_string-str ((pre ++ str algo) ++ str key) _ host h_host,
          read_string-str p _ local_user h_local,
          read_string-str (p ++ str local_user) [] (str algo ++ (str sig ++ [])) fits,
          Inbound.position-at (p ++ str local_user),
          bare_signature_lem algo sig some_sig,
          conv,
          before,
        ))

-- The fields before the ones of the method.
abbrev front : Bytes → Bytes → Bytes
front user method = ((50 ∷ [] ++ str user) ++ str connection) ++ str method

front-lem : (user method rest : Bytes) → user_request user method rest ≡ front user method ++ rest
front-lem user method rest = simp (append_assoc)

module _ (to_asn1 : Bytes → Bytes → Option Bytes) (session_id : Bytes) (q : Queue)
    (user sig asn : Bytes) (key : PubKey) (h_user : IsU32 (length user))
    (h_algo : IsU32 (length (key_type key))) (h_key : IsU32 (length (key_bytes key)))
    (h_sig : IsU32 (4 + length (key_type key) + 4 + length sig)) (some_sig : 0 < length sig)
    (conv : to_asn1 sig (key_type key) ≡ some asn) where
  pub pk_signed_round :
      Inbound.on_userauth_request to_asn1 session_id
        (pk_request user key true (signature_field (key_type key) sig))
        q
      ≡ Inbound.calls (push (codes "publickey") q) (
          Inbound.request (some user) (some connection) (codes "publickey") (
            Inbound.pk_signed
              (key_type key)
              (some (key_bytes key))
              asn
              (str session_id ++ pk_request user key true [])))
  unfolding Inbound.on_userauth_request same
  pk_signed_round =
      let algo = key_type key in
      let name = codes "publickey" in
      let p = front user name in
      let whole = pk_request user key true (signature_field algo sig) in
      let before : take (length (((p ++ 1 ∷ []) ++ str algo) ++ str (key_bytes key))) whole
          ≡ pk_request user key true [] =
        take_request (((p ++ 1 ∷ []) ++ str algo) ++ str (key_bytes key))
          (pk_request user key true []) (signature_field algo sig) whole
          (simp (append_assoc, append-nil)) (simp (append_assoc, append-nil)) in
      simp (
        read_string-str (50 ∷ []) _ user h_user,
        read_string-str ((50 ∷ []) ++ str user) _ connection (omega arith),
        read_string-str (((50 ∷ []) ++ str user) ++ str connection) _ name (omega arith),
        read_bool-cons p _ 1,
        pk_with_lem to_asn1 session_id whole (p ++ 1 ∷ []) (pk_request user key true []) algo sig
            asn h_algo h_sig some_sig conv (key_bytes key) h_key before,
      )

  pub hostbased_round :
      (hostname userlocal : Bytes)
      → IsU32 (length hostname)
      → IsU32 (length userlocal)
      → Inbound.on_userauth_request to_asn1 session_id
          (hostbased_request user key hostname userlocal (signature_field (key_type key) sig))
          q
        ≡ Inbound.calls (push (codes "hostbased") q) (
            Inbound.request (some user) (some connection) (codes "hostbased") (
              Inbound.hostbased
                (key_type key)
                (some (key_bytes key))
                asn
                (str session_id ++ hostbased_request user key hostname userlocal [])
                (some hostname)
                (some userlocal)))
  unfolding Inbound.on_userauth_request same
  hostbased_round hostname userlocal h_hostname h_userlocal =
      let algo = key_type key in
      let name = codes "hostbased" in
      let p = front user name in
      let request = hostbased_request user key hostname userlocal [] in
      let whole = hostbased_request user key hostname userlocal (signature_field algo sig) in
      let before : take
            (length ((((p ++ str algo) ++ str (key_bytes key)) ++ str hostname) ++ str userlocal))
            whole
          ≡ request =
        take_request ((((p ++ str algo) ++ str (key_bytes key)) ++ str hostname) ++ str userlocal)
          request (signature_field algo sig) whole (simp (append_assoc, append-nil))
          (simp (append_assoc, append-nil)) in
      simp (
        read_string-str (50 ∷ []) _ user h_user,
        read_string-str ((50 ∷ []) ++ str user) _ connection (omega arith),
        read_string-str (((50 ∷ []) ++ str user) ++ str connection) _ name (omega arith),
        host_data_lem to_asn1 session_id whole p request algo sig asn h_algo h_sig some_sig conv
            (key_bytes key) hostname userlocal h_key h_hostname h_userlocal before,
      )
