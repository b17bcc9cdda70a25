-- ===== src/Auth/Outbound.antt =====
-- The methods of lib/protocol/Protocol.js for ssh-userauth. The first argument is `_server`, the second
-- `_authsQueue`; `none` is an exception. A text that may be absent is empty where it is.
use ssh.Common.{
  ℕ, ◌+◌, Bool, true, false, Option, none, some, List, [], ◌∷◌, ◌++◌, map, length, take, drop,
  codes, same, leb, ◌&&◌, if◌then◌else◌, Bytes,
}
use ssh.Wire.{u32, u32_at}
use ssh.Wire.Text.{Utf8Write, utf16_length, text_field}
use ssh.Wire.Encode.{str, joined}
use ssh.Message.Outbound.{Packet, packet, flag}

-- The queue afterwards, and the packet.
abbrev pub Sent : Type 0
Sent = Option (List Bytes × Packet)

abbrev pub Queue : Type 0
Queue = List Bytes

abbrev pub shift : Queue → Queue
shift [] = []
shift (a ∷ as') = as'

abbrev pub push : Bytes → Queue → Queue
push a q = q ++ a ∷ []

abbrev pub from_client : Bool → Queue → Packet → Sent
from_client server q p = if server then none else some (q, p)

-- What each method request begins with; `n` is the length of `user`.
abbrev pub user_request : Bytes → Bytes → Bytes → Bytes
user_request user method rest =
    50 ∷ (str user ++ (str (codes "ssh-connection") ++ (str method ++ rest)))

abbrev pub new_length : Bytes → ℕ
new_length [] = 0
new_length (c ∷ cs) = 4 + length (c ∷ cs)

abbrev pub new_field : Bytes → Bytes
new_field [] = []
new_field (c ∷ cs) = str (c ∷ cs) ++ []

abbrev pub given : Bytes → Bool
given [] = false
given (c ∷ cs) = true

unfoldable pub auth_password : Bool → Queue → Bytes → Bytes → Bytes → Sent
auth_password server q user password new_password = from_client server (push (codes "password") q) (
    packet
      (1 + 4 + length user + 4 + 14 + 4 + 8 + 1 + 4 + length password + new_length new_password)
      (user_request user (codes "password")
        (flag (given new_password) ∷ (str password ++ new_field new_password))))

-- A parsed key with its type, or the bytes of a public key.
pub data PubKey : Type 0 where
  parsed : Bytes → Bytes → PubKey
  encoded : Bytes → PubKey

unfoldable pub key_type : PubKey → Bytes
key_type (parsed type b) = type
key_type (encoded b) = take (u32_at b 0) (drop 4 b)

unfoldable pub key_bytes : PubKey → Bytes
key_bytes (parsed type b) = b
key_bytes (encoded b) = b

-- The public key request up to its signature.
abbrev pub pk_request : Bytes → PubKey → Bool → Bytes → Bytes
pk_request user key signing rest =
    user_request user (codes "publickey")
      (flag signing ∷ (str (key_type key) ++ (str (key_bytes key) ++ rest)))

-- Without a callback that signs.
unfoldable pub auth_pk_check : Bool → Queue → Bytes → PubKey → Sent
auth_pk_check server q user key = from_client server (push (codes "publickey") q) (
    packet
      (1
        + 4
        + length user
        + 4
        + 14
        + 4
        + 9
        + 1
        + 4
        + length (key_type key)
        + 4
        + length (key_bytes key))
      (pk_request user key false []))

-- What the callback is asked to sign.
unfoldable pub auth_pk_blob : Bool → Bytes → Bytes → PubKey → Option Bytes
auth_pk_blob server session_id user key =
    if server then none else some (str session_id ++ pk_request user key true [])

abbrev pub signature_field : Bytes → Bytes → Bytes
signature_field algo sig = u32 (4 + length algo + 4 + length sig) ++ (str algo ++ (str sig ++ []))

abbrev pub then_send : Option Bytes → (Bytes → Sent) → Sent
then_send none f = none
then_send (some s) f = f s

-- What the callback's answer, a signature, makes it send; the queue is the one of that moment and
-- `convert` is `convertSignature`.
unfoldable pub auth_pk_signed :
    (convert : Bytes → Bytes → Option Bytes) → Queue → Bytes → PubKey → Bytes → Sent
auth_pk_signed convert q user key signature =
    let algo = key_type key in
    then_send (convert signature algo) (λ sig. some (
      push (codes "publickey") q,
      packet
          (1
            + 4
            + length user
            + 4
            + 14
            + 4
            + 9
            + 1
            + 4
            + length algo
            + 4
            + length (key_bytes key)
            + 4
            + 4
            + length algo
            + 4
            + length sig)
          (pk_request user key true (signature_field algo sig)),
    ))

abbrev pub hostbased_request : Bytes → PubKey → Bytes → Bytes → Bytes → Bytes
hostbased_request user key hostname userlocal rest =
    user_request user (codes "hostbased")
      (str (key_type key) ++ (str (key_bytes key) ++ (str hostname ++ (str userlocal ++ rest))))

unfoldable pub auth_hostbased_blob : Bool → Bytes → Bytes → PubKey → Bytes → Bytes → Option Bytes
auth_hostbased_blob server session_id user key hostname userlocal =
    if server
    then none
    else some (str session_id ++ hostbased_request user key hostname userlocal [])

-- The callback's part; `bufferCopy` takes the request from the blob, behind the session's id.
unfoldable pub auth_hostbased_signed :
    (convert : Bytes → Bytes → Option Bytes) → Queue → Bytes → Bytes → PubKey → Bytes → Sent
auth_hostbased_signed convert q data' session_id key signature =
    let algo = key_type key in
    let request = drop (4 + length session_id) data' in
    then_send (convert signature algo) (λ sig. some (
      push (codes "hostbased") q,
      packet (length request + 4 + 4 + length algo + 4 + length sig)
          (request ++ signature_field algo sig),
    ))

unfoldable pub auth_keyboard : Bool → Queue → Bytes → Sent
auth_keyboard server q user = from_client server (push (codes "keyboard-interactive") q) (
    packet (1 + 4 + length user + 4 + 14 + 4 + 20 + 4 + 4)
      (user_request user (codes "keyboard-interactive") (str [] ++ (str [] ++ []))))

unfoldable pub auth_none : Bool → Queue → Bytes → Sent
auth_none server q user =
    from_client server (push (codes "none") q)
      (packet (1 + 4 + length user + 4 + 14 + 4 + 4) (user_request user (codes "none") []))

abbrev pub strs : List Bytes → Bytes
strs [] = []
strs (r ∷ rs) = str r ++ strs rs

abbrev pub strs_length : List Bytes → ℕ
strs_length [] = 0
strs_length (r ∷ rs) = 4 + length r + strs_length rs

-- No responses at all are written like an empty list of them.
unfoldable pub auth_info_res : Bool → Queue → List Bytes → Sent
auth_info_res server q responses =
    from_client server q
      (packet (1 + 4 + strs_length responses) (61 ∷ (u32 (length responses) ++ strs responses)))

-- The server's answers.
abbrev pub from_server : Bool → Bool → Queue → Packet → Sent
from_server server ready q p = if server && ready then some (q, p) else none

abbrev pub lower : ℕ → ℕ
lower c = if leb 65 c && leb c 90 then c + 32 else c

-- The methods but "none", in any case.
unfoldable pub offered : List Bytes → List Bytes
offered [] = []
offered (m ∷ ms) =
    let rest = offered ms in if same (map lower m) (codes "none") then rest else m ∷ rest

abbrev pub in_progress : Queue → Bool
in_progress [] = false
in_progress (a ∷ as') = true

abbrev pub at_head : Bytes → Queue → Bool
at_head a [] = false
at_head a (b ∷ bs) = same b a

-- A Boolean in the place of `authMethods` is an empty list and that Boolean.
-- `methodsLen` is `methods.length`.
unfoldable pub auth_failure : Utf8Write → Bool → Queue → List Bytes → Bool → Sent
auth_failure u server q methods partial = from_server server (in_progress q) (shift q) (
    packet (1 + 4 + utf16_length (joined (offered methods)) + 1)
      (51 ∷ (text_field u (joined (offered methods)) ++ (flag partial ∷ []))))

-- `_authenticated` and the compression from then on are left out.
unfoldable pub auth_success : Bool → Queue → Sent
auth_success server q = from_server server (in_progress q) (shift q) (packet 1 (52 ∷ []))

unfoldable pub auth_pk_ok : Bool → Queue → Bytes → Bytes → Sent
auth_pk_ok server q key_algo key =
    from_server server (at_head (codes "publickey") q) (shift q)
      (packet (1 + 4 + length key_algo + 4 + length key) (60 ∷ (str key_algo ++ (str key ++ []))))

unfoldable pub auth_passwd_chg : Bool → Queue → Bytes → Sent
auth_passwd_chg server q prompt =
    from_server server true q
      (packet (1 + 4 + length prompt + 4) (60 ∷ (str prompt ++ (str [] ++ []))))

abbrev pub prompt_fields : List (Bytes × Bool) → Bytes
prompt_fields [] = []
prompt_fields ((prompt, echo) ∷ ps) = str prompt ++ (flag echo ∷ prompt_fields ps)

abbrev pub prompts_length : List (Bytes × Bool) → ℕ
prompts_length [] = 0
prompts_length ((prompt, echo) ∷ ps) = 4 + length prompt + 1 + prompts_length ps

unfoldable pub auth_info_req : Bool → Queue → Bytes → Bytes → List (Bytes × Bool) → Sent
auth_info_req server q name instructions prompts = from_server server true q (
    packet (1 + 4 + length name + 4 + length instructions + 4 + 4 + prompts_length prompts) (
      60
      ∷ (str name
          ++ (str instructions ++ (str [] ++ (u32 (length prompts) ++ prompt_fields prompts))))))
