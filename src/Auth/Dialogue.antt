-- ===== src/Auth/Dialogue.antt =====
-- A client and a server that authenticate, one message at a time: each is written on the queue of its
-- side and read on the queue of the other.
use ssh.Common.{
  ◌+◌, ◌<◌, ◌≡◌, Bool, true, false, Option, none, some, List, [], ◌∷◌, ◌++◌, map, length, codes,
  Bytes, IsU32, All, if◌then◌else◌, ◌==◌,
}
use ssh.Wire.Text.{Utf8Write, IsPlain}
use ssh.Wire.Encode.{str, joined, IsName}
use ssh.Auth.Outbound
use ssh.Auth.Outbound.{
  Queue, Sent, PubKey, key_type, key_bytes, push, shift, at_head, in_progress, offered, pk_request,
  hostbased_request,
}
use ssh.Auth.Inbound
use ssh.Auth.Inbound.{AuthCall, Outcome}
use ssh.Auth.Requests.{connection}
use ssh.Auth.Answers.{IsPrompt, heard}

-- `wire` is what `convertSignature` makes of the signature `sig`.
pub data AuthMessage : Type 0 where
  no_method : Bytes → AuthMessage
  password : Bytes → Bytes → Bytes → AuthMessage
  pk_check : Bytes → PubKey → AuthMessage
  pk_signed : Bytes → PubKey → (sig wire : Bytes) → AuthMessage
  hostbased : Bytes → PubKey → (hostname userlocal sig wire : Bytes) → AuthMessage
  keyboard : Bytes → AuthMessage
  info_res : List Bytes → AuthMessage
  failure : List Bytes → Bool → AuthMessage
  success : AuthMessage
  pk_ok : Bytes → Bytes → AuthMessage
  passwd_chg : Bytes → AuthMessage
  info_req : Bytes → Bytes → List (Bytes × Bool) → AuthMessage

-- Whether the server sends it.
abbrev answers : AuthMessage → Bool
answers (failure ms partial) = true
answers success = true
answers (pk_ok algo key) = true
answers (passwd_chg prompt) = true
answers (info_req name instructions ps) = true
answers _ = false

-- The queues of the two sides.
pub record Ends : Type 0 where
  pub client : Queue
  pub server : Queue

module _ (u : Utf8Write) (convert : Bytes → Bytes → Option Bytes) (session_id : Bytes) where
  abbrev then_signed : Option Bytes → (Bytes → Sent) → Sent
  then_signed none f = none
  then_signed (some blob) f = f blob

  -- The message, from the side that sends it, whose queue is given.
  unfoldable pub sent : AuthMessage → Queue → Sent
  sent (no_method user) q = Outbound.auth_none false q user
  sent (password user pass new) q = Outbound.auth_password false q user pass new
  sent (pk_check user key) q = Outbound.auth_pk_check false q user key
  sent (pk_signed user key sig wire) q = Outbound.auth_pk_signed convert q user key sig
  sent (hostbased user key hostname userlocal sig wire) q =
      then_signed (Outbound.auth_hostbased_blob false session_id user key hostname userlocal)
        (λ blob. Outbound.auth_hostbased_signed convert q blob session_id key sig)
  sent (keyboard user) q = Outbound.auth_keyboard false q user
  sent (info_res rs) q = Outbound.auth_info_res false q rs
  sent (failure ms partial) q = Outbound.auth_failure u true q ms partial
  sent success q = Outbound.auth_success true q
  sent (pk_ok algo key) q = Outbound.auth_pk_ok true q algo key
  sent (passwd_chg prompt) q = Outbound.auth_passwd_chg true q prompt
  sent (info_req name instructions ps) q = Outbound.auth_info_req true q name instructions ps

-- By its first byte, a payload goes to a handler of the server, and to one of the client.
module _ (u : Utf8Write) (to_asn1 convert : Bytes → Bytes → Option Bytes) (session_id : Bytes) where
  abbrev at_server : Queue → Bytes → Outcome
  at_server q [] = Outcome.ignored
  at_server q (t ∷ ts) =
      if t == 50
      then Inbound.on_userauth_request to_asn1 session_id (t ∷ ts) q
      else if t == 61
      then Inbound.on_61 q (t ∷ ts)
      else Outcome.ignored

  abbrev at_client : Queue → Bytes → Outcome
  at_client q [] = Outcome.ignored
  at_client q (t ∷ ts) =
      if t == 51
      then Inbound.on_failure q (t ∷ ts)
      else if t == 52
      then Inbound.on_success q (t ∷ ts)
      else if t == 53
      then Inbound.on_banner q (t ∷ ts)
      else if t == 60
      then Inbound.on_60 q (t ∷ ts)
      else Outcome.ignored

  abbrev reported : (Queue → Ends) → Outcome → Option (AuthCall × Ends)
  reported f (Outcome.calls q c) = some (c, f q)
  reported f _ = none

  abbrev to_server : Queue → Sent → Option (AuthCall × Ends)
  to_server q none = none
  to_server q (some (mine, p)) =
      reported (λ theirs. record { client = mine; server = theirs }) (at_server q p.payload)

  abbrev to_client : Queue → Sent → Option (AuthCall × Ends)
  to_client q none = none
  to_client q (some (mine, p)) =
      reported (λ theirs. record { client = theirs; server = mine }) (at_client q p.payload)

  unfoldable pub deliver : AuthMessage → Ends → Option (AuthCall × Ends)
  deliver m e =
      if answers m
      then to_client e.client (sent u convert session_id m e.server)
      else to_server e.server (sent u convert session_id m e.client)

  -- The messages one after the other, up to the first that is not reported.
  abbrev then_call :
      Option (AuthCall × Ends)
      → (Ends → Option (List AuthCall × Ends))
      → Option (List AuthCall × Ends)
  then_call none f = none
  then_call (some (c, e)) f = map_call c (f e)
    where
      map_call : AuthCall → Option (List AuthCall × Ends) → Option (List AuthCall × Ends)
      map_call c none = none
      map_call c (some (cs, e)) = some (c ∷ cs, e)

  unfoldable pub converse : List AuthMessage → Ends → Option (List AuthCall × Ends)
  converse [] e = some ([], e)
  converse (m ∷ ms) e = then_call (deliver m e) (converse ms)

-- What a message makes of a queue.
unfoldable pub next : AuthMessage → Queue → Queue
next (no_method user) q = push (codes "none") q
next (password user pass new) q = push (codes "password") q
next (pk_check user key) q = push (codes "publickey") q
next (pk_signed user key sig wire) q = push (codes "publickey") q
next (hostbased user key hostname userlocal sig wire) q = push (codes "hostbased") q
next (keyboard user) q = push (codes "keyboard-interactive") q
next (failure ms partial) q = shift q
next success q = shift q
next (pk_ok algo key) q = shift q
next (info_res rs) q = q
next (passwd_chg prompt) q = q
next (info_req name instructions ps) q = q

abbrev none_or : Bytes → Bytes → Inbound.MethodData
none_or pass [] = Inbound.password pass
none_or pass (c ∷ cs) = Inbound.password_change pass (c ∷ cs)

-- What is reported of a request.
abbrev asked : Bytes → Bytes → Inbound.MethodData → AuthCall
asked user method d = Inbound.request (some user) (some connection) method d

-- What is reported of a message; the signature is the one the client's callback gave.
unfoldable pub told : (session_id : Bytes) → AuthMessage → AuthCall
told session_id (no_method user) = asked user (codes "none") Inbound.null
told session_id (password user pass new) = asked user (codes "password") (none_or pass new)
told session_id (pk_check user key) =
    asked user (codes "publickey") (Inbound.pk_check (some (key_type key)) (some (key_bytes key)))
told session_id (pk_signed user key sig wire) = asked user (codes "publickey") (
    Inbound.pk_signed (key_type key) (some (key_bytes key)) sig
      (str session_id ++ pk_request user key true []))
told session_id (hostbased user key hostname userlocal sig wire) = asked user (codes "hostbased") (
    Inbound.hostbased (key_type key) (some (key_bytes key)) sig
      (str session_id ++ hostbased_request user key hostname userlocal []) (some hostname)
      (some userlocal))
told session_id (keyboard user) = asked user (codes "keyboard-interactive") (Inbound.submethods [])
told session_id (info_res rs) = Inbound.info_response rs
told session_id (failure ms partial) = Inbound.failure (some (offered ms)) partial
told session_id success = Inbound.success
told session_id (pk_ok algo key) = Inbound.pk_ok (some algo) key
told session_id (passwd_chg prompt) = Inbound.passwd_changereq (some prompt)
told session_id (info_req name instructions ps) =
    Inbound.info_request (some name) (some instructions) (map heard ps)

abbrev IsText : Bytes → Type 0
IsText b = IsU32 (length b)

-- Lengths fit, an answer is to what is asked, and the signature is converted to what is converted back.
unfoldable pub FitsAuth :
    (to_asn1 convert : Bytes → Bytes → Option Bytes) → Queue → AuthMessage → Type 0
FitsAuth to_asn1 convert q (no_method user) = IsText user
FitsAuth to_asn1 convert q (password user pass new) = IsText user × IsText pass × IsText new
FitsAuth to_asn1 convert q (pk_check user key) =
    IsText user × IsText (key_type key) × IsText (key_bytes key)
FitsAuth to_asn1 convert q (pk_signed user key sig wire) =
    IsText user
    × IsText (key_type key)
    × IsText (key_bytes key)
    × IsU32 (4 + length (key_type key) + 4 + length wire)
    × (0 < length wire)
    × (convert sig (key_type key) ≡ some wire)
    × (to_asn1 wire (key_type key) ≡ some sig)
FitsAuth to_asn1 convert q (hostbased user key hostname userlocal sig wire) =
    IsText user
    × IsText (key_type key)
    × IsText (key_bytes key)
    × IsU32 (4 + length (key_type key) + 4 + length wire)
    × (0 < length wire)
    × (convert sig (key_type key) ≡ some wire)
    × (to_asn1 wire (key_type key) ≡ some sig)
    × IsText hostname
    × IsText userlocal
FitsAuth to_asn1 convert q (keyboard user) = IsText user
FitsAuth to_asn1 convert q (info_res rs) =
    (at_head (codes "keyboard-interactive") q ≡ true) × IsU32 (length rs) × All IsText rs
FitsAuth to_asn1 convert q (failure ms partial) =
    (in_progress q ≡ true)
    × All IsName ms
    × IsText (joined (offered ms))
    × IsPlain (joined (offered ms))
FitsAuth to_asn1 convert q success = in_progress q ≡ true
FitsAuth to_asn1 convert q (pk_ok algo key) =
    (at_head (codes "publickey") q ≡ true) × IsText algo × IsText key
FitsAuth to_asn1 convert q (passwd_chg prompt) =
    (at_head (codes "password") q ≡ true) × IsText prompt
FitsAuth to_asn1 convert q (info_req name instructions ps) =
    (at_head (codes "keyboard-interactive") q ≡ true)
    × IsText name
    × IsText instructions
    × IsU32 (length ps)
    × All IsPrompt ps

-- A conversation each of whose messages fits the queue at its turn.
unfoldable pub FitsAll :
    (to_asn1 convert : Bytes → Bytes → Option Bytes) → Queue → List AuthMessage → Type 0
FitsAll to_asn1 convert q [] = Unit
FitsAll to_asn1 convert q (m ∷ ms) =
    FitsAuth to_asn1 convert q m × FitsAll to_asn1 convert (next m q) ms

unfoldable pub after_all : List AuthMessage → Queue → Queue
after_all [] q = q
after_all (m ∷ ms) q = after_all ms (next m q)

-- Both sides hold the same queue.
abbrev pub same_queue : Queue → Ends
same_queue q = record { client = q; server = q }
